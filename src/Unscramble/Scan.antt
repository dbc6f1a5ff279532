-- ===== src/Unscramble/Scan.antt =====
-- unscramble/unscrambla.c: the number of each pixel, and the pixel of each number.
use cjunk.Prelude.{
  ℕ, zero, suc, ◌+◌, ◌-◌, ◌*◌, ◌/◌, ◌%◌, ◌<◌, ◌==◌, ltb, leb, ◌≡◌, refl, ◌∙◌, ◌&&◌, if◌then◌else◌,
  arith,
}
use cjunk.Unscramble.{
  Pixels, row, outer_left, outer_right, inner_left, inner_right, body, rounds_from, restart,
  columns,
}
use cjunk.Unscramble.Marks.{row_of, is_marked, IsAt, body-IsAt, body-sides, rounds-matrix}

-- The round in which a loop marks a row, from the value of k in it.
abbrev pub round_of : ℕ → ℕ → ℕ
round_of k r = 8 * k + 2 * ((r % 512) / 128) + r / 512

abbrev pub outer_left_round : ℕ → ℕ
outer_left_round r = round_of (127 - r % 128) r

abbrev pub outer_right_round : ℕ → ℕ
outer_right_round r = round_of (r % 128) r

abbrev pub inner_left_round : ℕ → ℕ
inner_left_round r = round_of (63 - r % 128) r

abbrev pub inner_right_round : ℕ → ℕ
inner_right_round r = round_of (r % 128 - 64) r

outer_left_turn : (i : ℕ) → i < 512 → outer_left_round (row_of outer_left i) ≡ i
outer_left_turn i l = omega arith

outer_right_turn : (i : ℕ) → i < 512 → outer_right_round (row_of outer_right i) ≡ i
outer_right_turn i l = omega arith

inner_left_turn : (i : ℕ) → i < 512 → inner_left_round (row_of inner_left i) ≡ i
inner_left_turn i l = omega arith

inner_right_turn : (i : ℕ) → i < 512 → inner_right_round (row_of inner_right i) ≡ i
inner_right_turn i l = omega arith

-- Each row is marked in one of the two loops.
outer_left_marks :
    (r : ℕ) → r < row → is_marked outer_left outer_left_round 0 512 r ≡ leb 64 (r % 128)
unfolding is_marked
outer_left_marks r l = ground arith

outer_right_marks :
    (r : ℕ) → r < row → is_marked outer_right outer_right_round 0 512 r ≡ ltb (r % 128) 64
unfolding is_marked
outer_right_marks r l = ground arith

inner_left_marks :
    (r : ℕ) → r < row → is_marked inner_left inner_left_round 0 512 r ≡ ltb (r % 128) 64
unfolding is_marked
inner_left_marks r l = ground arith

inner_right_marks :
    (r : ℕ) → r < row → is_marked inner_right inner_right_round 0 512 r ≡ leb 64 (r % 128)
unfolding is_marked
inner_right_marks r l = ground arith

module _ (f g : ℕ → ℕ → ℕ) where
  rounds-IsAt : (n i : ℕ) (x : Pixels) → IsAt i x → IsAt (i + n) (rounds_from f g n i x)
  unfolding rounds_from
  rounds-IsAt zero i x a = ground arith
  rounds-IsAt (suc n) i x a =
      let later = rounds-IsAt n (i + 1) (body f g i x) (body-IsAt f g i x a) in
      record { s_is = omega (arith, later.s_is); k_is = omega (arith, later.k_is) }

  rounds-sides :
      (n i : ℕ) (x : Pixels)
      → ((rounds_from f g n i x).left ≡ x.left)
        × ((rounds_from f g n i x).right ≡ x.right)
        × ((rounds_from f g n i x).cntr ≡ x.cntr + 2 * n)
  unfolding rounds_from
  rounds-sides zero i x = (refl, refl, omega arith)
  rounds-sides (suc n) i x =
      let (sides, count) = body-sides f g i x in
      let (a, b, c) = rounds-sides n (i + 1) (body f g i x) in
      (a ∙ sides.0, b ∙ sides.1, omega (arith, c, count))

-- The place of a row among the 1024 that are marked in one column, and the column's first number.
abbrev pub left_number : ℕ → ℕ
left_number r = (if leb 64 (r % 128) then 0 else 1024) + 2 * round_of (63 - r % 64) r

abbrev pub right_number : ℕ → ℕ
right_number r = (if ltb (r % 128) 64 then 0 else 1024) + 2 * round_of (r % 64) r + 1

-- The two loops, one after the other: m is what the cell holds before, m1 between them.
both_loops :
    (r c left right n left1 right1 n1 m m1 v : ℕ)
    → r < row
    → left < right
    → left1 ≡ left
    → right1 ≡ right
    → n1 ≡ n + 2 * 512
    → m1 ≡ (
        if c == left && leb 64 (r % 128)
        then n + 2 * (outer_left_round r - 0)
        else if c == right && ltb (r % 128) 64
        then n + 2 * (outer_right_round r - 0) + 1
        else m)
    → v ≡ (
        if c == left1 && ltb (r % 128) 64
        then n1 + 2 * (inner_left_round r - 0)
        else if c == right1 && leb 64 (r % 128)
        then n1 + 2 * (inner_right_round r - 0) + 1
        else m1)
    → v ≡ (if c == left then n + left_number r else if c == right then n + right_number r else m)
both_loops r c left right n left1 right1 n1 m m1 v l w a b d first second = ground arith

pub columns-matrix :
    (x : Pixels) (r c : ℕ)
    → r < row
    → x.left < x.right
    → IsAt 0 x
    → (columns x).matrix r c ≡ (
        if c == x.left
        then x.cntr + left_number r
        else if c == x.right
        then x.cntr + right_number r
        else x.matrix r c)
unfolding columns
columns-matrix x r c l w a =
    let x1 = rounds_from outer_left outer_right 512 0 x in
    let y = restart x1 in
    let z = rounds_from inner_left inner_right 512 0 y in
    let (same_left, same_right, count) = rounds-sides outer_left outer_right 512 0 x in
    let first =
      rounds-matrix outer_left outer_right outer_left_round outer_right_round outer_left_turn
        outer_right_turn 512 0 x r c (omega arith) w a in
    let second =
      rounds-matrix inner_left inner_right inner_left_round inner_right_round inner_left_turn
        inner_right_turn 512 0 y r c (omega arith) (omega (arith, same_left, same_right))
        (record { s_is = refl; k_is = refl }) in
    both_loops r c x.left x.right x.cntr y.left y.right y.cntr (x.matrix r c) (y.matrix r c)
      (z.matrix r c) l w same_left same_right count
      (first ∙ (λ i.
        if c == x.left && outer_left_marks r l i
        then x.cntr + 2 * (outer_left_round r - 0)
        else if c == x.right && outer_right_marks r l i
        then x.cntr + 2 * (outer_right_round r - 0) + 1
        else x.matrix r c))
      (second ∙ (λ i.
        if c == y.left && inner_left_marks r l i
        then y.cntr + 2 * (inner_left_round r - 0)
        else if c == y.right && inner_right_marks r l i
        then y.cntr + 2 * (inner_right_round r - 0) + 1
        else y.matrix r c))

pub columns-next :
    (x : Pixels)
    → ((columns x).left ≡ x.left - 1)
      × ((columns x).right ≡ x.right + 1)
      × ((columns x).cntr ≡ x.cntr + 2048)
      × IsAt 0 (columns x)
unfolding columns
columns-next x =
    let x1 = rounds_from outer_left outer_right 512 0 x in
    let y = restart x1 in
    let (left1, right1, count1) = rounds-sides outer_left outer_right 512 0 x in
    let (left2, right2, count2) = rounds-sides inner_left inner_right 512 0 y in
    let end = rounds-IsAt inner_left inner_right 512 0 y (record { s_is = refl; k_is = refl }) in
    (
      omega (arith, left1, left2),
      omega (arith, right1, right2),
      omega (arith, count1, count2),
      record { s_is = end.s_is; k_is = refl },
    )
