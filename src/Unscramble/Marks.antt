-- ===== src/Unscramble/Marks.antt =====
-- unscramble/unscrambla.c: which cells one of the loops over i marks, and with which numbers.
use cjunk.Prelude.{
  ℕ, zero, suc, ◌+◌, ◌-◌, ◌*◌, ◌/◌, ◌%◌, ◌<◌, ◌≤◌, ◌==◌, ltb, leb, ◌≡◌, refl, sym, ap, ◌∙◌, Bool,
  true, false, ◌&&◌, if◌then◌else◌, arith, inl, inr, Bool-cases,
}
use cjunk.Unscramble.{Pixels, put_pixel, mark, next_channel, body, rounds_from}

abbrev pub lower_half : ℕ → ℕ
lower_half i = 512 * (i % 2)

abbrev pub s_at : ℕ → ℕ
s_at i = (i % 8) / 2

abbrev pub k_at : ℕ → ℕ
k_at i = i / 8

-- The row that round i marks, on one side.
abbrev pub row_of : (ℕ → ℕ → ℕ) → ℕ → ℕ
row_of f i = lower_half i + f (s_at i) (k_at i)

-- The row r is marked in one of `n` rounds from i on.
unfoldable pub is_marked : (ℕ → ℕ → ℕ) → (ℕ → ℕ) → ℕ → ℕ → ℕ → Bool
is_marked f index i n r = row_of f (index r) == r && (leb i (index r) && ltb (index r) (i + n))

-- Round i marks the row, or a later round may.
data Turn (f : ℕ → ℕ → ℕ) (index : ℕ → ℕ) (n i r : ℕ) : Type 0 where
  now :
      (r == row_of f i) ≡ true
      → index r ≡ i
      → is_marked f index i (suc n) r ≡ true
      → is_marked f index (i + 1) n r ≡ false
      → Turn f index n i r
  later :
      (r == row_of f i) ≡ false
      → is_marked f index i (suc n) r ≡ true
      → is_marked f index (i + 1) n r ≡ true
      → i + 1 ≤ index r
      → Turn f index n i r
  never :
      (r == row_of f i) ≡ false
      → is_marked f index i (suc n) r ≡ false
      → is_marked f index (i + 1) n r ≡ false
      → Turn f index n i r

Turn-cases :
    (f : ℕ → ℕ → ℕ) (index : ℕ → ℕ) (n i r : ℕ) → index (row_of f i) ≡ i → Turn f index n i r
unfolding is_marked
Turn-cases f index n i r h = elim (Bool-cases (r == row_of f i)) [
  | inl e ↦
      let at : r ≡ row_of f i = ground arith in
      let turn : index r ≡ i = ap index at ∙ h in
      let back : row_of f (index r) ≡ r = ap (row_of f) turn ∙ sym at in
      now e turn (ground arith) (ground arith)
  | inr e ↦ elim (Bool-cases (is_marked f index (i + 1) n r)) [
    | inl m ↦ later e (ground arith) m (ground arith)
    | inr m ↦ elim (Bool-cases (index r == i)) [
      | inl t ↦
          let turn : row_of f (index r) ≡ row_of f i = ap (row_of f) (ground arith) in
          never e (ground arith) m
      | inr t ↦ never e (ground arith) m
    ]
  ]
]

none-marked : (f : ℕ → ℕ → ℕ) (index : ℕ → ℕ) (i r : ℕ) → is_marked f index i 0 r ≡ false
unfolding is_marked
none-marked f index i r = ground arith

unmarked : (a b : Bool) (v w u : ℕ) → (if a && false then v else if b && false then w else u) ≡ u
unmarked a b v w u = ground arith

-- The variables are those of round i.
pub record IsAt (i : ℕ) (x : Pixels) : Type 0 where
  pub s_is : x.s ≡ s_at i
  pub k_is : x.k ≡ k_at i

next_channel-matrix : (i : ℕ) (x : Pixels) → (next_channel i x).matrix ≡ x.matrix
next_channel-matrix i x = elim (Bool-cases ((i + 1) % 8 == 0)) [
  | inl e ↦ rw e refl
  | inr e ↦ rw e refl
]

-- The cells that round i marks.
abbrev marked : (ℕ → ℕ → ℕ) → ℕ → ℕ → ℕ → Pixels → ℕ → ℕ → ℕ
marked m a b n x = put_pixel (put_pixel m a x.left n) b x.right (n + 1)

module _ (f g : ℕ → ℕ → ℕ) where
  pub body-IsAt : (i : ℕ) (x : Pixels) → IsAt i x → IsAt (i + 1) (body f g i x)
  unfolding body
  body-IsAt i x a = ground arith

  pub body-sides :
      (i : ℕ) (x : Pixels)
      → (((body f g i x).left ≡ x.left) × ((body f g i x).right ≡ x.right))
        × ((body f g i x).cntr ≡ x.cntr + 2)
  unfolding body
  body-sides i x = ground arith

  pub body-matrix :
      (i : ℕ) (x : Pixels)
      → IsAt i x
      → (body f g i x).matrix ≡ marked x.matrix (row_of f i) (row_of g i) x.cntr x
  unfolding body
  body-matrix i x a = elim (Bool-cases (i % 2 == 0)) [
    | inl e ↦
        let at_left : f x.s x.k ≡ row_of f i = ground arith in
        let at_right : g x.s x.k ≡ row_of g i = ground arith in
        rw e (
          ap (λ r. marked x.matrix r (g x.s x.k) x.cntr x) at_left
          ∙ ap (λ r. marked x.matrix (row_of f i) r x.cntr x) at_right)
    | inr e ↦
        let at_left : 512 + f x.s x.k ≡ row_of f i = ground arith in
        let at_right : 512 + g x.s x.k ≡ row_of g i = ground arith in
        rw e (
          next_channel-matrix i (mark (512 + g x.s x.k) x.right (mark (512 + f x.s x.k) x.left x))
          ∙ (ap (λ r. marked x.matrix r (512 + g x.s x.k) x.cntr x) at_left
              ∙ ap (λ r. marked x.matrix (row_of f i) r x.cntr x) at_right))
  ]

  next_round :
      {il ir : ℕ → ℕ} {n i r : ℕ}
      → Turn f il n i r
      → Turn g ir n i r
      → (x y : Pixels) (c : ℕ) → x.left < x.right
      → y.left ≡ x.left
      → y.right ≡ x.right
      → y.cntr ≡ x.cntr + 2
      → (v : ℕ)
      → v ≡ (
          if c == y.left && is_marked f il (i + 1) n r
          then y.cntr + 2 * (il r - (i + 1))
          else if c == y.right && is_marked g ir (i + 1) n r
          then y.cntr + 2 * (ir r - (i + 1)) + 1
          else y.matrix r c)
      → y.matrix r c ≡ marked x.matrix (row_of f i) (row_of g i) x.cntr x r c
      → v ≡ (
          if c == x.left && is_marked f il i (suc n) r
          then x.cntr + 2 * (il r - i)
          else if c == x.right && is_marked g ir i (suc n) r
          then x.cntr + 2 * (ir r - i) + 1
          else x.matrix r c)
  next_round (now a b d e) (now a' b' d' e') x y c w l m k v ih cell = ground arith
  next_round (now a b d e) (later a' d' e' b') x y c w l m k v ih cell = ground arith
  next_round (now a b d e) (never a' d' e') x y c w l m k v ih cell = ground arith
  next_round (later a d e b) (now a' b' d' e') x y c w l m k v ih cell = ground arith
  next_round (later a d e b) (later a' d' e' b') x y c w l m k v ih cell = ground arith
  next_round (later a d e b) (never a' d' e') x y c w l m k v ih cell = ground arith
  next_round (never a d e) (now a' b' d' e') x y c w l m k v ih cell = ground arith
  next_round (never a d e) (later a' d' e' b') x y c w l m k v ih cell = ground arith
  next_round (never a d e) (never a' d' e') x y c w l m k v ih cell = ground arith

  -- What the rounds from i on leave in a cell, where the rows of the rounds have their rounds for
  -- `at_left` and `at_right`.
  pub rounds-matrix :
      (index_left index_right : ℕ → ℕ)
      → ((i : ℕ) → i < 512 → index_left (row_of f i) ≡ i)
      → ((i : ℕ) → i < 512 → index_right (row_of g i) ≡ i)
      → (n i : ℕ) (x : Pixels) (r c : ℕ) → i + n ≤ 512
      → x.left < x.right
      → IsAt i x
      → (rounds_from f g n i x).matrix r c ≡ (
          if c == x.left && is_marked f index_left i n r
          then x.cntr + 2 * (index_left r - i)
          else if c == x.right && is_marked g index_right i n r
          then x.cntr + 2 * (index_right r - i) + 1
          else x.matrix r c)
  unfolding rounds_from
  rounds-matrix il ir hl hr zero i x r c l w a =
      rw (none-marked f il i r)
        (rw (none-marked g ir i r) (sym (unmarked (c == x.left) (c == x.right) _ _ (x.matrix r c))))
  rounds-matrix il ir hl hr (suc n) i x r c l w a =
      let y = body f g i x in
      let (sides, count) = body-sides i x in
      let ih =
        rounds-matrix il ir hl hr n (i + 1) y r c (omega arith) (omega (arith, sides.0, sides.1))
          (body-IsAt i x a) in
      let cell : y.matrix r c ≡ marked x.matrix (row_of f i) (row_of g i) x.cntr x r c =
        λ j. body-matrix i x a j r c in
      next_round (Turn-cases f il n i r (hl i (omega arith)))
        (Turn-cases g ir n i r (hr i (omega arith))) x y c w sides.0 sides.1 count _ ih cell
