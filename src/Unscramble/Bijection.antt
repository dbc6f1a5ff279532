-- ===== src/Unscramble/Bijection.antt =====
-- unscramble/unscrambla.c: the loop over p numbers every pixel of the frame, and each with a number of
-- its own.
use cjunk.Prelude.{
  ℕ, zero, suc, ◌+◌, ◌-◌, ◌*◌, ◌/◌, ◌%◌, ◌<◌, ◌≤◌, ◌==◌, ltb, leb, ◌≡◌, refl, ap, ◌∙◌, ◌&&◌,
  if◌then◌else◌, arith,
}
use cjunk.Unscramble.{Pixels, col, row, columns, all_columns, filled, main}
use cjunk.Unscramble.Marks.{IsAt}
use cjunk.Unscramble.Scan.{left_number, right_number, columns-matrix, columns-next}

-- What the cell holds after `n` rounds that began with the columns `left` and `right`.
abbrev numbered : ℕ → ℕ → ℕ → ℕ → ℕ → ℕ → ℕ → ℕ → ℕ
numbered first_left first_right c left right n cntr old =
    if leb (left + 1) (c + n) && leb c left
    then cntr + 2048 * (left - c) + first_left
    else if leb right c && ltb c (right + n)
    then cntr + 2048 * (c - right) + first_right
    else old

none_numbered : (a b c left right cntr old : ℕ) → old ≡ numbered a b c left right 0 cntr old
none_numbered a b c left right cntr old = ground arith

next_columns :
    (a b c n left right cntr left1 right1 cntr1 old old1 v : ℕ)
    → suc n ≤ left + 1
    → left < right
    → left1 ≡ left - 1
    → right1 ≡ right + 1
    → cntr1 ≡ cntr + 2048
    → old1 ≡ (if c == left then cntr + a else if c == right then cntr + b else old)
    → v ≡ numbered a b c left1 right1 n cntr1 old1
    → v ≡ numbered a b c left right (suc n) cntr old
next_columns a b c n left right cntr left1 right1 cntr1 old old1 v l w e f g cell ih = ground arith

all_columns-matrix :
    (n : ℕ) (x : Pixels) (r c : ℕ)
    → n ≤ x.left + 1
    → r < row
    → x.left < x.right
    → IsAt 0 x
    → (all_columns n x).matrix r c
      ≡ numbered (left_number r) (right_number r) c x.left x.right n x.cntr (x.matrix r c)
unfolding all_columns
all_columns-matrix zero x r c l m w a =
    none_numbered (left_number r) (right_number r) c x.left x.right x.cntr (x.matrix r c)
all_columns-matrix (suc n) x r c l m w a =
    let y = columns x in
    let (left1, right1, count1, at) = columns-next x in
    next_columns (left_number r) (right_number r) c n x.left x.right x.cntr y.left y.right y.cntr
      (x.matrix r c) (y.matrix r c) ((all_columns n y).matrix r c) l w left1 right1 count1
      (columns-matrix x r c m w a)
      (all_columns-matrix n y r c (omega (arith, left1)) m (omega (arith, left1, right1)) at)

every_column :
    (a b c : ℕ)
    → c < col
    → numbered a b c 511 512 512 0 0x11111111
      ≡ (if ltb c 512 then 2048 * (511 - c) + a else 2048 * (c - 512) + b)
every_column a b c l = ground arith

-- The number of a pixel.
abbrev pub number : ℕ → ℕ → ℕ
number r c =
    if ltb c 512 then 2048 * (511 - c) + left_number r else 2048 * (c - 512) + right_number r

pub main_lem : (r c : ℕ) → r < row → c < col → main r c ≡ number r c
unfolding main
main_lem r c l m =
    all_columns-matrix 512 filled r c (omega arith) l (omega arith)
      (record { s_is = refl; k_is = refl })
    ∙ every_column (left_number r) (right_number r) c m

-- The row and the column that hold a number.
pub row_of_number : ℕ → ℕ
row_of_number v =
    let i = v % 1024 / 2 in
    let base = 512 * (i % 2) + 128 * (i % 8 / 2) in
    if v % 2 == 0
    then base + (if ltb (v % 2048) 1024 then 127 else 63) - i / 8
    else base + (if ltb (v % 2048) 1024 then 0 else 64) + i / 8

pub col_of_number : ℕ → ℕ
col_of_number v = if v % 2 == 0 then 511 - v / 2048 else 512 + v / 2048

row_of_number-lt-row : (v : ℕ) → v < row * col → row_of_number v < row
unfolding row_of_number
row_of_number-lt-row v w = ground arith

col_of_number-lt-col : (v : ℕ) → v < row * col → col_of_number v < col
unfolding col_of_number
col_of_number-lt-col v w = ground arith

number-lt : (r c : ℕ) → r < row → c < col → number r c < row * col
number-lt r c l m = ground arith

col_of_number-number : (r c : ℕ) → r < row → c < col → col_of_number (number r c) ≡ c
unfolding col_of_number
col_of_number-number r c l m = ground arith

row_of_number-number : (r c : ℕ) → r < row → c < col → row_of_number (number r c) ≡ r
unfolding row_of_number
row_of_number-number r c l m = ground arith

number-row_of_number : (v : ℕ) → v < row * col → number (row_of_number v) (col_of_number v) ≡ v
unfolding row_of_number col_of_number
number-row_of_number v w = ground arith

-- The matrix holds each number below 1024 * 1024, in the cell that row_of_number and col_of_number
-- give, and no number twice: for each cell, the number in it is below 1024 * 1024, and the functions
-- lead from the number back to the cell.
pub main-bijective :
    (r c v : ℕ)
    → r < row
    → c < col
    → v < row * col
    → (main (row_of_number v) (col_of_number v) ≡ v)
      × (main r c < row * col)
      × (row_of_number (main r c) ≡ r)
      × (col_of_number (main r c) ≡ c)
main-bijective r c v l m w =
    let same = main_lem r c l m in
    (
      main_lem (row_of_number v) (col_of_number v) (row_of_number-lt-row v w)
            (col_of_number-lt-col v w)
          ∙ number-row_of_number v w,
      omega (arith, same, number-lt r c l m),
      ap row_of_number same ∙ row_of_number-number r c l m,
      ap col_of_number same ∙ col_of_number-number r c l m,
    )
