-- ===== src/Unscramble.antt =====
-- unscramble/unscrambla.c: the loops of main that number the pixels of a frame in the order in which
-- the detector sends them. The subtractions do not go below 0, since `k` stays below 64 in a loop.
pub mod Marks
pub mod Scan
pub mod Bijection
mod Tests
use cjunk.Prelude.{ℕ, zero, suc, ◌+◌, ◌-◌, ◌*◌, ◌%◌, ◌==◌, Bool, ◌&&◌, if◌then◌else◌}

-- COL and ROW, CHANNELS.
abbrev pub col : ℕ
col = 1024

abbrev pub row : ℕ
row = 1024

abbrev pub channels : ℕ
channels = 128

-- The matrix by row and column, and the variables of main.
pub record Pixels : Type 0 where
  pub matrix : ℕ → ℕ → ℕ
  pub cntr : ℕ
  pub s : ℕ
  pub k : ℕ
  pub left : ℕ
  pub right : ℕ

abbrev pub put_pixel : (ℕ → ℕ → ℕ) → ℕ → ℕ → ℕ → ℕ → ℕ → ℕ
put_pixel m r c v r' c' = if r' == r && c' == c then v else m r' c'

-- matrix[r][c]=cntr++;
abbrev pub mark : ℕ → ℕ → Pixels → Pixels
mark r c x = record x { matrix = put_pixel x.matrix r c x.cntr; cntr = x.cntr + 1 }

-- s++; if((i+1)%8 == 0) { s = 0; k += 1; }
abbrev pub next_channel : ℕ → Pixels → Pixels
next_channel i x =
    if (i + 1) % 8 == 0 then record x { s = 0; k = x.k + 1 } else record x { s = x.s + 1 }

-- The rows that the two loops mark in the upper half, to the left and to the right, from s and k.
abbrev pub outer_left : ℕ → ℕ → ℕ
outer_left s k = channels * (s + 1) - 1 - k

abbrev pub outer_right : ℕ → ℕ → ℕ
outer_right s k = channels * s + k

abbrev pub inner_left : ℕ → ℕ → ℕ
inner_left s k = 64 - 1 - k + channels * s

abbrev pub inner_right : ℕ → ℕ → ℕ
inner_right s k = 64 + k + channels * s

module _ (row_left row_right : ℕ → ℕ → ℕ) where
  -- The body of a loop over i.
  unfoldable pub body : ℕ → Pixels → Pixels
  body i x =
      if i % 2 == 0
      then mark (row_right x.s x.k) x.right (mark (row_left x.s x.k) x.left x)
      else next_channel i
          (mark (512 + row_right x.s x.k) x.right (mark (512 + row_left x.s x.k) x.left x))

  -- The rounds of the loop from i on, with `n` left.
  unfoldable pub rounds_from : ℕ → ℕ → Pixels → Pixels
  unfolding body
  rounds_from zero i x = x
  rounds_from (suc n) i x = rounds_from n (i + 1) (body i x)

-- k = 0; s = 0;
abbrev pub restart : Pixels → Pixels
restart x = record x { k = 0; s = 0 }

-- The body of the loop over p.
unfoldable pub columns : Pixels → Pixels
columns x =
    let y = restart (rounds_from outer_left outer_right 512 0 x) in
    let z = rounds_from inner_left inner_right 512 0 y in
    record z { left = z.left - 1; right = z.right + 1; k = 0 }

-- The rounds of the loop over p, with `n` left.
unfoldable pub all_columns : ℕ → Pixels → Pixels
all_columns zero x = x
all_columns (suc n) x = all_columns n (columns x)

-- What stands before the loops: memset has filled the matrix.
abbrev pub filled : Pixels
filled = record { matrix = λ r c. 0x11111111; cntr = 0; s = 0; k = 0; left = 511; right = 512 }

unfoldable pub main : ℕ → ℕ → ℕ
main = (all_columns 512 filled).matrix
