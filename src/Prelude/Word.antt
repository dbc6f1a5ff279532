-- ===== src/Prelude/Word.antt =====
-- Single bits of a machine word that is a native number: `w & (1 << k)`, `w | (1 << k)` and
-- `w & ~(1 << k)` as the C sources write them, by the digit of weight 2 ^ k.
use Prim.Native.Nat.{ℕ, ◌+◌, ◌-◌, ◌/◌, ◌%◌, ◌^◌}
use mathlib.Core.Bool.{Bool}
use mathlib.Core.List.{List, [], ◌∷◌}
use cjunk.Prelude.Tests.{◌==◌, if◌then◌else◌}

abbrev pub u8 : ℕ → ℕ
u8 n = n % 256

abbrev pub u16 : ℕ → ℕ
u16 n = n % 65536

abbrev pub u32 : ℕ → ℕ
u32 n = n % 4294967296

-- (w & (1 << k)) != 0
abbrev pub has_bit : ℕ → ℕ → Bool
has_bit w k = (w / 2 ^ k) % 2 == 1

-- w | (1 << k)
abbrev pub set_bit : ℕ → ℕ → ℕ
set_bit w k = if has_bit w k then w else w + 2 ^ k

-- w & ~(1 << k)
abbrev pub clear_bit : ℕ → ℕ → ℕ
clear_bit w k = if has_bit w k then w - 2 ^ k else w

-- w | mask and w & ~mask, for a mask that is given by the numbers of its bits.
abbrev pub set_bits : ℕ → List ℕ → ℕ
set_bits w [] = w
set_bits w (k ∷ ks) = set_bits (set_bit w k) ks

abbrev pub clear_bits : ℕ → List ℕ → ℕ
clear_bits w [] = w
clear_bits w (k ∷ ks) = clear_bits (clear_bit w k) ks
