-- ===== src/Driver/Held.antt =====
-- plx_driverdefs.h: the part of the driver's state that most of its functions leave alone, the three
-- pointers of the frame ring and the count of the semaphore read_semph.
use cjunk.Prelude.{ℕ, ◌≡◌, ◌⊎◌}
use cjunk.Driver.Defs.{Driver, Ring, M}

abbrev pub held : Driver → Ring × ℕ
held d = (d.ring, d.read_semph)

-- The same as a name that stays whole in rewriting.
unfoldable pub kept : Driver → Ring × ℕ
kept d = held d

-- The functions that leave the ring and the semaphore alone.
abbrev pub Keeps : {A : Type 0} → M A → Type 0
Keeps m = (d : Driver) → kept (m d).1 ≡ kept d

abbrev pub zeroed : Ring
zeroed = record { rp = 0; wp = 0; ip = 0 }

-- The calls that leave the ring and the semaphore alone, or set the pointers of the ring to 0.
abbrev pub LeftOrZeroed : Driver → Driver → Type 0
LeftOrZeroed d d' = (held d' ≡ held d) ⊎ (held d' ≡ (zeroed, d.read_semph))
