-- ===== src/Driver/Fops/Broken.antt =====
-- plx_fops.c: what becomes of the device after a first open has failed.
use cjunk.Prelude.{ℕ, zero, suc, ◌+◌, ◌<◌, ◌≡◌, refl, ap, ◌∙◌, List, [], ◌∷◌, ℤ, pos, arith}
use cjunk.Driver.Defs.{Env, Driver}
use cjunk.Driver.Fops.{plx_drv_open, plx_drv_release}
use cjunk.Driver.Fops.Opening.{second_open, set_up-users}

-- What programs do with the device file.
pub data Use : Type 0 where
  open_it close_it : Use

-- A program closes only what it has opened, and at most 254 have the device open at once; `n` have
-- it open before.
abbrev pub IsBalanced : ℕ → List Use → Type 0
IsBalanced n [] = Unit
IsBalanced n (open_it ∷ us) = (n < 254) × IsBalanced (n + 1) us
IsBalanced zero (close_it ∷ us) = ⊥
IsBalanced (suc n) (close_it ∷ us) = IsBalanced n us

-- How many have the device open afterwards.
abbrev pub users : ℕ → List Use → ℕ
users n [] = n
users n (open_it ∷ us) = users (n + 1) us
users zero (close_it ∷ us) = users zero us
users (suc n) (close_it ∷ us) = users n us

abbrev pub use_once : Env → Driver → Use → ℤ × Driver
use_once e d open_it = plx_drv_open e d
use_once e d close_it = plx_drv_release e d

-- What the calls return, and the driver's state after them.
abbrev pub returns : Env → Driver → List Use → List ℤ
returns e d [] = []
returns e d (u ∷ us) = let (r, d') = use_once e d u in r ∷ returns e d' us

abbrev pub used : Env → Driver → List Use → Driver
used e d [] = d
used e d (u ∷ us) = used e (use_once e d u).1 us

abbrev pub zeros : List Use → List ℤ
zeros [] = []
zeros (u ∷ us) = pos 0 ∷ zeros us

-- With `n` users, and one more that is counted and has gone.
abbrev counted : Driver → ℕ → Driver
counted d n = record d { open_count = 1 + n }

open-counted :
    (e : Env) (d : Driver) (n : ℕ)
    → n < 254
    → plx_drv_open e (counted d n) ≡ (pos 0, counted d (n + 1))
open-counted e d n few =
    second_open e (counted d n) (omega arith) (omega arith)
    ∙ ap (λ k. (pos 0, record d { open_count = k })) (omega arith)

close-counted :
    (e : Env) (d : Driver) (n : ℕ) → plx_drv_release e (counted d (suc n)) ≡ (pos 0, counted d n)
unfolding plx_drv_release
close-counted e d n = ground arith

counted-used :
    (e : Env) (d : Driver) (n : ℕ) (us : List Use)
    → IsBalanced n us
    → (returns e (counted d n) us ≡ zeros us) × (used e (counted d n) us ≡ counted d (users n us))
counted-used e d n [] v = (refl, refl)
counted-used e d n (open_it ∷ us) (few, v) =
    rw (open-counted e d n few)
      (let (rs, ds) = counted-used e d (n + 1) us v in (ap (λ l. pos 0 ∷ l) rs, ds))
counted-used e d zero (close_it ∷ us) v = absurd v
counted-used e d (suc n) (close_it ∷ us) v =
    rw (close-counted e d n)
      (let (rs, ds) = counted-used e d n us v in (ap (λ l. pos 0 ∷ l) rs, ds))

first-counted : (e : Env) (d : Driver) → d.open_count ≡ 0 → (plx_drv_open e d).1.open_count ≡ 1
unfolding plx_drv_open
first-counted e d fresh = ground (arith, set_up-users e (record d { open_count = 1 }))

-- After the open of a device that nobody uses, also if it fails with -ENODEV, and until it is released,
-- which the kernel does not do for an open that failed: while no more is closed than was opened since,
-- and at most 254 more users have the device open at any time, every open and close returns 0 and
-- does nothing but count its user. So the device is not set up after a failed open.
pub never_set_up :
    (e : Env) (d : Driver) (us : List Use)
    → d.open_count ≡ 0
    → IsBalanced 0 us
    → let d' = (plx_drv_open e d).1 in
      (returns e d' us ≡ zeros us) × (used e d' us ≡ record d' { open_count = 1 + users 0 us })
never_set_up e d us fresh v =
    let d' = (plx_drv_open e d).1 in
    let one : d' ≡ counted d' 0 =
      ap (λ (k : ℕ). record d' { open_count = k }) (first-counted e d fresh) in
    let (rs, ds) = counted-used e d' 0 us v in
    (ap (λ (x : Driver). returns e x us) one ∙ rs, ap (λ (x : Driver). used e x us) one ∙ ds)
