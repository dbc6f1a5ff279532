-- ===== src/Driver/OpenTests.antt =====
-- plx_fops.c: the theorems about failed opens and the locked semaphore at concrete inputs.
use cjunk.Prelude.{ℕ, ◌≡◌, refl, none, some, true, [], ◌∷◌, pos, List, arith}
use cjunk.Driver.Defs.{Env, Driver}
use cjunk.Driver.Lease.{Grants}
use cjunk.Driver.Fops.Leased.{IsClosed, open_granted, release-open-IsClosed}
use cjunk.Driver.Ring.{step_rp, is_readable}
use cjunk.Driver.Dma.Users.{open_channel-open}
use cjunk.Driver.Fops.{
  Wake, enodev, efault, set_up, plx_drv_open, plx_drv_release, plx_drv_read, plx_drv_poll,
}
use cjunk.Driver.Fops.Broken.{open_it, close_it, returns, used, never_set_up}
use cjunk.Driver.Fops.Reading.{read_at_ip_locks}
use cjunk.Driver.Tests.{detector, idle, at, wrapped}

-- Channel 0 is open already.
abbrev occupied : Driver
occupied = record (idle wrapped 0 0) { dma_open_0 = true }

open_fails : (plx_drv_open detector occupied).0 ≡ enodev
unfolding plx_drv_open set_up
open_fails = rw (open_channel-open detector (record occupied { open_count = 1 }) refl)

abbrev after_failure : Driver
after_failure = (plx_drv_open detector occupied).1

never_set_up_example :
    (returns detector after_failure (open_it ∷ close_it ∷ open_it ∷ [])
      ≡ pos 0 ∷ pos 0 ∷ pos 0 ∷ [])
    × (used detector after_failure (open_it ∷ close_it ∷ open_it ∷ [])
        ≡ record after_failure { open_count = 2 })
never_set_up_example =
    never_set_up detector occupied (open_it ∷ close_it ∷ open_it ∷ []) refl
      (omega arith, (omega arith, tt))

abbrev passed : Driver
passed = idle (at 2 3 2) 1 0

read_at_ip_locks_example :
    (d' : Driver) × (plx_drv_read detector true 512 [] passed ≡ some (efault, d'))
    × (d'.read_semph ≡ 0)
    × ((len' : ℕ) (ws' : List Wake) → plx_drv_read detector true len' ws' d' ≡ none)
    × (plx_drv_poll detector d' ≡ none)
unfolding is_readable step_rp
read_at_ip_locks_example =
    read_at_ip_locks detector true 512 [] passed (λ t. refl) (λ t. refl) refl refl refl

-- A kernel that grants the interrupt 5 and every DMA buffer.
abbrev granting : Env
granting = record detector { irq = 5; alloc = λ t. some (7, 8) }

granting-Grants : Grants granting
granting-Grants = record {
  buffer = λ t. (7, 8);
  allocs_all = λ t. refl;
  has_irq = λ h. absurd (ground arith);
  gives_irq = λ t. refl;
}

abbrev unused : Driver
unused = idle wrapped 0 0

unused-IsClosed : IsClosed unused
unused-IsClosed = (refl, refl, refl, (λ b place. refl), refl)

release-open-IsClosed_example :
    ((plx_drv_release granting (plx_drv_open granting unused).1).0 ≡ pos 0)
    × IsClosed (plx_drv_release granting (plx_drv_open granting unused).1).1
release-open-IsClosed_example =
    release-open-IsClosed granting unused unused-IsClosed
      (open_granted granting unused granting-Grants unused-IsClosed)
