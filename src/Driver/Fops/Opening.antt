-- ===== src/Driver/Fops/Opening.antt =====
-- plx_fops.c: which opens set the device up, and what a failed one leaves behind.
use cjunk.Prelude.{◌+◌, ◌<◌, ◌≡◌, refl, pos, arith}
use cjunk.Driver.Defs.{Env, Driver}
use cjunk.Driver.Dma.{plx_dma_open_channel}
use cjunk.Driver.Dma.Users.{open_channel-users}
use cjunk.Driver.Chip.{plx_chip_interrupts_enable, plx_chip_interrupts_disable}
use cjunk.Driver.Fops.{
  claim_irq, clear_pending, plx_install_interrupt_handler, enodev, set_up, plx_drv_open,
  plx_drv_release,
}

-- An open by a second user sets nothing up: it counts the user and returns 0.
pub second_open :
    (e : Env) (d : Driver)
    → 0 < d.open_count
    → d.open_count < 255
    → plx_drv_open e d ≡ (pos 0, record d { open_count = d.open_count + 1 })
unfolding plx_drv_open
second_open e d used small = ground arith

-- While one user or more, and fewer than 255, have the device open, a release after an open returns
-- 0 and restores the driver's state.
release-open :
    (e : Env) (d : Driver)
    → 0 < d.open_count
    → d.open_count < 255
    → plx_drv_release e (plx_drv_open e d).1 ≡ (pos 0, d)
unfolding plx_drv_release
release-open e d used small = rw (second_open e d used small) (ground arith)

disable-users :
    (e : Env) (d : Driver) → (plx_chip_interrupts_disable e d).1.open_count ≡ d.open_count
unfolding plx_chip_interrupts_disable
disable-users e d = refl

enable-users : (e : Env) (d : Driver) → (plx_chip_interrupts_enable e d).1.open_count ≡ d.open_count
unfolding plx_chip_interrupts_enable
enable-users e d = refl

clear_pending-users : (e : Env) (d : Driver) → (clear_pending e d).1.open_count ≡ d.open_count
unfolding clear_pending
clear_pending-users e d = refl

claim_irq-users : (e : Env) (d : Driver) → (claim_irq e d).1.open_count ≡ d.open_count
unfolding claim_irq
claim_irq-users e d = ground arith

install-users :
    (e : Env) (d : Driver) → (plx_install_interrupt_handler e d).1.open_count ≡ d.open_count
unfolding plx_install_interrupt_handler
install-users e d = simp (enable-users, claim_irq-users, clear_pending-users, disable-users)

pub set_up-users : (e : Env) (d : Driver) → (set_up e d).1.open_count ≡ d.open_count
unfolding set_up
set_up-users e d =
    ground (arith, open_channel-users e d, install-users e (plx_dma_open_channel e 0 d).1)

-- If the open of a device that nobody uses fails with -ENODEV, the open after it returns 0, on any
-- device: the failed open has counted its user.
open_after_failure :
    (e : Env) (d : Driver)
    → d.open_count ≡ 0
    → (plx_drv_open e d).0 ≡ enodev
    → (plx_drv_open e (plx_drv_open e d).1).0 ≡ pos 0
unfolding plx_drv_open
open_after_failure e d fresh failed = ground (arith, set_up-users e (record d { open_count = 1 }))
