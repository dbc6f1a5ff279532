-- ===== src/Driver/Fops/Kept.antt =====
-- plx_fops.c: what its calls do to the pointers of the frame ring and to the semaphore.
use cjunk.Prelude.{◌≡◌, refl, ◌∙◌, ◌+◌, arith, false}
use cjunk.Prelude.Word.{u8}
use cjunk.Driver.Defs.{Env, Driver}
use cjunk.Driver.Held.{held, kept, Keeps, LeftOrZeroed}
use cjunk.Driver.Chip.{plx_chip_interrupts_enable, plx_chip_interrupts_disable}
use cjunk.Driver.Dma.{plx_dma_open_channel}
use cjunk.Driver.Dma.Kept.{open_channel-held, close_channel-held}
use cjunk.Driver.Fops.{
  claim_irq, clear_pending, plx_install_interrupt_handler, plx_uninstall_interrupt_handler, set_up,
  plx_drv_open, tear_down, plx_drv_release,
}

claim_irq-held : (e : Env) → Keeps (claim_irq e)
unfolding claim_irq kept
claim_irq-held e d = ground arith

interrupts_disable-held : (e : Env) → Keeps (plx_chip_interrupts_disable e)
unfolding plx_chip_interrupts_disable kept
interrupts_disable-held e d = refl

interrupts_enable-held : (e : Env) → Keeps (plx_chip_interrupts_enable e)
unfolding plx_chip_interrupts_enable kept
interrupts_enable-held e d = refl

clear_pending-held : (e : Env) → Keeps (clear_pending e)
unfolding clear_pending kept
clear_pending-held e d = refl

install-held : (e : Env) → Keeps (plx_install_interrupt_handler e)
unfolding plx_install_interrupt_handler
install-held e d =
    simp (interrupts_enable-held, claim_irq-held, clear_pending-held, interrupts_disable-held)

uninstall-held : (e : Env) → Keeps (plx_uninstall_interrupt_handler e)
unfolding plx_uninstall_interrupt_handler plx_chip_interrupts_disable kept
uninstall-held e d = ground arith

set_up-held : (e : Env) (d : Driver) → LeftOrZeroed d (set_up e d).1
unfolding set_up kept
set_up-held e d =
    ground (arith, open_channel-held e d, install-held e (plx_dma_open_channel e 0 d).1)

pub plx_drv_open-held : (e : Env) (d : Driver) → LeftOrZeroed d (plx_drv_open e d).1
unfolding plx_drv_open
plx_drv_open-held e d =
    ground (arith, set_up-held e (record d { open_count = u8 (d.open_count + 1) }))

tear_down-held : (e : Env) (d : Driver) → held (tear_down e d).1 ≡ held d
unfolding tear_down kept
tear_down-held e d =
    close_channel-held e false (plx_uninstall_interrupt_handler e d).1 ∙ uninstall-held e d

pub plx_drv_release-held : (e : Env) (d : Driver) → held (plx_drv_release e d).1 ≡ held d
unfolding plx_drv_release
plx_drv_release-held e d = ground (arith, tear_down-held e (record d { open_count = 0 }))
