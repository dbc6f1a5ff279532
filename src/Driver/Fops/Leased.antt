-- ===== src/Driver/Fops/Leased.antt =====
-- plx_fops.c: what the first open takes from the kernel, and what the last release gives back.
use cjunk.Prelude.{ℕ, suc, ◌+◌, ◌*◌, ◌<◌, ◌≡◌, refl, true, false, pos, arith}
use cjunk.Driver.Defs.{Env, Driver, api_success}
use cjunk.Driver.Lease.{Grants, lease, allocs, frees, irqs, irq_frees}
use cjunk.Driver.Chip.{plx_chip_interrupts_enable, plx_chip_interrupts_disable}
use cjunk.Driver.Dma.{plx_dma_open_channel}
use cjunk.Driver.Dma.Leased.{open_channel_granted, open_channel-lease, close_channel-lease}
use cjunk.Driver.Fops.{
  claim_irq, clear_pending, plx_install_interrupt_handler, plx_uninstall_interrupt_handler, set_up,
  plx_drv_open, tear_down, plx_drv_release,
}

claim_irq-lease :
    (b : ℕ) (e : Env) (d : Driver)
    → (claim_irq e d).0 ≡ api_success
    → lease b (claim_irq e d).1 ≡ (
      d.open_count,
      d.dma_open_0,
      true,
      allocs d.trace,
      frees b d.trace,
      suc (irqs d.trace),
      irq_frees d.trace,
    )
unfolding claim_irq
claim_irq-lease b e d h = ground arith

interrupts_disable-lease :
    (b : ℕ) (e : Env) (d : Driver) → lease b (plx_chip_interrupts_disable e d).1 ≡ lease b d
unfolding plx_chip_interrupts_disable
interrupts_disable-lease b e d = refl

interrupts_enable-lease :
    (b : ℕ) (e : Env) (d : Driver) → lease b (plx_chip_interrupts_enable e d).1 ≡ lease b d
unfolding plx_chip_interrupts_enable
interrupts_enable-lease b e d = refl

clear_pending-lease : (b : ℕ) (e : Env) (d : Driver) → lease b (clear_pending e d).1 ≡ lease b d
unfolding clear_pending
clear_pending-lease b e d = refl

install-lease :
    (b : ℕ) (e : Env) (d : Driver)
    → (plx_install_interrupt_handler e d).0 ≡ api_success
    → lease b (plx_install_interrupt_handler e d).1 ≡ (
      d.open_count,
      d.dma_open_0,
      true,
      allocs d.trace,
      frees b d.trace,
      suc (irqs d.trace),
      irq_frees d.trace,
    )
unfolding plx_install_interrupt_handler
install-lease b e d h =
    let d1 = (plx_chip_interrupts_disable e d).1 in
    let d2 = (clear_pending e d1).1 in
    let d3 = (claim_irq e d2).1 in
    ground (
      arith,
      interrupts_disable-lease b e d,
      clear_pending-lease b e d1,
      claim_irq-lease b e d2,
      interrupts_enable-lease b e d3,
    )

set_up-lease :
    (b : ℕ) (e : Env) (d : Driver)
    → (set_up e d).0 ≡ pos 0
    → lease b (set_up e d).1 ≡ (
      d.open_count,
      true,
      true,
      8 + allocs d.trace,
      frees b d.trace,
      suc (irqs d.trace),
      irq_frees d.trace,
    )
unfolding set_up
set_up-lease b e d h =
    ground (arith, open_channel-lease b e d, install-lease b e (plx_dma_open_channel e 0 d).1)

uninstall-lease :
    (b : ℕ) (e : Env) (d : Driver)
    → d.flag_interrupt ≡ true
    → lease b (plx_uninstall_interrupt_handler e d).1 ≡ (
      d.open_count,
      d.dma_open_0,
      false,
      allocs d.trace,
      frees b d.trace,
      irqs d.trace,
      suc (irq_frees d.trace),
    )
unfolding plx_uninstall_interrupt_handler
uninstall-lease b e d h = ground (arith, interrupts_disable-lease b e d)

tear_down-lease :
    (b : ℕ) (e : Env) (d : Driver)
    → d.flag_interrupt ≡ true
    → d.dma_open_0 ≡ true
    → b < 8
    → lease b (tear_down e d).1 ≡ (
      d.open_count,
      false,
      false,
      allocs d.trace,
      suc (frees b d.trace),
      irqs d.trace,
      suc (irq_frees d.trace),
    )
unfolding tear_down
tear_down-lease b e d h k place = ground (
  arith,
  uninstall-lease b e d h,
  close_channel-lease b e (plx_uninstall_interrupt_handler e d).1,
)

open-lease :
    (b : ℕ) (e : Env) (d : Driver)
    → d.open_count ≡ 0
    → (plx_drv_open e d).0 ≡ pos 0
    → lease b (plx_drv_open e d).1
      ≡ (1, true, true, 8 + allocs d.trace, frees b d.trace, suc (irqs d.trace), irq_frees d.trace)
unfolding plx_drv_open
open-lease b e d fresh h = ground (arith, set_up-lease b e (record d { open_count = 1 }))

release-lease :
    (b : ℕ) (e : Env) (d : Driver)
    → d.open_count ≡ 1
    → d.flag_interrupt ≡ true
    → d.dma_open_0 ≡ true
    → b < 8
    → ((plx_drv_release e d).0 ≡ pos 0)
      × (lease b (plx_drv_release e d).1 ≡ (
        0,
        false,
        false,
        allocs d.trace,
        suc (frees b d.trace),
        irqs d.trace,
        suc (irq_frees d.trace),
      ))
unfolding plx_drv_release
release-lease b e d one h k place =
    ground (arith, tear_down-lease b e (record d { open_count = 0 }) h k place)

-- A device that nobody has open, and that holds nothing: for each eight buffers that were asked for,
-- the buffer at each of the eight places of the ring has been given back once.
abbrev pub IsClosed : Driver → Type 0
IsClosed d =
    (d.open_count ≡ 0)
    × (d.dma_open_0 ≡ false)
    × (d.flag_interrupt ≡ false)
    × ((b : ℕ) → b < 8 → frees b d.trace * 8 ≡ allocs d.trace)
    × (irq_frees d.trace ≡ irqs d.trace)

closed-lease :
    (b : ℕ) (e : Env) (d : Driver)
    → d.open_count ≡ 0
    → (plx_drv_open e d).0 ≡ pos 0
    → b < 8
    → ((plx_drv_release e (plx_drv_open e d).1).0 ≡ pos 0)
      × (lease b (plx_drv_release e (plx_drv_open e d).1).1 ≡ (
        0,
        false,
        false,
        8 + allocs d.trace,
        suc (frees b d.trace),
        suc (irqs d.trace),
        suc (irq_frees d.trace),
      ))
closed-lease b e d fresh h place =
    ground (arith, open-lease b e d fresh h, release-lease b e (plx_drv_open e d).1)

-- If the open of a closed device returns 0, the release after it returns 0 and leaves the device
-- closed: the channel is closed and the handler uninstalled, the interrupt has been given back as
-- often as it was taken, and for each eight DMA buffers that were asked for, the buffer at each of the
-- eight places of the ring has been given back once.
pub release-open-IsClosed :
    (e : Env) (d : Driver)
    → IsClosed d
    → (plx_drv_open e d).0 ≡ pos 0
    → ((plx_drv_release e (plx_drv_open e d).1).0 ≡ pos 0)
      × IsClosed (plx_drv_release e (plx_drv_open e d).1).1
release-open-IsClosed e d (fresh, shut, idle, buffers, interrupts) h =
    let at : (b : ℕ) → b < 8 → _ = λ b place. closed-lease b e d fresh h place in
    let left = at 0 (omega arith) in
    (
      left.0,
      (
        ground (arith, left.1),
        ground (arith, left.1),
        ground (arith, left.1),
        (λ b place. ground (arith, at b place, buffers b place)),
        ground (arith, left.1, interrupts),
      ),
    )

claim_irq_granted : (e : Env) (d : Driver) → Grants e → (claim_irq e d).0 ≡ api_success
unfolding claim_irq
claim_irq_granted e d g = ground (arith, g.has_irq, g.gives_irq d.trace)

install_granted :
    (e : Env) (d : Driver) → Grants e → (plx_install_interrupt_handler e d).0 ≡ api_success
unfolding plx_install_interrupt_handler
install_granted e d g = claim_irq_granted e _ g

-- A kernel that gives what it is asked for lets a closed device be opened.
pub open_granted : (e : Env) (d : Driver) → Grants e → IsClosed d → (plx_drv_open e d).0 ≡ pos 0
unfolding plx_drv_open set_up
open_granted e d g (fresh, shut, idle, buffers, interrupts) =
    let d1 = record d { open_count = 1 } in
    ground (arith, open_channel_granted e d1 g, install_granted e (plx_dma_open_channel e 0 d1).1 g)
