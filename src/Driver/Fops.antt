-- ===== src/Driver/Fops.antt =====
-- plx_fops.c: open, release, read and poll, and the installation of the interrupt handler in
-- plx_driver.c. Locks and prints are left out; the semaphore read_semph is kept.
pub mod Opening
pub mod Reading
pub mod Kept
pub mod Broken
pub mod Leased
use cjunk.Prelude.{
  ℕ, zero, suc, ◌+◌, ◌-◌, ◌==◌, ltb, ℤ, pos, negsuc, Bool, true, false, not, Option, none, some,
  List, [], ◌∷◌, ◌⊎◌, inl, inr, if◌then◌else◌,
}
use cjunk.Prelude.Word.{u8, u32, set_bit, set_bits}
use cjunk.Driver.Defs.{
  Env, Driver, Ring, Counters, M, ◌>>=◌, ◌>>◌, return, emit, reg_read, reg_write, command_link_read,
  command_link_write, plx, Access, request_irq, free_irq, copy_to_user, Status, api_success,
  api_failed, dma_command_stat, pci_mc_card_status,
}
use cjunk.Driver.Ring.{step_rp, is_readable}
use cjunk.Driver.Timer.{debug_time}
use cjunk.Driver.Chip.{plx_chip_interrupts_enable, plx_chip_interrupts_disable}
use cjunk.Driver.Dma.{plx_dma_open_channel, plx_dma_close_channel}

-- The part of plx_install_interrupt_handler that asks the kernel for the interrupt.
pub claim_irq : Env → M Status
claim_irq e d =
    if e.irq == 0
    then (api_failed, d)
    else if e.request_irq_rc d.trace == 0
    then (api_success, record d { flag_interrupt = true; trace = request_irq ∷ d.trace })
    else (api_failed, record d { trace = request_irq ∷ d.trace })

clear_pending : Env → M (Unit {0})
clear_pending e = do
  v ← reg_read e plx dma_command_stat
  reg_write plx dma_command_stat (set_bits v (11 ∷ 3 ∷ []))
  w ← command_link_read e pci_mc_card_status
  command_link_write pci_mc_card_status (set_bit w 30)

pub plx_install_interrupt_handler : Env → M Status
plx_install_interrupt_handler e = do
  plx_chip_interrupts_disable e
  clear_pending e
  s ← claim_irq e
  plx_chip_interrupts_enable e
  return s

pub plx_uninstall_interrupt_handler : Env → M (Unit {0})
plx_uninstall_interrupt_handler e d =
    if d.flag_interrupt
    then (do
      plx_chip_interrupts_disable e
      emit free_irq
      (λ d'. (tt, record d' { flag_interrupt = false })))
        d
    else (tt, d)

abbrev is_success : Status → Bool
is_success api_success = true
is_success _ = false

abbrev pub enodev : ℤ
enodev = negsuc 18

-- The first open: channel 0, then the interrupt handler.
unfoldable pub set_up : Env → M ℤ
set_up e = do
  s ← plx_dma_open_channel e 0
  (if is_success s
      then (do t ← plx_install_interrupt_handler e; return (if is_success t then pos 0 else enodev))
      else return enodev)

-- container_of gives no null pointer, so `!dev` does not hold. OpenCount is a U8.
unfoldable pub plx_drv_open : Env → M ℤ
plx_drv_open e d =
    let d1 = record d { open_count = u8 (d.open_count + 1) } in
    if ltb 1 d1.open_count then (pos 0, d1) else set_up e d1

pub tear_down : Env → M (Unit {0})
tear_down e = do plx_uninstall_interrupt_handler e; _ ← plx_dma_close_channel e 0 false; return tt

pub plx_drv_release : Env → M ℤ
plx_drv_release e d =
    if d.open_count == 0
    then (pos 0, d)
    else let d1 = record d { open_count = d.open_count - 1 } in
      if ltb 0 d1.open_count then (pos 0, d1) else (pos 0, (tear_down e d1).1)

-- What wakes a reader that sleeps in wait_event_interruptible: a signal, or the interrupt side,
-- which has changed the driver's state meanwhile.
pub data Wake : Type 0 where
  signal : Wake
  run : (Driver → Driver) → Wake

abbrev pub erestartsys : ℤ
erestartsys = negsuc 511

abbrev pub eagain : ℤ
eagain = negsuc 10

abbrev pub efault : ℤ
efault = negsuc 13

-- down_interruptible: a free semaphore is taken, whether a signal is pending or not. `none` while the
-- caller sleeps on the semaphore, false for a signal that ends the sleep.
unfoldable pub down_interruptible : Env → Driver → Option (Bool × Driver)
down_interruptible e d =
    if d.read_semph == 0
    then (if e.signal_pending d.trace then some (false, d) else none)
    else some (true, record d { read_semph = d.read_semph - 1 })

unfoldable pub up : Driver → Driver
up d = record d { read_semph = d.read_semph + 1 }

-- plx_drv_read from the copy to user space to its end, with the semaphore held. The return after
-- `rp == ip` does not pass the label `out`, where the semaphore is released.
unfoldable pub fetch : Env → ℕ → M ℤ
unfolding up
fetch e len d =
    let d1 = record d { trace = copy_to_user d.ring.rp len ∷ d.trace } in
    if e.copy_fails d.trace
    then (efault, up d1)
    else let d2 = record d1 {
      cntr = let c = d1.cntr in record c { to_user_space = u32 (c.to_user_space + 1) };
    } in
      elim (step_rp d2.ring) [
        | none ↦ (
          efault,
          record d2 {
            cntr = let c = d2.cntr in record c { circ_empty_rp = u32 (c.circ_empty_rp + 1) };
          },
        )
        | some r ↦ (pos len, up (debug_time e (record d2 { ring = r })).1)
      ]

-- One test of the loop that waits for a frame, with the semaphore held; `sleep` is the rest, with
-- the semaphore released.
unfoldable pub holding :
    Env → Bool → ℕ → (Driver → Option (ℤ × Driver)) → Driver → Option (ℤ × Driver)
holding e nonblock len sleep d =
    if is_readable d.ring
    then some (fetch e len d)
    else if nonblock
    then some (eagain, up d)
    else sleep (up d)

-- wait_event_interruptible, which ends by a signal or when rp != wp, and the way back into the
-- loop. `none` means that the caller still sleeps.
unfoldable pub asleep : Env → Bool → ℕ → List Wake → Driver → Option (ℤ × Driver)
asleep e nonblock len [] d = none
asleep e nonblock len (signal ∷ ws) d = some (erestartsys, d)
asleep e nonblock len (run f ∷ ws) d =
    let rest = asleep e nonblock len ws in
    let woken : Option (ℤ × Driver) = elim (down_interruptible e (f d)) [
      | none ↦ none
      | some (false, d') ↦ some (erestartsys, d')
      | some (true, d') ↦ holding e nonblock len rest d'
    ] in
    if is_readable (f d).ring then woken else rest (f d)

unfoldable pub plx_drv_read : Env → Bool → ℕ → List Wake → Driver → Option (ℤ × Driver)
plx_drv_read e nonblock len ws d = elim (down_interruptible e d) [
  | none ↦ none
  | some (false, d') ↦ some (erestartsys, d')
  | some (true, d') ↦
      holding e nonblock len (asleep e nonblock len ws)
        (record d' { cntr = let c = d'.cntr in record c { read = u32 (c.read + 1) } })
]

-- POLLIN | POLLRDNORM is true.
unfoldable pub plx_drv_poll : Env → Driver → Option ((Bool ⊎ ℤ) × Driver)
plx_drv_poll e d = elim (down_interruptible e d) [
  | none ↦ none
  | some (false, d') ↦ some (inr erestartsys, d')
  | some (true, d') ↦
      if is_readable d'.ring
      then some (
        inl true,
        up (record d' { cntr = let c = d'.cntr in record c { poll = u32 (c.poll + 1) } }),
      )
      else some (inl false, up d')
]
