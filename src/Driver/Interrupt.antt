-- ===== src/Driver/Interrupt.antt =====
-- plx_interrupt.c: the interrupt service routine and its deferred procedure.
pub mod Kept
pub mod Pointers
pub mod Refused
pub mod Sources
use cjunk.Prelude.{
  ℕ, zero, suc, ◌+◌, ◌-◌, ◌*◌, ◌/◌, ◌%◌, ◌^◌, ◌==◌, Bool, true, false, not, ◌&&◌, ◌||◌, Option,
  none, some, List, [], ◌∷◌, if◌then◌else◌,
}
use cjunk.Prelude.Word.{u8, u16, u32, has_bit, set_bit}
use cjunk.Driver.Defs.{
  Env, Driver, Ring, Counters, M, ◌>>=◌, ◌>>◌, return, emit, reg_read, reg_write, command_link_read,
  command_link_write, plx, Access, queue_work, wake_up, Status, api_success, dma_command_stat,
  int_ctrl_stat, dma0_mode, dma1_mode, pci_mc_card_status, dma_size,
}
use cjunk.Driver.Ring.{step_ip, step_wp}
use cjunk.Driver.Timer.{debug_time, plx_write_sram}
use cjunk.Driver.Chip.{
  plx_synchronized_register_modify, plx_chip_interrupts_enable, plx_chip_interrupts_disable,
}
use cjunk.Driver.Dma.{plx_dma_transfer_block}

pub data Irq : Type 0 where
  irq_none irq_handled : Irq

abbrev modify : (Driver → Driver) → M (Unit {0})
modify f d = (tt, f d)

abbrev count : (Counters → Counters) → M (Unit {0})
count f = modify (λ d. record d { cntr = f d.cntr })

abbrev when : Bool → M (Unit {0}) → M (Unit {0})
when true m = m
when false m = return tt

abbrev is_success : Status → Bool
is_success api_success = true
is_success _ = false

count_lost_hw_int : ℕ → M (Unit {0})
count_lost_hw_int det =
    when (has_bit det 31) (count (λ c. record c { lost_hw_ints = u32 (c.lost_hw_ints + 1) }))

count_irq : M (Unit {0})
count_irq = count (λ c. record c { irq_count = u32 (c.irq_count + 1) })

-- The check of the hardware's buffer number against the driver's.
check_hw_buffer : ℕ → M (Unit {0})
check_hw_buffer det = modify λ d. if det % 4 == d.hw_buff_check % 4 then d else record d {
  hw_buff_check = det % 4;
  cntr = let c = d.cntr in record c { lost_ints = u32 (c.lost_ints + 1) };
}

next_hw_buffer : M (Unit {0})
next_hw_buffer = modify (λ d. record d { hw_buff_check = u8 (d.hw_buff_check + 1) })

count_failed_dma : Status → M (Unit {0})
count_failed_dma s =
    when (not (is_success s)) (count (λ c. record c { failed_dma = u32 (c.failed_dma + 1) }))

-- The eight words that are written into the frame, in the board's buffer `base`.
stamp_frame : ℕ → ℕ → M (Unit {0})
stamp_frame base det = do
  (λ d.
      plx_write_sram (base + 1048560 * 2) d.seq_cntr (record d { seq_cntr = u16 (d.seq_cntr + 1) }))
  plx_write_sram (base + 1048544 * 2) (det % 4)
  (λ d. plx_write_sram (base + 1048528 * 2) d.ring.ip d)
  (λ d. plx_write_sram (base + 1048512 * 2) d.ring.wp d)
  (λ d. plx_write_sram (base + 1048496 * 2) d.ring.rp d)
  plx_write_sram (base + 1048480 * 2) (det / 2 ^ 31 % 2)
  (λ d. plx_write_sram (base + 1048464 * 2) d.cntr.lost_ints d)
  plx_write_sram (base + 1048448 * 2) 0xebbe

-- STEP_IN_INT: false is the early `return IRQ_RETVAL(IRQ_HANDLED)`.
step_in_int : M Bool
step_in_int d = elim (step_ip d.ring) [
  | none ↦ (
    false,
    record d { cntr = let c = d.cntr in record c { circ_full_ip = u32 (c.circ_full_ip + 1) } },
  )
  | some r ↦ (true, record d { ring = r })
]

-- Clear the interrupt on the board.
clear_board_interrupt : ℕ → M (Unit {0})
clear_board_interrupt det = command_link_write pci_mc_card_status (set_bit det 30)

-- The body of the test for a Local->PCI interrupt. Setting bit 30 leaves the bits 0, 1 and 31 of
-- RegDetectorInt, which alone are used after it.
pub local_interrupt : Env → ℕ → M Bool
local_interrupt e det = do
  count_lost_hw_int det
  count_irq
  debug_time e
  check_hw_buffer det
  next_hw_buffer
  clear_board_interrupt det
  stamp_frame (dma_size * (det % 4)) det
  s ← plx_dma_transfer_block e (det % 4) 0
  count_failed_dma s
  step_in_int

-- The tests for the end of a DMA transfer: the bits 5 and 6 of InterruptSource.
dma_interrupt : Env → ℕ → ℕ → Bool → ℕ → M ℕ
dma_interrupt e mode bit active source =
    if active
    then (do
      v ← reg_read e plx mode
      (if has_bit v 17 then debug_time e >> return (set_bit source bit) else return source))
    else return source

count_irq_none : M (Unit {0})
count_irq_none = count (λ c. record c { irq_none = u32 (c.irq_none + 1) })

-- Provide the interrupt source to the deferred procedure, and schedule it.
schedule_dpc : ℕ → M (Unit {0})
schedule_dpc source = do modify (λ d. record d { source_ints = source }); emit queue_work

-- Return if no interrupts are active; else disable them and leave the rest to the procedure.
defer : Env → ℕ → M Irq
defer e source =
    if source == 0
    then (count_irq_none >> return irq_none)
    else (plx_chip_interrupts_disable e >> schedule_dpc source >> return irq_handled)

-- From the tests for DMA interrupts to the end.
find_dma_sources : Env → ℕ → ℕ → M Irq
find_dma_sources e pci source = do
  s ← dma_interrupt e dma0_mode 5 (has_bit pci 21 && has_bit pci 18) source
  t ← dma_interrupt e dma1_mode 6 (has_bit pci 22 && has_bit pci 19) s
  defer e t

count_low_power : M (Unit {0})
count_low_power = count (λ c. record c { low_power_state = u32 (c.low_power_state + 1) })

count_master_disabled : M (Unit {0})
count_master_disabled =
    count (λ c. record c { pci_master_disabled = u32 (c.pci_master_disabled + 1) })

-- The interrupt originates from the detector, is active and not masked.
abbrev pub is_local : ℕ → ℕ → Bool
is_local pci det = has_bit pci 15 && has_bit pci 11 && has_bit det 30

-- The interrupt handler after the master enable bit was found set, in the case of a local
-- interrupt and in the other.
with_local : Env → ℕ → ℕ → M Irq
with_local e pci det = do
  go_on ← local_interrupt e det
  (if go_on then find_dma_sources e pci 1 else return irq_handled)

enabled_interrupt : Env → ℕ → M Irq
enabled_interrupt e pci = do
  det ← command_link_read e pci_mc_card_status
  (if is_local pci det then with_local e pci det else find_dma_sources e pci 0)

pub plx_on_interrupt : Env → M Irq
plx_on_interrupt e = do
  pci ← reg_read e plx int_ctrl_stat
  (if pci == 0xffff_ffff
      then (count_low_power >> return irq_none)
      else if not (has_bit pci 8)
      then (count_master_disabled >> return irq_none)
      else enabled_interrupt e pci)

-- STEP_IN_INT_DPC, and the same code in alert_read.
step_write_pointer : M (Unit {0})
step_write_pointer d = elim (step_wp d.ring) [
  | none ↦ (
    tt,
    record d { cntr = let c = d.cntr in record c { circ_full_wp = u32 (c.circ_full_wp + 1) } },
  )
  | some r ↦ (tt, record d { ring = r })
]

count_processed : M (Unit {0})
count_processed = count (λ c. record c { irq_processed = u32 (c.irq_processed + 1) })

-- Clear the interrupt of a channel, at bit 3 for channel 0 and bit 11 for channel 1.
clear_dma_interrupt : Env → ℕ → M (Unit {0})
clear_dma_interrupt e bit = do
  v ← reg_read e plx dma_command_stat
  reg_write plx dma_command_stat (set_bit v bit)
  _ ← reg_read e plx dma0_mode
  return tt

-- The body of the test for channel 0 in plx_dpc_for_isr and of alert_read: a transfer has ended.
transfer_done : Env → ℕ → M (Unit {0})
transfer_done e bit = do
  clear_dma_interrupt e bit
  step_write_pointer
  debug_time e
  emit wake_up
  count_processed

pub alert_read : Env → ℕ → M (Unit {0})
alert_read e zero = transfer_done e 3
alert_read e (suc zero) = transfer_done e 11
alert_read e (suc (suc n)) = return tt

dpc_local : Env → M (Unit {0})
dpc_local e = do debug_time e; plx_synchronized_register_modify e int_ctrl_stat [] (11 ∷ [])

-- plx_dpc_for_isr, given the interrupt sources.
serve : Env → ℕ → M (Unit {0})
serve e s = do
  when (has_bit s 0) (dpc_local e)
  when (has_bit s 5) (transfer_done e 3)
  when (has_bit s 6) (alert_read e 1)
  plx_chip_interrupts_enable e

pub plx_dpc_for_isr : Env → M (Unit {0})
plx_dpc_for_isr e d = serve e d.source_ints d
