-- ===== src/Driver/Tests.antt =====
-- The driver's theorems at concrete inputs.
use cjunk.Prelude.{
  ℕ, ◌+◌, ◌^◌, ◌≤◌, ◌≡◌, refl, ◌≢◌, ◌↔◌, false, none, some, List, [], ◌∷◌, arith, length,
}
use cjunk.Prelude.Word.{has_bit}
use cjunk.Driver.Defs.{Env, Driver, Ring, Counters, pci_config, pm_csr}
use cjunk.Driver.Ring.{step_ip, step_wp}
use cjunk.Driver.Ring.Fifo.{
  Event, capture, complete, fetch, Buffers, run, spec_run, spec_step, run_refines,
}
use cjunk.Driver.Timer.{timer_diff}
use cjunk.Driver.Timer.Wrap.{elapsed, timer_diff_right_iff}
use cjunk.Driver.Reset.{plx_board_reset}
use cjunk.Driver.Reset.Registers.{writes, pm_csr_not_restored}
use cjunk.Driver.Interrupt.{plx_on_interrupt, plx_dpc_for_isr}
use cjunk.Driver.Interrupt.Pointers.{plx_on_interrupt-ring, plx_dpc_for_isr-ring}
use cjunk.Driver.CommandLink.{check, plx_write_reg}
use cjunk.Driver.CommandLink.Waiting.{Clock, TimedOut, enough_fuel, check-ne-none, write_reg_busy}

-- A device whose registers always read `v`, and a kernel that grants everything.
abbrev pub constant : ℕ → Env
constant v = record {
  reg = λ t s off. v;
  cycles = λ t. length t;
  irq = 0;
  request_irq_rc = λ t. 0;
  alloc = λ t. none;
  copy_fails = λ t. false;
  signal_pending = λ t. false;
}

-- Bits 3, 4, 8, 11, 15 and 30: a detector interrupt with an idle DMA channel, a busy link.
abbrev pub detector : Env
detector = constant (2 ^ 3 + 2 ^ 4 + 2 ^ 8 + 2 ^ 11 + 2 ^ 15 + 2 ^ 30)

abbrev pub no_counts : Counters
no_counts = record {
  irq_count = 0;
  irq_processed = 0;
  irq_none = 0;
  low_power_state = 0;
  pci_master_disabled = 0;
  failed_dma = 0;
  read = 0;
  poll = 0;
  to_user_space = 0;
  tmo_rdr = 0;
  tmo_tbe = 0;
  lost_ints = 0;
  circ_full_wp = 0;
  lost_hw_ints = 0;
  circ_full_ip = 0;
  circ_empty_rp = 0;
}

abbrev pub idle : Ring → ℕ → ℕ → Driver
idle r users sources = record {
  ring = r;
  cntr = no_counts;
  flag_interrupt = false;
  open_count = users;
  source_ints = sources;
  dma_open_0 = false;
  dma_open_1 = false;
  hw_buff_check = 0;
  frames = [];
  bus_addresses = [];
  seq_cntr = 0;
  before = 0;
  debug = false;
  read_semph = 1;
  trace = [];
}

abbrev pub at : ℕ → ℕ → ℕ → Ring
at r w i = record { rp = r; wp = w; ip = i }

-- Three frames are ready and one is being transferred, round the end of the ring.
abbrev pub wrapped : Ring
wrapped = at 6 1 2

abbrev full : Buffers
full = record { ring = at 3 2 2; slot = λ i. i }

abbrev script : List Event
script = capture 40 ∷ fetch ∷ complete ∷ fetch ∷ fetch ∷ complete ∷ fetch ∷ fetch ∷ fetch ∷ []

run_refines_example :
    run (record { ring = wrapped; slot = λ i. 10 + i }) script
    ≡ none ∷ some 16 ∷ none ∷ some 17 ∷ some 10 ∷ none ∷ some 11 ∷ some 40 ∷ none ∷ []
unfolding spec_run spec_step
run_refines_example =
    run_refines (record { ring = wrapped; slot = λ i. 10 + i }) script (omega arith) refl

timer_diff_right_iff_example : (timer_diff 16777000 20 ≡ elapsed 16777000 20) ↔ (16777000 ≤ 20)
timer_diff_right_iff_example = timer_diff_right_iff 16777000 20 (omega arith) (omega arith)

pm_csr_not_restored_example :
    writes pci_config pm_csr (plx_board_reset (constant (2 ^ 28)) (idle wrapped 1 0)).1.trace ≡ 0
pm_csr_not_restored_example = pm_csr_not_restored (constant (2 ^ 28)) (idle wrapped 1 0)

plx_on_interrupt-ring_example : (plx_on_interrupt detector (idle wrapped 1 0)).1.ring ≡ at 6 1 3
unfolding step_ip
plx_on_interrupt-ring_example = plx_on_interrupt-ring detector (idle wrapped 1 0)

plx_dpc_for_isr-ring_example : (plx_dpc_for_isr detector (idle wrapped 1 (2 ^ 5))).1.ring ≡ at 6 2 2
unfolding step_wp
plx_dpc_for_isr-ring_example = plx_dpc_for_isr-ring detector (idle wrapped 1 (2 ^ 5)) refl

pub detector-Clock : Clock detector
detector-Clock = record { monotone = λ a t. omega arith; goes_on = λ t. omega arith }

check-ne-none_example : check detector (λ s. has_bit s 0) enough_fuel (idle wrapped 1 0) ≢ none
check-ne-none_example =
    check-ne-none detector (λ s. has_bit s 0) (idle wrapped 1 0) enough_fuel (omega arith)
      detector-Clock

write_reg_busy_example :
    TimedOut 0x20 7
      (idle wrapped 1 0)
      (plx_write_reg detector enough_fuel 0x20 7 (idle wrapped 1 0))
write_reg_busy_example =
    write_reg_busy detector enough_fuel 0x20 7 (idle wrapped 1 0) (omega arith) detector-Clock
      (λ t. refl)
