-- ===== src/Driver/Interrupt/Kept.antt =====
-- plx_interrupt.c: what the interrupt service routine and its deferred procedure do to the pointers of
-- the frame ring and to the semaphore, for every behaviour of the device.
use cjunk.Prelude.{
  ℕ, ◌≡◌, refl, ap, Bool, true, false, not, ◌&&◌, ◌==◌, Option, none, some, arith, if◌then◌else◌,
}
use cjunk.Prelude.Word.{has_bit}
use cjunk.Driver.Defs.{
  Env, Driver, Ring, emit, wake_up, reg_read, command_link_read, plx, int_ctrl_stat,
  pci_mc_card_status, Status,
}
use cjunk.Driver.Held.{kept, Keeps}
use cjunk.Driver.Ring.{step_ip, step_wp}
use cjunk.Driver.Timer.{debug_time, plx_write_sram}
use cjunk.Driver.Chip.{
  plx_chip_interrupts_enable, plx_chip_interrupts_disable, plx_synchronized_register_modify,
}
use cjunk.Driver.Dma.{plx_dma_transfer_block}
use cjunk.Driver.Interrupt.{
  count_lost_hw_int, count_irq, check_hw_buffer, next_hw_buffer, count_failed_dma,
  clear_board_interrupt, stamp_frame, step_in_int, local_interrupt, dma_interrupt, count_irq_none,
  schedule_dpc, defer, find_dma_sources, with_local, count_low_power, count_master_disabled,
  enabled_interrupt, plx_on_interrupt, step_write_pointer, count_processed, clear_dma_interrupt,
  transfer_done, alert_read, dpc_local, serve, plx_dpc_for_isr, when, is_local,
}

-- The ring after a step that may be refused.
abbrev pub or_same : Ring → Option Ring → Ring
or_same r none = r
or_same r (some s) = s

-- What a step of one of the pointers does to the ring and the semaphore.
abbrev pub stepped : (Ring → Option Ring) → Ring × ℕ → Ring × ℕ
stepped f (r, n) = (or_same r (f r), n)

debug_time-held : (e : Env) → Keeps (debug_time e)
unfolding debug_time kept
debug_time-held e d = ground arith

count_lost_hw_int-held : (det : ℕ) → Keeps (count_lost_hw_int det)
unfolding count_lost_hw_int kept
count_lost_hw_int-held det d = ground arith

count_irq-held : Keeps count_irq
unfolding count_irq kept
count_irq-held d = refl

check_hw_buffer-held : (det : ℕ) → Keeps (check_hw_buffer det)
unfolding check_hw_buffer kept
check_hw_buffer-held det d = ground arith

next_hw_buffer-held : Keeps next_hw_buffer
unfolding next_hw_buffer kept
next_hw_buffer-held d = refl

count_failed_dma-held : (s : Status) → Keeps (count_failed_dma s)
unfolding count_failed_dma kept
count_failed_dma-held s d = ground arith

clear_board_interrupt-held : (det : ℕ) → Keeps (clear_board_interrupt det)
unfolding clear_board_interrupt kept
clear_board_interrupt-held det d = refl

stamp_frame-held : (base det : ℕ) → Keeps (stamp_frame base det)
unfolding stamp_frame plx_write_sram kept
stamp_frame-held base det d = refl

transfer_block-held : (e : Env) (buf : ℕ) → Keeps (plx_dma_transfer_block e buf 0)
unfolding plx_dma_transfer_block kept
transfer_block-held e buf d = ground arith

step_in_int-held : (d : Driver) → kept (step_in_int d).1 ≡ stepped step_ip (kept d)
unfolding step_in_int kept
step_in_int-held d = ground arith

ruleset held_kept = (
  debug_time-held, count_lost_hw_int-held, count_irq-held, check_hw_buffer-held,
  next_hw_buffer-held, count_failed_dma-held, clear_board_interrupt-held, stamp_frame-held,
  transfer_block-held,
)

-- A local interrupt steps `ip` unless the ring is full, whatever becomes of the transfer that it
-- starts: also if the transfer is refused.
pub local_interrupt-held :
    (e : Env) (det : ℕ) (d : Driver) → kept (local_interrupt e det d).1 ≡ stepped step_ip (kept d)
unfolding local_interrupt
local_interrupt-held e det d = simp (held_kept, step_in_int-held)

dma_interrupt-held :
    (e : Env) (mode bit : ℕ) (active : Bool) (source : ℕ)
    → Keeps (dma_interrupt e mode bit active source)
unfolding dma_interrupt kept
dma_interrupt-held e mode bit active source d =
    ground (arith, debug_time-held e (reg_read e plx mode d).1)

count_irq_none-held : Keeps count_irq_none
unfolding count_irq_none kept
count_irq_none-held d = refl

schedule_dpc-held : (s : ℕ) → Keeps (schedule_dpc s)
unfolding schedule_dpc kept
schedule_dpc-held s d = refl

interrupts_disable-held : (e : Env) → Keeps (plx_chip_interrupts_disable e)
unfolding plx_chip_interrupts_disable kept
interrupts_disable-held e d = refl

interrupts_enable-held : (e : Env) → Keeps (plx_chip_interrupts_enable e)
unfolding plx_chip_interrupts_enable kept
interrupts_enable-held e d = refl

defer-held : (e : Env) (source : ℕ) → Keeps (defer e source)
unfolding defer
defer-held e source d = ground (
  arith,
  count_irq_none-held d,
  interrupts_disable-held e d,
  schedule_dpc-held source (plx_chip_interrupts_disable e d).1,
)

find_dma_sources-held : (e : Env) (pci source : ℕ) → Keeps (find_dma_sources e pci source)
unfolding find_dma_sources
find_dma_sources-held e pci source d = simp (dma_interrupt-held, defer-held)

-- What an interrupt does to the ring, by the interrupt status that the handler reads.
with_local-held :
    (e : Env) (pci det : ℕ) (d : Driver)
    → kept (with_local e pci det d).1 ≡ stepped step_ip (kept d)
unfolding with_local
with_local-held e pci det d =
    ground (
      arith,
      local_interrupt-held e det d,
      find_dma_sources-held e pci 1 (local_interrupt e det d).1,
    )

-- The status registers that the handler reads, and whether it finds a local interrupt there.
abbrev pub pci_status : Env → Driver → ℕ
pci_status e d = (reg_read e plx int_ctrl_stat d).0

abbrev pub card_status : Env → Driver → ℕ
card_status e d = (command_link_read e pci_mc_card_status (reg_read e plx int_ctrl_stat d).1).0

abbrev pub finds_local : Env → Driver → Bool
finds_local e d =
    not (pci_status e d == 0xffff_ffff)
    && has_bit (pci_status e d) 8
    && is_local (pci_status e d) (card_status e d)

enabled_interrupt-held :
    (e : Env) (pci : ℕ) (d : Driver)
    → kept (enabled_interrupt e pci d).1 ≡ (
        if is_local pci (command_link_read e pci_mc_card_status d).0
        then stepped step_ip (kept d)
        else kept d)
unfolding enabled_interrupt kept
enabled_interrupt-held e pci d =
    let det = (command_link_read e pci_mc_card_status d).0 in
    let d1 = (command_link_read e pci_mc_card_status d).1 in by_test (is_local pci det)
  where
    by_test :
        (b : Bool)
        → kept
            ((if b
                then with_local e pci (command_link_read e pci_mc_card_status d).0
                else find_dma_sources e pci 0)
              (command_link_read e pci_mc_card_status d).1).1
          ≡ (if b then stepped step_ip (kept d) else kept d)
    by_test true = with_local-held e pci _ _
    by_test false = find_dma_sources-held e pci 0 _

pub plx_on_interrupt-held :
    (e : Env) (d : Driver)
    → kept (plx_on_interrupt e d).1 ≡ (if finds_local e d then stepped step_ip (kept d) else kept d)
unfolding plx_on_interrupt count_low_power count_master_disabled kept
plx_on_interrupt-held e d =
    ground (arith, enabled_interrupt-held e (pci_status e d) (reg_read e plx int_ctrl_stat d).1)

clear_dma_interrupt-held : (e : Env) (bit : ℕ) → Keeps (clear_dma_interrupt e bit)
unfolding clear_dma_interrupt kept
clear_dma_interrupt-held e bit d = refl

count_processed-held : Keeps count_processed
unfolding count_processed kept
count_processed-held d = refl

dpc_local-held : (e : Env) → Keeps (dpc_local e)
unfolding dpc_local plx_synchronized_register_modify kept
dpc_local-held e d = debug_time-held e d

step_write_pointer-held : (d : Driver) → kept (step_write_pointer d).1 ≡ stepped step_wp (kept d)
unfolding step_write_pointer kept
step_write_pointer-held d = ground arith

wake_up-held : Keeps (emit wake_up)
unfolding kept
wake_up-held d = refl

transfer_done-held :
    (e : Env) (bit : ℕ) (d : Driver) → kept (transfer_done e bit d).1 ≡ stepped step_wp (kept d)
unfolding transfer_done
transfer_done-held e bit d = simp (
  clear_dma_interrupt-held, count_processed-held, debug_time-held, step_write_pointer-held,
  wake_up-held,
)

-- A step of `wp` that is made if `b` holds.
abbrev pub if_stepped : Bool → Ring × ℕ → Ring × ℕ
if_stepped b p = if b then stepped step_wp p else p

when_local-held : (e : Env) (b : Bool) (d : Driver) → kept (when b (dpc_local e) d).1 ≡ kept d
when_local-held e true d = dpc_local-held e d
when_local-held e false d = refl

when_done-held :
    (e : Env) (b : Bool) (bit : ℕ) (d : Driver)
    → kept (when b (transfer_done e bit) d).1 ≡ if_stepped b (kept d)
when_done-held e true bit d = transfer_done-held e bit d
when_done-held e false bit d = refl

when_alert-held :
    (e : Env) (b : Bool) (d : Driver) → kept (when b (alert_read e 1) d).1 ≡ if_stepped b (kept d)
unfolding alert_read
when_alert-held e b d = when_done-held e b 11 d

-- What the deferred procedure does to the pointers and the semaphore, whatever its sources are.
pub plx_dpc_for_isr-held :
    (e : Env) (d : Driver)
    → kept (plx_dpc_for_isr e d).1
      ≡ if_stepped (has_bit d.source_ints 6) (if_stepped (has_bit d.source_ints 5) (kept d))
unfolding plx_dpc_for_isr serve
plx_dpc_for_isr-held e d =
    simp (interrupts_enable-held, when_alert-held, when_done-held, when_local-held)

pub local_interrupt-ring :
    (e : Env) (det : ℕ) (d : Driver)
    → (local_interrupt e det d).1.ring ≡ or_same d.ring (step_ip d.ring)
unfolding kept
local_interrupt-ring e det d = ap (λ (p : Ring × ℕ). p.0) (local_interrupt-held e det d)
