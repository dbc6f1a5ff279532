-- ===== src/Driver/Interrupt/Refused.antt =====
-- plx_interrupt.c: an interrupt whose transfer the DMA channel refuses.
use cjunk.Prelude.{ℕ, ◌+◌, ◌≡◌, refl, false, List, arith}
use cjunk.Prelude.Word.{u32, has_bit}
use cjunk.Driver.Defs.{Env, Driver, M, Access, plx, dma_command_stat}
use cjunk.Driver.Ring.{step_ip}
use cjunk.Driver.Timer.{debug_time, plx_write_sram}
use cjunk.Driver.Dma.{plx_dma_transfer_block}
use cjunk.Driver.Interrupt.{
  count_lost_hw_int, count_irq, check_hw_buffer, next_hw_buffer, count_failed_dma,
  clear_board_interrupt, stamp_frame, step_in_int, local_interrupt,
}
use cjunk.Driver.Interrupt.Kept.{or_same, local_interrupt-ring}

abbrev KeepsCount : {A : Type 0} → M A → Type 0
KeepsCount m = (d : Driver) → (m d).1.cntr.failed_dma ≡ d.cntr.failed_dma

debug_time-count : (e : Env) → KeepsCount (debug_time e)
unfolding debug_time
debug_time-count e d = ground arith

count_lost_hw_int-count : (det : ℕ) → KeepsCount (count_lost_hw_int det)
unfolding count_lost_hw_int
count_lost_hw_int-count det d = ground arith

count_irq-count : KeepsCount count_irq
unfolding count_irq
count_irq-count d = refl

check_hw_buffer-count : (det : ℕ) → KeepsCount (check_hw_buffer det)
unfolding check_hw_buffer
check_hw_buffer-count det d = ground arith

next_hw_buffer-count : KeepsCount next_hw_buffer
unfolding next_hw_buffer
next_hw_buffer-count d = refl

clear_board_interrupt-count : (det : ℕ) → KeepsCount (clear_board_interrupt det)
unfolding clear_board_interrupt
clear_board_interrupt-count det d = refl

stamp_frame-count : (base det : ℕ) → KeepsCount (stamp_frame base det)
unfolding stamp_frame plx_write_sram
stamp_frame-count base det d = refl

step_in_int-count : KeepsCount step_in_int
unfolding step_in_int
step_in_int-count d = ground arith

-- The channel reports a transfer in progress at every reading.
abbrev pub IsBusy : Env → Type 0
IsBusy e = (t : List Access) → has_bit (u32 (e.reg t plx dma_command_stat)) 4 ≡ false

refused-count :
    (e : Env) (buf : ℕ) (d : Driver)
    → IsBusy e
    → let (s, d') = plx_dma_transfer_block e buf 0 d in
      (count_failed_dma s d').1.cntr.failed_dma ≡ u32 (d.cntr.failed_dma + 1)
unfolding plx_dma_transfer_block count_failed_dma
refused-count e buf d busy = ground (arith, busy d.trace)

-- While channel 0 is busy at every reading, the code for a local interrupt counts a failed transfer
-- and yet steps `ip`, unless the ring is full.
refused_transfer_steps :
    (e : Env) (det : ℕ) (d : Driver)
    → IsBusy e
    → let d' = (local_interrupt e det d).1 in
      (d'.cntr.failed_dma ≡ u32 (d.cntr.failed_dma + 1))
      × (d'.ring ≡ or_same d.ring (step_ip d.ring))
unfolding local_interrupt
refused_transfer_steps e det d busy = (
  simp (
    step_in_int-count,
    λ (buf : ℕ) (d' : Driver). refused-count e buf d' busy,
    stamp_frame-count,
    clear_board_interrupt-count,
    next_hw_buffer-count,
    check_hw_buffer-count,
    debug_time-count,
    count_irq-count,
    count_lost_hw_int-count,
  ),
  local_interrupt-ring e det d,
)
