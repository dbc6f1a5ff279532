-- ===== src/Driver/Chip.antt =====
-- plx_driver.c: the control of the PLX chip. DMA control and status, the register update that is
-- synchronized with the interrupt handler, the master interrupt switch, and the board reset.
-- A bit mask is given by the numbers of its bits.
use cjunk.Prelude.{ℕ, zero, suc, ◌+◌, List, [], ◌∷◌, not, ◌||◌, if◌then◌else◌}
use cjunk.Prelude.Word.{has_bit, set_bit, clear_bit, set_bits, clear_bits}
use cjunk.Driver.Defs.{
  Env, M, ◌>>=◌, ◌>>◌, return, reg_read, reg_write, plx, Status, api_success,
  api_dma_channel_invalid, api_dma_done, api_dma_paused, api_dma_in_progress,
  api_dma_command_invalid, dma_command_stat, int_ctrl_stat,
}

-- PLX_DMA_COMMAND; `other` is any further value of the C enumeration's type.
pub data DmaCommand : Type 0 where
  dma_pause dma_resume dma_abort other : DmaCommand

-- The switch on the command in plx_chip_dma_control, for a channel whose bits stand at `shift`.
control : Env → ℕ → DmaCommand → M Status
control e shift dma_pause = do
  v ← reg_read e plx dma_command_stat
  reg_write plx dma_command_stat (clear_bit v (0 + shift))
  w ← reg_read e plx dma_command_stat
  return (if has_bit w (4 + shift) then api_dma_done else api_success)
control e shift dma_resume = do
  v ← reg_read e plx dma_command_stat
  (if has_bit v (4 + shift) || has_bit v (0 + shift)
      then return api_dma_in_progress
      else (reg_write plx dma_command_stat (set_bit v (0 + shift)) >> return api_success))
control e shift dma_abort = do
  v ← reg_read e plx dma_command_stat
  reg_write plx dma_command_stat (clear_bits v ((0 + shift) ∷ (1 + shift) ∷ (2 + shift) ∷ []))
  w ← reg_read e plx dma_command_stat
  (if has_bit w (4 + shift)
      then return api_dma_done
      else (reg_write plx dma_command_stat (set_bit w (2 + shift)) >> return api_success))
control e shift other = return api_dma_command_invalid

unfoldable pub plx_chip_dma_control : Env → ℕ → DmaCommand → M Status
unfolding control
plx_chip_dma_control e zero command = control e 0 command
plx_chip_dma_control e (suc zero) command = control e 8 command
plx_chip_dma_control e (suc (suc n)) command = return api_dma_channel_invalid

status_at : Env → ℕ → M Status
status_at e shift = do
  v ← reg_read e plx dma_command_stat
  return (
      if not (has_bit v (4 + shift) || has_bit v (0 + shift))
      then api_dma_paused
      else if has_bit v (4 + shift)
      then api_dma_done
      else api_dma_in_progress)

unfoldable pub plx_chip_dma_status : Env → ℕ → M Status
unfolding status_at
plx_chip_dma_status e zero = status_at e 0
plx_chip_dma_status e (suc zero) = status_at e 8
plx_chip_dma_status e (suc (suc n)) = return api_dma_channel_invalid

-- PLX_REG_DATA: the register's offset, BitsToSet and BitsToClear.
unfoldable pub plx_synchronized_register_modify : Env → ℕ → List ℕ → List ℕ → M (Unit {0})
plx_synchronized_register_modify e offset bits_to_set bits_to_clear = do
  v ← reg_read e plx offset
  reg_write plx offset (clear_bits (set_bits v bits_to_set) bits_to_clear)

unfoldable pub plx_chip_interrupts_enable : Env → M (Unit {0})
unfolding plx_synchronized_register_modify
plx_chip_interrupts_enable e = plx_synchronized_register_modify e int_ctrl_stat (8 ∷ 11 ∷ []) []

unfoldable pub plx_chip_interrupts_disable : Env → M (Unit {0})
unfolding plx_synchronized_register_modify
plx_chip_interrupts_disable e = plx_synchronized_register_modify e int_ctrl_stat [] (8 ∷ [])
