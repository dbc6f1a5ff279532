-- ===== src/Driver/Reset.antt =====
-- plx_board_reset of plx_driver.c: the software reset of the PLX chip. The delays are left out.
pub mod Registers
pub mod Frame
use cjunk.Prelude.{ℕ, ◌^◌, ◌-◌, [], ◌∷◌, Bool, true, false, ltb, if◌then◌else◌}
use cjunk.Prelude.Word.{has_bit, set_bit, clear_bit, clear_bits}
use cjunk.Driver.Defs.{
  Env, M, ◌>>=◌, ◌>>◌, return, reg_read, reg_write, plx, pci_config, Status, api_success,
  cfg_command, cfg_int_line, hs_cap_id, pm_csr, fifo_ctrl_stat, eeprom_ctrl_stat,
}

-- The body of an `if` with no `else`.
abbrev when : Bool → M (Unit {0}) → M (Unit {0})
when true m = m
when false m = return tt

-- The writes that hold the chip in reset, release it, and reload the EEPROM.
pulse : ℕ → M (Unit {0})
pulse v = do
  reg_write plx eeprom_ctrl_stat (set_bit v 30)
  reg_write plx eeprom_ctrl_stat v
  reg_write plx eeprom_ctrl_stat (set_bit v 29)
  reg_write plx eeprom_ctrl_stat v

restore_i2o : Env → M (Unit {0})
restore_i2o e = do v ← reg_read e plx fifo_ctrl_stat; reg_write plx fifo_ctrl_stat (set_bit v 0)

-- The saved hot swap register is written back; the power management register is read again.
restore_eeprom : Env → ℕ → M (Unit {0})
restore_eeprom e hot_swap = do
  reg_write pci_config hs_cap_id (clear_bits hot_swap (23 ∷ 22 ∷ 17 ∷ []))
  _ ← reg_read e pci_config pm_csr
  return tt

-- The registers that are saved if an EEPROM is present: hot swap, and power management.
save_eeprom : Env → M ℕ
save_eeprom e = do
  hot_swap ← reg_read e pci_config hs_cap_id
  _ ← reg_read e pci_config pm_csr
  return hot_swap

-- What the first half of plx_board_reset keeps for the second.
record Saved : Type 0 where
  eeprom : ℕ
  fifo : ℕ
  interrupt_line : ℕ
  hot_swap : ℕ

-- RegHotSwap is set only if an EEPROM is present.
read_hot_swap : Env → ℕ → M ℕ
unfolding save_eeprom
read_hot_swap e w = if has_bit w 28 then save_eeprom e else return 0

clear_errors : Env → M (Unit {0})
clear_errors e = do
  v ← reg_read e pci_config cfg_command
  when (ltb (2 ^ 27 - 1) v) (reg_write pci_config cfg_command v)

save : Env → M Saved
unfolding read_hot_swap clear_errors
save e = do
  clear_errors e
  fifo ← reg_read e plx fifo_ctrl_stat
  v ← reg_read e plx eeprom_ctrl_stat
  let w = clear_bits v (30 ∷ 29 ∷ [])
  line ← reg_read e pci_config cfg_int_line
  hot_swap ← read_hot_swap e w
  return (record { eeprom = w; fifo = fifo; interrupt_line = line; hot_swap = hot_swap })

reset_and_restore : Env → Saved → M Status
unfolding pulse restore_i2o restore_eeprom
reset_and_restore e s = do
  pulse s.eeprom
  when (has_bit s.fifo 0) (restore_i2o e)
  reg_write pci_config cfg_int_line s.interrupt_line
  when (has_bit s.eeprom 28) (restore_eeprom e s.hot_swap)
  return api_success

unfoldable pub plx_board_reset : Env → M Status
unfolding save reset_and_restore
plx_board_reset e = do s ← save e; reset_and_restore e s
