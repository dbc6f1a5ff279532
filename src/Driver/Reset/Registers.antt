-- ===== src/Driver/Reset/Registers.antt =====
-- Which registers plx_board_reset (plx_driver.c) writes back.
use cjunk.Prelude.{
  ℕ, suc, ◌≡◌, refl, List, [], ◌∷◌, Bool, true, false, ◌==◌, ◌&&◌, arith, if◌then◌else◌, ◌∙◌,
}
use cjunk.Prelude.Word.{has_bit}
use cjunk.Driver.Defs.{
  Env, Driver, Space, plx, board, pci_config, Access, write, pm_csr, cfg_int_line, reg_write, M,
}
use cjunk.Driver.Reset.{
  Saved, clear_errors, save, reset_and_restore, when, pulse, restore_i2o, restore_eeprom,
  read_hot_swap, plx_board_reset,
}

abbrev same_space : Space → Space → Bool
same_space plx plx = true
same_space board board = true
same_space pci_config pci_config = true
same_space _ _ = false

abbrev is_write_to : Space → ℕ → Access → Bool
is_write_to s off (write t o v) = same_space s t && (off == o)
is_write_to s off _ = false

-- How often a register was written.
abbrev pub writes : Space → ℕ → List Access → ℕ
writes s off [] = 0
writes s off (a ∷ t) = if is_write_to s off a then suc (writes s off t) else writes s off t

writes-when :
    (b : Bool) (m : M (Unit {0})) (d : Driver)
    → writes pci_config pm_csr (m d).1.trace ≡ writes pci_config pm_csr d.trace
    → writes pci_config pm_csr (when b m d).1.trace ≡ writes pci_config pm_csr d.trace
writes-when true m d h = h
writes-when false m d h = refl

writes-read_hot_swap :
    (e : Env) (w : ℕ) (d : Driver)
    → writes pci_config pm_csr (read_hot_swap e w d).1.trace ≡ writes pci_config pm_csr d.trace
unfolding read_hot_swap
writes-read_hot_swap e w d = ground arith

writes-clear_errors :
    (e : Env) (d : Driver)
    → writes pci_config pm_csr (clear_errors e d).1.trace ≡ writes pci_config pm_csr d.trace
unfolding clear_errors
writes-clear_errors e d = ground arith

writes-save :
    (d : Driver) (e : Env)
    → writes pci_config pm_csr (save e d).1.trace ≡ writes pci_config pm_csr d.trace
unfolding save
writes-save d e = simp (writes-read_hot_swap, writes-clear_errors)

writes-reset_and_restore :
    (d : Driver) (e : Env) (s : Saved)
    → writes pci_config pm_csr (reset_and_restore e s d).1.trace ≡ writes pci_config pm_csr d.trace
unfolding reset_and_restore
writes-reset_and_restore d e s =
    let d1 = (pulse s.eeprom d).1 in
    let d2 = (when (has_bit s.fifo 0) (restore_i2o e) d1).1 in
    let d3 = (reg_write pci_config cfg_int_line s.interrupt_line d2).1 in
    writes-when (has_bit s.eeprom 28) (restore_eeprom e s.hot_swap) d3 refl
    ∙ writes-when (has_bit s.fifo 0) (restore_i2o e) d1 refl

-- The saved power management register is never written back: whatever the device answers, the
-- reset makes no write to it.
pub pm_csr_not_restored :
    (e : Env) (d : Driver)
    → writes pci_config pm_csr (plx_board_reset e d).1.trace ≡ writes pci_config pm_csr d.trace
unfolding plx_board_reset
pm_csr_not_restored e d = writes-reset_and_restore (save e d).1 e (save e d).0 ∙ writes-save d e
