-- ===== src/Driver/Reset/Frame.antt =====
-- plx_board_reset (plx_driver.c) has no effect on the frame ring and the semaphore.
use cjunk.Prelude.{ℕ, ◌≡◌, refl, ◌∙◌, Bool, true, false, arith}
use cjunk.Prelude.Word.{has_bit}
use cjunk.Driver.Defs.{Env, Driver, M, pci_config, cfg_int_line, reg_write}
use cjunk.Driver.Held.{held}
use cjunk.Driver.Reset.{
  Saved, clear_errors, save, reset_and_restore, when, pulse, restore_i2o, restore_eeprom,
  read_hot_swap, plx_board_reset,
}

held-when :
    (b : Bool) (m : M (Unit {0})) (d : Driver)
    → held (m d).1 ≡ held d
    → held (when b m d).1 ≡ held d
held-when true m d h = h
held-when false m d h = refl

held-read_hot_swap : (e : Env) (w : ℕ) (d : Driver) → held (read_hot_swap e w d).1 ≡ held d
unfolding read_hot_swap
held-read_hot_swap e w d = ground arith

held-clear_errors : (e : Env) (d : Driver) → held (clear_errors e d).1 ≡ held d
unfolding clear_errors
held-clear_errors e d = ground arith

held-save : (e : Env) (d : Driver) → held (save e d).1 ≡ held d
unfolding save
held-save e d = simp (held-read_hot_swap, held-clear_errors)

held-reset_and_restore :
    (e : Env) (s : Saved) (d : Driver) → held (reset_and_restore e s d).1 ≡ held d
unfolding reset_and_restore
held-reset_and_restore e s d =
    let d1 = (pulse s.eeprom d).1 in
    let d2 = (when (has_bit s.fifo 0) (restore_i2o e) d1).1 in
    let d3 = (reg_write pci_config cfg_int_line s.interrupt_line d2).1 in
    held-when (has_bit s.eeprom 28) (restore_eeprom e s.hot_swap) d3 refl
    ∙ held-when (has_bit s.fifo 0) (restore_i2o e) d1 refl

pub board_reset-held : (e : Env) (d : Driver) → held (plx_board_reset e d).1 ≡ held d
unfolding plx_board_reset
board_reset-held e d = held-reset_and_restore e (save e d).0 (save e d).1 ∙ held-save e d
