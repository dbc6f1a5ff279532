-- ===== src/Driver/Timer.antt =====
-- plx_read_fpga_reg, plx_write_fpga_reg, the other one-access register functions, and
-- plx_diff_since_read of plx_driver.c. An `int` is its bit pattern, a number below 2 ^ 32.
pub mod Wrap
use cjunk.Prelude.{ℕ, ◌+◌, ◌-◌, ◌%◌, ◌^◌, Bool, ltb, if◌then◌else◌}
use cjunk.Prelude.Word.{u32}
use cjunk.Driver.Defs.{
  Env, M, ◌>>=◌, ◌>>◌, return, reg_read, reg_write, command_link_read, command_link_write, plx,
  board, xx_board_timer,
}

unfoldable pub plx_read_fpga_reg : Env → ℕ → M ℕ
plx_read_fpga_reg e adr = command_link_read e adr

unfoldable pub plx_write_fpga_reg : ℕ → ℕ → M (Unit {0})
plx_write_fpga_reg adr v = command_link_write adr v

unfoldable pub plx_write_sram : ℕ → ℕ → M (Unit {0})
plx_write_sram adr v = reg_write board adr v

unfoldable pub plx_read_plx_reg : Env → ℕ → M ℕ
plx_read_plx_reg e adr = reg_read e plx adr

unfoldable pub plx_write_plx_reg : ℕ → ℕ → M (Unit {0})
plx_write_plx_reg adr v = reg_write plx adr v

-- curr < before, of two signed integers given by their bit patterns.
abbrev pub signed_lt : ℕ → ℕ → Bool
signed_lt a b = ltb (u32 (a + 2 ^ 31)) (u32 (b + 2 ^ 31))

-- The value of `result` in plx_diff_since_read.
unfoldable pub timer_diff : ℕ → ℕ → ℕ
timer_diff before curr =
    if signed_lt curr before
    then (2 ^ 24 - 1 + before + curr) % 2 ^ 24
    else u32 (curr + 2 ^ 32 - before)

unfoldable pub plx_diff_since_read : Env → M ℕ
unfolding plx_read_fpga_reg timer_diff
plx_diff_since_read e = do
  curr ← plx_read_fpga_reg e xx_board_timer
  λ d. (timer_diff d.before curr, record d { before = curr })

-- PDEBUG((..., plx_diff_since_read(p))): the timer is read only if the message is printed.
unfoldable pub debug_time : Env → M (Unit {0})
unfolding plx_diff_since_read
debug_time e d = if d.debug then (tt, (plx_diff_since_read e d).1) else (tt, d)
