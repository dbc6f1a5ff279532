-- ===== src/Driver/Timer/Wrap.antt =====
-- plx_diff_since_read (plx_driver.c) against the time that has passed on a 24 bit timer.
use cjunk.Prelude.{ℕ, ◌+◌, ◌-◌, ◌*◌, ◌%◌, ◌^◌, ◌≤◌, ◌<◌, ◌≡◌, ◌↔◌, arith}
use cjunk.Driver.Timer.{timer_diff}

-- The ticks from `before` to `curr` on a timer that wraps at 2 ^ 24.
abbrev pub elapsed : ℕ → ℕ → ℕ
elapsed before curr = (curr + 2 ^ 24 - before) % 2 ^ 24

-- Between two readings of a 24 bit timer, the result is the time that has passed exactly if the
-- later reading is not below the earlier one: after such a wrap it is wrong at every pair of them.
pub timer_diff_right_iff :
    (before curr : ℕ)
    → before < 2 ^ 24
    → curr < 2 ^ 24
    → (timer_diff before curr ≡ elapsed before curr) ↔ (before ≤ curr)
unfolding timer_diff
timer_diff_right_iff before curr hb hc = (λ h. ground arith, λ h. ground arith)

-- What the wrap branch returns: off by twice the earlier reading, less one.
pub timer_diff_wrapped :
    (before curr : ℕ)
    → before < 2 ^ 24
    → curr < before
    → timer_diff before curr ≡ (elapsed before curr + 2 * before + 2 ^ 24 - 1) % 2 ^ 24
unfolding timer_diff
timer_diff_wrapped before curr hb hc = ground arith
