-- ===== src/Driver/Life/Safe.antt =====
-- What the moves keep, and so every sequence of calls of the driver: buffers that exist, and a
-- semaphore that is never freed twice, nor at all once it is lost.
use cjunk.Prelude.{ℕ, ◌≤◌, ◌<◌, ◌≡◌, Bool, none, List, arith}
use cjunk.Driver.Defs.{Env, Driver, Ring, no_of_buffers}
use cjunk.Driver.Held.{held}
use cjunk.Driver.Ring.{advance, step_ip, step_wp, step_rp}
use cjunk.Driver.Fops.{Wake, down_interruptible, plx_drv_read, plx_drv_poll}
use cjunk.Driver.Fops.Reading.{IsQuiet}
use cjunk.Driver.Life.{
  Who, Anyone, Run, Move, started, completed, consumed, reopened, restarted, lost, Moves, still,
  also,
}
use cjunk.Driver.Life.Refine.{calls_refine}

-- The pointers name buffers, and the semaphore is a mutex.
pub record IsSafe (p : Ring × ℕ) : Type 0 where
  pub rp_in : p.0.rp < no_of_buffers
  pub wp_in : p.0.wp < no_of_buffers
  pub ip_in : p.0.ip < no_of_buffers
  pub mutex : p.1 ≤ 1

Move-IsSafe : (w : Who) (p q : Ring × ℕ) → IsSafe p → Move w p q → IsSafe q
unfolding step_ip step_wp step_rp advance
Move-IsSafe w p q v (started go) = ground arith
Move-IsSafe w p q v (completed go) = ground arith
Move-IsSafe w p q v (consumed free ready go) = ground arith
Move-IsSafe w p q v reopened = ground arith
Move-IsSafe w p q v restarted = ground arith
Move-IsSafe w p q v (lost free ready stop) = ground arith

Moves-IsSafe : (p q : Ring × ℕ) → IsSafe p → Moves Anyone p q → IsSafe q
Moves-IsSafe p q v still = v
Moves-IsSafe p q v (also {w} {q = m} c mv ms) = Moves-IsSafe m q (Move-IsSafe w p m v mv) ms

-- If the three pointers name buffers of the ring and the count of read_semph is at most 1, the same
-- holds after any sequence of calls of the driver.
pub run-IsSafe :
    (e : Env) (fuel : ℕ) (d d' : Driver) → IsSafe (held d) → Run e fuel d d' → IsSafe (held d')
run-IsSafe e fuel d d' v r = Moves-IsSafe _ _ v (calls_refine e fuel Anyone d d' r)

Move-le : (w : Who) (p q : Ring × ℕ) → Move w p q → q.1 ≤ p.1
Move-le w p q (started go) = omega arith
Move-le w p q (completed go) = omega arith
Move-le w p q (consumed free ready go) = omega arith
Move-le w p q reopened = omega arith
Move-le w p q restarted = omega arith
Move-le w p q (lost free ready stop) = omega arith

Moves-le : (p q : Ring × ℕ) → Moves Anyone p q → q.1 ≤ p.1
Moves-le p q still = omega arith
Moves-le p q (also {w} {q = m} c mv ms) = omega (arith, Move-le w p m mv, Moves-le m q ms)

-- Once the count of read_semph is 0 and no call holds it, no sequence of calls recovers it, not even
-- closing the device and opening it again, or an ORDER_HW: while no signal comes, every read and
-- every poll sleeps for good, whatever wakes it.
pub lost_for_good :
    (e : Env) (fuel : ℕ) (d d' : Driver)
    → IsQuiet e
    → d.read_semph ≡ 0
    → Run e fuel d d'
    → ((nonblock : Bool) (len : ℕ) (ws : List Wake) → plx_drv_read e nonblock len ws d' ≡ none)
      × (plx_drv_poll e d' ≡ none)
unfolding plx_drv_read plx_drv_poll down_interruptible
lost_for_good e fuel d d' quiet taken r =
    let small = Moves-le _ _ (calls_refine e fuel Anyone d d' r) in
    (λ nonblock len ws. ground (arith, quiet d'.trace), ground (arith, quiet d'.trace))
