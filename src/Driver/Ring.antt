-- ===== src/Driver/Ring.antt =====
-- The frame ring of the driver: the three pointers rp, wp and ip into the eight DMA buffers, and
-- the three pieces of code that move them, in plx_on_interrupt (ip), plx_dpc_for_isr (wp) and
-- plx_drv_read (rp). `none` is the branch that leaves the pointer where it was.

pub mod Order
pub mod Fifo
pub mod Overflow
use cjunk.Prelude.{ℕ, ◌+◌, ◌==◌, Bool, true, false, ◌&&◌, ◌||◌, Option, none, some, if◌then◌else◌}
use cjunk.Prelude.Word.{u8}
use cjunk.Driver.Defs.{Ring, no_of_buffers}

-- p++; if (p == NO_OF_BUFFERS) p = 0;
unfoldable pub advance : ℕ → ℕ
advance p = let q = u8 (p + 1) in if q == no_of_buffers then 0 else q

-- (p+1 == rp) || (p+1==NO_OF_BUFFERS && !(rp))
unfoldable pub reached_rp : ℕ → ℕ → Bool
reached_rp p rp = (p + 1 == rp) || (p + 1 == no_of_buffers && rp == 0)

-- The step of `ip` in plx_on_interrupt.
unfoldable pub step_ip : Ring → Option Ring
unfolding advance reached_rp
step_ip r = if reached_rp r.ip r.rp then none else some (record r { ip = advance r.ip })

-- The step of `wp` in plx_dpc_for_isr.
unfoldable pub step_wp : Ring → Option Ring
unfolding advance reached_rp
step_wp r = if reached_rp r.wp r.rp then none else some (record r { wp = advance r.wp })

-- The step of `rp` in plx_drv_read, after the frame was copied.
unfoldable pub step_rp : Ring → Option Ring
unfolding advance
step_rp r = if r.rp == r.ip then none else some (record r { rp = advance r.rp })

-- rp != wp: a frame can be read.
unfoldable pub is_readable : Ring → Bool
is_readable r = if r.rp == r.wp then false else true
