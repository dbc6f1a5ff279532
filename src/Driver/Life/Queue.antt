-- ===== src/Driver/Life/Queue.antt =====
-- The interrupt handler, its deferred procedure and plx_drv_read together (plx_interrupt.c,
-- plx_fops.c), against the queue of frames of Driver/Ring/Fifo. Memory is a function from a buffer's
-- index to the frame in it. The handler lets the board put a frame into the buffer at `ip`, unless it
-- counts a failed transfer; a read returns the buffer that it copied to user space. A blocking read that
-- finds no frame sleeps: what it does when it wakes up is a further read of the sequence.
pub mod Each
pub mod Delivered
use mathlib.Core.Path.{subst}
use cjunk.Prelude.{
  ℕ, ◌+◌, ◌-◌, ◌<◌, ◌≡◌, refl, sym, ap, ◌∙◌, Option-cases, inl, inr, ◌==◌, Bool, true, false, List,
  [], ◌∷◌, Option, none, some, ℤ, pos, negsuc, arith, if◌then◌else◌,
}
use cjunk.Prelude.Word.{has_bit, u32}
use cjunk.Driver.Defs.{Env, Driver, Ring, Access}
use cjunk.Driver.Held.{held, kept}
use cjunk.Driver.Ring.{step_ip, step_wp, step_rp, is_readable}
use cjunk.Driver.Ring.Order.{IsOrdered, step_rp_made}
use cjunk.Driver.Ring.Fifo.{
  Event, capture, complete, Buffers, update, step, run, Pipeline, spec_step, spec_run, view,
  Refines, step-Refines, spec_run-inv,
}
use cjunk.Driver.Interrupt.{plx_on_interrupt, plx_dpc_for_isr}
use cjunk.Driver.Interrupt.Kept.{
  finds_local, if_stepped, stepped, plx_on_interrupt-held, plx_dpc_for_isr-held,
}
use cjunk.Driver.Fops.{plx_drv_read, holding, down_interruptible, up, eagain}
use cjunk.Driver.Fops.Reading.{last_copied}

-- An interrupt with the frame that the board holds, the deferred procedure, and a read of a length,
-- with O_NONBLOCK or without.
pub data Call : Type 0 where
  interrupt : ℕ → Call
  dpc : Call
  read : Bool → ℕ → Call

-- The driver, and the frames in its buffers.
pub record Grabber : Type 0 where
  pub driver : Driver
  pub memory : ℕ → ℕ

-- The transfer that the handler starts, if any, is not refused.
abbrev pub starts : Env → Driver → Bool
starts e d = (plx_on_interrupt e d).1.cntr.failed_dma == d.cntr.failed_dma

-- The frame in the buffer at `ip` after an interrupt that brings `x`.
abbrev pub taken : Env → Grabber → ℕ → ℕ
taken e m x = if starts e m.driver then x else m.memory m.driver.ring.ip

-- The driver's state after a read that found no frame: it has counted itself, and has released the
-- semaphore, whether it returns or sleeps.
abbrev pub turned_away : Driver → Driver
turned_away d = record d {
  read_semph = d.read_semph - 1 + 1;
  cntr = let c = d.cntr in record c { read = u32 (c.read + 1) };
}

abbrev pub got : Grabber → Option (ℤ × Driver) → Grabber × Option ℕ
got m none = (record m { driver = turned_away m.driver }, none)
got m (some (pos n, d)) = (record m { driver = d }, some (m.memory (last_copied d.trace)))
got m (some (negsuc n, d)) = (record m { driver = d }, none)

-- One call, and the frame that a reader gets.
abbrev pub serve : Env → Grabber → Call → Grabber × Option ℕ
serve e m (interrupt x) = (
  record {
    driver = (plx_on_interrupt e m.driver).1;
    memory =
        if finds_local e m.driver then update m.memory m.driver.ring.ip (taken e m x) else m.memory;
  },
  none,
)
serve e m dpc = (record m { driver = (plx_dpc_for_isr e m.driver).1 }, none)
serve e m (read nonblock len) = got m (plx_drv_read e nonblock len [] m.driver)

abbrev pub add_frame : Option ℕ → List ℕ → List ℕ
add_frame none xs = xs
add_frame (some x) xs = x ∷ xs

-- The frames that the reads of a sequence of calls return, in order.
abbrev pub delivered : Env → Grabber → List Call → List ℕ
delivered e m [] = []
delivered e m (c ∷ cs) = let (m', out) = serve e m c in add_frame out (delivered e m' cs)

abbrev pub event_if : Bool → Event → List Event → List Event
event_if b ev es = if b then ev ∷ es else es

-- What a call asks of the queue, before `es`.
abbrev pub asks : Env → Grabber → Call → List Event → List Event
asks e m (interrupt x) es = event_if (finds_local e m.driver) (capture (taken e m x)) es
asks e m dpc es =
    event_if (has_bit m.driver.source_ints 5) complete
      (event_if (has_bit m.driver.source_ints 6) complete es)
asks e m (read nonblock len) es = Event.fetch ∷ es

abbrev pub events : Env → Grabber → List Call → List Event
events e m [] = []
events e m (c ∷ cs) = asks e m c (events e (serve e m c).0 cs)

abbrev pub frames : List (Option ℕ) → List ℕ
frames [] = []
frames (out ∷ outs) = add_frame out (frames outs)

abbrev pub buffers : Grabber → Buffers
buffers m = record { ring = m.driver.ring; slot = m.memory }
