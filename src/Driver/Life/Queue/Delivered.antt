-- ===== src/Driver/Life/Queue/Delivered.antt =====
-- A sequence of interrupts, deferred procedures and reads, against the queue of frames
-- (plx_interrupt.c, plx_fops.c).
use mathlib.Core.Path.{subst}
use cjunk.Prelude.{ℕ, ◌<◌, ◌≡◌, refl, sym, ap, ◌∙◌, false, List, [], ◌∷◌, Option, some, arith}
use cjunk.Prelude.Word.{has_bit}
use cjunk.Driver.Defs.{Env, Access}
use cjunk.Driver.Ring.Order.{IsOrdered}
use cjunk.Driver.Ring.Fifo.{Event, capture, complete, spec_run, view}
use cjunk.Driver.Interrupt.Kept.{finds_local}
use cjunk.Driver.Fops.Reading.{IsQuiet}
use cjunk.Driver.Life.Queue.{
  Call, interrupt, dpc, read, Grabber, taken, serve, add_frame, delivered, events, frames, buffers,
}
use cjunk.Driver.Life.Queue.Each.{
  GoesOn, one_event, after_if, capture-silent, complete-silent, interrupt_buffers, dpc_buffers,
  read-Ends, interrupt-semph, dpc-semph, completed_if,
}

module _ (e : Env) (quiet : IsQuiet e) (copies : (t : List Access) → e.copy_fails t ≡ false) where
  calls-GoesOn :
      (m : Grabber) (cs : List Call) (xs : List ℕ)
      → 0 < m.driver.read_semph
      → GoesOn (buffers m) (events e m cs) xs
      → delivered e m cs ≡ xs
  unfolding spec_run
  calls-GoesOn m [] xs free g = let nil : [] ≡ g.rest = ground arith in ap frames nil ∙ sym g.brings
  calls-GoesOn m (interrupt x ∷ cs) xs free g =
      let m' = (serve e m (interrupt x)).0 in
      let g' =
        after_if (finds_local e m.driver) (buffers m) (capture (taken e m x))
          (capture-silent (buffers m) (taken e m x)) g in
      calls-GoesOn m' cs xs (omega (arith, interrupt-semph e m.driver))
        (subst (λ b. GoesOn b (events e m' cs) xs) (interrupt_buffers e m x) g')
  calls-GoesOn m (dpc ∷ cs) xs free g =
      let m' = (serve e m dpc).0 in
      let b5 = completed_if (has_bit m.driver.source_ints 5) (buffers m) in
      let g5 =
        after_if (has_bit m.driver.source_ints 5) (buffers m) complete (complete-silent (buffers m))
          g in
      let g6 = after_if (has_bit m.driver.source_ints 6) b5 complete (complete-silent b5) g5 in
      calls-GoesOn m' cs xs (omega (arith, dpc-semph e m.driver))
        (subst (λ b. GoesOn b (events e m' cs) xs) (dpc_buffers e m) g6)
  calls-GoesOn m (read nonblock len ∷ cs) xs free g =
      let m' = (serve e m (read nonblock len)).0 in
      let r = read-Ends e m nonblock len quiet copies free g.ordered in
      let (ys, eq, g') = one_event (buffers m) Event.fetch (events e m' cs) xs g in
      let ih = calls-GoesOn m' cs ys r.free (subst (λ b. GoesOn b (events e m' cs) ys) r.same g') in
      ap (add_frame (serve e m (read nonblock len)).1) ih
      ∙ sym (ap (λ o. add_frame o ys) r.brings)
      ∙ sym eq

-- With no signal and user memory that can be written, with the semaphore free and an ordered ring:
-- whatever the device does, and in whatever order interrupts, deferred procedures and reads come, with
-- O_NONBLOCK or without, where a blocking read that finds no frame sleeps and comes again as a further
-- read when it wakes up: the frames that the reads return are those of the queue, as long as each end of a transfer that the
-- deferred procedure is told of ends one that was under way. The queue takes the frame of each
-- interrupt, in order, drops it while it holds seven, and where the handler could not start the
-- transfer takes in its place what the buffer held before.
pub delivered_refines :
    (e : Env)
    → IsQuiet e
    → ((t : List Access) → e.copy_fails t ≡ false)
    → (m : Grabber) (cs : List Call) {outs : List (Option ℕ)} → 0 < m.driver.read_semph
    → IsOrdered m.driver.ring
    → spec_run (view (buffers m)) (events e m cs) ≡ some outs
    → delivered e m cs ≡ frames outs
delivered_refines e quiet copies m cs {outs} free v h =
    calls-GoesOn e quiet copies m cs (frames outs) free
      (record { ordered = v; rest = outs; runs = h; brings = refl })
