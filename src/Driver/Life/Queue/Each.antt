-- ===== src/Driver/Life/Queue/Each.antt =====
-- Each call of the interrupt handler, of the deferred procedure and of plx_drv_read, as events of the
-- ring (plx_interrupt.c, plx_fops.c).
use mathlib.Core.Path.{subst}
use cjunk.Prelude.{
  ℕ, ◌<◌, ◌≡◌, refl, sym, ap, ◌∙◌, Option-cases, inl, inr, Bool, true, false, List, [], ◌∷◌, Option,
  none, some, ℤ, pos, negsuc, arith, if◌then◌else◌,
}
use cjunk.Prelude.Word.{has_bit}
use cjunk.Driver.Defs.{Env, Driver, Ring, Access}
use cjunk.Driver.Held.{kept}
use cjunk.Driver.Ring.{step_ip, step_rp, is_readable}
use cjunk.Driver.Ring.Order.{IsOrdered, step_rp_made}
use cjunk.Driver.Ring.Fifo.{
  Event, capture, complete, Buffers, update, step, spec_run, view, step-Refines, spec_run-inv,
}
use cjunk.Driver.Interrupt.{plx_on_interrupt, plx_dpc_for_isr}
use cjunk.Driver.Interrupt.Kept.{
  finds_local, if_stepped, stepped, plx_on_interrupt-held, plx_dpc_for_isr-held,
}
use cjunk.Driver.Fops.{plx_drv_read, holding, asleep, down_interruptible, up, eagain}
use cjunk.Driver.Fops.Reading.{last_copied, IsQuiet, read_ready}
use cjunk.Driver.Life.Queue.{
  interrupt, dpc, Grabber, taken, turned_away, got, serve, add_frame, event_if, frames, buffers,
}

-- The queue's run goes on after `b`, with the frames `xs` to come.
pub record GoesOn (b : Buffers) (es : List Event) (xs : List ℕ) : Type 0 where
  pub ordered : IsOrdered b.ring
  pub rest : List (Option ℕ)
  pub runs : spec_run (view b) es ≡ some rest
  pub brings : xs ≡ frames rest

pub one_event :
    (b : Buffers) (ev : Event) (es : List Event) (xs : List ℕ)
    → GoesOn b (ev ∷ es) xs
    → (ys : List ℕ) × (xs ≡ add_frame (step b ev).1 ys) × GoesOn (step b ev).0 es ys
one_event b ev es xs g =
    let (q, out, rest, i, k, eq) = spec_run-inv (view b) ev es g.runs in
    let r = step-Refines b ev g.ordered i in
    (
      frames rest,
      g.brings ∙ sym (ap frames eq) ∙ ap (λ o. add_frame o (frames rest)) (sym r.same_out),
      record { ordered = r.ordered; rest = rest; runs = rw r.same_view k; brings = refl },
    )

-- An event that brings no frame, and is there if `c` holds.
pub after_if :
    (c : Bool) (b : Buffers) (ev : Event) {es : List Event} {xs : List ℕ}
    → (step b ev).1 ≡ none
    → GoesOn b (event_if c ev es) xs
    → GoesOn (if c then (step b ev).0 else b) es xs
after_if false b ev silent g = g
after_if true b ev {es} {xs} silent g =
    let (ys, eq, g') = one_event b ev es xs g in
    let same : xs ≡ ys = eq ∙ ap (λ o. add_frame o ys) silent in
    subst (GoesOn (step b ev).0 es) (sym same) g'

pub capture-silent : (b : Buffers) (x : ℕ) → (step b (capture x)).1 ≡ none
unfolding step
capture-silent b x = refl

pub complete-silent : (b : Buffers) → (step b complete).1 ≡ none
unfolding step
complete-silent b = refl

pub interrupt_buffers :
    (e : Env) (m : Grabber) (x : ℕ)
    → (if finds_local e m.driver then (step (buffers m) (capture (taken e m x))).0 else buffers m)
      ≡ buffers (serve e m (interrupt x)).0
unfolding step kept
interrupt_buffers e m x = by_test (finds_local e m.driver) (plx_on_interrupt-held e m.driver)
  where
    by_test :
        (b : Bool)
        → kept (plx_on_interrupt e m.driver).1
          ≡ (if b then stepped step_ip (kept m.driver) else kept m.driver)
        → (if b then (step (buffers m) (capture (taken e m x))).0 else buffers m) ≡ record {
          ring = (plx_on_interrupt e m.driver).1.ring;
          slot = if b then update m.memory m.driver.ring.ip (taken e m x) else m.memory;
        }
    by_test true h =
        ap
          (λ (p : Ring × ℕ). record {
            ring = p.0;
            slot = update m.memory m.driver.ring.ip (taken e m x);
          })
          (sym h)
    by_test false h = ap (λ (p : Ring × ℕ). record { ring = p.0; slot = m.memory }) (sym h)

abbrev pub completed_if : Bool → Buffers → Buffers
completed_if c b = if c then (step b complete).0 else b

pub dpc_buffers :
    (e : Env) (m : Grabber)
    → completed_if
        (has_bit m.driver.source_ints 6)
        (completed_if (has_bit m.driver.source_ints 5) (buffers m))
      ≡ buffers (serve e m dpc).0
unfolding step kept
dpc_buffers e m =
    by_source (has_bit m.driver.source_ints 5) (has_bit m.driver.source_ints 6)
      (plx_dpc_for_isr-held e m.driver)
  where
    to :
        {p : Ring × ℕ}
        → p ≡ kept (plx_dpc_for_isr e m.driver).1
        → record { ring = p.0; slot = m.memory } ≡ buffers (serve e m dpc).0
    to h = ap (λ (p : Ring × ℕ). record { ring = p.0; slot = m.memory }) h

    by_source :
        (a c : Bool)
        → kept (plx_dpc_for_isr e m.driver).1 ≡ if_stepped c (if_stepped a (kept m.driver))
        → completed_if c (completed_if a (buffers m)) ≡ buffers (serve e m dpc).0
    by_source true true h = to (sym h)
    by_source true false h = to (sym h)
    by_source false true h = to (sym h)
    by_source false false h = to (sym h)

-- What a read returns, and what it leaves behind.
pub record Ends (m : Grabber) (o : Option (ℤ × Driver)) : Type 0 where
  pub same : (step (buffers m) Event.fetch).0 ≡ buffers (got m o).0
  pub brings : (step (buffers m) Event.fetch).1 ≡ (got m o).1
  pub free : 0 < (got m o).0.driver.read_semph

empty_sleep :
    (e : Env) (d : Driver) (len : ℕ)
    → IsQuiet e
    → 0 < d.read_semph
    → is_readable d.ring ≡ false
    → plx_drv_read e false len [] d ≡ none
unfolding plx_drv_read holding asleep down_interruptible up
empty_sleep e d len quiet free empty = ground (arith, quiet d.trace)

empty_read :
    (e : Env) (d : Driver) (len : ℕ)
    → IsQuiet e
    → 0 < d.read_semph
    → is_readable d.ring ≡ false
    → plx_drv_read e true len [] d ≡ some (eagain, turned_away d)
unfolding plx_drv_read holding down_interruptible up
empty_read e d len quiet free empty = ground (arith, quiet d.trace)

empty-Ends :
    (e : Env) (m : Grabber) (nonblock : Bool) (len : ℕ)
    → IsQuiet e
    → 0 < m.driver.read_semph
    → is_readable m.driver.ring ≡ false
    → Ends m (plx_drv_read e nonblock len [] m.driver)
unfolding step
empty-Ends e m true len quiet free empty =
    subst (Ends m) (sym (empty_read e m.driver len quiet free empty))
      (record { same = rw empty refl; brings = rw empty refl; free = omega arith })
empty-Ends e m false len quiet free empty =
    subst (Ends m) (sym (empty_sleep e m.driver len quiet free empty))
      (record { same = rw empty refl; brings = rw empty refl; free = omega arith })

-- A read that returns a frame moves `rp` and leaves the semaphore's count.
got-Ends :
    (m : Grabber) (r : ℤ × Driver) (len : ℕ) (next : Ring)
    → is_readable m.driver.ring ≡ true
    → step_rp m.driver.ring ≡ some next
    → r.0 ≡ pos len
    → r.1.ring ≡ next
    → last_copied r.1.trace ≡ m.driver.ring.rp
    → 0 < r.1.read_semph
    → Ends m (some r)
unfolding step
got-Ends m (pos n, d) len next ready go length moved copied free = record {
  same = rw ready (rw go (ap (λ (t : Ring). record { ring = t; slot = m.memory }) (sym moved)));
  brings = rw ready (ap (λ (i : ℕ). some (m.memory i)) (sym copied));
  free = free;
}
got-Ends m (negsuc n, d) len next ready go length moved copied free = absurd (ground arith)

ready-Ends :
    (e : Env) (m : Grabber) (nonblock : Bool) (len : ℕ)
    → IsQuiet e
    → ((t : List Access) → e.copy_fails t ≡ false)
    → 0 < m.driver.read_semph
    → IsOrdered m.driver.ring
    → is_readable m.driver.ring ≡ true
    → Ends m (plx_drv_read e nonblock len [] m.driver)
ready-Ends e m nonblock len quiet copies free v ready =
    elim (Option-cases (step_rp m.driver.ring)) [
      | inl stop ↦ absurd (step_rp_made m.driver.ring v ready stop)
      | inr (next, go) ↦
          let g = read_ready e nonblock len [] m.driver next quiet copies free ready go in
          subst (Ends m) (sym g.ends) (
            got-Ends m g.result len next ready go g.length g.moved g.copied
              (omega (arith, g.released)))
    ]

pub read-Ends :
    (e : Env) (m : Grabber) (nonblock : Bool) (len : ℕ)
    → IsQuiet e
    → ((t : List Access) → e.copy_fails t ≡ false)
    → 0 < m.driver.read_semph
    → IsOrdered m.driver.ring
    → Ends m (plx_drv_read e nonblock len [] m.driver)
read-Ends e m nonblock len quiet copies free v = by_test (is_readable m.driver.ring) refl
  where
    by_test :
        (b : Bool)
        → is_readable m.driver.ring ≡ b
        → Ends m (plx_drv_read e nonblock len [] m.driver)
    by_test true ready = ready-Ends e m nonblock len quiet copies free v ready
    by_test false empty = empty-Ends e m nonblock len quiet free empty

pub interrupt-semph : (e : Env) (d : Driver) → (plx_on_interrupt e d).1.read_semph ≡ d.read_semph
unfolding kept
interrupt-semph e d = by_test (finds_local e d) (plx_on_interrupt-held e d)
  where
    by_test :
        (b : Bool)
        → kept (plx_on_interrupt e d).1 ≡ (if b then stepped step_ip (kept d) else kept d)
        → (plx_on_interrupt e d).1.read_semph ≡ d.read_semph
    by_test true h = ap (λ (p : Ring × ℕ). p.1) h
    by_test false h = ap (λ (p : Ring × ℕ). p.1) h

pub dpc-semph : (e : Env) (d : Driver) → (plx_dpc_for_isr e d).1.read_semph ≡ d.read_semph
unfolding kept
dpc-semph e d =
    by_source (has_bit d.source_ints 5) (has_bit d.source_ints 6) (plx_dpc_for_isr-held e d)
  where
    by_source :
        (a c : Bool)
        → kept (plx_dpc_for_isr e d).1 ≡ if_stepped c (if_stepped a (kept d))
        → (plx_dpc_for_isr e d).1.read_semph ≡ d.read_semph
    by_source true true h = ap (λ (p : Ring × ℕ). p.1) h
    by_source true false h = ap (λ (p : Ring × ℕ). p.1) h
    by_source false true h = ap (λ (p : Ring × ℕ). p.1) h
    by_source false false h = ap (λ (p : Ring × ℕ). p.1) h
