-- ===== src/Driver/Life/Refine.antt =====
-- The calls of the driver as moves of the frame ring's pointers and of the count of read_semph.
use mathlib.Core.Path.{subst}
use cjunk.Prelude.{
  ℕ, ◌+◌, ◌≡◌, refl, sym, Bool, if◌then◌else◌, true, false, some, List, ℤ, ◌⊎◌, inl, inr, arith,
  Option-cases,
}
use cjunk.Prelude.Word.{has_bit, u32}
use cjunk.Driver.Defs.{Env, Driver, Ring}
use cjunk.Driver.Held.{held, kept, LeftOrZeroed}
use cjunk.Driver.Ring.{step_ip, step_wp, is_readable}
use cjunk.Driver.Interrupt.{plx_on_interrupt, plx_dpc_for_isr}
use cjunk.Driver.Interrupt.Kept.{
  stepped, if_stepped, finds_local, plx_on_interrupt-held, plx_dpc_for_isr-held,
}
use cjunk.Driver.Fops.{
  Wake, down_interruptible, up, asleep, plx_drv_open, plx_drv_read, plx_drv_poll,
}
use cjunk.Driver.Fops.Kept.{plx_drv_open-held, plx_drv_release-held}
use cjunk.Driver.Ioctl.Ordered.{plx_drv_ioctl-held}
use cjunk.Driver.Proc.Kept.{read_procmem-KeepsHeld}
use cjunk.Driver.Life.{
  Who, handler, procedure, opener, reader, RunOf, done, later, interrupted, deferred, opened,
  released, fetched, polled, ordered, listed, Meanwhile, no_wake, ran, signalled, started,
  completed, reopened, restarted, Moves, still, also, append,
}
use cjunk.Driver.Life.Reads.{same, ended, Sound, awake-Moves, woken-Moves}

ip-Moves :
    {Calls : Who → Type 0} → Calls handler → (p : Ring × ℕ) → Moves Calls p (stepped step_ip p)
ip-Moves by (r, n) = elim (Option-cases (step_ip r)) [
  | inl stop ↦ same (rw stop)
  | inr (s, go) ↦ also by (started go) (same (rw go))
]

wp-Moves :
    {Calls : Who → Type 0}
    → Calls procedure
    → (b : Bool) (p : Ring × ℕ) → Moves Calls p (if_stepped b p)
wp-Moves by false p = still
wp-Moves by true (r, n) = elim (Option-cases (step_wp r)) [
  | inl stop ↦ same (rw stop)
  | inr (s, go) ↦ also by (completed go) (same (rw go))
]

interrupt-Moves :
    {Calls : Who → Type 0}
    → Calls handler
    → (e : Env) (d : Driver) → Moves Calls (held d) (held (plx_on_interrupt e d).1)
unfolding kept
interrupt-Moves {Calls} by e d = by_test (finds_local e d) (plx_on_interrupt-held e d)
  where
    by_test :
        (b : Bool) {q : Ring × ℕ}
        → q ≡ (if b then stepped step_ip (held d) else held d)
        → Moves Calls (held d) q
    by_test true h = subst (Moves Calls (held d)) (sym h) (ip-Moves by (held d))
    by_test false h = same h

dpc-Moves :
    {Calls : Who → Type 0}
    → Calls procedure
    → (e : Env) (d : Driver) → Moves Calls (held d) (held (plx_dpc_for_isr e d).1)
unfolding kept
dpc-Moves {Calls} by e d = subst (Moves Calls (held d)) (sym (plx_dpc_for_isr-held e d)) (
    append (wp-Moves by (has_bit d.source_ints 5) (held d))
      (wp-Moves by (has_bit d.source_ints 6) _))

zeroed-Moves :
    {Calls : Who → Type 0}
    → Calls opener
    → (d d' : Driver) → LeftOrZeroed d d'
    → Moves Calls (held d) (held d')
zeroed-Moves by d d' (inl h) = same h
zeroed-Moves by d d' (inr h) = also by reopened (same h)

-- A poll that returns has released the semaphore that it took.
poll-held :
    (e : Env) (d : Driver) (out : (Bool ⊎ ℤ) × Driver)
    → plx_drv_poll e d ≡ some out
    → held out.1 ≡ held d
unfolding plx_drv_poll down_interruptible up
poll-held e d out h = ground arith

mutual
  unfolding asleep plx_drv_read

  asleep-Moves :
      (Calls : Who → Type 0) (by : Calls reader) (e : Env) (fuel : ℕ) (nonblock : Bool) (len : ℕ)
      {ws : List Wake}
      → Meanwhile e fuel Calls ws
      → Sound Calls by e nonblock len (asleep e nonblock len ws)
  asleep-Moves Calls by e fuel nonblock len no_wake d out h = absurd (ground arith)
  asleep-Moves Calls by e fuel nonblock len (signalled ms) d out h = ended (held d) _ out still h
  asleep-Moves Calls by e fuel nonblock len (ran {f} {ws} rs ms) d out h =
      append (Run-Moves Calls e fuel (rs d)) (
        woken-Moves Calls by e nonblock len (asleep e nonblock len ws)
          (asleep-Moves Calls by e fuel nonblock len ms) (f d) out (is_readable (f d).ring) h)

  Run-Moves :
      (Calls : Who → Type 0) (e : Env) (fuel : ℕ) {d d' : Driver}
      → RunOf e fuel Calls d d'
      → Moves Calls (held d) (held d')
  Run-Moves Calls e fuel done = still
  Run-Moves Calls e fuel (later r s) = append (Run-Moves Calls e fuel r) (Run-Moves Calls e fuel s)
  Run-Moves Calls e fuel (interrupted {d} by) = interrupt-Moves by e d
  Run-Moves Calls e fuel (deferred {d} by) = dpc-Moves by e d
  Run-Moves Calls e fuel (opened {d} by) =
      zeroed-Moves by d (plx_drv_open e d).1 (plx_drv_open-held e d)
  Run-Moves Calls e fuel (released {d} by) = same (plx_drv_release-held e d)
  Run-Moves Calls e fuel (fetched {d} nonblock len {ws} by ms h) =
      awake-Moves Calls by e nonblock len (asleep e nonblock len ws)
        (asleep-Moves Calls by e fuel nonblock len ms)
        (λ d'. record d' { cntr = let c = d'.cntr in record c { read = u32 (c.read + 1) } })
        (λ d'. refl) d _ h
  Run-Moves Calls e fuel (polled {d} by h) = same (poll-held e d _ h)
  Run-Moves Calls e fuel (ordered u c s {r} by h) =
      elim (plx_drv_ioctl-held e fuel u c s {r = r} h) [
        | inl h' ↦ same h'
        | inr (k, h') ↦ also by restarted (same h')
      ]
  Run-Moves Calls e fuel (listed g by h) = same (read_procmem-KeepsHeld e fuel g _ _ h)

-- Each call changes the three pointers of the ring and the count of the semaphore only by the moves of
-- its own kind: the interrupt handler by steps of `ip`, the deferred procedure by steps of `wp`, a read
-- by a step of `rp` with the semaphore free and a frame to read, or by the loss of the semaphore where
-- it finds `rp` at `ip`, the open and the ioctl by the reset of the pointers to 0, and the release, the
-- poll and the proc read not at all. So whatever calls are made of the driver, in whatever order, and
-- whatever the device does: if only some of the callers call it, the moves are theirs.
pub calls_refine :
    (e : Env) (fuel : ℕ) (Calls : Who → Type 0) (d d' : Driver)
    → RunOf e fuel Calls d d'
    → Moves Calls (held d) (held d')
calls_refine e fuel Calls d d' r = Run-Moves Calls e fuel r
