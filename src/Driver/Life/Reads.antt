-- ===== src/Driver/Life/Reads.antt =====
-- A read of the device (plx_fops.c) as moves of the frame ring's pointers and of the count of
-- read_semph.
use mathlib.Core.Path.{subst}
use cjunk.Prelude.{
  ℕ, ◌+◌, ◌-◌, ◌<◌, ◌≡◌, refl, sym, ap, ◌∙◌, Bool, if◌then◌else◌, true, false, Option, none, some,
  ◌∷◌, ℤ, ◌⊎◌, inl, inr, arith, Option-cases,
}
use cjunk.Prelude.Word.{u32}
use cjunk.Driver.Defs.{Env, Driver, Ring, copy_to_user}
use cjunk.Driver.Held.{held}
use cjunk.Driver.Ring.{step_rp, is_readable}
use cjunk.Driver.Timer.{debug_time}
use cjunk.Driver.Fops.{down_interruptible, up, fetch, holding, erestartsys, eagain}
use cjunk.Driver.Life.{Who, reader, consumed, lost, Moves, still, also, append}

pub same : {Calls : Who → Type 0} {p q : Ring × ℕ} → q ≡ p → Moves Calls p q
same {Calls} {p} h = subst (Moves Calls p) (sym h) still

-- With the semaphore taken: p is what was held before.
abbrev Taken : Ring × ℕ → Driver → Type 0
Taken p d = (0 < p.1) × (held d ≡ (p.0, p.1 - 1))

up-held : (p : Ring × ℕ) (d : Driver) → Taken p d → held (up d) ≡ p
unfolding up
up-held (r, n) d h = ground arith

debug_time-held : (e : Env) (d : Driver) → held (debug_time e d).1 ≡ held d
unfolding debug_time
debug_time-held e d = ground arith

-- The driver's state when debug_time is called by plx_drv_read.
abbrev copied : ℕ → Ring → Driver → Driver
copied len s d = record d {
  ring = s;
  trace = copy_to_user d.ring.rp len ∷ d.trace;
  cntr = let c = d.cntr in record c { to_user_space = u32 (c.to_user_space + 1) };
}

fetch_made :
    (e : Env) (len : ℕ) (d : Driver) (s : Ring)
    → step_rp d.ring ≡ some s
    → (held (fetch e len d).1 ≡ (d.ring, d.read_semph + 1))
      ⊎ (held (fetch e len d).1 ≡ (s, d.read_semph + 1))
unfolding fetch up
fetch_made e len d s go = ground (arith, debug_time-held e (copied len s d))

fetch_stopped :
    (e : Env) (len : ℕ) (d : Driver)
    → step_rp d.ring ≡ none
    → (held (fetch e len d).1 ≡ (d.ring, d.read_semph + 1)) ⊎ (held (fetch e len d).1 ≡ held d)
unfolding fetch up
fetch_stopped e len d stop = ground arith

fetch-Moves :
    {Calls : Who → Type 0}
    → Calls reader
    → (e : Env) (len : ℕ) (p : Ring × ℕ) (d : Driver) → Taken p d
    → is_readable d.ring ≡ true
    → Moves Calls p (held (fetch e len d).1)
fetch-Moves by e len (r, n) d (free, taken) ready = elim (Option-cases (step_rp d.ring)) [
  | inl stop ↦ elim (fetch_stopped e len d stop) [
    | inl h ↦ same (ground arith)
    | inr h ↦ also by (lost free (ground arith) (ground arith)) (same (ground arith))
  ]
  | inr (s, go) ↦ elim (fetch_made e len d s go) [
    | inl h ↦ same (ground arith)
    | inr h ↦ also by (consumed {s = s} free (ground arith) (ground arith)) (same (ground arith))
  ]
]

-- down_interruptible takes the semaphore, ends by a signal, or does not return.
taken-cases :
    (e : Env) (d : Driver) {o : Option (Bool × Driver)}
    → down_interruptible e d ≡ o
    → (o ≡ none)
      ⊎ (o ≡ some (false, d))
      ⊎ ((0 < d.read_semph) × (o ≡ some (true, record d { read_semph = d.read_semph - 1 })))
unfolding down_interruptible
taken-cases e d h = ground arith

pub ended :
    {Calls : Who → Type 0} (p : Ring × ℕ) (o out : ℤ × Driver)
    → Moves Calls p (held o.1)
    → some o ≡ some out
    → Moves Calls p (held out.1)
ended {Calls} p o out ms h = subst (Moves Calls p) (ground arith) ms

-- What a read does once the semaphore is free or a signal comes, if `rest` is what it does when it
-- wakes up.
module _ (Calls : Who → Type 0) (by : Calls reader) (e : Env) (nonblock : Bool) (len : ℕ)
    (rest : Driver → Option (ℤ × Driver)) where
  abbrev pub Sound : Type 0
  Sound = (d : Driver) (out : ℤ × Driver) → rest d ≡ some out → Moves Calls (held d) (held out.1)

  holding-Moves :
      Sound
      → (p : Ring × ℕ) (d : Driver) (out : ℤ × Driver) → Taken p d
      → holding e nonblock len rest d ≡ some out
      → Moves Calls p (held out.1)
  unfolding holding
  holding-Moves sound p d out taken h = by_test (is_readable d.ring) refl nonblock h
    where
      back : Moves Calls p (held (up d))
      back = same (up-held p d taken)

      by_test :
          (b : Bool)
          → is_readable d.ring ≡ b
          → (c : Bool)
          → (if b then some (fetch e len d) else if c then some (eagain, up d) else rest (up d))
            ≡ some out
          → Moves Calls p (held out.1)
      by_test true ready c h = ended p _ out (fetch-Moves by e len p d taken ready) h
      by_test false empty true h = ended p _ out back h
      by_test false empty false h = append back (sound (up d) out h)

  -- A read from down_interruptible on, with `g` between that and the loop.
  abbrev pub awake : (Driver → Driver) → Option (Bool × Driver) → Option (ℤ × Driver)
  awake g none = none
  awake g (some (false, d')) = some (erestartsys, d')
  awake g (some (true, d')) = holding e nonblock len rest (g d')

  pub awake-Moves :
      Sound
      → (g : Driver → Driver) → ((d : Driver) → held (g d) ≡ held d)
      → (d : Driver) (out : ℤ × Driver) → awake g (down_interruptible e d) ≡ some out
      → Moves Calls (held d) (held out.1)
  awake-Moves sound g keeps d out h = elim (taken-cases e d refl) [
    | inl stuck ↦ absurd (ground arith)
    | inr (inl stop) ↦ ended (held d) (erestartsys, d) out still (sym (ap (awake g) stop) ∙ h)
    | inr (inr (free, taken)) ↦
        let d' = record d { read_semph = d.read_semph - 1 } in
        holding-Moves sound (held d) (g d') out (free, keeps d') (sym (ap (awake g) taken) ∙ h)
  ]

  -- The sleep of wait_event_interruptible, when it is woken up in the state d.
  pub woken-Moves :
      Sound
      → (d : Driver) (out : ℤ × Driver) (b : Bool)
      → (if b then awake (λ d'. d') (down_interruptible e d) else rest d) ≡ some out
      → Moves Calls (held d) (held out.1)
  woken-Moves sound d out true h = awake-Moves sound (λ d'. d') (λ d'. refl) d out h
  woken-Moves sound d out false h = sound d out h
