-- ===== src/Driver/Life/Woken.antt =====
-- A read that sleeps until the deferred procedure steps `wp` (plx_fops.c, plx_interrupt.c).
use cjunk.Prelude.{
  ℕ, ◌+◌, ◌-◌, ◌≡◌, ◌≢◌, ap, ◌∙◌, Option-cases, inl, inr, Bool, true, false, List, [], ◌∷◌, Option,
  none, some, pos, arith,
}
use cjunk.Prelude.Word.{has_bit, u32}
use cjunk.Driver.Defs.{Env, Driver, Ring, Access, copy_to_user}
use cjunk.Driver.Held.{held, kept}
use cjunk.Driver.Ring.{step_wp, step_rp, is_readable}
use cjunk.Driver.Ring.Order.{IsOrdered, step_wp_made, step_rp_made, step_wp-IsOrdered}
use cjunk.Driver.Timer.{debug_time}
use cjunk.Driver.Interrupt.{plx_dpc_for_isr}
use cjunk.Driver.Interrupt.Kept.{or_same, if_stepped, plx_dpc_for_isr-held}
use cjunk.Driver.Fops.{Wake, run, plx_drv_read, holding, asleep, down_interruptible, up, fetch}
use cjunk.Driver.Fops.Reading.{IsQuiet, last_copied}

-- The driver's state while the reader sleeps.
abbrev pub sleeping : Driver → Driver
sleeping d = record d {
  read_semph = d.read_semph - 1 + 1;
  cntr = let c = d.cntr in record c { read = u32 (c.read + 1) };
}

-- The driver's state when the woken reader has copied the frame, at debug_time.
abbrev copied : ℕ → Ring → Driver → Driver
copied len s d = record d {
  ring = s;
  read_semph = d.read_semph - 1;
  trace = copy_to_user d.ring.rp len ∷ d.trace;
  cntr = let c = d.cntr in record c { to_user_space = u32 (c.to_user_space + 1) };
}

woken :
    (e : Env) (len : ℕ) (f : Driver → Driver) (ws : List Wake) (d : Driver) (s : Ring)
    → IsQuiet e
    → ((t : List Access) → e.copy_fails t ≡ false)
    → d.read_semph ≡ 1
    → is_readable d.ring ≡ false
    → (f (sleeping d)).read_semph ≡ 1
    → is_readable (f (sleeping d)).ring ≡ true
    → step_rp (f (sleeping d)).ring ≡ some s
    → plx_drv_read e false len (run f ∷ ws) d
      ≡ some (pos len, up (debug_time e (copied len s (f (sleeping d)))).1)
unfolding plx_drv_read holding asleep down_interruptible up fetch
woken e len f ws d s quiet copies free empty free' ready go =
    let d3 = f (sleeping d) in ground (arith, quiet d.trace, quiet d3.trace, copies d3.trace)

-- `wp` steps from an empty ring to one with a frame at the same `rp`.
stepped_readable :
    (r s : Ring)
    → IsOrdered r
    → is_readable r ≡ false
    → step_wp r ≡ some s
    → (is_readable s ≡ true) × (s.rp ≡ r.rp)
unfolding is_readable step_wp
stepped_readable r s v empty go = ground arith

dpc_held :
    (e : Env) (d : Driver) (s : Ring)
    → has_bit d.source_ints 5 ≡ true
    → has_bit d.source_ints 6 ≡ false
    → step_wp d.ring ≡ some s
    → held (plx_dpc_for_isr e d).1 ≡ (s, d.read_semph)
unfolding kept
dpc_held e d s five six go =
    plx_dpc_for_isr-held e d
    ∙ ap (λ (c : Bool). if_stepped c (if_stepped (has_bit d.source_ints 5) (kept d))) six
    ∙ ap (λ (a : Bool). if_stepped a (kept d)) five
    ∙ ap (λ (o : Option Ring). (or_same d.ring o, d.read_semph)) go

done-copied :
    (e : Env) (len : ℕ) (s : Ring) (d : Driver)
    → d.read_semph ≡ 1
    → (last_copied (up (debug_time e (copied len s d)).1).trace ≡ d.ring.rp)
      × ((up (debug_time e (copied len s d)).1).read_semph ≡ 1)
unfolding up debug_time
done-copied e len s d free = ground arith

-- A read that finds no frame sleeps, and a wake that leaves the ring without one does not end it.
sleeps :
    (e : Env) (len : ℕ) (d : Driver)
    → IsQuiet e
    → d.read_semph ≡ 1
    → is_readable d.ring ≡ false
    → plx_drv_read e false len [] d ≡ none
unfolding plx_drv_read holding asleep down_interruptible up
sleeps e len d quiet free empty = ground (arith, quiet d.trace)

sleeps_on :
    (e : Env) (len : ℕ) (d : Driver) (f : Driver → Driver) (ws : List Wake)
    → IsQuiet e
    → d.read_semph ≡ 1
    → is_readable d.ring ≡ false
    → is_readable (f (sleeping d)).ring ≡ false
    → plx_drv_read e false len (run f ∷ ws) d ≡ asleep e false len ws (f (sleeping d))
unfolding plx_drv_read holding asleep down_interruptible up
sleeps_on e len d f ws quiet free empty in_vain = ground (arith, quiet d.trace)

-- What a read does that finds no frame, and is woken by the deferred procedure: `waits` that it sleeps
-- at first, `waits_on` that a call that leaves the ring with no frame does not wake it.
pub record Served (e : Env) (len : ℕ) (ws : List Wake) (d : Driver) : Type 0 where
  pub waits : plx_drv_read e false len [] d ≡ none
  pub waits_on :
      (f : Driver → Driver)
      → is_readable (f (sleeping d)).ring ≡ false
      → plx_drv_read e false len (run f ∷ []) d ≡ none
  pub result : Driver
  pub ends :
      plx_drv_read e false len (run (λ x. (plx_dpc_for_isr e x).1) ∷ ws) d ≡ some (pos len, result)
  pub copied_first : last_copied result.trace ≡ d.ring.rp
  pub released : result.read_semph ≡ 1

-- With no signal and user memory that can be written, the semaphore's count at 1, and an ordered ring
-- with no frame to read and a transfer under way: a blocking read does not return before
-- something wakes it, a call that leaves the ring with no frame does not wake it, and when the deferred
-- procedure is told of the end of a transfer on channel 0, the read returns the length, having copied
-- the buffer at `rp`, and releases the semaphore, whatever would wake it later.
pub dpc_wakes :
    (e : Env) (len : ℕ) (ws : List Wake) (d : Driver)
    → IsQuiet e
    → ((t : List Access) → e.copy_fails t ≡ false)
    → d.read_semph ≡ 1
    → IsOrdered d.ring
    → is_readable d.ring ≡ false
    → d.ring.wp ≢ d.ring.ip
    → has_bit d.source_ints 5 ≡ true
    → has_bit d.source_ints 6 ≡ false
    → Served e len ws d
unfolding asleep
dpc_wakes e len ws d quiet copies free v empty busy five six =
    elim (Option-cases (step_wp d.ring)) [
      | inl stop ↦ absurd (step_wp_made d.ring v busy stop)
      | inr (s, go) ↦
          let d3 = (plx_dpc_for_isr e (sleeping d)).1 in
          let h = dpc_held e (sleeping d) s five six go in
          let at_s : d3.ring ≡ s = ap (λ (p : Ring × ℕ). p.0) h in
          let free' : d3.read_semph ≡ 1 = omega (arith, ap (λ (p : Ring × ℕ). p.1) h) in
          let (ready, rp_kept) = stepped_readable d.ring s v empty go in
          elim (Option-cases (step_rp s)) [
            | inl stop ↦ absurd (step_rp_made s (step_wp-IsOrdered d.ring v busy go) ready stop)
            | inr (t, step) ↦
                let c = done-copied e len t d3 free' in
                record {
                  waits = sleeps e len d quiet free empty;
                  waits_on = λ f in_vain. sleeps_on e len d f [] quiet free empty in_vain;
                  result = up (debug_time e (copied len t d3)).1;
                  ends =
                      woken e len (λ x. (plx_dpc_for_isr e x).1) ws d t quiet copies free empty
                        free' (rw at_s ready) (rw at_s step);
                  copied_first = c.0 ∙ ap (λ (r : Ring). r.rp) at_s ∙ rp_kept;
                  released = c.1;
                }
          ]
    ]
