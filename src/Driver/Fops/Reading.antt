-- ===== src/Driver/Fops/Reading.antt =====
-- plx_fops.c: what plx_drv_read returns, and how it leaves the semaphore.
use cjunk.Prelude.{
  ℕ, ◌+◌, ◌-◌, ◌≡◌, refl, Bool, true, false, Option, none, some, arith, List, [], ◌∷◌, pos, ℤ, ◌<◌,
}
use cjunk.Prelude.Word.{u32}
use cjunk.Driver.Defs.{Env, Driver, Ring, Access, copy_to_user}
use cjunk.Driver.Ring.{step_rp, is_readable}
use cjunk.Driver.Timer.{debug_time}
use cjunk.Driver.Fops.{
  Wake, down_interruptible, up, fetch, holding, plx_drv_read, plx_drv_poll, efault,
}

abbrev pub IsQuiet : Env → Type 0
IsQuiet e = (t : List Access) → e.signal_pending t ≡ false

debug_time-semph : (e : Env) (d : Driver) → (debug_time e d).1.read_semph ≡ d.read_semph
unfolding debug_time
debug_time-semph e d = ground arith

debug_time-ring : (e : Env) (d : Driver) → (debug_time e d).1.ring ≡ d.ring
unfolding debug_time
debug_time-ring e d = ground arith

-- The driver's state after plx_drv_read took the semaphore, and after the copy to user space.
abbrev entered : Driver → Driver
entered d = record d {
  read_semph = d.read_semph - 1;
  cntr = let c = d.cntr in record c { read = u32 (c.read + 1) };
}

abbrev with_copy : ℕ → Driver → Driver
with_copy len d = record d {
  trace = copy_to_user d.ring.rp len ∷ d.trace;
  cntr = let c = d.cntr in record c { to_user_space = u32 (c.to_user_space + 1) };
}

abbrev locked : Driver → Driver
locked d = record d {
  cntr = let c = d.cntr in record c { circ_empty_rp = u32 (c.circ_empty_rp + 1) };
}

-- The buffer that was copied to user space last.
abbrev pub last_copied : List Access → ℕ
last_copied [] = 0
last_copied (copy_to_user i len ∷ t) = i
last_copied (a ∷ t) = last_copied t

debug_time-last_copied :
    (e : Env) (d : Driver) → last_copied (debug_time e d).1.trace ≡ last_copied d.trace
unfolding debug_time
debug_time-last_copied e d = ground arith

-- What a read has done when it returns.
pub record Got (len : ℕ) (d : Driver) (next : Ring) (out : Option (ℤ × Driver)) : Type 0 where
  pub result : ℤ × Driver
  pub ends : out ≡ some result
  pub length : result.0 ≡ pos len
  pub moved : result.1.ring ≡ next
  pub copied : last_copied result.1.trace ≡ d.ring.rp
  pub released : result.1.read_semph ≡ d.read_semph

-- With a frame to read, `rp` not at `ip`, the semaphore free, no signal, and user memory that can be
-- written, a read returns the length at once, having copied the buffer at `rp`, moves `rp` to the
-- next buffer, and leaves the semaphore's count as it was.
pub read_ready :
    (e : Env) (nonblock : Bool) (len : ℕ) (ws : List Wake) (d : Driver) (next : Ring)
    → IsQuiet e
    → ((t : List Access) → e.copy_fails t ≡ false)
    → 0 < d.read_semph
    → is_readable d.ring ≡ true
    → step_rp d.ring ≡ some next
    → Got len d next (plx_drv_read e nonblock len ws d)
unfolding plx_drv_read holding fetch down_interruptible up
read_ready e nonblock len ws d next quiet copies free ready step =
    let d1 = with_copy len (entered d) in
    let d2 = record d1 { ring = next } in
    let d3 = (debug_time e d2).1 in
    record {
      result = (pos len, record d3 { read_semph = d3.read_semph + 1 });
      ends = ground (arith, quiet d.trace, copies d.trace);
      length = refl;
      moved = debug_time-ring e d2;
      copied = debug_time-last_copied e d2;
      released = omega (arith, debug_time-semph e d2);
    }

-- With no signal and user memory that can be written, with the semaphore's count at 1 and a frame to
-- read, but `rp` at `ip`: a read returns -EFAULT and leaves the count at 0, so that every read and
-- every poll sleeps on the semaphore.
pub read_at_ip_locks :
    (e : Env) (nonblock : Bool) (len : ℕ) (ws : List Wake) (d : Driver)
    → IsQuiet e
    → ((t : List Access) → e.copy_fails t ≡ false)
    → d.read_semph ≡ 1
    → is_readable d.ring ≡ true
    → step_rp d.ring ≡ none
    → (d' : Driver) × (plx_drv_read e nonblock len ws d ≡ some (efault, d'))
      × (d'.read_semph ≡ 0)
      × ((len' : ℕ) (ws' : List Wake) → plx_drv_read e nonblock len' ws' d' ≡ none)
      × (plx_drv_poll e d' ≡ none)
unfolding plx_drv_read plx_drv_poll holding fetch down_interruptible up
read_at_ip_locks e nonblock len ws d quiet copies free ready stop =
    let d' = locked (with_copy len (entered d)) in
    (
      d',
      ground (arith, quiet d.trace, copies d.trace),
      omega arith,
      λ len' ws'. ground (arith, quiet d'.trace),
      ground (arith, quiet d'.trace),
    )
