-- ===== src/Driver/Life.antt =====
-- The life of the driver (plx_fops.c, plx_interrupt.c, plx_ioctl.c, plx_proc.c): the sequences of
-- complete calls that the kernel makes of it, in any order, once the device is set up. A read that
-- sleeps lets other calls run before it wakes up.

pub mod Reads
pub mod Refine
pub mod Safe
pub mod Queue
pub mod Overflow
pub mod Woken
use cjunk.Prelude.{
  ℕ, zero, suc, ◌-◌, ◌<◌, ◌≡◌, Bool, true, Option, none, some, List, [], ◌∷◌, ℤ, ◌⊎◌,
}
use cjunk.Driver.Defs.{Env, Driver, Ring}
use cjunk.Driver.Held.{zeroed}
use cjunk.Driver.Ring.{step_ip, step_wp, step_rp, is_readable}
use cjunk.Driver.Interrupt.{plx_on_interrupt, plx_dpc_for_isr}
use cjunk.Driver.Fops.{Wake, signal, run, plx_drv_open, plx_drv_release, plx_drv_read, plx_drv_poll}
use cjunk.Driver.Request.{Cmd, User, State}
use cjunk.Driver.Ioctl.{Reply, plx_drv_ioctl}
use cjunk.Driver.Proc.Fields.{Page}
use cjunk.Driver.Proc.{Stack, plx_read_procmem}

-- Who calls the driver: the processor for the interrupt handler, the work queue for the deferred
-- procedure, and the system calls.
pub data Who : Type 0 where
  handler procedure opener releaser reader poller controller lister : Who

-- The sequences of calls made by those that `Calls` allows.
module _ (e : Env) (fuel : ℕ) (Calls : Who → Type 0) where
  mutual
    pub data RunOf : Driver → Driver → Type 0 where
      done : {d : Driver} → RunOf d d
      later : {d d1 d2 : Driver} → RunOf d d1 → RunOf d1 d2 → RunOf d d2
      interrupted : {d : Driver} → Calls handler → RunOf d (plx_on_interrupt e d).1
      deferred : {d : Driver} → Calls procedure → RunOf d (plx_dpc_for_isr e d).1
      opened : {d : Driver} → Calls opener → RunOf d (plx_drv_open e d).1
      released : {d : Driver} → Calls releaser → RunOf d (plx_drv_release e d).1
      fetched :
          {d d' : Driver} (nonblock : Bool) (len : ℕ) {ws : List Wake} {r : ℤ}
          → Calls reader
          → Meanwhile ws
          → plx_drv_read e nonblock len ws d ≡ some (r, d')
          → RunOf d d'
      polled :
          {d d' : Driver} {r : Bool ⊎ ℤ}
          → Calls poller
          → plx_drv_poll e d ≡ some (r, d')
          → RunOf d d'
      ordered :
          (u : User) (c : Cmd) (s : State) {r : Reply}
          → Calls controller
          → plx_drv_ioctl e fuel u c s ≡ some r
          → RunOf s.driver r.state.driver
      listed :
          {d d' : Driver} (g : Stack) {p : Page}
          → Calls lister
          → plx_read_procmem e fuel g d ≡ some (p, d')
          → RunOf d d'

    -- What may wake a reader: signals, and other calls of the driver.
    pub data Meanwhile : List Wake → Type 0 where
      no_wake : Meanwhile []
      signalled : {ws : List Wake} → Meanwhile ws → Meanwhile (signal ∷ ws)
      ran :
          {f : Driver → Driver} {ws : List Wake}
          → ((d : Driver) → RunOf d (f d))
          → Meanwhile ws
          → Meanwhile (run f ∷ ws)

abbrev pub Anyone : Who → Type 0
Anyone w = Unit {0}

-- The sequences of any calls.
abbrev pub Run : Env → ℕ → Driver → Driver → Type 0
Run e fuel = RunOf e fuel Anyone

-- What each caller may do to the pointers of the ring and the count of the semaphore read_semph.
pub data Move : Who → Ring × ℕ → Ring × ℕ → Type 0 where
  started : {r s : Ring} {n : ℕ} → step_ip r ≡ some s → Move handler (r, n) (s, n)
  completed : {r s : Ring} {n : ℕ} → step_wp r ≡ some s → Move procedure (r, n) (s, n)
  consumed :
      {r s : Ring} {n : ℕ}
      → 0 < n
      → is_readable r ≡ true
      → step_rp r ≡ some s
      → Move reader (r, n) (s, n)
  reopened : {r : Ring} {n : ℕ} → Move opener (r, n) (zeroed, n)
  restarted : {r : Ring} {n : ℕ} → Move controller (r, n) (zeroed, n)
  -- The semaphore stays taken.
  lost :
      {r : Ring} {n : ℕ}
      → 0 < n
      → is_readable r ≡ true
      → step_rp r ≡ none
      → Move reader (r, n) (r, n - 1)

-- The moves of those that `Calls` allows.
pub data Moves (Calls : Who → Type 0) : Ring × ℕ → Ring × ℕ → Type 0 where
  still : {p : Ring × ℕ} → Moves Calls p p
  also : {w : Who} {p q r : Ring × ℕ} → Calls w → Move w p q → Moves Calls q r → Moves Calls p r

pub append :
    {Calls : Who → Type 0} {p q r : Ring × ℕ} → Moves Calls p q → Moves Calls q r → Moves Calls p r
append still ns = ns
append (also c m ms) ns = also c m (append ms ns)
