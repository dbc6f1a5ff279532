-- ===== src/Driver/LifeTests.antt =====
-- The theorems about the sequences of calls of the driver at concrete inputs.
use cjunk.Prelude.{ℕ, ◌+◌, ◌^◌, ◌≡◌, refl, ap, Bool, true, false, none, some, List, [], ◌∷◌, arith}
use cjunk.Driver.Defs.{Driver}
use cjunk.Driver.Held.{held}
use cjunk.Driver.Ring.{step_rp, advance, is_readable}
use cjunk.Driver.Interrupt.{plx_on_interrupt, plx_dpc_for_isr}
use cjunk.Driver.Timer.{debug_time}
use cjunk.Driver.Fops.{
  Wake, signal, run, down_interruptible, up, fetch, holding, asleep, plx_drv_open, plx_drv_release,
  plx_drv_read, plx_drv_poll, efault,
}
use cjunk.Driver.Life.{
  Who, handler, procedure, opener, reader, RunOf, Run, no_wake, signalled, ran, later, interrupted,
  deferred, opened, released, fetched, Moves,
}
use cjunk.Driver.Life.Refine.{calls_refine}
use cjunk.Driver.Life.Safe.{IsSafe, run-IsSafe, lost_for_good}
use cjunk.Prelude.Word.{has_bit}
use cjunk.Driver.Interrupt.Sources.{transfer_ended, transfer_ended-source}
use cjunk.Driver.Life.Overflow.{IsFull, after_reads, overflowed, overflow_locks}
use cjunk.Driver.Life.Woken.{Served, dpc_wakes}
use cjunk.Driver.Life.Queue.{Call, interrupt, dpc, read, Grabber, delivered}
use cjunk.Driver.Life.Queue.Delivered.{delivered_refines}
use cjunk.Driver.Ring.Order.{IsOrdered}
use cjunk.Driver.Ring.Fifo.{spec_run, spec_step}
use cjunk.Driver.Tests.{detector, idle, at, wrapped}

-- One user, three frames to read, and a transfer under way.
abbrev busy : Driver
busy = idle wrapped 1 0

-- After a read.
abbrev one_read : Driver
one_read = record busy {
  ring = at 7 1 2;
  cntr = let c = busy.cntr in record c { read = 1; to_user_space = 1 };
  trace = cjunk.Driver.Defs.Access.copy_to_user 6 512 ∷ [];
}

reads : Run detector 0 busy one_read
unfolding plx_drv_read holding down_interruptible fetch up is_readable step_rp advance debug_time
reads = fetched false 512 tt no_wake refl

-- A read of an empty ring, which sleeps while a second user opens the device, and ends by a signal.
abbrev empty : Driver
empty = idle (at 6 6 6) 1 0

abbrev second_user : Driver
second_user = record empty { open_count = 2; cntr = let c = empty.cntr in record c { read = 1 } }

-- The interrupt side, the open and the read: no ioctl, no poll.
abbrev Readers : Who → Type 0
Readers handler = Unit {0}
Readers procedure = Unit {0}
Readers opener = Unit {0}
Readers reader = Unit {0}
Readers w = ⊥

sleeps : RunOf detector 0 Readers empty second_user
unfolding plx_drv_read asleep holding down_interruptible fetch up is_readable plx_drv_open
sleeps =
    fetched false 512 {ws = run (λ d. (plx_drv_open detector d).1) ∷ signal ∷ []} tt
      (ran (λ d. opened tt) (signalled no_wake)) refl

abbrev served : Driver → Driver
served d = (plx_dpc_for_isr detector (plx_on_interrupt detector d).1).1

calls_refine_example : Moves Readers (held empty) (held (served second_user))
calls_refine_example =
    calls_refine detector 0 Readers empty (served second_user)
      (later sleeps (later (interrupted tt) (deferred tt)))

start-IsSafe : IsSafe (held busy)
start-IsSafe = record {
  rp_in = omega arith;
  wp_in = omega arith;
  ip_in = omega arith;
  mutex = omega arith;
}

run-IsSafe_example : IsSafe (held (served one_read))
run-IsSafe_example =
    run-IsSafe detector 0 busy (served one_read) start-IsSafe
      (later reads (later (interrupted tt) (deferred tt)))

abbrev locked : Driver
locked = record busy { read_semph = 0 }

abbrev reopened : Driver
reopened = (plx_drv_open detector (plx_drv_release detector locked).1).1

lost_for_good_example :
    ((nonblock : Bool) (len : ℕ) (ws : List Wake)
      → plx_drv_read detector nonblock len ws reopened ≡ none)
    × (plx_drv_poll detector reopened ≡ none)
lost_for_good_example =
    lost_for_good detector 0 locked reopened (λ t. refl) refl (later (released tt) (opened tt))

-- Three frames to read and one under way, whose end the deferred procedure is told of.
abbrev pipeline : Grabber
pipeline = record { driver = idle wrapped 1 (2 ^ 5); memory = λ i. 10 + i }

abbrev calls : List Call
calls = read true 512 ∷ dpc ∷ interrupt 40 ∷ read false 512 ∷ read true 512 ∷ read false 512 ∷ []

wrapped-IsOrdered : IsOrdered wrapped
wrapped-IsOrdered = record {
  rp_in = omega arith;
  wp_in = omega arith;
  ip_in = omega arith;
  wp_between = omega arith;
}

delivered_refines_example : delivered detector pipeline calls ≡ 16 ∷ 17 ∷ 10 ∷ 11 ∷ []
unfolding spec_run spec_step plx_drv_read holding down_interruptible fetch up is_readable step_rp
    advance debug_time
delivered_refines_example =
    delivered_refines detector (λ t. refl) (λ t. refl) pipeline calls
      {outs = some 16 ∷ none ∷ none ∷ some 17 ∷ some 10 ∷ some 11 ∷ []} (omega arith)
      wrapped-IsOrdered refl

-- A full ring, and a device whose interrupts tell the end of a transfer.
abbrev crammed : Driver
crammed = idle (at 3 2 2) 1 0

crammed-IsFull : IsFull crammed.ring
crammed-IsFull = (
  record {
    rp_in = omega arith;
    wp_in = omega arith;
    ip_in = omega arith;
    wp_between = omega arith;
  },
  refl,
  refl,
)

overflow_locks_example :
    (d' : Driver) × (plx_drv_read transfer_ended true 512 []
        (after_reads transfer_ended 512 6 (overflowed transfer_ended 512 crammed))
      ≡ some (efault, d'))
    × ((d'' : Driver)
        → Run transfer_ended 0 d' d''
        → ((nonblock : Bool) (n : ℕ) (ws : List Wake)
            → plx_drv_read transfer_ended nonblock n ws d'' ≡ none)
          × (plx_drv_poll transfer_ended d'' ≡ none))
overflow_locks_example =
    overflow_locks transfer_ended 0 512 crammed (λ t. refl) (λ t. refl) crammed-IsFull refl refl
      (ap (λ (n : ℕ). has_bit n 5) (transfer_ended-source _))
      (ap (λ (n : ℕ). has_bit n 6) (transfer_ended-source _))

-- An empty ring with a transfer under way, whose end the deferred procedure is told of.
abbrev waiting : Driver
waiting = idle (at 6 6 7) 1 (2 ^ 5)

dpc_wakes_example : Served detector 512 [] waiting
unfolding is_readable
dpc_wakes_example =
    dpc_wakes detector 512 [] waiting (λ t. refl) (λ t. refl) refl
      (record {
        rp_in = omega arith;
        wp_in = omega arith;
        ip_in = omega arith;
        wp_between = omega arith;
      })
      refl (omega arith) refl refl
