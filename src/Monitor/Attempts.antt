-- ===== src/Monitor/Attempts.antt =====
-- watchdog/system_monitor.c: connect_2_appl ends, and how often it tries.
use cjunk.Prelude.{
  ℕ, zero, suc, ◌+◌, ◌≤◌, ◌≡◌, ◌≢◌, Bool, true, false, Option, Option-cases, inl, inr, none, some,
  List, [], ◌∷◌, arith, if◌then◌else◌,
}
use cjunk.Monitor.{
  World, Action, connect, sleep, Monitor, Connected, rebooting, connected, log, connect_from,
  connect_2_appl,
}

abbrev is_attempt : Action → Bool
is_attempt connect = true
is_attempt _ = false

-- The number of attempts to connect.
abbrev pub attempts : List Action → ℕ
attempts [] = 0
attempts (a ∷ t) = if is_attempt a then suc (attempts t) else attempts t

abbrev pub state_of : Connected → Monitor
state_of (connected m) = m
state_of (rebooting m) = m

abbrev pub is_rebooting : Connected → Bool
is_rebooting (connected m) = false
is_rebooting (rebooting m) = true

-- An end in the wait for a reboot, after seven attempts.
pub record Rebooted (m : Monitor) (out : Option Connected) : Type 0 where
  pub result : Connected
  pub ends : out ≡ some result
  pub count : attempts (state_of result).calls ≡ attempts m.calls + 7
  pub reboots : is_rebooting result ≡ true

connect_from-ne-none :
    (w : World) (fuel i : ℕ) (m : Monitor)
    → 7 ≤ fuel + i
    → 1 ≤ fuel
    → connect_from w fuel i m ≢ none
unfolding connect_from
connect_from-ne-none w zero i m h k = omega arith
connect_from-ne-none w (suc fuel) i m h k = ground (
  arith,
  connect_from-ne-none w fuel (i + 1)
      (log sleep (record (log connect m) { client_socket = w.create_connection m.calls })),
)

-- connect_2_appl ends with a connection or in the wait for a reboot: fuel for seven attempts is
-- enough.
pub connect_2_appl-ne-none :
    (w : World) (fuel : ℕ) (m : Monitor) → 7 ≤ fuel → connect_2_appl w fuel m ≢ none
unfolding connect_2_appl
connect_2_appl-ne-none w fuel m h = ground (arith, connect_from-ne-none w fuel 0 m)

module _ (w : World) (refused : (t : List Action) → w.create_connection t ≡ none) where
  attempts-from :
      (fuel i : ℕ) (m : Monitor) {c : Connected}
      → i ≤ 6
      → connect_from w fuel i m ≡ some c
      → (attempts (state_of c).calls + i ≡ attempts m.calls + 7) × (is_rebooting c ≡ true)
  unfolding connect_from
  attempts-from zero i m k h = cc
  attempts-from (suc fuel) i m {c} k h =
      let m1 = record (log connect m) { client_socket = none } in
      ground (arith, refused m.calls, attempts-from fuel (i + 1) (log sleep m1) {c = c})

  -- While every attempt to connect is refused, connect_2_appl without a connection makes seven
  -- attempts, two more than MAX_CONN_ATTEMPTS, and then waits for a reboot.
  pub seven_attempts :
      (fuel : ℕ) (m : Monitor)
      → 7 ≤ fuel
      → m.client_socket ≡ none
      → Rebooted m (connect_2_appl w fuel m)
  unfolding connect_2_appl
  seven_attempts fuel m enough closed = elim (Option-cases (connect_from w fuel 0 m)) [
    | inl stuck ↦ absurd (connect_from-ne-none w fuel 0 m (omega arith) (omega arith) stuck)
    | inr (c, done) ↦
        let (count, ended) = attempts-from fuel 0 m (omega arith) done in
        record {
          result = c;
          ends = ground (arith, closed, done);
          count = omega (arith, count);
          reboots = ended;
        }
  ]
