-- ===== src/Monitor/Bounds.antt =====
-- watchdog/system_monitor.c: how far wait_cntr counts.
use cjunk.Prelude.{
  ℕ, zero, suc, ◌+◌, ◌-◌, ◌≤◌, ◌≡◌, Bool, false, Option-cases, inl, inr, some, arith,
}
use cjunk.Prelude.Word.{u32}
use cjunk.Monitor.{
  World, Codes, connect, sleep, select_socket, recv_marker, recv_body, Monitor, Connected,
  connected, rebooting, log, close_connection, connect_from, connect_2_appl, get_marker, get_body,
  get_header, receive_cmd, send_another_command, recv_another_command, timed_out, answered, round,
  rounds,
}
use cjunk.Monitor.Attempts.{state_of}

connect_from-wait :
    (w : World) (fuel i : ℕ) (m : Monitor) {c : Connected}
    → connect_from w fuel i m ≡ some c
    → (state_of c).wait_cntr ≡ m.wait_cntr
unfolding connect_from
connect_from-wait w zero i m h = cc
connect_from-wait w (suc fuel) i m {c} h =
    let m1 = record (log connect m) { client_socket = w.create_connection m.calls } in
    ground (arith, connect_from-wait w fuel (i + 1) (log sleep m1) {c = c})

connect_2_appl-wait :
    (w : World) (fuel : ℕ) (m : Monitor) {c : Connected}
    → connect_2_appl w fuel m ≡ some c
    → (state_of c).wait_cntr ≡ m.wait_cntr
unfolding connect_2_appl
connect_2_appl-wait w fuel m {c} h = ground (arith, connect_from-wait w fuel 0 m {c = c})

get_marker-wait :
    (w : World) (fuel : ℕ) (m : Monitor) {r : Bool × Monitor}
    → get_marker w fuel m ≡ some r
    → r.1.wait_cntr ≡ m.wait_cntr
unfolding get_marker
get_marker-wait w zero m h = cc
get_marker-wait w (suc fuel) m {r} h =
    ground (arith, get_marker-wait w fuel (log recv_marker m) {r = r})

get_body-wait :
    (w : World) (fuel sum : ℕ) (m : Monitor) {m' : Monitor}
    → get_body w fuel sum m ≡ some m'
    → m'.wait_cntr ≡ m.wait_cntr
unfolding get_body
get_body-wait w zero sum m h = cc
get_body-wait w (suc fuel) sum m {m'} h =
    let n = u32 (m.msg.length + 4294967296 - sum) in
    ground
      (arith, get_body-wait w fuel (u32 (sum + w.body m.calls)) (log (recv_body n) m) {m' = m'})

get_header-wait : (w : World) (m : Monitor) → (get_header w m).wait_cntr ≡ m.wait_cntr
unfolding get_header
get_header-wait w m = ground arith

receive_cmd-wait :
    (w : World) (fuel : ℕ) (m : Monitor) {m' : Monitor}
    → receive_cmd w fuel m ≡ some m'
    → m'.wait_cntr ≡ m.wait_cntr
unfolding receive_cmd
receive_cmd-wait w fuel m {m'} h = elim (Option-cases (get_marker w fuel m)) [
  | inl stuck ↦ ground arith
  | inr ((b, m1), done) ↦ ground (
    arith,
    get_marker-wait w fuel m done,
    get_header-wait w m1,
    get_body-wait w fuel 0 (get_header w m1) {m' = m'},
  )
]

timed_out-wait :
    (w : World) (fuel : ℕ) (m : Monitor) {c : Connected}
    → m.wait_cntr ≤ 4
    → timed_out w fuel m ≡ some c
    → (state_of c).wait_cntr ≤ 4
unfolding timed_out send_another_command
timed_out-wait w fuel m {c} small h =
    let sent = send_another_command w (record m { gotit = false; wait_cntr = 0 }) in
    ground (
      arith,
      connect_2_appl-wait w fuel (close_connection sent.1) {c = c},
      connect_2_appl-wait w fuel (close_connection (record m { wait_cntr = 0 })) {c = c},
    )

answered-wait :
    (w : World) (k : Codes) (fuel : ℕ) (m : Monitor) {c : Connected}
    → answered w k fuel m ≡ some c
    → (state_of c).wait_cntr ≡ m.wait_cntr
unfolding answered recv_another_command
answered-wait w k fuel m {c} h = elim (Option-cases (receive_cmd w fuel m)) [
  | inl stuck ↦ ground arith
  | inr (m1, done) ↦
      ground (arith, receive_cmd-wait w fuel m done, connect_2_appl-wait w fuel m1 {c = c})
]

round-wait :
    (w : World) (k : Codes) (fuel : ℕ) (m : Monitor) {c : Connected}
    → m.wait_cntr ≤ 4
    → round w k fuel m ≡ some c
    → (state_of c).wait_cntr ≤ 4
unfolding round
round-wait w k fuel m {c} small h =
    let m1 = log select_socket m in
    ground (arith, timed_out-wait w fuel m1 {c = c}, answered-wait w k fuel m1 {c = c})

-- In the rounds that end, the counter of timeouts without a reply stays at 4 or below.
rounds-wait :
    (w : World) (k : Codes) (fuel n : ℕ) (m : Monitor) {c : Connected}
    → m.wait_cntr ≤ 4
    → rounds w k fuel n m ≡ some c
    → (state_of c).wait_cntr ≤ 4
unfolding rounds
rounds-wait w k fuel zero m {c} small h = ground arith
rounds-wait w k fuel (suc n) m {c} small h = elim (Option-cases (round w k fuel m)) [
  | inl stuck ↦ ground arith
  | inr (rebooting m', done) ↦ ground (arith, round-wait w k fuel m small done)
  | inr (connected m', done) ↦
      rounds-wait w k fuel n m' {c = c} (round-wait w k fuel m small done) (ground arith)
]
