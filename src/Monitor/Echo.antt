-- ===== src/Monitor/Echo.antt =====
-- watchdog/system_monitor.c: when the monitor sends an echo, and what keeps a reply from coming.
use cjunk.Prelude.{
  ℕ, zero, suc, ◌+◌, ◌-◌, ◌^◌, ◌≤◌, ◌<◌, ◌≡◌, refl, ◌∙◌, Bool, true, false, ltb, Option,
  Option-cases, inl, inr, none, some, List, [], ◌∷◌, arith, if◌then◌else◌,
}
use cjunk.Monitor.{
  World, Codes, Action, send_echo, recv_body, Monitor, Connected, connected, rebooting, log,
  connect, sleep, select_socket, close_connection, sent_echos, connect_from, connect_2_appl,
  timed_out, round, rounds, get_body, get_marker, get_header, receive_cmd, Msg, cs_marker,
  recv_marker, recv_header,
}
use cjunk.Prelude.Word.{u32}
use cjunk.Monitor.Attempts.{state_of, connect_2_appl-ne-none}

abbrev is_echo : Action → Bool
is_echo (send_echo t) = true
is_echo _ = false

-- The number of echo commands sent.
abbrev pub echos : List Action → ℕ
echos [] = 0
echos (a ∷ t) = if is_echo a then suc (echos t) else echos t

connect_from-quiet :
    (w : World) (fuel i : ℕ) (m : Monitor) {c : Connected}
    → connect_from w fuel i m ≡ some c
    → (echos (state_of c).calls ≡ echos m.calls) × ((state_of c).gotit ≡ m.gotit)
unfolding connect_from
connect_from-quiet w zero i m h = cc
connect_from-quiet w (suc fuel) i m {c} h =
    let m1 = record (log connect m) { client_socket = w.create_connection m.calls } in
    ground (arith, connect_from-quiet w fuel (i + 1) (log sleep m1) {c = c})

connect_2_appl-quiet :
    (w : World) (fuel : ℕ) (m : Monitor) {c : Connected}
    → connect_2_appl w fuel m ≡ some c
    → (echos (state_of c).calls ≡ echos m.calls) × ((state_of c).gotit ≡ m.gotit)
unfolding connect_2_appl
connect_2_appl-quiet w fuel m {c} h = ground (arith, connect_from-quiet w fuel 0 m {c = c})

-- A run that has ended or goes on, in which no echo was sent and no reply came.
pub record Quiet (m : Monitor) (out : Option Connected) : Type 0 where
  pub result : Connected
  pub ends : out ≡ some result
  pub none_sent : echos (state_of result).calls ≡ echos m.calls
  pub no_reply : (state_of result).gotit ≡ false

timed_out-Quiet :
    (w : World) (fuel : ℕ) (m : Monitor) → 7 ≤ fuel → m.gotit ≡ false → Quiet m (timed_out w fuel m)
unfolding timed_out
timed_out-Quiet w fuel m enough waiting =
    let q = by_count (ltb sent_echos m.wait_cntr) in
    record {
      result = q.result;
      ends = ground (arith, waiting, q.ends);
      none_sent = q.none_sent;
      no_reply = q.no_reply;
    }
  where
    again : Monitor
    again = close_connection (record m { wait_cntr = 0 })

    by_count :
        (b : Bool)
        → Quiet m (
            if b
            then connect_2_appl w fuel again
            else some (connected (record m { wait_cntr = m.wait_cntr + 1 })))
    by_count true = elim (Option-cases (connect_2_appl w fuel again)) [
      | inl stuck ↦ absurd (connect_2_appl-ne-none w fuel again enough stuck)
      | inr (c, done) ↦
          let (quiet, same) = connect_2_appl-quiet w fuel again done in
          record { result = c; ends = done; none_sent = quiet; no_reply = same ∙ waiting }
    ]
    by_count false = record {
      result = connected (record m { wait_cntr = m.wait_cntr + 1 });
      ends = refl;
      none_sent = refl;
      no_reply = waiting;
    }

round-Quiet :
    (w : World) (k : Codes) (fuel : ℕ) (m : Monitor)
    → 7 ≤ fuel
    → w.select m.calls ≡ some 0
    → m.gotit ≡ false
    → Quiet m (round w k fuel m)
unfolding round
round-Quiet w k fuel m enough silent waiting =
    let q = timed_out-Quiet w fuel (log select_socket m) enough waiting in
    record {
      result = q.result;
      ends = ground (arith, silent, q.ends);
      none_sent = q.none_sent;
      no_reply = q.no_reply;
    }

-- Once an echo was not answered, while the application stays silent, no further echo is ever sent,
-- whatever connections are closed and made: in any number of rounds in which select times out.
pub no_echo_again :
    (w : World) (k : Codes) (fuel n : ℕ) (m : Monitor)
    → 7 ≤ fuel
    → ((t : List Action) → w.select t ≡ some 0)
    → m.gotit ≡ false
    → Quiet m (rounds w k fuel n m)
unfolding rounds
no_echo_again w k fuel zero m enough silent waiting = record {
  result = connected m;
  ends = refl;
  none_sent = refl;
  no_reply = waiting;
}
no_echo_again w k fuel (suc n) m enough silent waiting =
    let q = round-Quiet w k fuel m enough (silent m.calls) waiting in
    go (λ m' r. no_echo_again w k fuel n m' enough silent r) q.result q.ends q.none_sent q.no_reply
  where
    go :
        ((m' : Monitor) → m'.gotit ≡ false → Quiet m' (rounds w k fuel n m'))
        → (c : Connected) → round w k fuel m ≡ some c
        → echos (state_of c).calls ≡ echos m.calls
        → (state_of c).gotit ≡ false
        → Quiet m (rounds w k fuel (suc n) m)
    go again (rebooting m') done q r = record {
      result = rebooting m';
      ends = ground (arith, done);
      none_sent = q;
      no_reply = r;
    }
    go again (connected m') done q r =
        let s = again m' r in
        record {
          result = s.result;
          ends = ground (arith, done, s.ends);
          none_sent = s.none_sent ∙ q;
          no_reply = s.no_reply;
        }

get_body-stuck :
    (w : World) (fuel sum : ℕ) (m : Monitor)
    → ((t : List Action) → w.body t ≡ 0)
    → sum < 2 ^ 32
    → sum < m.msg.length
    → get_body w fuel sum m ≡ none
unfolding get_body
get_body-stuck w zero sum m closed word more = refl
get_body-stuck w (suc fuel) sum m closed word more =
    let n = u32 (m.msg.length + 4294967296 - sum) in
    ground (arith, closed m.calls, get_body-stuck w fuel sum (log (recv_body n) m) closed word)

-- If the application closes the connection between a header that announces a body and the body, so
-- that recv gives 0 from then on, receive_cmd does not return, with any fuel.
pub closed_in_body :
    (w : World) (fuel : ℕ) (m : Monitor) (h : Msg)
    → ((t : List Action) → w.marker t ≡ some cs_marker)
    → ((t : List Action) → w.header t ≡ some h)
    → ((t : List Action) → w.body t ≡ 0)
    → 0 < h.length
    → receive_cmd w fuel m ≡ none
unfolding receive_cmd get_marker get_header
closed_in_body w zero m h marked headed closed body = refl
closed_in_body w (suc fuel) m h marked headed closed body =
    let m1 = log recv_marker m in
    let m2 = record (log recv_header m1) { msg = h } in
    ground (
      arith,
      marked m.calls,
      headed m1.calls,
      get_body-stuck w (suc fuel) 0 m2 closed (omega arith) body,
    )
