-- ===== src/Monitor.antt =====
-- watchdog/system_monitor.c: the system monitor, which sends echo commands to the application over a
-- socket and connects again when no reply comes. Built as the file stands: WITH_WATCH_DOG is 0 and
-- TEST_APPL is not defined. The sockets are not code of the repository: `World` answers each call
-- from all the calls made before it. Prints and the signal handler are left out. A loop that waits
-- runs on fuel: `none` means that the fuel ran out.
pub mod Echo
pub mod Bounds
pub mod Attempts
mod Tests
use cjunk.Prelude.{
  ℕ, zero, suc, ◌+◌, ◌-◌, ◌==◌, ltb, Bool, true, false, not, Option, none, some, List, [], ◌∷◌,
  if◌then◌else◌,
}
use cjunk.Prelude.Word.{u32}

-- The calls that the monitor makes.
pub data Action : Type 0 where
  connect : Action
  close_socket : Action
  sleep : Action
  select_socket : Action
  send_marker : Action
  send_echo : ℕ → Action  -- the command's tag
  recv_marker : Action
  recv_header : Action
  recv_body : ℕ → Action

-- The fields of Cmd that the monitor reads.
pub record Msg : Type 0 where
  pub cmd : ℕ
  pub cmd_tag : ℕ
  pub length : ℕ

pub record World : Type 0 where
  pub create_connection : List Action → Option ℕ  -- none is -1
  pub select : List Action → Option ℕ  -- none is a negative result
  pub is_set : List Action → Bool
  pub send_fails : List Action → Bool
  pub marker : List Action → Option ℕ  -- none: recv gave 0 or less
  pub header : List Action → Option Msg  -- none is -1
  pub body : List Action → ℕ  -- the bit pattern of recv's result

-- conn_status, clientSocket (none is -1), and the static msg of receive_cmd.
pub record Monitor : Type 0 where
  pub gotit : Bool
  pub wait_cntr : ℕ
  pub cmd_tag : ℕ
  pub client_socket : Option ℕ
  pub msg : Msg
  pub calls : List Action

abbrev pub log : Action → Monitor → Monitor
log a m = record m { calls = a ∷ m.calls }

abbrev pub max_conn_attempts : ℕ
max_conn_attempts = 5

abbrev pub sent_echos : ℕ
sent_echos = 3

abbrev pub peer_closed : ℕ
peer_closed = 0xff

abbrev pub cs_marker : ℕ
cs_marker = 33

-- CMD_ECHO_CS_REPLY is CMD_ECHO_CS with the reply bit.
pub record Codes : Type 0 where
  pub cmd_echo_cs_reply : ℕ

abbrev pub close_connection : Monitor → Monitor
close_connection m = log close_socket (record m { client_socket = none })

-- How connect_2_appl goes on: with a connection, or in wait_for_reboot, which never returns.
pub data Connected : Type 0 where
  connected rebooting : Monitor → Connected

-- The loop of connect_2_appl.
pub connect_from : World → ℕ → ℕ → Monitor → Option Connected
connect_from w zero i m = none
connect_from w (suc fuel) i m =
    let m1 = record (log connect m) { client_socket = w.create_connection m.calls } in
    let rest = connect_from w fuel (i + 1) (log sleep m1) in
    elim (w.create_connection m.calls) [
      | some fd ↦ some (connected m1)
      | none ↦ if ltb max_conn_attempts i then some (rebooting m1) else rest
    ]

pub connect_2_appl : World → ℕ → Monitor → Option Connected
connect_2_appl w fuel m = elim m.client_socket [
  | some fd ↦ some (connected m)
  | none ↦ connect_from w fuel 0 m
]

-- do { recv } while (marker != CS_MARKER); false: the connection was lost.
pub get_marker : World → ℕ → Monitor → Option (Bool × Monitor)
get_marker w zero m = none
get_marker w (suc fuel) m =
    let rest = get_marker w fuel (log recv_marker m) in
    elim (w.marker m.calls) [
      | none ↦ some (false, close_connection (log recv_marker m))
      | some c ↦ if c == cs_marker then some (true, log recv_marker m) else rest
    ]

-- while (sum < msg.length): the comparison is one of unsigned numbers.
pub get_body : World → ℕ → ℕ → Monitor → Option Monitor
get_body w zero sum m = none
get_body w (suc fuel) sum m =
    let n = u32 (m.msg.length + 4294967296 - sum) in
    let rest = get_body w fuel (u32 (sum + w.body m.calls)) (log (recv_body n) m) in
    if ltb sum m.msg.length then rest else some m

-- A failed recv leaves msg as it was.
get_header : World → Monitor → Monitor
get_header w m = elim (w.header m.calls) [
  | none ↦ log recv_header m
  | some h ↦ record (log recv_header m) { msg = h }
]

pub receive_cmd : World → ℕ → Monitor → Option Monitor
receive_cmd w fuel m = elim (get_marker w fuel m) [
  | none ↦ none
  | some (false, m') ↦ some (record m' { msg = let h = m'.msg in record h { cmd = peer_closed } })
  | some (true, m') ↦ get_body w fuel 0 (get_header w m')
]

-- send_cmd of a command without a body: false is -1.
pub send_another_command : World → Monitor → Bool × Monitor
send_another_command w m =
    if w.send_fails m.calls
    then (false, log send_marker m)
    else let m1 = log send_marker m in (not (w.send_fails m1.calls), log (send_echo m.cmd_tag) m1)

-- true is 0. The tag of the reply is compared only for a message.
pub recv_another_command : World → Codes → ℕ → Monitor → Option (Bool × Monitor)
recv_another_command w k fuel m = elim (receive_cmd w fuel m) [
  | none ↦ none
  | some m' ↦ some (m'.msg.cmd == k.cmd_echo_cs_reply, m')
]

-- The timeout of select.
pub timed_out : World → ℕ → Monitor → Option Connected
timed_out w fuel m =
    if m.gotit
    then (let (ok, m') = send_another_command w (record m { gotit = false; wait_cntr = 0 }) in
        if ok then some (connected m') else connect_2_appl w fuel (close_connection m'))
    else if ltb sent_echos m.wait_cntr
    then connect_2_appl w fuel (close_connection (record m { wait_cntr = 0 }))
    else some (connected (record m { wait_cntr = m.wait_cntr + 1 }))

-- The rest: select gave a number other than 0, also a negative one.
pub answered : World → Codes → ℕ → Monitor → Option Connected
answered w k fuel m =
    if w.is_set m.calls
    then elim (recv_another_command w k fuel m) [
      | none ↦ none
      | some (true, m') ↦ some (connected (record m' { gotit = true }))
      | some (false, m') ↦ connect_2_appl w fuel m'
    ]
    else some (connected m)

-- One round of the loop of main.
pub round : World → Codes → ℕ → Monitor → Option Connected
round w k fuel m =
    let m1 = log select_socket m in
    elim (w.select m.calls) [
      | some zero ↦ timed_out w fuel m1
      | some (suc n) ↦ answered w k fuel m1
      | none ↦ answered w k fuel m1
    ]

-- `n` rounds, up to the end of the program if it comes before.
pub rounds : World → Codes → ℕ → ℕ → Monitor → Option Connected
rounds w k fuel zero m = some (connected m)
rounds w k fuel (suc n) m = elim (round w k fuel m) [
  | none ↦ none
  | some (rebooting m') ↦ some (rebooting m')
  | some (connected m') ↦ rounds w k fuel n m'
]

-- main up to its loop: the initial connection and echo.
pub start : World → ℕ → Monitor → Option Connected
start w fuel m =
    let m0 = record m { gotit = false; wait_cntr = 0; cmd_tag = 0x37 } in
    elim (connect_2_appl w fuel m0) [
      | none ↦ none
      | some (rebooting m') ↦ some (rebooting m')
      | some (connected m') ↦ some (connected (send_another_command w m').1)
    ]
