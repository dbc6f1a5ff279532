-- ===== src/Monitor/Tests.antt =====
-- watchdog/system_monitor.c: the theorems at concrete inputs.
use cjunk.Prelude.{◌≡◌, ◌≢◌, refl, false, none, some, [], arith}
use cjunk.Monitor.{World, Codes, Monitor, Msg, cs_marker, receive_cmd, rounds, connect_2_appl}
use cjunk.Monitor.Attempts.{Rebooted, connect_2_appl-ne-none, seven_attempts}
use cjunk.Monitor.Echo.{Quiet, no_echo_again, closed_in_body}

-- An application that accepts no connection, and one that announces a body and closes.
abbrev dead : World
dead = record {
  create_connection = λ t. none;
  select = λ t. some 0;
  is_set = λ t. false;
  send_fails = λ t. false;
  marker = λ t. none;
  header = λ t. none;
  body = λ t. 0;
}

abbrev announced : Msg
announced = record { cmd = 1; cmd_tag = 0x37; length = 12 }

abbrev closing : World
closing = record dead {
  create_connection = λ t. some 4;
  marker = λ t. some cs_marker;
  header = λ t. some announced;
}

abbrev codes : Codes
codes = record { cmd_echo_cs_reply = 0x81 }

abbrev waiting : Monitor
waiting = record {
  gotit = false;
  wait_cntr = 2;
  cmd_tag = 0x37;
  client_socket = some 4;
  msg = announced;
  calls = [];
}

abbrev alone : Monitor
alone = record waiting { client_socket = none }

no_echo_again_example : Quiet waiting (rounds closing codes 7 20 waiting)
no_echo_again_example = no_echo_again closing codes 7 20 waiting (omega arith) (λ t. refl) refl

closed_in_body_example : receive_cmd closing 100 waiting ≡ none
closed_in_body_example =
    closed_in_body closing 100 waiting announced (λ t. refl) (λ t. refl) (λ t. refl) (omega arith)

connect_2_appl-ne-none_example : connect_2_appl dead 7 alone ≢ none
connect_2_appl-ne-none_example = connect_2_appl-ne-none dead 7 alone (omega arith)

seven_attempts_example : Rebooted alone (connect_2_appl dead 7 alone)
seven_attempts_example = seven_attempts dead (λ t. refl) 7 alone (omega arith) refl

silent_run : Quiet waiting (rounds closing codes 7 20 waiting)
silent_run = no_echo_again closing codes 7 20 waiting (omega arith) (λ t. refl) refl
