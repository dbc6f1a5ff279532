-- ===== src/Driver/IoctlTests.antt =====
-- plx_ioctl.c: the theorems about ioctl calls at concrete inputs.
use cjunk.Prelude.{ℕ, ◌≡◌, ◌≢◌, refl, true, false, none, List, [], ◌∷◌, get_or, arith}
use cjunk.Driver.Request.{Cmd, User, State, command, device_driver_version}
use cjunk.Driver.Ioctl.{plx_drv_ioctl}
use cjunk.Driver.Ioctl.Buffer.{order_overwrites}
use cjunk.Driver.Ioctl.Counts.{Counted, order_cmd, counters_read}
use cjunk.Driver.Ioctl.Ends.{plx_drv_ioctl-ne-none}
use cjunk.Driver.CommandLink.Waiting.{enough_fuel}
use cjunk.Driver.Tests.{detector, detector-Clock, idle, wrapped}

-- A Container with order 3.
abbrev ask_counts : List ℕ
ask_counts = 3 ∷ 0x1000 ∷ 9 ∷ 9 ∷ 9 ∷ 9 ∷ 9 ∷ 9 ∷ 9 ∷ 9 ∷ 9 ∷ 9 ∷ 9 ∷ 9 ∷ 9 ∷ 9 ∷ 9 ∷ 9 ∷ 0 ∷ []

abbrev caller : User
caller = record { access_ok = true; from_user = λ b. (false, ask_counts); to_user_fails = false }

abbrev ready : State
ready = record { driver = idle wrapped 1 0; localbuf = 7 ∷ 7 ∷ [] }

-- SET_DETECTOR_VERSION has a number and no case.
abbrev no_case : Cmd
no_case = record { magic = 107; nr = 34; size = 0; reads = false; writes = false }

counts : Counted ready (plx_drv_ioctl detector 5 caller order_cmd ready)
counts = counters_read detector 5 caller ready refl refl refl refl (omega arith)

counters_read_example : Counted ready (plx_drv_ioctl detector 5 caller order_cmd ready)
counters_read_example = counters_read detector 5 caller ready refl refl refl refl (omega arith)

order_overwrites_example : get_or counts.words 1 0 ≡ device_driver_version
unfolding command
order_overwrites_example =
    order_overwrites detector 5 caller order_cmd ready refl (omega arith) (omega arith) counts.ends
      counts.copied

plx_drv_ioctl-ne-none_example : plx_drv_ioctl detector enough_fuel caller order_cmd ready ≢ none
plx_drv_ioctl-ne-none_example =
    plx_drv_ioctl-ne-none detector enough_fuel (omega arith) detector-Clock caller order_cmd ready
