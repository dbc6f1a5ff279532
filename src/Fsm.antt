-- ===== src/Fsm.antt =====
-- fsm/system_state.c and fsm/system_state.h: the state machine of the control system, with the
-- enumerations SYSTEM_STATE and BACKGROUND_STATE that its header names. The two static variables
-- of the file are the fields of `Machine`. Logging and print_state write no state and are left out.
pub mod Invariant
pub mod Lifecycle
mod Tests
use cjunk.Prelude.{List, [], ◌∷◌, ℕ}

pub data SystemState : Type 0 where
  init standby warmup chill operational failed reduced : SystemState

pub data BackgroundState : Type 0 where
  offset_collecting no_collecting : BackgroundState

pub data Condition : Type 0 where
  cs_software_initialized set_configuration set_standby cs_software_timeout : Condition
  hardware_ready cs_software_failure cs_hardware_failure : Condition

pub data Cond : Type 0 where
  commence_offset_collection terminate_offset_collection : Cond

pub record Machine : Type 0 where
  pub system_state : SystemState
  pub background_state : BackgroundState

-- The initial values of the static variables.
abbrev pub boot : Machine
boot = record { system_state = init; background_state = no_collecting }

unfoldable pub get_system_state : Machine → SystemState
get_system_state m = m.system_state

unfoldable pub get_offset_mode : Machine → BackgroundState
get_offset_mode m = m.background_state

-- The switch of change_system_state: the state assigned to `system_state`. The last clause holds
-- the `default` branches, which log "wrong current state or wrong condition!" and assign nothing.
unfoldable pub next_system_state : SystemState → Condition → SystemState
next_system_state init cs_software_initialized = standby
next_system_state init cs_software_failure = reduced
next_system_state init cs_hardware_failure = failed
next_system_state standby set_configuration = warmup
next_system_state standby cs_software_failure = reduced
next_system_state standby cs_hardware_failure = failed
next_system_state warmup set_standby = chill
next_system_state warmup hardware_ready = operational
next_system_state warmup cs_software_failure = reduced
next_system_state warmup cs_software_timeout = failed
next_system_state warmup cs_hardware_failure = failed
next_system_state operational set_configuration = warmup
next_system_state operational set_standby = chill
next_system_state operational cs_software_failure = reduced
next_system_state operational cs_hardware_failure = failed
next_system_state chill hardware_ready = standby
next_system_state chill cs_software_failure = reduced
next_system_state chill cs_hardware_failure = failed
next_system_state s _ = s

-- FAILING_RC_RETURNED is 0, so the `return -1` lines are not compiled: the result is 0.
unfoldable pub change_system_state : Machine → Condition → ℕ × Machine
change_system_state m c = (0, record m { system_state = next_system_state m.system_state c })

unfoldable pub set_standby_system_state : Machine → Machine
set_standby_system_state m = record m { system_state = standby }

-- The switch of change_background_mode.
unfoldable pub next_background_state : BackgroundState → Cond → BackgroundState
next_background_state offset_collecting terminate_offset_collection = no_collecting
next_background_state no_collecting commence_offset_collection = offset_collecting
next_background_state s _ = s

unfoldable pub change_background_mode : Machine → Cond → ℕ × Machine
change_background_mode m c =
    (0, record m { background_state = next_background_state m.background_state c })

-- The calls that the rest of the control system makes.
pub data Call : Type 0 where
  condition : Condition → Call
  background : Cond → Call
  reset_to_standby : Call

unfoldable pub call : Machine → Call → Machine
unfolding change_system_state change_background_mode set_standby_system_state
call m (condition c) = (change_system_state m c).1
call m (background c) = (change_background_mode m c).1
call m reset_to_standby = set_standby_system_state m

unfoldable pub calls : Machine → List Call → Machine
calls m [] = m
calls m (c ∷ cs) = calls (call m c) cs
