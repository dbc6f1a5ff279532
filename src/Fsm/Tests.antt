-- ===== src/Fsm/Tests.antt =====
-- fsm/system_state.c: runs of the state machine, and the theorems at concrete inputs.
use cjunk.Prelude.{◌≡◌, refl, inl, List, [], ◌∷◌}
use cjunk.Fsm.{
  standby, operational, failed, offset_collecting, cs_software_initialized, set_configuration,
  set_standby, hardware_ready, commence_offset_collection, Machine, boot, Call, condition,
  background, next_system_state, call, calls,
}
use cjunk.Fsm.Lifecycle.{Within, terminal_absorbs, operational_needs, standby_needs}

-- A working day: start, configuration, offset collection, hardware ready.
abbrev morning : List Call
morning =
    condition cs_software_initialized
    ∷ condition set_configuration
    ∷ background commence_offset_collection
    ∷ condition hardware_ready
    ∷ []

abbrev broken : Machine
broken = record { system_state = failed; background_state = offset_collecting }

morning_operational : (calls boot morning).system_state ≡ operational
unfolding calls call next_system_state
morning_operational = refl

terminal_absorbs_example : (calls broken morning).system_state ≡ failed
terminal_absorbs_example = terminal_absorbs broken morning (inl refl) refl

operational_needs_example :
    Within (condition set_configuration ∷ condition hardware_ready ∷ []) morning
operational_needs_example = operational_needs morning morning_operational

-- The end of the day.
abbrev evening : List Call
evening =
    condition set_standby ∷ background commence_offset_collection ∷ condition hardware_ready ∷ []

abbrev running : Machine
running = record { system_state = operational; background_state = offset_collecting }

evening_standby : (calls running evening).system_state ≡ standby
unfolding calls call next_system_state
evening_standby = refl

standby_needs_example : Within (condition set_standby ∷ condition hardware_ready ∷ []) evening
standby_needs_example = standby_needs running evening (cc, cc) (cc) refl evening_standby
