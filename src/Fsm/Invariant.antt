-- ===== src/Fsm/Invariant.antt =====
-- fsm/system_state.c: the two states that the system cannot leave by itself.
use cjunk.Prelude.{◌≡◌, ◌⊎◌}
use cjunk.Fsm.{SystemState, failed, reduced}

abbrev pub IsTerminal : SystemState → Type 0
IsTerminal s = (s ≡ failed) ⊎ (s ≡ reduced)
