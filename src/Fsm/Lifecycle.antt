-- ===== src/Fsm/Lifecycle.antt =====
-- fsm/system_state.c: what holds along a sequence of calls.
use cjunk.Prelude.{◌≡◌, refl, ◌≢◌, ◌⊎◌, inl, inr, List, [], ◌∷◌, arith, Bool, true, false, ◌||◌}
use cjunk.Fsm.{
  SystemState, init, standby, warmup, chill, operational, set_configuration, set_standby,
  hardware_ready, Machine, boot, Call, condition, background, reset_to_standby, next_system_state,
  call, calls,
}
use cjunk.Fsm.Invariant.{IsTerminal}

-- `Within xs ys`: the calls `xs` were made in this order among `ys`.
pub data Within : List Call → List Call → Type 0 where
  done : {ys : List Call} → Within [] ys
  keep : {x y : Call} {xs ys : List Call} → y ≡ x → Within xs ys → Within (x ∷ xs) (y ∷ ys)
  skip : {y : Call} {xs ys : List Call} → Within xs ys → Within xs (y ∷ ys)

abbrev is_reset : Call → Bool
is_reset reset_to_standby = true
is_reset _ = false

abbrev pub has_reset : List Call → Bool
has_reset [] = false
has_reset (c ∷ cs) = is_reset c || has_reset cs

call_terminal :
    (m : Machine) (c : Call)
    → IsTerminal m.system_state
    → is_reset c ≡ false
    → (call m c).system_state ≡ m.system_state
unfolding call next_system_state
call_terminal m (condition c) h r = ground arith
call_terminal m (background c) h r = refl
call_terminal m reset_to_standby h r = cc

-- The states FAILED and REDUCED are left by no sequence of calls without
-- set_standby_system_state.
pub terminal_absorbs :
    (m : Machine) (cs : List Call)
    → IsTerminal m.system_state
    → has_reset cs ≡ false
    → (calls m cs).system_state ≡ m.system_state
unfolding calls
terminal_absorbs m [] h r = refl
terminal_absorbs m (c ∷ cs) h r =
    ground (arith, call_terminal m c h, terminal_absorbs (call m c) cs)

abbrev IsCold : SystemState → Type 0
IsCold s = (s ≢ operational) × (s ≢ warmup)

call-IsCold :
    (m : Machine) (c : Call)
    → IsCold m.system_state
    → (c ≡ condition set_configuration) ⊎ IsCold (call m c).system_state
unfolding call next_system_state
call-IsCold m (condition c) h = ground arith
call-IsCold m (background c) h = inr h
call-IsCold m reset_to_standby h = ground arith

call_not_operational :
    (m : Machine) (c : Call)
    → m.system_state ≢ operational
    → (c ≡ condition hardware_ready) ⊎ ((call m c).system_state ≢ operational)
unfolding call next_system_state
call_not_operational m (condition c) h = ground arith
call_not_operational m (background c) h = inr h
call_not_operational m reset_to_standby h = ground arith

needs_ready :
    (m : Machine) (cs : List Call)
    → m.system_state ≢ operational
    → (calls m cs).system_state ≡ operational
    → Within (condition hardware_ready ∷ []) cs
unfolding calls
needs_ready m [] h e = absurd (h e)
needs_ready m (c ∷ cs) h e = elim (call_not_operational m c h) [
  | inl is_ready ↦ keep is_ready done
  | inr not_yet ↦ skip (needs_ready (call m c) cs not_yet e)
]

configured_not_operational :
    (m : Machine) (c : Call)
    → m.system_state ≢ operational
    → c ≡ condition set_configuration
    → (call m c).system_state ≢ operational
unfolding call next_system_state
configured_not_operational m (condition c) h e = ground arith
configured_not_operational m (background c) h e = cc
configured_not_operational m reset_to_standby h e = cc

needs_configuration :
    (m : Machine) (cs : List Call)
    → IsCold m.system_state
    → (calls m cs).system_state ≡ operational
    → Within (condition set_configuration ∷ condition hardware_ready ∷ []) cs
unfolding calls
needs_configuration m [] h e = absurd (h.0 e)
needs_configuration m (c ∷ cs) h e = elim (call-IsCold m c h) [
  | inl configured ↦
      keep configured (needs_ready (call m c) cs (configured_not_operational m c h.0 configured) e)
  | inr cold ↦ skip (needs_configuration (call m c) cs cold e)
]

-- After boot, the system is OPERATIONAL only if SET_CONFIGURATION was issued and, later,
-- HARDWARE_READY.
pub operational_needs :
    (cs : List Call)
    → (calls boot cs).system_state ≡ operational
    → Within (condition set_configuration ∷ condition hardware_ready ∷ []) cs
operational_needs cs e = needs_configuration boot cs (cc, cc) e

abbrev IsAway : SystemState → Type 0
IsAway s = (s ≢ init) × (s ≢ standby)

call-IsAway :
    (m : Machine) (c : Call)
    → IsAway m.system_state
    → is_reset c ≡ false
    → (c ≡ condition hardware_ready) ⊎ IsAway (call m c).system_state
unfolding call next_system_state
call-IsAway m (condition c) h r = ground arith
call-IsAway m (background c) h r = inr h
call-IsAway m reset_to_standby h r = cc

needs_cooling :
    (m : Machine) (cs : List Call)
    → IsAway m.system_state
    → has_reset cs ≡ false
    → (calls m cs).system_state ≡ standby
    → Within (condition hardware_ready ∷ []) cs
unfolding calls
needs_cooling m [] h r e = absurd (h.1 e)
needs_cooling m (c ∷ cs) h r e = elim (call-IsAway m c h (ground arith)) [
  | inl is_ready ↦ keep is_ready done
  | inr away ↦ skip (needs_cooling (call m c) cs away (ground arith) e)
]

call_hot :
    (m : Machine) (c : Call)
    → IsAway m.system_state
    → m.system_state ≢ chill
    → is_reset c ≡ false
    → IsAway (call m c).system_state
      × ((c ≡ condition set_standby) ⊎ ((call m c).system_state ≢ chill))
unfolding call next_system_state
call_hot m (condition c) h k r = (ground arith, ground arith)
call_hot m (background c) h k r = (h, inr k)
call_hot m reset_to_standby h k r = cc

-- The system gets from OPERATIONAL, WARMUP, FAILED or REDUCED to STANDBY, without
-- set_standby_system_state, only if SET_STANDBY was issued and, later, HARDWARE_READY.
pub standby_needs :
    (m : Machine) (cs : List Call)
    → (m.system_state ≢ init) × (m.system_state ≢ standby)
    → m.system_state ≢ chill
    → has_reset cs ≡ false
    → (calls m cs).system_state ≡ standby
    → Within (condition set_standby ∷ condition hardware_ready ∷ []) cs
unfolding calls
standby_needs m [] h k r e = absurd (h.1 e)
standby_needs m (c ∷ cs) h k r e =
    let (away, how) = call_hot m c h k (ground arith) in
    elim how [
      | inl left ↦ keep left (needs_cooling (call m c) cs away (ground arith) e)
      | inr hot ↦ skip (standby_needs (call m c) cs away hot (ground arith) e)
    ]
