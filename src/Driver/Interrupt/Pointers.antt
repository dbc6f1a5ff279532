-- ===== src/Driver/Interrupt/Pointers.antt =====
-- plx_interrupt.c: how the interrupt service routine and its deferred procedure move the pointers
-- of the frame ring, for every behaviour of the device.
use cjunk.Prelude.{ℕ, ◌≡◌, refl, ap, Bool, true, false, Option, none, some, if◌then◌else◌}
use cjunk.Prelude.Word.{has_bit}
use cjunk.Driver.Defs.{Env, Driver, Ring}
use cjunk.Driver.Held.{kept}
use cjunk.Driver.Ring.{step_ip, step_wp}
use cjunk.Driver.Ring.Order.{IsOrdered, step_ip-IsOrdered}
use cjunk.Driver.Interrupt.Kept.{
  or_same, stepped, if_stepped, finds_local, plx_on_interrupt-held, plx_dpc_for_isr-held,
}
use cjunk.Driver.Interrupt.{plx_on_interrupt, plx_dpc_for_isr}

-- The handler steps `ip` exactly if it finds a local interrupt, and leaves the ring alone
-- otherwise: in a low power state, with the interrupts disabled, and on a DMA interrupt.
pub plx_on_interrupt-ring :
    (e : Env) (d : Driver)
    → (plx_on_interrupt e d).1.ring
      ≡ (if finds_local e d then or_same d.ring (step_ip d.ring) else d.ring)
unfolding kept
plx_on_interrupt-ring e d =
    by_test (finds_local e d) (ap (λ (p : Ring × ℕ). p.0) (plx_on_interrupt-held e d))
  where
    by_test :
        (b : Bool)
        → (plx_on_interrupt e d).1.ring ≡ (if b then stepped step_ip (kept d) else kept d).0
        → (plx_on_interrupt e d).1.ring ≡ (if b then or_same d.ring (step_ip d.ring) else d.ring)
    by_test true h = h
    by_test false h = h

-- The handler keeps the order of the pointers.
plx_on_interrupt-IsOrdered :
    (e : Env) (d : Driver) → IsOrdered d.ring → IsOrdered (plx_on_interrupt e d).1.ring
plx_on_interrupt-IsOrdered e d v = rw (plx_on_interrupt-ring e d) (by_test (finds_local e d))
  where
    step : (o : Option Ring) → step_ip d.ring ≡ o → IsOrdered (or_same d.ring o)
    step none h = v
    step (some r) h = step_ip-IsOrdered d.ring v h

    by_test : (b : Bool) → IsOrdered (if b then or_same d.ring (step_ip d.ring) else d.ring)
    by_test true = step (step_ip d.ring) refl
    by_test false = v

-- The deferred procedure steps `wp` exactly if a transfer on channel 0 has ended, unless `wp` has
-- reached `rp`. (Bit 6, for channel 1, is not set: that channel is not used.)
pub plx_dpc_for_isr-ring :
    (e : Env) (d : Driver)
    → has_bit d.source_ints 6 ≡ false
    → (plx_dpc_for_isr e d).1.ring
      ≡ (if has_bit d.source_ints 5 then or_same d.ring (step_wp d.ring) else d.ring)
unfolding kept
plx_dpc_for_isr-ring e d one =
    by_source (has_bit d.source_ints 5) (has_bit d.source_ints 6) one
      (ap (λ (p : Ring × ℕ). p.0) (plx_dpc_for_isr-held e d))
  where
    by_source :
        (b c : Bool)
        → c ≡ false
        → (plx_dpc_for_isr e d).1.ring ≡ (if_stepped c (if_stepped b (kept d))).0
        → (plx_dpc_for_isr e d).1.ring ≡ (if b then or_same d.ring (step_wp d.ring) else d.ring)
    by_source b true n h = cc
    by_source true false n h = h
    by_source false false n h = h
