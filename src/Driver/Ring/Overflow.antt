-- ===== src/Driver/Ring/Overflow.antt =====
-- What the frame ring does when an interrupt finds it full (plx_interrupt.c, plx_fops.c): the
-- transfer is started all the same, and its end is counted against a buffer that `ip` never left.
use cjunk.Prelude.{
  ℕ, zero, suc, ◌+◌, ◌%◌, ◌<◌, ◌≤◌, ◌≡◌, refl, ◌≢◌, true, none, arith, List, [], ◌∷◌, ◌++◌,
}
use cjunk.Driver.Defs.{Ring}
use cjunk.Driver.Ring.{step_ip, step_wp, step_rp, is_readable}
use cjunk.Driver.Ring.Order.{distance, IsOrdered}
use cjunk.Driver.Ring.Fifo.{Event, capture, complete, fetch, Buffers, step}

abbrev IsIn : Ring → Type 0
IsIn r = (r.rp < 8) × (r.wp < 8) × (r.ip < 8)

after : Buffers → List Event → Buffers
after b [] = b
after b (e ∷ es) = after (step b e).0 es

-- Take an ordered ring that is full, with no transfer under way. A frame comes, a reader takes a
-- frame, and then the transfer of that frame ends: `wp` is one past `ip`.
wp_passes :
    (b : Buffers) (x : ℕ)
    → IsOrdered b.ring
    → distance b.ring.rp b.ring.ip ≡ 7
    → b.ring.wp ≡ b.ring.ip
    → (after b (capture x ∷ fetch ∷ complete ∷ [])).ring
      ≡ record { rp = (b.ring.rp + 1) % 8; wp = (b.ring.ip + 1) % 8; ip = b.ring.ip }
unfolding after step step_ip step_wp step_rp is_readable
wp_passes b x v full idle = ground arith

abbrev fetches : ℕ → List Event
fetches zero = []
fetches (suc n) = fetch ∷ fetches n

fetch_moves :
    (b : Buffers)
    → b.ring.rp < 8
    → b.ring.rp ≢ b.ring.wp
    → b.ring.rp ≢ b.ring.ip
    → (step b fetch).0.ring ≡ record (b.ring) { rp = (b.ring.rp + 1) % 8 }
unfolding step step_rp is_readable
fetch_moves b small ready far = ground arith

after-fetches :
    (b : Buffers) (n : ℕ)
    → IsIn b.ring
    → n ≤ distance b.ring.rp b.ring.wp
    → n ≤ distance b.ring.rp b.ring.ip
    → (after b (fetches n)).ring ≡ record (b.ring) { rp = (b.ring.rp + n) % 8 }
unfolding after
after-fetches b zero i p q = ground arith
after-fetches b (suc n) i p q =
    let moved = fetch_moves b i.0 (omega arith) (omega arith) in
    ground (
      arith,
      moved,
      after-fetches (step b fetch).0 n (rw moved (omega arith)) (rw moved (omega arith))
          (rw moved (omega arith)),
    )

after-append : (b : Buffers) (es fs : List Event) → after b (es ++ fs) ≡ after (after b es) fs
unfolding after
after-append b [] fs = refl
after-append b (e ∷ es) fs = after-append (step b e).0 es fs

-- The comment "This should never occur!" of plx_drv_read is wrong after an overflow: take an
-- ordered ring that is full, with no transfer under way. A frame comes, a reader takes a frame, the
-- transfer of that frame ends, and readers take six frames. Then a frame can be read, and the
-- read pointer has reached `ip`.
overflow_reaches_ip :
    (b : Buffers) (x : ℕ)
    → IsOrdered b.ring
    → distance b.ring.rp b.ring.ip ≡ 7
    → b.ring.wp ≡ b.ring.ip
    → let r = (after b ((capture x ∷ fetch ∷ complete ∷ []) ++ fetches 6)).ring in
      (is_readable r ≡ true) × (step_rp r ≡ none)
unfolding step_rp is_readable
overflow_reaches_ip b x v full idle =
    let c = after b (capture x ∷ fetch ∷ complete ∷ []) in
    let passed = wp_passes b x v full idle in
    let six =
      after-fetches c 6 (rw passed (omega arith)) (rw passed (omega arith))
        (rw passed (omega arith)) in
    rw (after-append b (capture x ∷ fetch ∷ complete ∷ []) (fetches 6), six)
      (ground (arith, passed))
