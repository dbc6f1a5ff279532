-- ===== src/Driver/Ring/Fifo.antt =====
-- The frame ring against a queue. Memory is a function from a buffer's index to the frame in it;
-- `capture` writes the buffer at ip (the transfer that plx_on_interrupt starts there), `complete`
-- is the end of a transfer in plx_dpc_for_isr, `fetch` is plx_drv_read without waiting.
use mathlib.Core.Path.{ap₂, ◌∙◌}
use cjunk.Prelude.{
  Option-cases, inl, inr, ℕ, zero, suc, ◌+◌, ◌-◌, ◌%◌, ◌≤◌, ◌<◌, ◌≡◌, refl, ap, ◌≢◌, ◌==◌, List, [],
  ◌∷◌, ◌++◌, Option, none, some, arith, length, if◌then◌else◌,
}
use cjunk.Driver.Defs.{Ring}
use cjunk.Driver.Ring.{step_ip, step_wp, step_rp, is_readable}
use cjunk.Driver.Ring.Order.{distance, IsOrdered}

pub data Event : Type 0 where
  capture : ℕ → Event
  complete fetch : Event

pub record Buffers : Type 0 where
  pub ring : Ring
  pub slot : ℕ → ℕ

abbrev pub update : (ℕ → ℕ) → ℕ → ℕ → ℕ → ℕ
update f i x j = if j == i then x else f j

abbrev or_same : Ring → Option Ring → Ring
or_same r none = r
or_same r (some s) = s

-- One event on the ring; the result is the frame that a reader got.
unfoldable pub step : Buffers → Event → Buffers × Option ℕ
step b (capture x) =
    (record { ring = or_same b.ring (step_ip b.ring); slot = update b.slot b.ring.ip x }, none)
step b complete = (record b { ring = or_same b.ring (step_wp b.ring) }, none)
step b fetch =
    if is_readable b.ring
    then (record b { ring = or_same b.ring (step_rp b.ring) }, some (b.slot b.ring.rp))
    else (b, none)

unfoldable pub run : Buffers → List Event → List (Option ℕ)
run b [] = []
run b (e ∷ es) = let (b', out) = step b e in out ∷ run b' es

-- The specification: frames are first transferred, then ready, both in order. At most seven are
-- held, and a frame that comes when there are seven is dropped.
pub record Pipeline : Type 0 where
  pub ready : List ℕ
  pub transferring : List ℕ

abbrev finish : List ℕ → List ℕ → Option Pipeline
finish ready [] = none
finish ready (x ∷ xs) = some (record { ready = ready ++ (x ∷ []); transferring = xs })

abbrev take_ready : List ℕ → List ℕ → Pipeline × Option ℕ
take_ready [] ts = (record { ready = []; transferring = ts }, none)
take_ready (x ∷ xs) ts = (record { ready = xs; transferring = ts }, some x)

-- `none`: a transfer ended that was not under way.
unfoldable pub spec_step : Pipeline → Event → Option (Pipeline × Option ℕ)
spec_step p (capture x) =
    if length p.ready + length p.transferring == 7
    then some (p, none)
    else some (record p { transferring = p.transferring ++ (x ∷ []) }, none)
spec_step p complete = elim (finish p.ready p.transferring) [
  | none ↦ none
  | some q ↦ some (q, none)
]
spec_step p fetch = some (take_ready p.ready p.transferring)

abbrev put_first : Option ℕ → Option (List (Option ℕ)) → Option (List (Option ℕ))
put_first out none = none
put_first out (some outs) = some (out ∷ outs)

unfoldable pub spec_run : Pipeline → List Event → Option (List (Option ℕ))
spec_run p [] = some []
spec_run p (e ∷ es) = elim (spec_step p e) [
  | none ↦ none
  | some (q, out) ↦ put_first out (spec_run q es)
]

-- The `n` frames from buffer `h` on, going round.
abbrev pub window : (ℕ → ℕ) → ℕ → ℕ → List ℕ
window f h zero = []
window f h (suc n) = f h ∷ window f ((h + 1) % 8) n

length-window : (f : ℕ → ℕ) (h n : ℕ) → length (window f h n) ≡ n
length-window f h zero = refl
length-window f h (suc n) = ap suc (length-window f ((h + 1) % 8) n)

window-update :
    (f : ℕ → ℕ) (i x h n : ℕ)
    → h < 8
    → i < 8
    → n ≤ distance h i
    → window (update f i x) h n ≡ window f h n
window-update f i x h zero hh hi far = refl
window-update f i x h (suc n) hh hi far =
    ground (arith, window-update f i x ((h + 1) % 8) n (omega arith) hi (omega arith))

window-snoc :
    (f : ℕ → ℕ) (h n k : ℕ)
    → h < 8
    → k ≡ (h + n) % 8
    → window f h (suc n) ≡ window f h n ++ (f k ∷ [])
window-snoc f h zero k hh e = let same : h ≡ k = omega arith in ap (λ i. f i ∷ []) same
window-snoc f h (suc n) k hh e =
    ap (λ l. f h ∷ l) (window-snoc f ((h + 1) % 8) n k (omega arith) (omega arith))

window-cons : (f : ℕ → ℕ) (h n : ℕ) → n ≢ 0 → window f h n ≡ f h ∷ window f ((h + 1) % 8) (n - 1)
window-cons f h zero p = absurd (p refl)
window-cons f h (suc n) p = ap (λ k. f h ∷ window f ((h + 1) % 8) k) (omega arith)

window-last :
    (f : ℕ → ℕ) (h m n k : ℕ)
    → h < 8
    → m ≡ suc n
    → k ≡ (h + n) % 8
    → window f h m ≡ window f h n ++ (f k ∷ [])
window-last f h m n k hh e ek = rw e (window-snoc f h n k hh ek)

-- What a ring and its memory stand for.
abbrev pub view : Buffers → Pipeline
view b = record {
  ready = window b.slot b.ring.rp (distance b.ring.rp b.ring.wp);
  transferring = window b.slot b.ring.wp (distance b.ring.wp b.ring.ip);
}

length-view :
    (b : Buffers)
    → IsOrdered b.ring
    → length (view b).ready + length (view b).transferring ≡ distance b.ring.rp b.ring.ip
length-view b v = omega (
  arith,
  length-window b.slot b.ring.rp (distance b.ring.rp b.ring.wp),
  length-window b.slot b.ring.wp (distance b.ring.wp b.ring.ip),
)

pub record Refines (b : Buffers) (e : Event) (q : Pipeline) (out : Option ℕ) : Type 0 where
  pub ordered : IsOrdered (step b e).0.ring
  pub same_view : view (step b e).0 ≡ q
  pub same_out : (step b e).1 ≡ out

capture-Refines :
    (b : Buffers) (x : ℕ) {q : Pipeline} {out : Option ℕ}
    → IsOrdered b.ring
    → spec_step (view b) (capture x) ≡ some (q, out)
    → Refines b (capture x) q out
unfolding step spec_step step_ip
capture-Refines b x v h = ground (
  arith,
  length-view b v,
  window-update b.slot b.ring.ip x b.ring.rp (distance b.ring.rp b.ring.wp),
  window-update b.slot b.ring.ip x b.ring.wp (distance b.ring.wp b.ring.ip),
  window-last (update b.slot b.ring.ip x) b.ring.wp (distance b.ring.wp ((b.ring.ip + 1) % 8))
      (distance b.ring.wp b.ring.ip) b.ring.ip,
)

complete-Refines :
    (b : Buffers) {q : Pipeline} {out : Option ℕ}
    → IsOrdered b.ring
    → spec_step (view b) complete ≡ some (q, out)
    → Refines b complete q out
unfolding step spec_step step_wp
complete-Refines b v h = ground (
  arith,
  window-cons b.slot b.ring.wp (distance b.ring.wp b.ring.ip),
  window-last b.slot b.ring.rp (distance b.ring.rp ((b.ring.wp + 1) % 8))
      (distance b.ring.rp b.ring.wp) b.ring.wp,
)

fetch-Refines :
    (b : Buffers) {q : Pipeline} {out : Option ℕ}
    → IsOrdered b.ring
    → spec_step (view b) fetch ≡ some (q, out)
    → Refines b fetch q out
unfolding step spec_step step_rp is_readable
fetch-Refines b v h = ground (arith, window-cons b.slot b.ring.rp (distance b.ring.rp b.ring.wp))

pub step-Refines :
    (b : Buffers) (e : Event) {q : Pipeline} {out : Option ℕ}
    → IsOrdered b.ring
    → spec_step (view b) e ≡ some (q, out)
    → Refines b e q out
step-Refines b (capture x) v h = capture-Refines b x v h
step-Refines b complete v h = complete-Refines b v h
step-Refines b fetch v h = fetch-Refines b v h

-- The two steps of a run of the specification, taken apart.
pub spec_run-inv :
    (p : Pipeline) (e : Event) (es : List Event) {outs : List (Option ℕ)}
    → spec_run p (e ∷ es) ≡ some outs
    → (q : Pipeline) × (out : Option ℕ) × (rest : List (Option ℕ)) × (spec_step p e ≡ some (q, out))
      × (spec_run q es ≡ some rest)
      × (out ∷ rest ≡ outs)
unfolding spec_run
spec_run-inv p e es h = elim (Option-cases (spec_step p e)) [
  | inl stuck ↦ ground arith
  | inr ((q, out), i) ↦ elim (Option-cases (spec_run q es)) [
    | inl stuck ↦ ground arith
    | inr (rest, k) ↦ (q, out, rest, i, k, ground arith)
  ]
]

-- From an ordered ring, and as long as each `complete` ends a transfer that was under way, the
-- frames that the readers get are those of the queue: every captured frame, in order and once,
-- but for the frames that come while seven are held, which are dropped.
pub run_refines :
    (b : Buffers) (es : List Event) {outs : List (Option ℕ)}
    → IsOrdered b.ring
    → spec_run (view b) es ≡ some outs
    → run b es ≡ outs
unfolding run spec_run
run_refines b [] v h = ground arith
run_refines b (e ∷ es) v h =
    let (q, out, rest, i, k, eq) = spec_run-inv (view b) e es h in
    let r = step-Refines b e v i in
    ap₂ ◌∷◌ r.same_out (run_refines (step b e).0 es r.ordered (rw r.same_view k)) ∙ eq
