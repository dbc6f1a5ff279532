-- ===== src/Driver/Proc/Rate.antt =====
-- plx_proc.c: when the computation of the frame rate divides by zero.
use native.Mathlib.Nat.{le-div_iff_mul-le, div-lt_iff_lt-mul, div-eq_of_lt}
use mathlib.Core.Path.{subst}
use cjunk.Prelude.{
  sym, ℕ, ◌+◌, ◌-◌, ◌*◌, ◌/◌, ◌^◌, ◌==◌, ◌<◌, ◌≤◌, ◌≡◌, ◌≢◌, ◌↔◌, refl, ap, none, some, List, ◌++◌,
  arith, ◌⊎◌, inl, inr, Option, Bool-cases, ltb,
}
use cjunk.Prelude.Word.{u32}
use cjunk.Driver.Defs.{Env, Driver}
use cjunk.Driver.Proc.Fields.{Page, Field, divide_error, driver_lines, page}
use cjunk.Driver.Proc.{registers, plx_read_procmem, Stack, Timers, microseconds, frame_rate, finish}

above_or_below : (n : ℕ) → (1000000 < n) ⊎ (n ≤ 1000000)
above_or_below n = elim (Bool-cases (ltb 1000000 n)) [
  | inl e ↦ inl (ground arith)
  | inr e ↦ inr (ground arith)
]

secs_above : (n : ℕ) → 65536 ≤ n → n ≤ 1000000 → (1 ≤ 1000000 / n) × (1000000 / n ≤ 15)
secs_above n h l =
    let low : 1 * n ≤ 1000000 → 1 ≤ 1000000 / n = (le-div_iff_mul-le (omega arith)).1 in
    let high : 1000000 < 16 * n → 1000000 / n < 16 = (div-lt_iff_lt-mul (omega arith)).1 in
    let below : 1 * n ≤ 1000000 = omega arith in
    let above : 1000000 < 16 * n = omega arith in (low below, omega (arith, high above))

-- The second divisor is 0 exactly at a million microseconds.
rest_zero :
    (n : ℕ)
    → 65536 ≤ n
    → n < 16777216
    → (u32 (n + 2 ^ 32 - u32 (1000000 / n * 1000000)) ≡ 0) ↔ (n ≡ 1000000)
rest_zero n low high = elim (above_or_below n) [
  | inl above ↦ rw (div-eq_of_lt above) (λ z. omega arith, λ z. omega arith)
  | inr below ↦ let (a, b) = secs_above n low below in (λ z. omega arith, λ z. rw z refl)
]

finish_iff :
    (fs : List Field) (t : Timers) (d : Driver)
    → (finish fs t d ≡ divide_error) ↔ (frame_rate t ≡ none)
unfolding finish
finish_iff fs t d = by_rate (frame_rate t)
  where
    by_rate :
        (o : Option (List Field))
        → (elim o [ none ↦ divide_error | some rate ↦ page (fs ++ rate ++ driver_lines d) ]
            ≡ divide_error)
          ↔ (o ≡ none)
    by_rate none = (λ z. refl, λ z. refl)
    by_rate (some r) = (λ z. ground arith, λ z. ground arith)

frame_rate_iff :
    (t : Timers)
    → t.temp < 256
    → t.temp1 < 256
    → t.temp2 < 256
    → (frame_rate t ≡ none) ↔ (microseconds t ≡ 1000000)
unfolding frame_rate
frame_rate_iff t h h1 h2 = elim (Bool-cases (t.temp == 0)) [
  | inl zero ↦ rw zero (λ z. ground arith, λ z. ground arith)
  | inr e ↦
      let pos : t.temp ≢ 0 = ground arith in
      let (f, g) = rest_zero (microseconds t) (omega arith) (omega arith) in
      (λ z. ground (arith, f), λ z. ground (arith, g z))
]

finish-divide_error :
    (fs : List Field) (t : Timers) (d : Driver)
    → t.temp < 256
    → t.temp1 < 256
    → t.temp2 < 256
    → (finish fs t d ≡ divide_error) ↔ (microseconds t ≡ 1000000)
finish-divide_error fs t d h h1 h2 =
    let (f, g) = finish_iff fs t d in
    let (f', g') = frame_rate_iff t h h1 h2 in (λ z. f' (f z), λ z. g (g' z))

-- What plx_read_procmem does after the reads.
abbrev proceed : Option ((List Field × Timers) × Driver) → Option (Page × Driver)
proceed o = elim o [ none ↦ none | some (r, d) ↦ some (finish r.0 r.1 d, d) ]

-- If the reads of the registers find a byte in each of the three frame measurement timers, a read
-- of the proc file divides by zero exactly when they count a million microseconds, a frame a second.
pub read_procmem-divide_error :
    (e : Env) (fuel : ℕ) (g : Stack) (d d' : Driver) (fs : List Field) (t : Timers)
    → registers e fuel g d ≡ some ((fs, t), d')
    → t.temp < 256
    → t.temp1 < 256
    → t.temp2 < 256
    → (plx_read_procmem e fuel g d ≡ some (divide_error, d')) ↔ (microseconds t ≡ 1000000)
unfolding plx_read_procmem
read_procmem-divide_error e fuel g d d' fs t reads h h1 h2 =
    let (f, b) = finish-divide_error fs t d' h h1 h2 in
    subst
      (λ (o : Option ((List Field × Timers) × Driver)).
        (proceed o ≡ some (divide_error, d')) ↔ (microseconds t ≡ 1000000))
      (sym reads) ((λ z. f (ground (arith, z))), (λ z. ap (λ (p : Page). some (p, d')) (b z)))
