-- ===== src/Driver/CommandLink/Frame.antt =====
-- plx_driver.c: the functions of the command link have no effect on the frame ring and the semaphore.
use cjunk.Prelude.{
  ℕ, zero, suc, ◌≡◌, refl, ◌∙◌, Bool, true, false, Option, none, some, arith, ℤ, pos, negsuc,
  if◌then◌else◌,
}
use cjunk.Driver.Defs.{Env, Driver, M, command_link_read, Counters, xx_board_timer}
use cjunk.Driver.Held.{held}
use cjunk.Driver.Timer.{plx_read_fpga_reg}
use cjunk.Driver.CommandLink.{
  W, ◌>>=◌, lift, read_cycles, spim_stat, wait, check, report, plx_chk_rsd, plx_chk_tbe,
  plx_chk_tbusy, plx_send_spi, or_enodev, is_zero, plx_immediate_cmd, plx_write_reg, plx_read_reg,
  xl_rc, spim_data,
}

-- A result, if there is one, comes with the ring and the semaphore that the function was given.
abbrev pub KeepsHeld : {A : Type 0} → W A → Type 0
KeepsHeld {A} m = (d : Driver) (r : A × Driver) → m d ≡ some r → held r.1 ≡ held d

pub lift-KeepsHeld :
    {A : Type 0} (m : M A) → ((d : Driver) → held (m d).1 ≡ held d) → KeepsHeld (lift m)
lift-KeepsHeld m same d r h = ground (arith, same d)

pub then-KeepsHeld :
    {A B : Type 0} (m : W A) (f : A → W B)
    → KeepsHeld m
    → ((a : A) → KeepsHeld (f a))
    → KeepsHeld (m >>= f)
then-KeepsHeld {A} m f hm hf d r h = by_result (m d) refl h
  where
    by_result :
        (o : Option (A × Driver))
        → m d ≡ o
        → elim o [ none ↦ none | some (a, d') ↦ f a d' ] ≡ some r
        → held r.1 ≡ held d
    by_result none done h = cc
    by_result (some (a, d')) done h = hf a d' r h ∙ hm d (a, d') done

wait-KeepsHeld :
    (e : Env) (done : ℕ → Bool) (limit fuel stat : ℕ) → KeepsHeld (wait e done limit fuel stat)
unfolding wait
wait-KeepsHeld e done limit zero stat d r h = cc
wait-KeepsHeld e done limit (suc fuel) stat d r h =
    let (stat', d1) = command_link_read e spim_stat d in
    ground (arith, wait-KeepsHeld e done limit fuel stat' (read_cycles e d1).1 r)

check-KeepsHeld : (e : Env) (done : ℕ → Bool) (fuel : ℕ) → KeepsHeld (check e done fuel)
unfolding check
check-KeepsHeld e done fuel d r h = wait-KeepsHeld e done _ fuel _ _ r h

report-held : (f : Counters → Counters) (b : Bool) (d : Driver) → held (report f b d).1 ≡ held d
unfolding report
report-held f true d = refl
report-held f false d = refl

-- Each of the plx_chk functions.
reported-KeepsHeld :
    (e : Env) (done : ℕ → Bool) (fuel : ℕ) (f : Counters → Counters)
    → KeepsHeld (check e done fuel >>= λ b. lift (report f b))
reported-KeepsHeld e done fuel f =
    then-KeepsHeld (check e done fuel) (λ b. lift (report f b)) (check-KeepsHeld e done fuel)
      (λ b. lift-KeepsHeld (report f b) (report-held f b))

send_spi-KeepsHeld : (code adr v : ℕ) → KeepsHeld (lift (plx_send_spi code adr v))
unfolding plx_send_spi
send_spi-KeepsHeld code adr v = lift-KeepsHeld (plx_send_spi code adr v) (λ d. ground arith)

if-KeepsHeld :
    {A : Type 0} (b : Bool) (m k : W A) → KeepsHeld m → KeepsHeld k → KeepsHeld (if b then m else k)
if-KeepsHeld true m k hm hk = hm
if-KeepsHeld false m k hm hk = hk

pub value-KeepsHeld : {A : Type 0} (a : A) → KeepsHeld {A = A} (λ d. some (a, d))
value-KeepsHeld a = lift-KeepsHeld (λ d. (a, d)) (λ d. refl)

or_enodev-KeepsHeld : (m k : W ℤ) → KeepsHeld m → KeepsHeld k → KeepsHeld (or_enodev m k)
or_enodev-KeepsHeld m k hm hk =
    then-KeepsHeld m (λ r. if is_zero r then k else (λ d. some (negsuc 18, d))) hm
      (λ r. if-KeepsHeld (is_zero r) k _ hk (value-KeepsHeld (negsuc 18)))

pub immediate_cmd-KeepsHeld : (e : Env) (fuel code : ℕ) → KeepsHeld (plx_immediate_cmd e fuel code)
unfolding plx_immediate_cmd plx_chk_tbe plx_read_fpga_reg
immediate_cmd-KeepsHeld e fuel code = or_enodev-KeepsHeld _ _ (reported-KeepsHeld e _ fuel _) (
    then-KeepsHeld (lift (plx_read_fpga_reg e xx_board_timer)) _
      (lift-KeepsHeld (plx_read_fpga_reg e xx_board_timer) (λ d. refl))
      (λ v. or_enodev-KeepsHeld _ _ (send_spi-KeepsHeld code 0 0) (value-KeepsHeld (pos 0))))

pub write_reg-KeepsHeld : (e : Env) (fuel adr v : ℕ) → KeepsHeld (plx_write_reg e fuel adr v)
unfolding plx_write_reg plx_chk_tbusy
write_reg-KeepsHeld e fuel adr v =
    or_enodev-KeepsHeld _ _ (reported-KeepsHeld e _ fuel _)
      (or_enodev-KeepsHeld _ _ (send_spi-KeepsHeld _ adr v) (value-KeepsHeld (pos 0)))

pub read_reg-KeepsHeld : (e : Env) (fuel adr : ℕ) → KeepsHeld (plx_read_reg e fuel adr)
unfolding plx_read_reg plx_chk_tbusy plx_chk_rsd
read_reg-KeepsHeld e fuel adr =
    then-KeepsHeld
      (or_enodev (plx_chk_tbusy e fuel)
        (or_enodev (lift (plx_send_spi xl_rc adr 0)) (plx_chk_rsd e fuel)))
      _
      (or_enodev-KeepsHeld _ _ (reported-KeepsHeld e _ fuel _)
        (or_enodev-KeepsHeld _ _ (send_spi-KeepsHeld xl_rc adr 0) (reported-KeepsHeld e _ fuel _)))
      (λ r.
        if-KeepsHeld (is_zero r) _ _
          (then-KeepsHeld (lift (command_link_read e spim_data)) _
            (lift-KeepsHeld (command_link_read e spim_data) (λ d. refl))
            (λ v. value-KeepsHeld (pos 0, some v)))
          (value-KeepsHeld (negsuc 18, none)))
