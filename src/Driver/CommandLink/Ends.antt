-- ===== src/Driver/CommandLink/Ends.antt =====
-- plx_driver.c: the functions of the command link return, if their fuel is enough for each wait.
use cjunk.Prelude.{
  ℕ, ◌≤◌, ◌≡◌, ◌≢◌, refl, Bool, true, false, Option, none, some, ℤ, pos, negsuc, if◌then◌else◌,
}
use cjunk.Driver.Defs.{Env, Driver, M, command_link_read, Counters, xx_board_timer}
use cjunk.Driver.Timer.{plx_read_fpga_reg}
use cjunk.Driver.CommandLink.{
  W, ◌>>=◌, lift, check, report, plx_chk_rsd, plx_chk_tbe, plx_chk_tbusy, plx_send_spi, or_enodev,
  is_zero, plx_immediate_cmd, plx_write_reg, plx_read_reg, xl_rc, xl_wc, spim_data,
}
use cjunk.Driver.CommandLink.Waiting.{Clock, enough_fuel, check-ne-none}

abbrev pub Ends : {A : Type 0} → W A → Type 0
Ends m = (d : Driver) → m d ≢ none

pub lift-Ends : {A : Type 0} (m : M A) → Ends (lift m)
lift-Ends m d h = cc

pub then-Ends :
    {A B : Type 0} (m : W A) (f : A → W B) → Ends m → ((a : A) → Ends (f a)) → Ends (m >>= f)
then-Ends {A} {B} m f hm hf d h = by_result (m d) refl h
  where
    by_result :
        (o : Option (A × Driver))
        → m d ≡ o
        → elim o [ none ↦ none | some (a, d') ↦ f a d' ] ≡ none
        → ⊥
    by_result none stuck h = hm d stuck
    by_result (some (a, d')) done h = hf a d' h

if-Ends : {A : Type 0} (b : Bool) (m k : W A) → Ends m → Ends k → Ends (if b then m else k)
if-Ends true m k hm hk = hm
if-Ends false m k hm hk = hk

pub value-Ends : {A : Type 0} (a : A) → Ends {A = A} (λ d. some (a, d))
value-Ends a d h = cc

or_enodev-Ends : (m k : W ℤ) → Ends m → Ends k → Ends (or_enodev m k)
or_enodev-Ends m k hm hk =
    then-Ends m (λ r. if is_zero r then k else (λ d. some (negsuc 18, d))) hm
      (λ r. if-Ends (is_zero r) k _ hk (value-Ends (negsuc 18)))

module _ (e : Env) (fuel : ℕ) (h : enough_fuel ≤ fuel) (clock : Clock e) where
  reported-Ends :
      (done : ℕ → Bool) (f : Counters → Counters)
      → Ends (check e done fuel >>= λ b. lift (report f b))
  reported-Ends done f =
      then-Ends (check e done fuel) (λ b. lift (report f b))
        (λ d. check-ne-none e done d fuel h clock) (λ b. lift-Ends (report f b))

  pub immediate_cmd-Ends : (code : ℕ) → Ends (plx_immediate_cmd e fuel code)
  unfolding plx_immediate_cmd plx_chk_tbe
  immediate_cmd-Ends code = or_enodev-Ends _ _ (reported-Ends _ _) (
      then-Ends (lift (plx_read_fpga_reg e xx_board_timer)) _ (lift-Ends _)
        (λ v. or_enodev-Ends (lift (plx_send_spi code 0 0)) _ (lift-Ends _) (value-Ends (pos 0))))

  pub write_reg-Ends : (adr v : ℕ) → Ends (plx_write_reg e fuel adr v)
  unfolding plx_write_reg plx_chk_tbusy
  write_reg-Ends adr v =
      or_enodev-Ends _ _ (reported-Ends _ _)
        (or_enodev-Ends (lift (plx_send_spi xl_wc adr v)) _ (lift-Ends _) (value-Ends (pos 0)))

  pub read_reg-Ends : (adr : ℕ) → Ends (plx_read_reg e fuel adr)
  unfolding plx_read_reg plx_chk_tbusy plx_chk_rsd
  read_reg-Ends adr =
      then-Ends
        (or_enodev (plx_chk_tbusy e fuel)
          (or_enodev (lift (plx_send_spi xl_rc adr 0)) (plx_chk_rsd e fuel)))
        _
        (or_enodev-Ends _ _ (reported-Ends _ _)
          (or_enodev-Ends (lift (plx_send_spi xl_rc adr 0)) _ (lift-Ends _) (reported-Ends _ _)))
        (λ r.
          if-Ends (is_zero r) _ _
            (then-Ends (lift (command_link_read e spim_data)) _ (lift-Ends _)
              (λ v. value-Ends (pos 0, some v)))
            (value-Ends (negsuc 18, none)))
