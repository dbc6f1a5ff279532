-- ===== src/Driver/CommandLink/Waiting.antt =====
-- plx_driver.c: the waits of the command link end, and what a link that is never ready gives.
use cjunk.Prelude.{
  ℕ, zero, suc, ◌+◌, ◌≤◌, ◌<◌, ◌≡◌, ◌≢◌, refl, ap, not, Option-cases, Bool, true, false, Option,
  none, some, List, ◌∷◌, arith, negsuc, ℤ, inl, inr,
}
use cjunk.Prelude.Word.{u32, has_bit}
use cjunk.Driver.Defs.{
  Env, Driver, Space, Access, read, get_cycles, board, fpga_addr_base, command_link_read,
}
use cjunk.Driver.Reset.Registers.{writes}
use cjunk.Driver.CommandLink.{
  spim_stat, spim_lw_data, timeout_hw_reg_access, read_cycles, wait, check, tmo_tbe, report,
  plx_chk_tbusy, plx_write_reg,
}

-- The cycle counter never goes back, and it has gone on after each reading of it.
pub record Clock (e : Env) : Type 0 where
  pub monotone : (a : Access) (t : List Access) → e.cycles t ≤ e.cycles (a ∷ t)
  pub goes_on : (t : List Access) → e.cycles t < e.cycles (get_cycles ∷ t)

-- A reading of the status register.
abbrev stat_read : Access
stat_read = read board (fpga_addr_base + spim_stat)

abbrev pub status : Env → List Access → ℕ
status e t = u32 (e.reg t board (fpga_addr_base + spim_stat))

-- The driver's state when the loop reads the counter, and when it tests the status again.
abbrev asked : Env → Driver → Driver
asked e d = (command_link_read e spim_stat d).1

abbrev timed : Env → Driver → Driver
timed e d = (read_cycles e (asked e d)).1

module _ (e : Env) (done : ℕ → Bool) (limit : ℕ) where
  -- With fuel for as many rounds as there are cycles left, the loop ends.
  wait-ne-none :
      (fuel stat : ℕ) (d : Driver)
      → Clock e
      → 0 < fuel
      → limit + 2 ≤ fuel + e.cycles (stat_read ∷ d.trace)
      → wait e done limit fuel stat d ≢ none
  unfolding wait
  wait-ne-none zero stat d clock pos enough = elim pos [ ]
  wait-ne-none (suc fuel) stat d clock pos enough = ground (
    arith,
    clock.goes_on (stat_read ∷ d.trace),
    clock.monotone stat_read (get_cycles ∷ stat_read ∷ d.trace),
    wait-ne-none fuel (status e d.trace) (timed e d) clock,
  )

  -- If no reading shows the link ready, a loop that ends ends by its timeout.
  wait_busy :
      (fuel stat : ℕ) (d : Driver) {r : Bool × Driver}
      → ((t : List Access) → done (status e t) ≡ false)
      → done stat ≡ false
      → wait e done limit fuel stat d ≡ some r
      → r.0 ≡ false
  unfolding wait
  wait_busy zero stat d never busy h = cc
  wait_busy (suc fuel) stat d {r} never busy h = ground (
    arith,
    never d.trace,
    wait_busy fuel (status e d.trace) (timed e d) {r = r} never (never d.trace),
  )

  -- A wait only reads.
  writes-wait :
      (s : Space) (off fuel stat : ℕ) (d : Driver) {r : Bool × Driver}
      → wait e done limit fuel stat d ≡ some r
      → (writes s off r.1.trace ≡ writes s off d.trace) × (r.1.cntr ≡ d.cntr)
  unfolding wait
  writes-wait s off zero stat d h = cc
  writes-wait s off (suc fuel) stat d {r} h =
      ground (arith, writes-wait s off fuel (status e d.trace) (timed e d) {r = r})

-- The fuel that always suffices: a round for each cycle of the timeout.
abbrev pub enough_fuel : ℕ
enough_fuel = timeout_hw_reg_access + 2

module _ (e : Env) (done : ℕ → Bool) (d : Driver) where
  -- Every wait of the command link ends, whatever status it waits for: with fuel for each cycle of
  -- the timeout the result is not `none`, on a cycle counter that goes on.
  pub check-ne-none : (fuel : ℕ) → enough_fuel ≤ fuel → Clock e → check e done fuel d ≢ none
  unfolding check
  check-ne-none fuel h clock =
      wait-ne-none e done (e.cycles d.trace + timeout_hw_reg_access) fuel
        (status e (get_cycles ∷ d.trace)) (asked e (read_cycles e d).1) clock (omega arith)
        (omega (
          arith,
          clock.goes_on d.trace,
          clock.monotone stat_read (get_cycles ∷ d.trace),
          clock.monotone stat_read (stat_read ∷ get_cycles ∷ d.trace),
        ))

  check_busy :
      (fuel : ℕ) {r : Bool × Driver}
      → ((t : List Access) → done (status e t) ≡ false)
      → check e done fuel d ≡ some r
      → r.0 ≡ false
  unfolding check
  check_busy fuel never h =
      wait_busy e done (e.cycles d.trace + timeout_hw_reg_access) fuel
        (status e (get_cycles ∷ d.trace)) (asked e (read_cycles e d).1) never
        (never (get_cycles ∷ d.trace)) h

  writes-check :
      (s : Space) (off fuel : ℕ) {r : Bool × Driver}
      → check e done fuel d ≡ some r
      → (writes s off r.1.trace ≡ writes s off d.trace) × (r.1.cntr ≡ d.cntr)
  unfolding check
  writes-check s off fuel h =
      writes-wait e done (e.cycles d.trace + timeout_hw_reg_access) s off fuel
        (status e (get_cycles ∷ d.trace)) (asked e (read_cycles e d).1) h

abbrev idle : ℕ → Bool
idle s = not (has_bit s 3)

-- What plx_write_reg does on a link that stays busy.
pub record TimedOut (adr v : ℕ) (d : Driver) (r : Option (ℤ × Driver)) : Type 0 where
  pub result : ℤ × Driver
  pub ends : r ≡ some result
  pub code : result.0 ≡ negsuc 18
  pub counted : result.1.cntr.tmo_tbe ≡ u32 (d.cntr.tmo_tbe + 1)
  pub nothing_sent :
      writes board (fpga_addr_base + spim_lw_data) result.1.trace
      ≡ writes board (fpga_addr_base + spim_lw_data) d.trace

-- On a link whose TBUSY bit is set at every reading, a write to a detector register ends with
-- -ENODEV: the timeout is counted, and nothing is written to the link. Fuel for each cycle of the
-- timeout is enough.
pub write_reg_busy :
    (e : Env) (fuel adr v : ℕ) (d : Driver)
    → enough_fuel ≤ fuel
    → Clock e
    → ((t : List Access) → has_bit (status e t) 3 ≡ true)
    → TimedOut adr v d (plx_write_reg e fuel adr v d)
unfolding plx_write_reg plx_chk_tbusy report
write_reg_busy e fuel adr v d h clock busy = elim (Option-cases (check e idle fuel d)) [
  | inl stuck ↦ absurd (check-ne-none e idle d fuel h clock stuck)
  | inr (r, ended) ↦
      let late = check_busy e idle d fuel (λ t. rw (busy t)) ended in
      let (silent, kept) = writes-check e idle d board (fpga_addr_base + spim_lw_data) fuel ended in
      let after = record (r.1) { cntr = tmo_tbe r.1.cntr } in
      record {
        result = (negsuc 18, after);
        ends = ground (arith, ended, late);
        code = refl;
        counted = ap (λ c. u32 (c.tmo_tbe + 1)) kept;
        nothing_sent = silent;
      }
]
