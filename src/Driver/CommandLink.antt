-- ===== src/Driver/CommandLink.antt =====
-- plx_driver.c: the command link to the detector (the FASTER_CL variants). A wait for the link is
-- a loop on fuel: the result `none` means that the fuel ran out. The 64 bit cycle counter is taken
-- not to wrap. A result of -1 or -ENODEV is the negative number.
pub mod Waiting
pub mod Frame
pub mod Ends
use Prim.Native.Nat.{bit_or}
use cjunk.Prelude.{
  ℕ, zero, suc, ◌+◌, ◌*◌, ◌%◌, ◌^◌, ◌==◌, ltb, ℤ, pos, negsuc, Bool, true, false, not, ◌&&◌, ◌||◌,
  Option, none, some, ◌∷◌, if◌then◌else◌,
}
use cjunk.Prelude.Word.{u32, has_bit}
use cjunk.Driver.Defs.{
  Env, Driver, Counters, M, Access, get_cycles, command_link_read, command_link_write,
  xx_board_timer,
}
use cjunk.Driver.Timer.{plx_read_fpga_reg}

abbrev pub spim_data : ℕ
spim_data = 0x3000

abbrev pub spim_stat : ℕ
spim_stat = 0x3004

abbrev pub spim_lw_data : ℕ
spim_lw_data = 0x3008

abbrev pub timeout_hw_reg_access : ℕ
timeout_hw_reg_access = 2000000000

-- A C function that may run out of fuel.
abbrev pub W : Type 0 → Type 0
W A = Driver → Option (A × Driver)

infixl 5 ◌>>=◌
abbrev pub ◌>>=◌ : {A B : Type 0} → W A → (A → W B) → W B
◌>>=◌ m f d = elim (m d) [ none ↦ none | some (a, d') ↦ f a d' ]

abbrev pub lift : {A : Type 0} → M A → W A
lift m d = some (m d)

abbrev pub read_cycles : Env → M ℕ
read_cycles e d = (e.cycles d.trace, record d { trace = get_cycles ∷ d.trace })

-- while (!done(stat)) { stat = read; if (limit < get_cycles()) return timeout; } return ready;
-- The result is true when the link is ready, and false at a timeout.
unfoldable pub wait : Env → (ℕ → Bool) → ℕ → ℕ → ℕ → W Bool
wait e done limit zero stat d = none
wait e done limit (suc fuel) stat d = elim (done stat) [
  | true ↦ some (true, d)
  | false ↦
      let (stat', d1) = command_link_read e spim_stat d in
      let (now, d2) = read_cycles e d1 in
      elim (ltb limit now) [ true ↦ some (false, d2) | false ↦ wait e done limit fuel stat' d2 ]
]

-- The frame of all the plx_chk functions: the limit, the first reading of the status, the loop.
unfoldable pub check : Env → (ℕ → Bool) → ℕ → W Bool
check e done fuel d =
    let (now, d1) = read_cycles e d in
    let (stat, d2) = command_link_read e spim_stat d1 in
    wait e done (now + timeout_hw_reg_access) fuel stat d2

-- 0, or -1 with a counter stepped.
unfoldable pub report : (Counters → Counters) → Bool → M ℤ
report f true d = (pos 0, d)
report f false d = (negsuc 0, record d { cntr = f d.cntr })

abbrev tmo_rdr : Counters → Counters
tmo_rdr c = record c { tmo_rdr = u32 (c.tmo_rdr + 1) }

abbrev tmo_tbe : Counters → Counters
tmo_tbe c = record c { tmo_tbe = u32 (c.tmo_tbe + 1) }

-- SPIM_STAT_READ_DATA_AVAIL
pub plx_chk_rdr : Env → ℕ → W ℤ
plx_chk_rdr e fuel = do b ← check e (λ s. has_bit s 2) fuel; lift (report tmo_rdr b)

-- SPIM_STAT_RSD
unfoldable pub plx_chk_rsd : Env → ℕ → W ℤ
plx_chk_rsd e fuel = do b ← check e (λ s. has_bit s 2) fuel; lift (report tmo_rdr b)

-- SPIM_STAT_TRANSMIT_DATA_EMPTY
pub plx_chk_tbe : Env → ℕ → W ℤ
plx_chk_tbe e fuel = do b ← check e (λ s. has_bit s 0) fuel; lift (report tmo_tbe b)

-- SPIM_STAT_TBUSY: the loop runs while the bit is set.
unfoldable pub plx_chk_tbusy : Env → ℕ → W ℤ
plx_chk_tbusy e fuel = do b ← check e (λ s. not (has_bit s 3)) fuel; lift (report tmo_tbe b)

-- SPIM_STAT_RECV_DATA_READY and SPIM_STAT_TRANSMIT_DATA_EMPTY: no counter is stepped.
pub plx_chk_rdr_and_tbe : Env → ℕ → W ℤ
plx_chk_rdr_and_tbe e fuel = do
  b ← check e (λ s. has_bit s 1 || has_bit s 0) fuel
  lift (report (λ c. c) b)

abbrev pub xl_nop : ℕ
xl_nop = 0x00

abbrev pub xl_wc : ℕ
xl_wc = 0x80

abbrev pub xl_rc : ℕ
xl_rc = 0xc0

abbrev pub xl_exec : ℕ
xl_exec = 0x09

abbrev pub xl_init : ℕ
xl_init = 0x05

abbrev pub xl_stop : ℕ
xl_stop = 0x0c

-- The word that plx_send_SPI writes for a code, none for a wrong code.
unfoldable pub spi_word : ℕ → ℕ → ℕ → Option ℕ
spi_word code adr v =
    if code == xl_wc
    then some (0x02 * 2 ^ 24 + v % 256 * 2 ^ 8 + bit_or xl_wc (adr % 256))
    else if code == xl_rc
    then some (0x03 * 2 ^ 24 + bit_or xl_rc (adr % 256))
    else if code == xl_exec || code == xl_stop || code == xl_init || code == xl_nop
    then some (0x01 * 2 ^ 24 + code)
    else none

-- The result is 0, also for a wrong code.
unfoldable pub plx_send_spi : ℕ → ℕ → ℕ → M ℤ
plx_send_spi code adr v d = elim (spi_word code adr v) [
  | none ↦ (pos 0, d)
  | some w ↦ (pos 0, (command_link_write spim_lw_data w d).1)
]

abbrev pub is_zero : ℤ → Bool
is_zero (pos zero) = true
is_zero _ = false

-- if (f(p)) return -ENODEV;
abbrev or_enodev : W ℤ → W ℤ → W ℤ
or_enodev m k = do r ← m; (if is_zero r then k else (λ d. some (negsuc 18, d)))

pub plx_immediate_cmd : Env → ℕ → ℕ → W ℤ
plx_immediate_cmd e fuel code = or_enodev (plx_chk_tbe e fuel) do
  _ ← lift (plx_read_fpga_reg e xx_board_timer)
  or_enodev (lift (plx_send_spi code 0 0)) (λ d. some (pos 0, d))

pub plx_write_reg : Env → ℕ → ℕ → ℕ → W ℤ
plx_write_reg e fuel adr v =
    or_enodev (plx_chk_tbusy e fuel)
      (or_enodev (lift (plx_send_spi xl_wc adr v)) (λ d. some (pos 0, d)))

-- The result and *data, which is left alone on a failure.
unfoldable pub plx_read_reg : Env → ℕ → ℕ → W (ℤ × Option ℕ)
plx_read_reg e fuel adr = do
  r ←
      or_enodev (plx_chk_tbusy e fuel)
        (or_enodev (lift (plx_send_spi xl_rc adr 0)) (plx_chk_rsd e fuel))
  (if is_zero r
      then (do v ← lift (command_link_read e spim_data); λ d. some ((pos 0, some v), d))
      else (λ d. some ((negsuc 18, none), d)))
