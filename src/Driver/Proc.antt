-- ===== src/Driver/Proc.antt =====
-- plx_proc.c: the text of the proc file. A page is the list of the pieces that sprintf writes, its
-- conversions being those of the constructors of Field. A wait of the command link is a loop on
-- fuel, as in Driver/CommandLink.
pub mod Fields
pub mod Tables
pub mod Rate
pub mod Ends
pub mod Kept
use Prim.Native.String.{String}
use Prim.Native.Nat.{bit_and}
use cjunk.Prelude.{
  ℕ, ◌+◌, ◌-◌, ◌*◌, ◌/◌, ◌^◌, ◌==◌, not, Bool, Option, none, some, List, [], ◌∷◌, ◌++◌,
  if◌then◌else◌,
}
use cjunk.Prelude.Word.{u32}
use cjunk.Driver.Defs.{Env, Driver, M}
use cjunk.Driver.Timer.{plx_read_fpga_reg}
use cjunk.Driver.Proc.Fields.{
  Field, Page, text, newline, register, approx, divide_error, page, interpret_cmd, interpret_setup,
  interpret_status, driver_lines,
}
use cjunk.Driver.Proc.Tables.{cs_rows, dc_rows, mb_rows}
use cjunk.Driver.CommandLink.{W, ◌>>=◌, lift, plx_read_reg}

-- Lines of registers of the board, and the last value read.
unfoldable pub fpga_rows : Env → List (ℕ × String) → ℕ → M (List Field × ℕ)
fpga_rows e [] temp d = (([], temp), d)
fpga_rows e ((a, s) ∷ rows) temp d =
    let (v, d1) = plx_read_fpga_reg e a d in
    let ((fs, v'), d2) = fpga_rows e rows v d1 in ((register a v s ∷ newline ∷ fs, v'), d2)

-- plx_read_reg(PL_devp, a, &temp): a failed read leaves temp as it was.
unfoldable pub read_temp : Env → ℕ → ℕ → ℕ → W ℕ
read_temp e fuel a temp = do
  r ← plx_read_reg e fuel a
  λ d. some (elim r.1 [ none ↦ temp | some v ↦ v ], d)

-- Lines of registers behind the command link, and the last value of temp.
unfoldable pub link_rows : Env → ℕ → List (ℕ × String) → ℕ → W (List Field × ℕ)
unfolding read_temp
link_rows e fuel [] temp = λ d. some (([], temp), d)
link_rows e fuel ((a, s) ∷ rows) temp = do
  v ← read_temp e fuel a temp
  r ← link_rows e fuel rows v
  λ d. some ((register a v s ∷ newline ∷ r.0, r.1), d)

unfoldable pub cs_section : Env → M (List Field × ℕ)
unfolding fpga_rows interpret_status
cs_section e d =
    let (v0, d1) = plx_read_fpga_reg e 0x0 d in
    let (v, d2) = plx_read_fpga_reg e 0x4 d1 in
    let ((fs, temp), d3) = fpga_rows e cs_rows v d2 in
    (
      (
        text "\n -- CS registers --\n"
              ∷ register 0x0 v0 "  Test register"
              ∷ newline
              ∷ register 0x4 v
                  "  Status (Interrupt handling, Error flags, Current Buffer Number) ->"
              ∷ interpret_status v
            ++ fs,
        temp,
      ),
      d3,
    )

-- The command and the setup register, and the lines up to the frame measurement timer 2.
unfoldable pub mb_section : Env → ℕ → ℕ → W (List Field × ℕ)
unfolding link_rows interpret_cmd interpret_setup
mb_section e fuel temp = do
  cmd ← read_temp e fuel 0x20 temp
  setup ← read_temp e fuel 0x21 cmd
  r ← link_rows e fuel mb_rows setup
  λ d. some (
    (
      text "\n -- MB registers --\n" ∷ register 0x20 cmd "   Command ->" ∷ interpret_cmd cmd
          ++ register 0x21 setup "  Setup ->" ∷ interpret_setup setup
          ++ r.0,
      r.1,
    ),
    d,
  )

-- The three frame measurement timers: temp, temp1 and temp2.
pub record Timers : Type 0 where
  pub temp : ℕ
  pub temp1 : ℕ
  pub temp2 : ℕ

-- temp1, temp2 and temp3 are not initialised: they hold what was on the stack.
pub record Stack : Type 0 where
  pub garbage1 : ℕ
  pub garbage2 : ℕ
  pub garbage3 : ℕ

-- What the reads have written, in the order of the code, and the timers.
unfoldable pub joined :
    List Field × ℕ → List Field × ℕ → List Field × ℕ → ℕ → ℕ → ℕ → List Field × Timers
joined cs dc mb t1 t2 t3 = (
  cs.0
      ++ text "\n -- DC registers --\n" ∷ dc.0
      ++ mb.0
      ++ register 0x3d t1 "  Frame Measurement timer 1 (n1 * 256us)"
        ∷ newline
        ∷ register 0x3e t2 "  Frame Measurement timer 0 (n0 * 1us)"
        ∷ newline
        ∷ register 0x3f t3 "  Misc test "
        ∷ newline
        ∷ [],
  record { temp = mb.1; temp1 = t1; temp2 = t2 },
)

-- All reads of registers, in the order of the code.
unfoldable pub registers : Env → ℕ → Stack → W (List Field × Timers)
unfolding cs_section mb_section joined
registers e fuel g = do
  cs ← lift (cs_section e)
  dc ← link_rows e fuel dc_rows cs.1
  mb ← mb_section e fuel dc.1
  t1 ← read_temp e fuel 0x3d g.garbage1
  t2 ← read_temp e fuel 0x3e g.garbage2
  t3 ← read_temp e fuel 0x3f g.garbage3
  λ d. some (joined cs dc mb t1 t2 t3, d)

-- temp*65536 + temp1*256 + temp2, of u32.
abbrev pub microseconds : Timers → ℕ
microseconds t = u32 (t.temp * 65536 + t.temp1 * 256 + t.temp2)

-- The frames per second; none where one of the two divisors is 0. The product is an int, and the
-- difference a u32.
unfoldable pub frame_rate : Timers → Option (List Field)
frame_rate t =
    let total = microseconds t in
    let secs = 1000000 / total in
    let rest = u32 (total + 2 ^ 32 - u32 (secs * 1000000)) in
    if t.temp == 0
    then some []
    else if total == 0
    then none
    else if rest == 0
    then none
    else some (approx secs ∷ [])

-- What follows the reads.
unfoldable pub finish : List Field → Timers → Driver → Page
unfolding frame_rate driver_lines
finish fs t d = elim (frame_rate t) [
  | none ↦ divide_error
  | some rate ↦ page (fs ++ rate ++ driver_lines d)
]

unfoldable pub plx_read_procmem : Env → ℕ → Stack → W Page
unfolding registers finish
plx_read_procmem e fuel g = do r ← registers e fuel g; λ d. some (finish r.0 r.1 d, d)
