-- ===== src/Driver/ProcTests.antt =====
-- plx_proc.c: the proc file at concrete inputs.
use cjunk.Prelude.{
  ℕ, ◌+◌, ◌%◌, ◌==◌, ◌≡◌, ◌↔◌, refl, List, [], ◌∷◌, none, some, arith, if◌then◌else◌,
}
use cjunk.Driver.Defs.{Access, Env, Driver, fpga_addr_base}
use cjunk.Driver.CommandLink.{
  spim_data, spim_stat, spim_lw_data, plx_read_reg, plx_send_spi, plx_chk_tbusy, plx_chk_rsd,
  report, check, wait, spi_word,
}
use cjunk.Driver.Tests.{constant, idle, wrapped}
use cjunk.Driver.Proc.Fields.{
  Field, divide_error, newline, text, hex, interpret_setup, interpret_status,
}
use cjunk.Driver.Proc.{Timers, Stack, microseconds, registers, plx_read_procmem}
use cjunk.Driver.Proc.Rate.{read_procmem-divide_error}

-- The last word that was written to the command link.
abbrev last_word : List Access → ℕ
last_word [] = 0
last_word (Access.write s off v ∷ t) =
    if off == fpga_addr_base + spim_lw_data then v else last_word t
last_word (a ∷ t) = last_word t

-- A detector whose command link is ready at once, and whose frame measurement timers hold 15, 66
-- and 64: a frame a second. A read of register 0x3c is the command 0xfc.
abbrev slow_detector : Env
slow_detector = record (constant 0) {
  reg = λ t s off.
      if off == fpga_addr_base + spim_stat
      then 4
      else if off == fpga_addr_base + spim_data
      then (if last_word t % 256 == 0xfc
          then 15
          else if last_word t % 256 == 0xfd
          then 66
          else if last_word t % 256 == 0xfe
          then 64
          else 0)
      else 0;
}

abbrev stack : Stack
stack = record { garbage1 = 0; garbage2 = 0; garbage3 = 0 }

-- 15 * 65536 + 66 * 256 + 64 microseconds.
abbrev one_second : Timers
one_second = record { temp = 15; temp1 = 66; temp2 = 64 }

fields : List Field
fields = elim (registers slow_detector 2 stack (idle wrapped 0 0)) [ none ↦ [] | some (r, d) ↦ r.0 ]

after_reads : Driver
after_reads = elim (registers slow_detector 2 stack (idle wrapped 0 0)) [
  | none ↦ idle wrapped 0 0
  | some (r, d) ↦ d
]

reads :
    registers slow_detector 2 stack (idle wrapped 0 0) ≡ some ((fields, one_second), after_reads)
unfolding fields after_reads registers plx_read_reg plx_send_spi plx_chk_tbusy plx_chk_rsd report
    check wait spi_word
reads = refl

read_procmem-divide_error_example :
    (plx_read_procmem slow_detector 2 stack (idle wrapped 0 0) ≡ some (divide_error, after_reads))
    ↔ (microseconds one_second ≡ 1000000)
read_procmem-divide_error_example =
    read_procmem-divide_error slow_detector 2 stack (idle wrapped 0 0) after_reads fields one_second
      reads (omega arith) (omega arith) (omega arith)

-- The text of a status with all bits set names none of the three interrupt flags.
status_test :
    interpret_status 0xffffffff ≡ hex " Buffer Number:" 255 ∷ hex " Error flags:" 255 ∷ newline ∷ []
unfolding interpret_status
status_test = refl

setup_test :
    interpret_setup 0x46 ≡ text " 1,25mV/fC " ∷ text " INON " ∷ hex " GD-mode:0x" 4 ∷ newline ∷ []
unfolding interpret_setup
setup_test = refl
