-- ===== src/Driver/Proc/Fields.antt =====
-- plx_proc.c: the pieces of text that the proc file consists of, those of the interpret functions, and
-- the lines of the driver's own state.
use Prim.Native.String.{String}
use Prim.Native.Nat.{bit_and}
use cjunk.Prelude.{ℕ, ◌/◌, ◌^◌, ◌==◌, not, Bool, List, [], ◌∷◌, ◌++◌, if◌then◌else◌}
use cjunk.Driver.Defs.{Driver}

pub data Field : Type 0 where
  text : String → Field
  newline : Field
  register : ℕ → ℕ → String → Field  -- "addr:%04x %08x" and the text
  hex : String → ℕ → Field  -- the text and "%x"
  number : ℕ → String → Field  -- "%04d ", the text and a newline
  approx : ℕ → Field  -- "\napprox: %dframes/sec\n"

-- What a read of the file gives: the text, or a division by zero, which C leaves undefined.
pub data Page : Type 0 where
  divide_error : Page
  page : List Field → Page

abbrev shown : Bool → Field → List Field
shown b f = if b then f ∷ [] else []

-- data & mask
abbrev has : ℕ → ℕ → Bool
has v mask = not (bit_and v mask == 0)

unfoldable pub interpret_cmd : ℕ → List Field
interpret_cmd v =
    (if has v 0x1 then text " Finite number of frames " else text " Infinite number of frames ")
      ∷ shown (has v 0x2) (text " Trigger each frame ")
    ++ shown (has v 0x4) (text " Armed ")
    ++ shown (has v 0x8) (text " Delayed Trigger ")
    ++ newline ∷ []

unfoldable pub interpret_setup : ℕ → List Field
interpret_setup v =
    shown (bit_and v 0x3 == 0x0) (text " 3,70mV/fC ")
    ++ shown (bit_and v 0x3 == 0x1) (text " 125uV/fC ")
    ++ shown (bit_and v 0x3 == 0x2) (text " 1,25mV/fC ")
    ++ shown (bit_and v 0x3 == 0x3) (text " 36uV/fC ")
    ++ shown (has v 0x4) (text " INON ")
    ++ shown (has v 0x8) (text " TESTON ")
    ++ shown (has v 0x60) (hex " GD-mode:0x" (bit_and v 0x60 / 2 ^ 4))
    ++ shown (has v 0x80) (text " A_DRESET ")
    ++ newline ∷ []

-- The masks of the last three tests are written 1>>29, 1>>30 and 1>>31.
unfoldable pub interpret_status : ℕ → List Field
interpret_status v =
    shown (has v 0xff) (hex " Buffer Number:" (bit_and v 0xff))
    ++ shown (has v 0xff0000) (hex " Error flags:" (bit_and v 0xff0000 / 2 ^ 16))
    ++ shown (has v (1 / 2 ^ 29)) (text " Force Interrupt ")
    ++ shown (has v (1 / 2 ^ 30)) (text " Interrupt flag ")
    ++ shown (has v (1 / 2 ^ 31)) (text "Int overrun ")
    ++ newline ∷ []

unfoldable pub driver_lines : Driver → List Field
driver_lines d =
    text "\n -- Device Driver Stuff --"
    ∷ newline
    ∷ number d.ring.ip "ip"
    ∷ number d.ring.wp "wp"
    ∷ number d.ring.rp "rp"
    ∷ number d.seq_cntr "device driver sequence number"
    ∷ number d.cntr.irq_count "received local interrupts"
    ∷ number d.cntr.irq_processed "completed DMAs"
    ∷ number d.cntr.irq_none "wrong address for interrupt"
    ∷ number d.cntr.low_power_state "low power state"
    ∷ number d.cntr.pci_master_disabled "PCI master disabled"
    ∷ number d.cntr.failed_dma "Failed DMAs"
    ∷ number d.cntr.read "read() invoked"
    ∷ number d.cntr.poll "poll() invoked"
    ∷ number d.cntr.to_user_space "frames copied to user space"
    ∷ number d.cntr.tmo_rdr "too long wait for RDR"
    ∷ number d.cntr.tmo_tbe "too long wait for TBE"
    ∷ number d.cntr.lost_ints "number of lost ints acc to driver"
    ∷ number d.cntr.circ_full_wp "wp has reached rp"
    ∷ number d.cntr.lost_hw_ints "Number of lost ints acc to hw"
    ∷ number d.cntr.circ_full_ip "ip has reached rp"
    ∷ number d.cntr.circ_empty_rp "rp equal ip"
    ∷ []
