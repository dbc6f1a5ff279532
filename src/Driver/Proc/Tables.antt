-- ===== src/Driver/Proc/Tables.antt =====
-- plx_proc.c: the registers of plx_read_procmem that have a line each, by address and text.
use Prim.Native.String.{String}
use cjunk.Prelude.{ℕ, List, [], ◌∷◌}

-- The lines 142 to 173.
abbrev pub cs_rows : List (ℕ × String)
cs_rows =
    (0x8, "  R/W Generic Output Port")
    ∷ (0xc, "  RO Generic Input Port")
    ∷ (0x1000, "  Frame Count")
    ∷ (0x1004, "  Frame Error Count")
    ∷ (0x1008, "  Sync Lost Count")
    ∷ (0x100c, "  R/W Incoming sample counter (Write to clear)")
    ∷ (0x3000, "  Detector Command Link")
    ∷ (0x3004, "  ")
    ∷ (0x3008, "  ")
    ∷ (0x4000, "  Temperature")
    ∷ (0x4004, "  Timer")
    ∷ (0x4008, "  FPGA version")
    ∷ (0x400c, "  SRAM Address Counter")
    ∷ (0x5000, "  SelfTest Good Data Counter")
    ∷ (0x5004, "  SelfTest Bad Data Counter")
    ∷ (0x5008, "  SelfTest Command")
    ∷ []

-- The lines 177 to 202.
abbrev pub dc_rows : List (ℕ × String)
dc_rows =
    (0x00, "  R/W Test Register")
    ∷ (0x01, "  Echo Register")
    ∷ (0x02, "  Temperature")
    ∷ (0x3, "  Not used")
    ∷ (0x4, "  Error Register")
    ∷ (0x5, "  Reply Channel Select")
    ∷ (0x6, "  Test Command Register")
    ∷ (0x07, "  FPGA version")
    ∷ (0xa, "  Frame Size Code  ((RO) see LimitsAndFormats)")
    ∷ (0xb, "  Frame Size Set (for testing, normally 0x13)")
    ∷ (0xc, "  Sample Counter N-16")
    ∷ (0xd, "  Sample Counter 15-8")
    ∷ (0xe, "  Sample Counter 7-0")
    ∷ []

-- The lines 215 to 268.
abbrev pub mb_rows : List (ℕ × String)
mb_rows =
    (0x22, "  Frame Count MSB")
    ∷ (0x23, "  Frame Count LSB")
    ∷ (0x24, "  Integration 2")
    ∷ (0x25, "  Integration 1")
    ∷ (0x26, "  Integration 0")
    ∷ (0x27, "  Status")
    ∷ (0x28, "  Reset Timer 2")
    ∷ (0x29, "  Reset Timer 1")
    ∷ (0x2a, "  Reset Timer 0")
    ∷ (0x2b, "  Echo")
    ∷ (0x2c, "  Trigger Delay MSB")
    ∷ (0x2d, "  Trigger Delay LSB")
    ∷ (0x2e, "  Temperature ")
    ∷ (0x2f, "  Not Used ")
    ∷ (0x30, "  Frame Size Code")
    ∷ (0x31, "  Frame Size Set")
    ∷ (0x32, "  ADC Status")
    ∷ (0x33, "  Test Mode Data(Mask)")
    ∷ (0x34, "  Sent Samples  23-16")
    ∷ (0x35, "  Sent Samples  15-8")
    ∷ (0x36, "  Sent Samples  7-0")
    ∷ (0x37, "  FPGA Version")
    ∷ (0x38, "  Initial Value timer (240ns tick)")
    ∷ (0x39, "  Column Select")
    ∷ (0x3a, "  Initial Column Delay timer 1 (30.72us/col) ")
    ∷ (0x3b, "  Initial Column Delay timer 1 (120ns/col)")
    ∷ (0x3c, "  Frame Measurement timer 2 (n2 * 65536us)")
    ∷ []
