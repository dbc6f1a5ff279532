-- ===== src/Driver/Defs.antt =====
-- plx_driverdefs.h and plx_reg8311.h: the state of the driver, its access to the hardware and to
-- the kernel. The C structure driver_t is `Driver`; the static `before` of plx_driver.c, its global
-- `debug` and the count of the semaphore read_semph are fields of it too. The counters and the
-- three pointers of the frame ring are records of their own inside it.
-- The hardware and the kernel are no code of the repository: `Env` answers each read from all the
-- accesses made before it, so that any device behaviour that depends on those is covered. Lock
-- operations, delays and prints are left out.
use cjunk.Prelude.{ℕ, List, ◌∷◌, Bool, Option, ◌+◌}
use cjunk.Prelude.Word.{u32}

-- The memory that a register macro addresses: BAR 0, BAR 2, or the PCI configuration space.
pub data Space : Type 0 where
  plx board pci_config : Space

pub data Access : Type 0 where
  read : Space → ℕ → Access
  write : Space → ℕ → ℕ → Access
  get_cycles : Access
  request_irq : Access
  free_irq : Access
  dma_alloc : Access
  dma_free : ℕ → Access
  queue_work : Access
  wake_up : Access
  copy_to_user : ℕ → ℕ → Access
  mem_set : ℕ → ℕ → ℕ → Access  -- memset_io of BAR 2: offset, byte, count

-- What the hardware and the kernel answer, given the accesses made so far, latest first.
pub record Env : Type 0 where
  pub reg : List Access → Space → ℕ → ℕ
  pub cycles : List Access → ℕ
  pub irq : ℕ  -- pPciDevice->irq
  pub request_irq_rc : List Access → ℕ  -- 0 on success
  pub alloc : List Access → Option (ℕ × ℕ)  -- frame and bus address; none is NULL
  pub copy_fails : List Access → Bool
  pub signal_pending : List Access → Bool

pub record Counters : Type 0 where
  pub irq_count : ℕ
  pub irq_processed : ℕ
  pub irq_none : ℕ
  pub low_power_state : ℕ
  pub pci_master_disabled : ℕ
  pub failed_dma : ℕ
  pub read : ℕ
  pub poll : ℕ
  pub to_user_space : ℕ
  pub tmo_rdr : ℕ
  pub tmo_tbe : ℕ
  pub lost_ints : ℕ
  pub circ_full_wp : ℕ
  pub lost_hw_ints : ℕ
  pub circ_full_ip : ℕ
  pub circ_empty_rp : ℕ

-- The read, write and interrupt pointers to frames[].
pub record Ring : Type 0 where
  pub rp : ℕ
  pub wp : ℕ
  pub ip : ℕ

pub record Driver : Type 0 where
  pub ring : Ring
  pub cntr : Counters
  pub flag_interrupt : Bool
  pub open_count : ℕ  -- U8
  pub source_ints : ℕ
  pub dma_open_0 : Bool  -- dma_channels[0]
  pub dma_open_1 : Bool  -- dma_channels[1]
  pub hw_buff_check : ℕ  -- u8
  pub frames : List (Option ℕ)
  pub bus_addresses : List ℕ
  pub seq_cntr : ℕ  -- U16
  pub before : ℕ
  pub debug : Bool
  pub read_semph : ℕ
  pub trace : List Access

-- A C function on the driver's state.
abbrev pub M : Type 0 → Type 0
M A = Driver → A × Driver

infixl 5 ◌>>=◌ ◌>>◌
abbrev pub ◌>>=◌ : {A B : Type 0} → M A → (A → M B) → M B
◌>>=◌ m f d = let (a, d') = m d in f a d'

abbrev pub ◌>>◌ : {B : Type 0} → M (Unit {0}) → M B → M B
m >> k = m >>= λ _. k

abbrev pub return : {A : Type 0} → A → M A
return a d = (a, d)

-- An access without an answer.
abbrev pub emit : Access → M (Unit {0})
emit a d = (tt, record d { trace = a ∷ d.trace })

-- PLX_9000_REG_READ, COMMAND_LINK_REG_READ, SRAM_READ and PLX_PCI_REG_READ, by their space.
abbrev pub reg_read : Env → Space → ℕ → M ℕ
reg_read e s off d = (u32 (e.reg d.trace s off), record d { trace = read s off ∷ d.trace })

-- PLX_9000_REG_WRITE, COMMAND_LINK_REG_WRITE, SRAM_WRITE and PLX_PCI_REG_WRITE.
abbrev pub reg_write : Space → ℕ → ℕ → M (Unit {0})
reg_write s off v = emit (write s off (u32 v))

abbrev pub fpga_addr_base : ℕ
fpga_addr_base = 0x2000000

abbrev pub command_link_read : Env → ℕ → M ℕ
command_link_read e off = reg_read e board (fpga_addr_base + off)

abbrev pub command_link_write : ℕ → ℕ → M (Unit {0})
command_link_write off v = reg_write board (fpga_addr_base + off) v

abbrev pub cfg_command : ℕ
cfg_command = 0x004

abbrev pub cfg_int_line : ℕ
cfg_int_line = 0x03c

abbrev pub pm_csr : ℕ
pm_csr = 0x044

abbrev pub hs_cap_id : ℕ
hs_cap_id = 0x048

abbrev pub int_ctrl_stat : ℕ
int_ctrl_stat = 0x068

abbrev pub eeprom_ctrl_stat : ℕ
eeprom_ctrl_stat = 0x06c

abbrev pub dma0_mode : ℕ
dma0_mode = 0x080

abbrev pub dma1_mode : ℕ
dma1_mode = 0x094

abbrev pub dma_command_stat : ℕ
dma_command_stat = 0x0a8

abbrev pub dma_arbit : ℕ
dma_arbit = 0x0ac

abbrev pub dma0_pci_dac : ℕ
dma0_pci_dac = 0x0b4

abbrev pub dma1_pci_dac : ℕ
dma1_pci_dac = 0x0b8

abbrev pub fifo_ctrl_stat : ℕ
fifo_ctrl_stat = 0x0e8

abbrev pub pci_mc_card_status : ℕ
pci_mc_card_status = 0x0004

abbrev pub xx_board_timer : ℕ
xx_board_timer = 0x4004

abbrev pub dma_size : ℕ
dma_size = 2097152

abbrev pub no_of_buffers : ℕ
no_of_buffers = 8

-- PLX_STATUS, as far as the functions of the model return it.
pub data Status : Type 0 where
  api_success api_failed api_dma_channel_unavailable api_dma_channel_invalid api_dma_done : Status
  api_dma_paused api_dma_in_progress api_dma_command_invalid : Status
