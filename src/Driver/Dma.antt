-- ===== src/Driver/Dma.antt =====
-- plx_driver.c: starting a transfer, and opening and closing a DMA channel. The callers pass the
-- channels 0 and 1; dma_channels[] has no other element.
pub mod Users
pub mod Kept
pub mod Leased
use cjunk.Prelude.{
  ℕ, zero, suc, ◌+◌, ◌*◌, ◌^◌, ◌&&◌, List, [], ◌∷◌, Option, none, some, Bool, true, false, ◌==◌,
  not, if◌then◌else◌, get_or, set,
}
use cjunk.Prelude.Word.{has_bit, set_bit, clear_bit, set_bits}
use cjunk.Driver.Defs.{
  Env, Driver, Ring, M, ◌>>=◌, ◌>>◌, return, emit, reg_read, reg_write, plx, Access, dma_alloc,
  dma_free, Status, api_success, api_failed, api_dma_channel_unavailable, api_dma_channel_invalid,
  api_dma_paused, api_dma_in_progress, dma_command_stat, int_ctrl_stat, dma0_mode, dma1_mode,
  dma0_pci_dac, dma1_pci_dac, dma_arbit, dma_size, no_of_buffers,
}
use cjunk.Driver.Chip.{plx_chip_dma_control, dma_abort, plx_synchronized_register_modify}

-- dma_channels[channel]
abbrev pub is_open : Driver → ℕ → Bool
is_open d zero = d.dma_open_0
is_open d (suc n) = d.dma_open_1

abbrev pub set_open : ℕ → Bool → M (Unit {0})
set_open zero b d = (tt, record d { dma_open_0 = b })
set_open (suc n) b d = (tt, record d { dma_open_1 = b })

abbrev pub local_pci_sram_base : ℕ
local_pci_sram_base = 0x50000000

-- The register writes of plx_dma_transfer_block. STEP_IN_INT: the target is buffer `ip`.
program_channel : Env → ℕ → ℕ → ℕ → M (Unit {0})
program_channel e hw_buf mode shift = do
  v ← reg_read e plx mode
  reg_write plx mode (set_bits (clear_bit v 9) (10 ∷ 17 ∷ []))
  (λ d. reg_write plx (mode + 0x4) (get_or d.bus_addresses d.ring.ip 0) d)
  reg_write plx (mode + 0x8) (local_pci_sram_base + hw_buf * dma_size)
  reg_write plx (mode + 0xc) dma_size
  reg_write plx (mode + 0x10) (2 ^ 2 + 2 ^ 3)
  w ← reg_read e plx dma_command_stat
  reg_write plx dma_command_stat (set_bit w (0 + shift))
  reg_write plx dma_command_stat (set_bits w ((0 + shift) ∷ (1 + shift) ∷ []))

-- The two checks, and the transfer, for a valid channel.
transfer_on : Env → ℕ → ℕ → ℕ → ℕ → M Status
transfer_on e hw_buf channel mode shift = do
  v ← reg_read e plx dma_command_stat
  (λ d.
      if not (has_bit v (4 + shift))
      then (api_dma_in_progress, d)
      else if not (is_open d channel)
      then (api_dma_channel_unavailable, d)
      else (program_channel e hw_buf mode shift >> return api_success) d)

unfoldable pub plx_dma_transfer_block : Env → ℕ → ℕ → M Status
unfolding transfer_on program_channel
plx_dma_transfer_block e hw_buf zero = transfer_on e hw_buf zero dma0_mode 0
plx_dma_transfer_block e hw_buf (suc zero) = transfer_on e hw_buf 1 dma1_mode 8
plx_dma_transfer_block e hw_buf (suc (suc n)) = return api_dma_channel_invalid

-- The DMA mode that plx_dma_open_channel sets up: bits 0, 1, 6, 7, 8, 10 and 17.
abbrev pub open_mode : ℕ
open_mode = set_bits 0 (0 ∷ 1 ∷ 6 ∷ 7 ∷ 8 ∷ 10 ∷ 17 ∷ [])

set_up_registers : Env → ℕ → ℕ → M (Unit {0})
set_up_registers e channel shift = do
  a ← reg_read e plx dma_arbit
  reg_write plx dma_arbit (set_bit a 18)
  v ← reg_read e plx dma_command_stat
  reg_write plx dma_command_stat (clear_bit v (0 + shift))
  reg_write plx dma_command_stat (set_bit v (2 + shift))
  reg_write plx dma_command_stat (set_bit v (0 + shift))

enable_channel : Env → ℕ → M (Unit {0})
enable_channel e zero = do
  reg_write plx dma0_mode open_mode
  reg_write plx dma0_pci_dac 0
  plx_synchronized_register_modify e int_ctrl_stat (18 ∷ []) []
enable_channel e (suc n) = do
  reg_write plx dma1_mode open_mode
  reg_write plx dma1_pci_dac 0
  plx_synchronized_register_modify e int_ctrl_stat (19 ∷ []) []

-- One round of the loop that allocates frames[r] and bus_addresses[r]; false: the allocation
-- failed, which leaves NULL in frames[r].
allocate : Env → ℕ → M Bool
allocate e r d = elim (e.alloc d.trace) [
  | none ↦ (false, record d { frames = set d.frames r none; trace = dma_alloc ∷ d.trace })
  | some (frame, bus) ↦ (
    true,
    record d {
      frames = set d.frames r (some frame);
      bus_addresses = set d.bus_addresses r bus;
      trace = dma_alloc ∷ d.trace;
    },
  )
]

-- for (r=0; r<NO_OF_BUFFERS; r++), with `n` rounds left.
allocate_from : Env → ℕ → ℕ → M Status
allocate_from e zero r d = (api_success, d)
allocate_from e (suc n) r d =
    let (ok, d') = allocate e r d in
    elim ok [ false ↦ (api_failed, d') | true ↦ allocate_from e n (r + 1) d' ]

reset_ring : M (Unit {0})
reset_ring d = (tt, record d { ring = record { rp = 0; wp = 0; ip = 0 }; hw_buff_check = 0 })

pub plx_dma_open_channel : Env → ℕ → M Status
plx_dma_open_channel e channel d =
    if is_open d channel
    then (api_dma_channel_unavailable, d)
    else (do
      set_open channel true
      set_up_registers e channel (channel * 8)
      enable_channel e channel
      reset_ring
      allocate_from e no_of_buffers 0)
        d

-- for(i=0;i<NO_OF_BUFFERS; i++) dma_free_coherent(...), with `n` rounds left.
free_from : ℕ → ℕ → M (Unit {0})
free_from zero i = return tt
free_from (suc n) i = emit (dma_free i) >> free_from n (i + 1)

unfoldable pub plx_dma_close_channel : Env → ℕ → Bool → M Status
unfolding free_from
plx_dma_close_channel e channel check_in_progress d =
    if not (is_open d channel)
    then (api_dma_channel_unavailable, d)
    else (do
      v ← reg_read e plx dma_command_stat
      let busy = not (has_bit v (4 + channel * 8))
      (if busy && check_in_progress
          then return (if has_bit v (0 + channel * 8) then api_dma_in_progress else api_dma_paused)
          else (do
            _ ← (if busy then plx_chip_dma_control e channel dma_abort else return api_success)
            set_open channel false
            free_from no_of_buffers 0
            return api_success)))
        d
