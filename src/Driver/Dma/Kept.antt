-- ===== src/Driver/Dma/Kept.antt =====
-- plx_dma_open_channel and plx_dma_close_channel of plx_driver.c: what they do to the pointers of the
-- frame ring and to the semaphore.
use cjunk.Prelude.{ℕ, zero, suc, ◌+◌, ◌≡◌, refl, true, Bool, arith}
use cjunk.Driver.Defs.{Env, Driver, reg_read, plx, dma_command_stat}
use cjunk.Driver.Held.{held, zeroed, LeftOrZeroed}
use cjunk.Driver.Chip.{plx_chip_dma_control, dma_abort}
use cjunk.Driver.Dma.{
  set_up_registers, enable_channel, allocate, allocate_from, reset_ring, plx_dma_open_channel,
  plx_dma_close_channel,
}

allocate-held : (e : Env) (r : ℕ) (d : Driver) → held (allocate e r d).1 ≡ held d
unfolding allocate
allocate-held e r d = ground arith

allocate_from-held : (e : Env) (n r : ℕ) (d : Driver) → held (allocate_from e n r d).1 ≡ held d
unfolding allocate_from
allocate_from-held e zero r d = refl
allocate_from-held e (suc n) r d =
    ground (arith, allocate-held e r d, allocate_from-held e n (r + 1) (allocate e r d).1)

set_up_registers-held :
    (e : Env) (c s : ℕ) (d : Driver) → held (set_up_registers e c s d).1 ≡ held d
unfolding set_up_registers
set_up_registers-held e c s d = refl

enable_channel-held : (e : Env) (c : ℕ) (d : Driver) → held (enable_channel e c d).1 ≡ held d
unfolding enable_channel cjunk.Driver.Chip.plx_synchronized_register_modify
enable_channel-held e zero d = refl
enable_channel-held e (suc c) d = refl

reset_ring-held : (d : Driver) → held (reset_ring d).1 ≡ (zeroed, d.read_semph)
unfolding reset_ring
reset_ring-held d = refl

pub open_channel-held : (e : Env) (d : Driver) → LeftOrZeroed d (plx_dma_open_channel e 0 d).1
unfolding plx_dma_open_channel
open_channel-held e d =
    let d1 = record d { dma_open_0 = true } in
    let d2 = (set_up_registers e 0 (0) d1).1 in
    let d3 = (enable_channel e 0 d2).1 in
    ground (
      arith,
      set_up_registers-held e 0 0 d1,
      enable_channel-held e 0 d2,
      reset_ring-held d3,
      allocate_from-held e 8 0 (reset_ring d3).1,
    )

dma_control-held : (e : Env) (d : Driver) → held (plx_chip_dma_control e 0 dma_abort d).1 ≡ held d
unfolding plx_chip_dma_control
dma_control-held e d = ground arith

pub close_channel-held :
    (e : Env) (check : Bool) (d : Driver) → held (plx_dma_close_channel e 0 check d).1 ≡ held d
unfolding plx_dma_close_channel
close_channel-held e check d =
    ground (arith, dma_control-held e (reg_read e plx dma_command_stat d).1)
