-- ===== src/Driver/Dma/Users.antt =====
-- plx_dma_open_channel of plx_driver.c: the fields of the driver that it leaves alone or resets.
use cjunk.Prelude.{ℕ, zero, suc, ◌+◌, ◌≡◌, refl, true, arith}
use cjunk.Driver.Defs.{Env, Driver, api_dma_channel_unavailable}
use cjunk.Driver.Dma.{
  set_up_registers, enable_channel, allocate, allocate_from, reset_ring, plx_dma_open_channel,
}

allocate-users : (e : Env) (r : ℕ) (d : Driver) → (allocate e r d).1.open_count ≡ d.open_count
unfolding allocate
allocate-users e r d = ground arith

allocate_from-users :
    (e : Env) (n r : ℕ) (d : Driver) → (allocate_from e n r d).1.open_count ≡ d.open_count
unfolding allocate_from
allocate_from-users e zero r d = refl
allocate_from-users e (suc n) r d =
    ground (arith, allocate-users e r d, allocate_from-users e n (r + 1) (allocate e r d).1)

set_up_registers-users :
    (e : Env) (c s : ℕ) (d : Driver) → (set_up_registers e c s d).1.open_count ≡ d.open_count
unfolding set_up_registers
set_up_registers-users e c s d = refl

enable_channel-users :
    (e : Env) (c : ℕ) (d : Driver) → (enable_channel e c d).1.open_count ≡ d.open_count
unfolding enable_channel cjunk.Driver.Chip.plx_synchronized_register_modify
enable_channel-users e zero d = refl
enable_channel-users e (suc c) d = refl

reset_ring-users : (d : Driver) → (reset_ring d).1.open_count ≡ d.open_count
unfolding reset_ring
reset_ring-users d = refl

-- Opening a channel does not count users.
pub open_channel-users :
    (e : Env) (d : Driver) → (plx_dma_open_channel e 0 d).1.open_count ≡ d.open_count
unfolding plx_dma_open_channel
open_channel-users e d =
    let d1 = record d { dma_open_0 = true } in
    let d2 = (set_up_registers e 0 (0) d1).1 in
    let d3 = (enable_channel e 0 d2).1 in
    ground (
      arith,
      set_up_registers-users e 0 0 d1,
      enable_channel-users e 0 d2,
      reset_ring-users d3,
      allocate_from-users e 8 0 (reset_ring d3).1,
    )

-- A channel that is open is not opened again, and nothing changes.
pub open_channel-open :
    (e : Env) (d : Driver)
    → d.dma_open_0 ≡ true
    → plx_dma_open_channel e 0 d ≡ (api_dma_channel_unavailable, d)
unfolding plx_dma_open_channel
open_channel-open e d h = rw h
