-- ===== src/Driver/Dma/Leased.antt =====
-- plx_dma_open_channel and plx_dma_close_channel of plx_driver.c: the DMA buffers that they take and
-- give back.
use cjunk.Prelude.{
  ℕ, zero, suc, ◌+◌, ◌<◌, ◌≡◌, refl, true, false, arith, ◌∷◌, leb, ltb, ◌&&◌, if◌then◌else◌,
}
use cjunk.Driver.Defs.{Env, Driver, reg_read, plx, dma_command_stat, api_success, dma_free}
use cjunk.Driver.Lease.{Grants, lease, allocs, frees, irqs, irq_frees}
use cjunk.Driver.Chip.{plx_chip_dma_control, dma_abort}
use cjunk.Driver.Dma.{
  set_up_registers, enable_channel, allocate, allocate_from, reset_ring, plx_dma_open_channel,
  free_from, plx_dma_close_channel,
}

set_up_registers-lease :
    (b : ℕ) (e : Env) (c s : ℕ) (d : Driver) → lease b (set_up_registers e c s d).1 ≡ lease b d
unfolding set_up_registers
set_up_registers-lease b e c s d = refl

enable_channel-lease :
    (b : ℕ) (e : Env) (c : ℕ) (d : Driver) → lease b (enable_channel e c d).1 ≡ lease b d
unfolding enable_channel cjunk.Driver.Chip.plx_synchronized_register_modify
enable_channel-lease b e zero d = refl
enable_channel-lease b e (suc c) d = refl

reset_ring-lease : (b : ℕ) (d : Driver) → lease b (reset_ring d).1 ≡ lease b d
unfolding reset_ring
reset_ring-lease b d = refl

allocate-lease :
    (b : ℕ) (e : Env) (r : ℕ) (d : Driver)
    → lease b (allocate e r d).1 ≡ (
      d.open_count,
      d.dma_open_0,
      d.flag_interrupt,
      suc (allocs d.trace),
      frees b d.trace,
      irqs d.trace,
      irq_frees d.trace,
    )
unfolding allocate
allocate-lease b e r d = ground arith

allocate_from-lease :
    (b : ℕ) (e : Env) (n r : ℕ) (d : Driver)
    → (allocate_from e n r d).0 ≡ api_success
    → lease b (allocate_from e n r d).1 ≡ (
      d.open_count,
      d.dma_open_0,
      d.flag_interrupt,
      n + allocs d.trace,
      frees b d.trace,
      irqs d.trace,
      irq_frees d.trace,
    )
unfolding allocate_from
allocate_from-lease b e zero r d h = ground arith
allocate_from-lease b e (suc n) r d h =
    ground (arith, allocate-lease b e r d, allocate_from-lease b e n (r + 1) (allocate e r d).1)

pub open_channel-lease :
    (b : ℕ) (e : Env) (d : Driver)
    → (plx_dma_open_channel e 0 d).0 ≡ api_success
    → lease b (plx_dma_open_channel e 0 d).1 ≡ (
      d.open_count,
      true,
      d.flag_interrupt,
      8 + allocs d.trace,
      frees b d.trace,
      irqs d.trace,
      irq_frees d.trace,
    )
unfolding plx_dma_open_channel
open_channel-lease b e d h =
    let d1 = record d { dma_open_0 = true } in
    let d2 = (set_up_registers e 0 (0) d1).1 in
    let d3 = (enable_channel e 0 d2).1 in
    let d4 = (reset_ring d3).1 in
    ground (
      arith,
      set_up_registers-lease b e 0 0 d1,
      enable_channel-lease b e 0 d2,
      reset_ring-lease b d3,
      allocate_from-lease b e 8 0 d4,
    )

allocate_granted : (e : Env) (r : ℕ) (d : Driver) → Grants e → (allocate e r d).0 ≡ true
unfolding allocate
allocate_granted e r d g = ground (arith, g.allocs_all d.trace)

allocate_from_granted :
    (e : Env) (n r : ℕ) (d : Driver) → Grants e → (allocate_from e n r d).0 ≡ api_success
unfolding allocate_from
allocate_from_granted e zero r d g = refl
allocate_from_granted e (suc n) r d g =
    ground (arith, allocate_granted e r d g, allocate_from_granted e n (r + 1) (allocate e r d).1 g)

pub open_channel_granted :
    (e : Env) (d : Driver)
    → Grants e
    → d.dma_open_0 ≡ false
    → (plx_dma_open_channel e 0 d).0 ≡ api_success
unfolding plx_dma_open_channel
open_channel_granted e d g closed = rw closed (allocate_from_granted e 8 0 _ g)

-- Whether `b` is one of the `n` places from `i` on, as a number.
abbrev within : ℕ → ℕ → ℕ → ℕ
within n i b = if leb i b && ltb b (i + n) then 1 else 0

free_from-lease :
    (b : ℕ) (n i : ℕ) (d : Driver)
    → lease b (free_from n i d).1 ≡ (
      d.open_count,
      d.dma_open_0,
      d.flag_interrupt,
      allocs d.trace,
      within n i b + frees b d.trace,
      irqs d.trace,
      irq_frees d.trace,
    )
unfolding free_from
free_from-lease b zero i d = ground arith
free_from-lease b (suc n) i d =
    ground (arith, free_from-lease b n (i + 1) (record d { trace = dma_free i ∷ d.trace }))

dma_control-lease :
    (b : ℕ) (e : Env) (d : Driver) → lease b (plx_chip_dma_control e 0 dma_abort d).1 ≡ lease b d
unfolding plx_chip_dma_control
dma_control-lease b e d = ground arith

pub close_channel-lease :
    (b : ℕ) (e : Env) (d : Driver)
    → d.dma_open_0 ≡ true
    → b < 8
    → lease b (plx_dma_close_channel e 0 false d).1 ≡ (
      d.open_count,
      false,
      d.flag_interrupt,
      allocs d.trace,
      suc (frees b d.trace),
      irqs d.trace,
      irq_frees d.trace,
    )
unfolding plx_dma_close_channel
close_channel-lease b e d opened place =
    let d1 = (reg_read e plx dma_command_stat d).1 in
    let d2 = (plx_chip_dma_control e 0 dma_abort d1).1 in
    ground (
      arith,
      dma_control-lease b e d1,
      free_from-lease b 8 0 (record d1 { dma_open_0 = false }),
      free_from-lease b 8 0 (record d2 { dma_open_0 = false }),
    )
