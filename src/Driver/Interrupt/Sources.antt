-- ===== src/Driver/Interrupt/Sources.antt =====
-- plx_interrupt.c: the sources that the interrupt service routine leaves for its deferred procedure, on
-- a device that tells the end of a transfer on channel 0 and nothing else.
use cjunk.Prelude.{◌+◌, ◌^◌, ◌≡◌, arith}
use cjunk.Driver.Defs.{Env, Driver}
use cjunk.Driver.Timer.{debug_time}
use cjunk.Driver.Chip.{plx_chip_interrupts_disable}
use cjunk.Driver.Interrupt.{
  plx_on_interrupt, enabled_interrupt, find_dma_sources, dma_interrupt, defer, schedule_dpc,
}
use cjunk.Driver.Tests.{constant}

-- Bits 8, 17, 18 and 21 of every register.
abbrev pub transfer_ended : Env
transfer_ended = constant (2 ^ 8 + 2 ^ 17 + 2 ^ 18 + 2 ^ 21)

pub transfer_ended-source : (d : Driver) → (plx_on_interrupt transfer_ended d).1.source_ints ≡ 2 ^ 5
unfolding plx_on_interrupt enabled_interrupt find_dma_sources dma_interrupt defer schedule_dpc
    debug_time plx_chip_interrupts_disable
transfer_ended-source d = ground arith
