-- ===== src/Driver/Lease.antt =====
-- What an open device holds (plx_driverdefs.h): the count of its users, whether channel 0 is open and
-- the interrupt handler installed, and how often the kernel has been asked for DMA buffers and the
-- interrupt and been given the interrupt and the buffer at one place of the ring back.
use cjunk.Prelude.{ℕ, suc, ◌==◌, ◌≡◌, ◌≢◌, if◌then◌else◌, some, Bool, List, [], ◌∷◌}
use cjunk.Driver.Defs.{Env, Driver, Access, dma_alloc, dma_free, request_irq, free_irq}

abbrev pub allocs : List Access → ℕ
allocs [] = 0
allocs (dma_alloc ∷ t) = suc (allocs t)
allocs (a ∷ t) = allocs t

-- How often the buffer at place `b` of the ring was given back.
abbrev pub frees : ℕ → List Access → ℕ
frees b [] = 0
frees b (dma_free i ∷ t) = if i == b then suc (frees b t) else frees b t
frees b (a ∷ t) = frees b t

abbrev pub irqs : List Access → ℕ
irqs [] = 0
irqs (request_irq ∷ t) = suc (irqs t)
irqs (a ∷ t) = irqs t

abbrev pub irq_frees : List Access → ℕ
irq_frees [] = 0
irq_frees (free_irq ∷ t) = suc (irq_frees t)
irq_frees (a ∷ t) = irq_frees t

abbrev pub Lease : Type 0
Lease = ℕ × Bool × Bool × ℕ × ℕ × ℕ × ℕ

abbrev pub lease : ℕ → Driver → Lease
lease b d = (
  d.open_count,
  d.dma_open_0,
  d.flag_interrupt,
  allocs d.trace,
  frees b d.trace,
  irqs d.trace,
  irq_frees d.trace,
)

-- A kernel that gives every DMA buffer and the interrupt that are asked for.
pub record Grants (e : Env) : Type 0 where
  pub buffer : List Access → ℕ × ℕ
  pub allocs_all : (t : List Access) → e.alloc t ≡ some (buffer t)
  pub has_irq : e.irq ≢ 0
  pub gives_irq : (t : List Access) → e.request_irq_rc t ≡ 0
