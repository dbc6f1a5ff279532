-- ===== src/Driver/Module/Bars.antt =====
-- plx_driver.c: what plx_request_resources claims is what plx_release_resources gives back.
use mathlib.Core.Path.{subst}
use cjunk.Prelude.{
  ℕ, zero, suc, ◌-◌, ◌<◌, ap, length, true, false, ◌+◌, ◌*◌, ◌∙◌, ◌%◌, ◌==◌, ◌≡◌, ◌≢◌, refl, List,
  [], ◌∷◌, if◌then◌else◌, arith,
}
use cjunk.Driver.Defs.{Env, reg_read, pci_config}
use cjunk.Driver.Module.Calls.{
  Call, Holding, Kernel, request_mem_region, io_region, mem_region, mapping, acquired, given_back,
}
use cjunk.Driver.Module.Resources.{
  Bar, Device, va_of, cfg_bar0, configure, plx_pci_bar_resource_map, request_bar, request_bars,
  release_bar, release_bars,
}

-- What the entry of a BAR says is to be given back.
unfoldable pub owes : (Holding → ℕ) → Bar → ℕ
owes w b =
    if b.physical == 0
    then 0
    else if b.io_space
    then (if b.claimed then w (io_region b.physical b.size) else 0)
    else (if b.va == 0 then 0 else w (mapping b.va))
      + (if b.claimed then w (mem_region b.physical b.size) else 0)

unfoldable pub owe : (Holding → ℕ) → List Bar → ℕ
unfolding owes
owe w [] = 0
owe w (b ∷ bs) = owes w b + owe w bs

-- The entry of a BAR that the device does not have is that of kzalloc.
abbrev pub Settled : Kernel → ℕ → List Bar → Type 0
Settled k i [] = Unit {0}
Settled k i (b ∷ bs) = ((if k.start i == 0 then b.physical else 0) ≡ 0) × Settled k (i + 1) bs

-- The kernel maps BAR `i`, which is memory, whenever it is asked to.
pub record Reaches (k : Kernel) (i : ℕ) : Type 0 where
  pub present : k.start i ≢ 0
  pub in_memory : k.is_io i ≡ false
  pub granted :
      (l : List Call) → k.mem_region_granted l (k.start i - k.start i % 16) (k.len i) ≡ true
  pub mapped : (l : List Call) → k.mapped_at l (k.start i - k.start i % 16) (k.len i) ≢ 0

owes-skipped : (w : Holding → ℕ) (b : Bar) → b.physical ≡ 0 → owes w b ≡ 0
unfolding owes
owes-skipped w b h = ground arith

module _ (k : Kernel) (w : Holding → ℕ) where
  map-acquired :
      (b : Bar) (l : List Call)
      → b.physical ≢ 0
      → acquired k w (plx_pci_bar_resource_map k b l).2
        ≡ acquired k w l + owes w (plx_pci_bar_resource_map k b l).1
  unfolding plx_pci_bar_resource_map acquired owes
  map-acquired b l h = ground arith

  map-given_back :
      (b : Bar) (l : List Call) → given_back w (plx_pci_bar_resource_map k b l).2 ≡ given_back w l
  unfolding plx_pci_bar_resource_map given_back
  map-given_back b l = ground arith

  release_bar-given_back :
      (b : Bar) (l : List Call) → given_back w (release_bar b l).1 ≡ given_back w l + owes w b
  unfolding release_bar given_back owes
  release_bar-given_back b l = ground arith

  release_bar-acquired :
      (b : Bar) (l : List Call) → acquired k w (release_bar b l).1 ≡ acquired k w l
  unfolding release_bar acquired
  release_bar-acquired b l = ground arith

  module _ (e : Env) (aligned : (i : ℕ) → k.start i % 16 ≡ 0) where
    configure-physical : (i v : ℕ) (b : Bar) → k.start i ≢ 0 → (configure k i v b).physical ≢ 0
    unfolding configure
    configure-physical i v b h = ground (arith, aligned i)

    request_bar-acquired :
        (i : ℕ) (b : Bar) (d : Device)
        → (if k.start i == 0 then b.physical else 0) ≡ 0
        → acquired k w (request_bar k e i b d).1.calls
          ≡ acquired k w d.calls + owes w (request_bar k e i b d).0
    unfolding request_bar
    request_bar-acquired i b d s =
        let v = (reg_read e pci_config (cfg_bar0 + i * 4) d.driver).0 in
        ground (
          arith,
          owes-skipped w b,
          configure-physical i v b,
          map-acquired (configure k i v b) d.calls,
        )

    request_bar-given_back :
        (i : ℕ) (b : Bar) (d : Device)
        → given_back w (request_bar k e i b d).1.calls ≡ given_back w d.calls
    unfolding request_bar
    request_bar-given_back i b d =
        let v = (reg_read e pci_config (cfg_bar0 + i * 4) d.driver).0 in
        ground (arith, map-given_back (configure k i v b) d.calls)

    request_bar-settled :
        (i : ℕ) (b : Bar) (d : Device)
        → (if k.start i == 0 then b.physical else 0) ≡ 0
        → (if k.start i == 0 then (request_bar k e i b d).0.physical else 0) ≡ 0
    unfolding request_bar
    request_bar-settled i b d s = ground arith

    pub request_bars-acquired :
        (i : ℕ) (bs : List Bar) (d : Device)
        → Settled k i bs
        → acquired k w (request_bars k e i bs d).1.calls
          ≡ acquired k w d.calls + owe w (request_bars k e i bs d).0
    unfolding request_bars owe
    request_bars-acquired i [] d s = omega arith
    request_bars-acquired i (b ∷ bs) d (s, ss) = omega (
      arith,
      request_bar-acquired i b d s,
      request_bars-acquired (i + 1) bs (request_bar k e i b d).1 ss,
    )

    pub request_bars-given_back :
        (i : ℕ) (bs : List Bar) (d : Device)
        → given_back w (request_bars k e i bs d).1.calls ≡ given_back w d.calls
    unfolding request_bars
    request_bars-given_back i [] d = refl
    request_bars-given_back i (b ∷ bs) d =
        request_bars-given_back (i + 1) bs (request_bar k e i b d).1 ∙ request_bar-given_back i b d

    pub request_bars-Settled :
        (i : ℕ) (bs : List Bar) (d : Device)
        → Settled k i bs
        → Settled k i (request_bars k e i bs d).0
    unfolding request_bars
    request_bars-Settled i [] d s = tt
    request_bars-Settled i (b ∷ bs) d (s, ss) =
        (request_bar-settled i b d s, request_bars-Settled (i + 1) bs (request_bar k e i b d).1 ss)

    request_bar-va : (i : ℕ) (b : Bar) (d : Device) → Reaches k i → (request_bar k e i b d).0.va ≢ 0
    unfolding request_bar plx_pci_bar_resource_map configure
    request_bar-va i b d r =
        let a = k.start i - k.start i % 16 in
        ground (
          arith,
          r.present,
          r.in_memory,
          r.granted d.calls,
          r.mapped (request_mem_region a (k.len i) ∷ d.calls),
        )

    pub request_bars-va :
        (i j : ℕ) (bs : List Bar) (d : Device)
        → j < length bs
        → Reaches k (i + j)
        → va_of j (request_bars k e i bs d).0 ≢ 0
    unfolding request_bars
    request_bars-va i j [] d h r = omega arith
    request_bars-va i zero (b ∷ bs) d h r = request_bar-va i b d (subst (Reaches k) (omega arith) r)
    request_bars-va i (suc j) (b ∷ bs) d h r =
        request_bars-va (i + 1) j bs (request_bar k e i b d).1 (omega arith)
          (subst (Reaches k) (omega arith) r)

    pub request_bars-length :
        (i : ℕ) (bs : List Bar) (d : Device) → length (request_bars k e i bs d).0 ≡ length bs
    unfolding request_bars
    request_bars-length i [] d = refl
    request_bars-length i (b ∷ bs) d =
        ap suc (request_bars-length (i + 1) bs (request_bar k e i b d).1)

  pub release_bars-length :
      (bs : List Bar) (l : List Call) → length (release_bars bs l).0 ≡ length bs
  unfolding release_bars
  release_bars-length [] l = refl
  release_bars-length (b ∷ bs) l = ap suc (release_bars-length bs (release_bar b l).1)

  pub release_bars-given_back :
      (bs : List Bar) (l : List Call)
      → given_back w (release_bars bs l).1 ≡ given_back w l + owe w bs
  unfolding release_bars owe
  release_bars-given_back [] l = omega arith
  release_bars-given_back (b ∷ bs) l =
      omega (arith, release_bar-given_back b l, release_bars-given_back bs (release_bar b l).1)

  pub release_bars-acquired :
      (bs : List Bar) (l : List Call) → acquired k w (release_bars bs l).1 ≡ acquired k w l
  unfolding release_bars
  release_bars-acquired [] l = refl
  release_bars-acquired (b ∷ bs) l =
      release_bars-acquired bs (release_bar b l).1 ∙ release_bar-acquired b l

  release_bar-physical : (b : Bar) (l : List Call) → (release_bar b l).0.physical ≡ b.physical
  unfolding release_bar
  release_bar-physical b l = ground arith

  pub release_bars-Settled :
      (i : ℕ) (bs : List Bar) (l : List Call) → Settled k i bs → Settled k i (release_bars bs l).0
  unfolding release_bars
  release_bars-Settled i [] l s = tt
  release_bars-Settled i (b ∷ bs) l (s, ss) =
      (rw (release_bar-physical b l) s, release_bars-Settled (i + 1) bs (release_bar b l).1 ss)
