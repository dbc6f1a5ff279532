-- ===== src/Driver/Module/Resources.antt =====
-- plx_driver.c: the BARs of the device (plx_pci_bar_resource_map, plx_request_resources,
-- plx_release_resources). PciBar[] is a list; a BAR is at its place in it. The spinlocks, the work
-- item and the wait queue that plx_request_resources initialises are left out, as are its prints.
use cjunk.Prelude.{
  ℕ, zero, suc, ◌+◌, ◌-◌, ◌*◌, ◌%◌, ◌==◌, Bool, true, false, not, List, [], ◌∷◌, ℤ, pos, negsuc,
  if◌then◌else◌,
}
use cjunk.Driver.Defs.{Env, Driver, reg_read, pci_config}
use cjunk.Driver.Module.Calls.{
  Call, Kernel, request_region, release_region, request_mem_region, release_mem_region, ioremap,
  iounmap, create_singlethread_workqueue,
}

-- PLX_PCI_BAR_INFO with its PLX_PCI_BAR_PROP; bPrefetchable and b64bit are never used.
pub record Bar : Type 0 where
  pub va : ℕ  -- 0 is NULL
  pub claimed : Bool
  pub bar_value : ℕ
  pub physical : ℕ
  pub size : ℕ
  pub io_space : Bool

-- driver_t, as far as the module's functions use it, with the calls made so far.
pub record Device : Type 0 where
  pub driver : Driver
  pub bars : List Bar
  pub started : Bool  -- Flag_started
  pub queue : Bool  -- my_workqueue is not NULL
  pub drvdata : Bool  -- pci_get_drvdata is not NULL
  pub calls : List Call

-- PciBar[i].pVa
abbrev pub va_of : ℕ → List Bar → ℕ
va_of i [] = 0
va_of zero (b ∷ bs) = b.va
va_of (suc i) (b ∷ bs) = va_of i bs

abbrev pub enomem : ℤ
enomem = negsuc 11

abbrev pub cfg_bar0 : ℕ
cfg_bar0 = 0x010

unfoldable pub plx_pci_bar_resource_map : Kernel → Bar → List Call → ℤ × Bar × List Call
plx_pci_bar_resource_map k b l =
    let b0 = record b { claimed = false; va = 0 } in
    let held = record b { claimed = true; va = 0 } in
    if b.io_space
    then (
      pos 0,
      if k.region_granted l b.physical b.size then held else b0,
      request_region b.physical b.size ∷ l,
    )
    else if k.mem_region_granted l b.physical b.size
    then (let l1 = request_mem_region b.physical b.size ∷ l in
        let va = k.mapped_at l1 b.physical b.size in
        (
          if va == 0 then enomem else pos 0,
          record b { claimed = true; va = va },
          ioremap b.physical b.size ∷ l1,
        ))
    else (enomem, b0, request_mem_region b.physical b.size ∷ l)

-- The properties of BAR i, with the flags cleared from its address.
unfoldable pub configure : Kernel → ℕ → ℕ → Bar → Bar
configure k i v b =
    let a = k.start i in
    let io = k.is_io i in
    record b {
      physical = if io then a - a % 4 else a - a % 16;
      io_space = io;
      bar_value = v;
      size = k.len i;
    }

-- A round of the loop of plx_request_resources, at BAR i. The result of the mapping is only
-- printed.
unfoldable pub request_bar : Kernel → Env → ℕ → Bar → Device → Bar × Device
unfolding configure plx_pci_bar_resource_map
request_bar k e i b d =
    if k.start i == 0
    then (b, d)
    else (let (v, driver) = reg_read e pci_config (cfg_bar0 + i * 4) d.driver in
        let (rc, b', l) = plx_pci_bar_resource_map k (configure k i v b) d.calls in
        (b', record d { driver = driver; calls = l }))

unfoldable pub request_bars : Kernel → Env → ℕ → List Bar → Device → List Bar × Device
unfolding request_bar
request_bars k e i [] d = ([], d)
request_bars k e i (b ∷ bs) d =
    let (b', d1) = request_bar k e i b d in
    let (bs', d2) = request_bars k e (i + 1) bs d1 in (b' ∷ bs', d2)

-- init_MUTEX sets the semaphore to 1.
unfoldable pub plx_request_resources : Kernel → Env → Device → ℤ × Device
unfolding request_bars
plx_request_resources k e d =
    let (bs, d1) = request_bars k e 0 d.bars d in
    (
      pos 0,
      record d1 {
        bars = bs;
        driver = record d1.driver { read_semph = 1 };
        calls = create_singlethread_workqueue ∷ d1.calls;
        queue = k.queue_made d1.calls;
        started = true;
      },
    )

-- A round of the loop of plx_release_resources.
unfoldable pub release_bar : Bar → List Call → Bar × List Call
release_bar b l =
    if b.physical == 0
    then (b, l)
    else if b.io_space
    then (b, if b.claimed then release_region b.physical b.size ∷ l else l)
    else (let l1 = if b.va == 0 then l else iounmap b.va ∷ l in
        (record b { va = 0 }, if b.claimed then release_mem_region b.physical b.size ∷ l1 else l1))

unfoldable pub release_bars : List Bar → List Call → List Bar × List Call
unfolding release_bar
release_bars [] l = ([], l)
release_bars (b ∷ bs) l =
    let (b', l1) = release_bar b l in let (bs', l2) = release_bars bs l1 in (b' ∷ bs', l2)

unfoldable pub plx_release_resources : Device → Device
unfolding release_bars
plx_release_resources d =
    if not d.started
    then d
    else (let (bs, l) = release_bars d.bars d.calls in
        record d { bars = bs; calls = l; started = false })
