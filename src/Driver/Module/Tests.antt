-- ===== src/Driver/Module/Tests.antt =====
-- plx_driver.c: the life of the module at concrete inputs.
use cjunk.Prelude.{
  if◌then◌else◌, ◌+◌, ◌*◌, ◌/◌, ◌==◌, ltb, ◌≡◌, refl, true, false, some, [], ◌∷◌, pos, arith,
}
use cjunk.Driver.Defs.{Env}
use cjunk.Driver.CommandLink.Waiting.{Clock, enough_fuel}
use cjunk.Driver.Tests.{constant, idle, wrapped}
use cjunk.Driver.Module.Calls.{
  Kernel, acquired, given_back, request_region, request_mem_region, ioremap, release_region,
  release_mem_region, iounmap, create_singlethread_workqueue,
}
use cjunk.Driver.Module.Resources.{Bar, Device, plx_request_resources, plx_release_resources}
use cjunk.Driver.Module.Probe.{hotplug}
use cjunk.Driver.Module.Hotplug.{Clear, Serves, hotplug-Clear}
use cjunk.Driver.Module.Load.{Module, plx_drv_init_module, load_unload}
use cjunk.Driver.Module.Leaks.{left, load_unload-left}

-- BAR 0, BAR 2 and BAR 3 are memory, BAR 1 is I/O space. The kernel refuses the memory of BAR 3, and
-- the proc file.
abbrev grudging : Kernel
grudging = record {
  start = λ i.
      if i == 0
      then 0x90000000
      else if i == 1
      then 0x4000
      else if i == 2
      then 0xa0000000
      else if i == 3
      then 0xb0000000
      else 0;
  is_io = λ i. i == 1;
  len = λ i. 0x200;
  region_granted = λ l a s. true;
  mem_region_granted = λ l a s. ltb a 0xb0000000;
  mapped_at = λ l a s. a + 0x100000000;
  enabled = λ l. true;
  mask_set = λ l. true;
  queue_made = λ l. true;
  mkdev = λ a b. a * 1048576 + b;
  major_of = λ n. n / 1048576;
  registered = λ l n. pos 0;
  allocated = λ l m. pos 0;
  given_number = λ l m. 254 * 1048576 + m;
  memory_granted = λ l. true;
  added = λ l n. pos 0;
  proc_made = λ l. false;
}

abbrev unused : Bar
unused = record { va = 0; claimed = false; bar_value = 0; physical = 0; size = 0; io_space = false }

abbrev wired : Env
wired = record (constant 1) { irq = 5 }

wired-Clock : Clock wired
wired-Clock = record { monotone = λ a t. omega arith; goes_on = λ t. omega arith }

abbrev fresh : Device
fresh = record {
  driver = idle wrapped 0 0;
  bars = unused ∷ unused ∷ unused ∷ unused ∷ unused ∷ unused ∷ [];
  started = false;
  queue = false;
  drvdata = false;
  calls = [];
}

resources_test :
    (plx_release_resources (plx_request_resources grudging wired fresh).1).calls
    ≡ release_mem_region 0xa0000000 0x200
      ∷ iounmap 0x1a0000000
      ∷ release_region 0x4000 0x200
      ∷ release_mem_region 0x90000000 0x200
      ∷ iounmap 0x190000000
      ∷ create_singlethread_workqueue
      ∷ request_mem_region 0xb0000000 0x200
      ∷ ioremap 0xa0000000 0x200
      ∷ request_mem_region 0xa0000000 0x200
      ∷ request_region 0x4000 0x200
      ∷ ioremap 0x90000000 0x200
      ∷ request_mem_region 0x90000000 0x200
      ∷ []
unfolding plx_release_resources plx_request_resources
resources_test = refl

grudging-Serves : Serves grudging
grudging-Serves = record {
  bar_0 = record {
    present = λ h. absurd (ground arith);
    in_memory = refl;
    granted = λ l. refl;
    mapped = λ l h. absurd (ground arith);
  };
  bar_2 = record {
    present = λ h. absurd (ground arith);
    in_memory = refl;
    granted = λ l. refl;
    mapped = λ l h. absurd (ground arith);
  };
  queues = λ l. refl;
}

hotplug-Clear_example :
    (d : Device) × (hotplug grudging wired enough_fuel 3 fresh ≡ some d) × Clear grudging (λ h. 1) d
unfolding acquired given_back
hotplug-Clear_example =
    hotplug-Clear grudging (λ h. 1) wired (λ i. ground arith) grudging-Serves enough_fuel
      (omega arith) wired-Clock 3 fresh
      (refl, (refl, (refl, (refl, (refl, (refl, (refl, tt)))))), refl)

abbrev unloaded : Module
unloaded = record { major = 0; minor = 0; pl_devp = false; calls = [] }

load_unload-left_example :
    acquired grudging (λ h. 1) (load_unload grudging unloaded).calls
    ≡ given_back (λ h. 1) (load_unload grudging unloaded).calls
      + left grudging (λ h. 1) (plx_drv_init_module grudging unloaded)
unfolding acquired given_back
load_unload-left_example = load_unload-left grudging (λ h. 1) unloaded (λ l ok. refl) refl

leak_test : left grudging (λ h. 1) (plx_drv_init_module grudging unloaded) ≡ 3
unfolding left plx_drv_init_module
leak_test = refl
