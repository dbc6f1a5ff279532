-- ===== src/Driver/Module/Load.antt =====
-- plx_driver.c: plx_drv_init_module and plx_drv_exit_module. Nothing calls pci_register_driver, so
-- pci_unregister_driver finds no device to call remove for. Prints and the fields of the cdev are
-- left out.
use cjunk.Prelude.{ℕ, ◌==◌, Bool, not, List, ◌∷◌, ℤ, pos, if◌then◌else◌}
use cjunk.Driver.CommandLink.{is_zero}
use cjunk.Driver.Module.Calls.{
  Call, Kernel, is_negative, register_chrdev_region, alloc_chrdev_region, unregister_chrdev_region,
  kzalloc, kfree, cdev_add, cdev_del, create_proc_read_entry, pci_unregister_driver,
}
use cjunk.Driver.Module.Resources.{enomem}

-- The static variables of plx_driver.c, with the calls made so far.
pub record Module : Type 0 where
  pub major : ℕ  -- plx_drv_major
  pub minor : ℕ  -- plx_drv_minor
  pub pl_devp : Bool  -- PL_devp is not NULL
  pub calls : List Call

abbrev pub call : Call → Module → Module
call c m = record m { calls = c ∷ m.calls }

abbrev pub device_number : Kernel → Module → ℕ
device_number k m = k.mkdev m.major m.minor

-- The device number: registered if a major number is set, else allocated. If the allocation fails
-- dev is what it was, MKDEV(0, plx_drv_minor).
unfoldable pub obtain_number : Kernel → Module → ℤ × Module
obtain_number k m =
    let n = device_number k m in
    let r = k.allocated m.calls m.minor in
    let dev = if is_negative r then n else k.given_number m.calls m.minor in
    if m.major == 0
    then (r, record m { major = k.major_of dev; calls = alloc_chrdev_region m.minor ∷ m.calls })
    else (k.registered m.calls n, call (register_chrdev_region n) m)

-- fail_alloc
unfoldable pub fail_alloc : Kernel → ℤ → Module → ℤ × Module
fail_alloc k r m = (r, call (unregister_chrdev_region (device_number k m)) m)

-- failed_add: PL_devp keeps the address.
unfoldable pub failed_add : Kernel → ℤ → Module → ℤ × Module
unfolding fail_alloc
failed_add k r m = fail_alloc k r (call kfree m)

-- The proc file, last.
unfoldable pub make_proc_entry : Kernel → Module → ℤ × Module
make_proc_entry k m = (if k.proc_made m.calls then pos 0 else enomem, call create_proc_read_entry m)

-- cdev_add and what follows.
unfoldable pub add_cdev : Kernel → Module → ℤ × Module
unfolding failed_add make_proc_entry
add_cdev k m =
    let n = device_number k m in
    let r = k.added m.calls n in
    if not (is_zero r)
    then failed_add k r (call (cdev_add n) m)
    else make_proc_entry k (call (cdev_add n) m)

-- kzalloc and what follows.
unfoldable pub allocate_driver : Kernel → Module → ℤ × Module
unfolding fail_alloc add_cdev
allocate_driver k m =
    let got = k.memory_granted m.calls in
    let m1 = record m { pl_devp = got; calls = kzalloc ∷ m.calls } in
    if not got then fail_alloc k enomem m1 else add_cdev k m1

unfoldable pub plx_drv_init_module : Kernel → Module → ℤ × Module
unfolding obtain_number allocate_driver
plx_drv_init_module k m =
    let (r, m1) = obtain_number k m in if is_negative r then (r, m1) else allocate_driver k m1

unfoldable pub plx_drv_exit_module : Kernel → Module → Module
plx_drv_exit_module k m =
    let m1 = call cdev_del m in
    let m2 = call (unregister_chrdev_region (device_number k m)) m1 in
    let m3 = call pci_unregister_driver m2 in if m.pl_devp then call kfree m3 else m3

-- The kernel calls exit only after a load that succeeded.
unfoldable pub unload : Kernel → ℤ × Module → Module
unload k (r, m) = if is_zero r then plx_drv_exit_module k m else m

-- A load of the module, and its unload if the load succeeded.
unfoldable pub load_unload : Kernel → Module → Module
unfolding unload
load_unload k m = unload k (plx_drv_init_module k m)
