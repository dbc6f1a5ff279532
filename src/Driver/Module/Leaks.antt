-- ===== src/Driver/Module/Leaks.antt =====
-- plx_driver.c: what the module's init and exit functions give back, and what they leave behind.
use cjunk.Prelude.{
  ℕ, zero, suc, ◌+◌, ◌≡◌, ◌≢◌, refl, List, ◌∷◌, Bool, true, false, if◌then◌else◌, arith, ℤ, pos,
  negsuc, Bool-cases, inl, inr,
}
use cjunk.Driver.CommandLink.{is_zero}
use cjunk.Driver.Module.Calls.{
  Call, Holding, Kernel, acquired, given_back, memory, kzalloc, char_device, proc_entry, number,
  create_proc_read_entry, is_negative,
}
use cjunk.Driver.Module.Load.{
  Module, device_number, obtain_number, fail_alloc, failed_add, make_proc_entry, add_cdev,
  allocate_driver, plx_drv_init_module, plx_drv_exit_module, unload, load_unload,
}

-- The number that alloc_chrdev_region gives has the minor number asked for.
abbrev pub KeepsMinor : Kernel → ℕ → Type 0
KeepsMinor k minor =
    (l : List Call)
    → is_negative (k.allocated l minor) ≡ false
    → k.mkdev (k.major_of (k.given_number l minor)) minor ≡ k.given_number l minor

-- The last call of init was the one for the proc file.
abbrev pub at_proc_entry : List Call → Bool
at_proc_entry (create_proc_read_entry ∷ l) = true
at_proc_entry _ = false

-- What init holds when it comes to the proc file.
abbrev pub three : Kernel → (Holding → ℕ) → Module → ℕ
three k w m = w (number (device_number k m)) + w memory + w char_device

module _ (k : Kernel) (w : Holding → ℕ) where
  -- add_cdev, called with the number and the memory held.
  add_cdev-leaves :
      (m : Module)
      → acquired k w m.calls ≡ given_back w m.calls + w (number (device_number k m)) + w memory
      → (add_cdev k m).0 ≢ pos 0
      → acquired k w (add_cdev k m).1.calls
        ≡ given_back w (add_cdev k m).1.calls
          + (if at_proc_entry (add_cdev k m).1.calls then three k w (add_cdev k m).1 else 0)
  unfolding add_cdev failed_add fail_alloc make_proc_entry acquired given_back
  add_cdev-leaves m h failed = ground arith

  -- After the success of add_cdev, exit gives back everything but the proc file.
  add_cdev-exit :
      (m : Module)
      → m.pl_devp ≡ true
      → acquired k w m.calls ≡ given_back w m.calls + w (number (device_number k m)) + w memory
      → (add_cdev k m).0 ≡ pos 0
      → acquired k w (plx_drv_exit_module k (add_cdev k m).1).calls
        ≡ given_back w (plx_drv_exit_module k (add_cdev k m).1).calls + w proc_entry
  unfolding add_cdev failed_add fail_alloc make_proc_entry plx_drv_exit_module acquired given_back
  add_cdev-exit m on h done = ground arith

  -- What is left at the end of a load, and of the unload that follows a load that succeeded.
  abbrev Leaves : ℤ × Module → Type 0
  Leaves (r, m) =
      (r ≢ pos 0
        → acquired k w m.calls
          ≡ given_back w m.calls + (if at_proc_entry m.calls then three k w m else 0))
      × (r ≡ pos 0
          → acquired k w (plx_drv_exit_module k m).calls
            ≡ given_back w (plx_drv_exit_module k m).calls + w proc_entry)

  allocate_driver-Leaves :
      (m : Module)
      → acquired k w m.calls ≡ given_back w m.calls + w (number (device_number k m))
      → Leaves (allocate_driver k m)
  unfolding allocate_driver fail_alloc acquired given_back
  allocate_driver-Leaves m h = elim (Bool-cases (k.memory_granted m.calls)) [
    | inl got ↦
        let m1 = record m { pl_devp = true; calls = kzalloc ∷ m.calls } in
        let h1 : acquired k w m1.calls
            ≡ given_back w m1.calls + w (number (device_number k m1)) + w memory =
          ground arith in
        rw (got, allocate_driver) (add_cdev-leaves m1 h1, add_cdev-exit m1 refl h1)
    | inr refused ↦ rw (refused, allocate_driver) (λ r. ground arith, λ z. ground arith)
  ]

  obtain_number-acquired :
      (m : Module)
      → KeepsMinor k m.minor
      → acquired k w m.calls ≡ given_back w m.calls
      → is_negative (obtain_number k m).0 ≡ false
      → acquired k w (obtain_number k m).1.calls
        ≡ given_back w (obtain_number k m).1.calls
          + w (number (device_number k (obtain_number k m).1))
  unfolding obtain_number acquired given_back
  obtain_number-acquired m keeps h ok = ground (arith, keeps m.calls)

  obtain_number-failed :
      (m : Module)
      → acquired k w m.calls ≡ given_back w m.calls
      → is_negative (obtain_number k m).0 ≡ true
      → Leaves (obtain_number k m)
  unfolding obtain_number acquired given_back
  obtain_number-failed m h failed = (λ r. ground arith, λ z. ground arith)

  init-Leaves :
      (m : Module)
      → KeepsMinor k m.minor
      → acquired k w m.calls ≡ given_back w m.calls
      → Leaves (plx_drv_init_module k m)
  unfolding plx_drv_init_module
  init-Leaves m keeps h = elim (Bool-cases (is_negative (obtain_number k m).0)) [
    | inl failed ↦ rw failed (obtain_number-failed m h failed)
    | inr ok ↦
        rw ok (allocate_driver-Leaves (obtain_number k m).1 (obtain_number-acquired m keeps h ok))
  ]

  -- What the module leaves behind: the proc file, after a load and an unload; after a failed load
  -- the device number, the memory and the character device, if the proc file is what failed.
  unfoldable pub left : ℤ × Module → ℕ
  left (r, m) =
      if is_zero r
      then w proc_entry
      else if at_proc_entry m.calls
      then w (number (device_number k m)) + w memory + w char_device
      else 0

  unload-left :
      (p : ℤ × Module)
      → Leaves p
      → acquired k w (unload k p).calls ≡ given_back w (unload k p).calls + left p
  unfolding unload left
  unload-left (pos zero, m) (failed, done) = done refl
  unload-left (pos (suc n), m) (failed, done) = failed (λ z. ground arith)
  unload-left (negsuc n, m) (failed, done) = failed (λ z. ground arith)

  -- If the number that alloc_chrdev_region gives has the minor number asked for, and nothing is held
  -- before: a load of the module that fails gives back all that it took, except when it is the proc
  -- file that cannot be made: then the device number, the memory and the character device are left.
  -- A load that succeeds and the unload after it leave the proc file, and nothing else.
  pub load_unload-left :
      (m : Module)
      → KeepsMinor k m.minor
      → acquired k w m.calls ≡ given_back w m.calls
      → acquired k w (load_unload k m).calls
        ≡ given_back w (load_unload k m).calls + left (plx_drv_init_module k m)
  unfolding load_unload
  load_unload-left m keeps h = unload-left (plx_drv_init_module k m) (init-Leaves m keeps h)
