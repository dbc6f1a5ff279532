-- ===== src/Driver/Module/Calls.antt =====
-- The kernel functions that plx_driver.c calls for the module and its PCI device. They are no code
-- of the repository: `Kernel` answers each call from all those made before it, so that any kernel
-- whose answers depend on those is covered. What a call takes and gives back is what the kernel
-- documents of it.
use cjunk.Prelude.{
  ℕ, ◌+◌, ◌==◌, Bool, true, false, List, [], ◌∷◌, Option, none, some, ℤ, pos, negsuc, if◌then◌else◌,
}
use cjunk.Driver.CommandLink.{is_zero}

pub data Call : Type 0 where
  request_region release_region : ℕ → ℕ → Call  -- address, size
  request_mem_region release_mem_region : ℕ → ℕ → Call
  ioremap : ℕ → ℕ → Call
  iounmap : ℕ → Call
  pci_enable_device pci_disable_device dma_set_mask pci_unregister_driver : Call
  create_singlethread_workqueue flush_workqueue destroy_workqueue : Call
  register_chrdev_region alloc_chrdev_region unregister_chrdev_region : ℕ → Call
  kzalloc kfree cdev_del create_proc_read_entry : Call
  cdev_add : ℕ → Call

-- What a driver has to give back.
pub data Holding : Type 0 where
  io_region mem_region : ℕ → ℕ → Holding
  mapping : ℕ → Holding
  device workqueue memory char_device proc_entry : Holding
  number : ℕ → Holding

pub record Kernel : Type 0 where
  pub start : ℕ → ℕ  -- pci_resource_start of a BAR
  pub is_io : ℕ → Bool  -- pci_resource_flags has IORESOURCE_IO
  pub len : ℕ → ℕ  -- pci_resource_len
  pub region_granted : List Call → ℕ → ℕ → Bool
  pub mem_region_granted : List Call → ℕ → ℕ → Bool
  pub mapped_at : List Call → ℕ → ℕ → ℕ  -- ioremap: 0 is NULL
  pub enabled : List Call → Bool  -- pci_enable_device returned 0
  pub mask_set : List Call → Bool  -- dma_set_mask returned 0
  pub queue_made : List Call → Bool  -- create_singlethread_workqueue is not NULL
  pub mkdev : ℕ → ℕ → ℕ
  pub major_of : ℕ → ℕ
  pub registered : List Call → ℕ → ℤ  -- result of register_chrdev_region
  pub allocated : List Call → ℕ → ℤ  -- result of alloc_chrdev_region
  pub given_number : List Call → ℕ → ℕ  -- its dev, after a success
  pub memory_granted : List Call → Bool  -- kzalloc is not NULL
  pub added : List Call → ℕ → ℤ  -- result of cdev_add
  pub proc_made : List Call → Bool

-- result < 0
abbrev pub is_negative : ℤ → Bool
is_negative (pos n) = false
is_negative (negsuc n) = true

abbrev when : Bool → Holding → Option Holding
when b h = if b then some h else none

-- What a call takes, given the calls before it.
unfoldable pub taken : Kernel → List Call → Call → Option Holding
taken k l (request_region a s) = when (k.region_granted l a s) (io_region a s)
taken k l (request_mem_region a s) = when (k.mem_region_granted l a s) (mem_region a s)
taken k l (ioremap a s) = let va = k.mapped_at l a s in if va == 0 then none else some (mapping va)
taken k l pci_enable_device = when (k.enabled l) device
taken k l create_singlethread_workqueue = when (k.queue_made l) workqueue
taken k l (register_chrdev_region n) =
    if is_negative (k.registered l n) then none else some (number n)
taken k l (alloc_chrdev_region minor) =
    if is_negative (k.allocated l minor) then none else some (number (k.given_number l minor))
taken k l kzalloc = when (k.memory_granted l) memory
taken k l (cdev_add n) = when (is_zero (k.added l n)) char_device
taken k l create_proc_read_entry = when (k.proc_made l) proc_entry
taken k l _ = none

unfoldable pub returned : Call → Option Holding
returned (release_region a s) = some (io_region a s)
returned (release_mem_region a s) = some (mem_region a s)
returned (iounmap va) = some (mapping va)
returned pci_disable_device = some device
returned destroy_workqueue = some workqueue
returned (unregister_chrdev_region n) = some (number n)
returned kfree = some memory
returned cdev_del = some char_device
returned _ = none

abbrev pub weight : (Holding → ℕ) → Option Holding → ℕ
weight w none = 0
weight w (some h) = w h

-- The weight of all that the calls, latest first, took.
unfoldable pub acquired : Kernel → (Holding → ℕ) → List Call → ℕ
unfolding taken
acquired k w [] = 0
acquired k w (c ∷ l) = weight w (taken k l c) + acquired k w l

-- The weight of all that they gave back.
unfoldable pub given_back : (Holding → ℕ) → List Call → ℕ
unfolding returned
given_back w [] = 0
given_back w (c ∷ l) = weight w (returned c) + given_back w l
