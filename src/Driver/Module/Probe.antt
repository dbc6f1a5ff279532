-- ===== src/Driver/Module/Probe.antt =====
-- plx_driver.c: probe and remove. A wait of the command link is a loop on fuel. The result `none`
-- means that the fuel ran out, or that a null pointer was used: the address of a BAR that is not
-- mapped, the work queue, or the driver data. LATENCY_TIMER is not defined.
use cjunk.Prelude.{
  ℕ, zero, suc, ◌^◌, ◌==◌, ◌||◌, not, true, false, Option, none, some, ◌∷◌, ℤ, pos, if◌then◌else◌,
}
use cjunk.Driver.Defs.{Env, command_link_write, pci_mc_card_status}
use cjunk.Driver.Reset.{plx_board_reset}
use cjunk.Driver.CommandLink.{is_zero, W, ◌>>=◌, lift, plx_immediate_cmd, xl_init, xl_stop}
use cjunk.Driver.Request.{eio}
use cjunk.Driver.Fops.{enodev}
use cjunk.Driver.Module.Calls.{
  Kernel, pci_enable_device, pci_disable_device, dma_set_mask, flush_workqueue, destroy_workqueue,
}
use cjunk.Driver.Module.Resources.{Device, va_of, plx_request_resources, plx_release_resources}

-- The hardware part of probe: the reset uses BAR 0, and the commands BAR 2. The results of the commands are not looked at.
unfoldable pub start_hardware : Env → ℕ → W ℤ
start_hardware e fuel = do
  _ ← lift (plx_board_reset e)
  _ ← lift (command_link_write pci_mc_card_status (2 ^ 30))
  _ ← plx_immediate_cmd e fuel xl_stop
  plx_immediate_cmd e fuel xl_init

-- err_out_disable_device
unfoldable pub disable_device : ℤ → Device → Option (ℤ × Device)
disable_device r d = some (r, record d { calls = pci_disable_device ∷ d.calls })

-- The part of probe after the mapping of the resources.
unfoldable pub finish_probe : Env → ℕ → Device → Option (ℤ × Device)
finish_probe e fuel d =
    if va_of 0 d.bars == 0 || va_of 2 d.bars == 0
    then none
    else elim (start_hardware e fuel d.driver) [
      | none ↦ none
      | some (_, driver) ↦ some (pos 0, record d { driver = driver; drvdata = true })
    ]

unfoldable pub probe : Kernel → Env → ℕ → Device → Option (ℤ × Device)
unfolding disable_device
probe k e fuel d =
    let d1 = record d { calls = pci_enable_device ∷ d.calls } in
    let d2 = record d1 { calls = dma_set_mask ∷ d1.calls } in
    let (rc, d3) = plx_request_resources k e d2 in
    if not (k.enabled d.calls)
    then some (enodev, d1)
    else if e.irq == 0
    then disable_device enodev d1
    else if not (k.mask_set d1.calls)
    then disable_device enodev d2
    else if not (is_zero rc)
    then disable_device eio d3
    else finish_probe e fuel d3

-- remove, after the command: the work queue, the resources and the device are given back.
unfoldable pub give_up : Device → Device
give_up d =
    let d1 = record d { calls = destroy_workqueue ∷ flush_workqueue ∷ d.calls } in
    let d2 = plx_release_resources d1 in record d2 { calls = pci_disable_device ∷ d2.calls }

unfoldable pub remove : Env → ℕ → Device → Option Device
unfolding give_up
remove e fuel d =
    if not d.drvdata || va_of 2 d.bars == 0 || not d.queue
    then none
    else elim (plx_immediate_cmd e fuel xl_stop d.driver) [
      | none ↦ none
      | some (_, driver) ↦ some (give_up (record d { driver = driver; drvdata = false }))
    ]

-- The PCI layer calls remove for a device whose probe returned 0.
unfoldable pub plug : Kernel → Env → ℕ → Device → Option Device
plug k e fuel d = elim (probe k e fuel d) [
  | none ↦ none
  | some (r, d') ↦ if is_zero r then remove e fuel d' else some d'
]

-- The device is plugged in and taken away again, so many times.
unfoldable pub hotplug : Kernel → Env → ℕ → ℕ → Device → Option Device
hotplug k e fuel zero d = some d
hotplug k e fuel (suc n) d = elim (plug k e fuel d) [
  | none ↦ none
  | some d' ↦ hotplug k e fuel n d'
]
