-- ===== src/Driver/Module/Hotplug.antt =====
-- plx_driver.c: probe and remove give back what they take.
use mathlib.Core.Path.{subst}
use cjunk.Prelude.{
  ℕ, zero, suc, ◌+◌, ◌==◌, ◌^◌, ◌%◌, negsuc, ◌≤◌, ◌≡◌, ◌≢◌, refl, ◌∙◌, length, List, true, false,
  Bool-cases, Option-cases, inl, inr, Option, none, some, ◌∷◌, if◌then◌else◌, arith, ℤ, pos,
}
use cjunk.Driver.Defs.{Env, command_link_write, pci_mc_card_status}
use cjunk.Driver.Reset.{plx_board_reset}
use cjunk.Driver.CommandLink.{is_zero, xl_stop, xl_init, lift, plx_immediate_cmd}
use cjunk.Driver.CommandLink.Waiting.{Clock, enough_fuel}
use cjunk.Driver.CommandLink.Ends.{Ends, immediate_cmd-Ends, lift-Ends, then-Ends}
use cjunk.Driver.Module.Calls.{
  Call, Holding, Kernel, acquired, given_back, workqueue, device, destroy_workqueue,
  flush_workqueue, pci_enable_device, dma_set_mask,
}
use cjunk.Driver.Module.Resources.{
  Device, request_bars, va_of, plx_request_resources, plx_release_resources,
}
use cjunk.Driver.Module.Bars.{
  Reaches, Settled, owe, request_bars-length, request_bars-va, release_bars-length,
  request_bars-acquired, request_bars-given_back, request_bars-Settled, release_bars-given_back,
  release_bars-acquired, release_bars-Settled,
}
use cjunk.Driver.Module.Probe.{
  start_hardware, disable_device, finish_probe, probe, give_up, remove, plug, hotplug,
}

-- PLX_PCI_NUM_BARS
abbrev no_of_bars : ℕ
no_of_bars = 6

ne_zero : {n : ℕ} → n ≢ 0 → (n == 0) ≡ false
ne_zero h = ground arith

-- What the hardware part of probe cannot do without: BAR 0, BAR 2 and the work queue.
pub record Serves (k : Kernel) : Type 0 where
  pub bar_0 : Reaches k 0
  pub bar_2 : Reaches k 2
  pub queues : (l : List Call) → k.queue_made l ≡ true

-- All that was taken has been given back, and the BARs that the device does not have are unused.
abbrev pub Clear : Kernel → (Holding → ℕ) → Device → Type 0
Clear k w d =
    (acquired k w d.calls ≡ given_back w d.calls)
    × Settled k 0 d.bars
    × (length d.bars ≡ no_of_bars)

module _ (k : Kernel) (w : Holding → ℕ) where
  -- Between probe and remove, the BARs, the work queue and the device itself are to be given back.
  abbrev Held : Device → Type 0
  Held d =
      (acquired k w d.calls ≡ given_back w d.calls + owe w d.bars + w workqueue + w device)
      × Settled k 0 d.bars
      × (length d.bars ≡ no_of_bars)
      × (d.started ≡ true)
      × (d.queue ≡ true)
      × (va_of 2 d.bars ≢ 0)

  release-Clear :
      (d : Device)
      → d.started ≡ true
      → Settled k 0 d.bars
      → (acquired k w (plx_release_resources d).calls ≡ acquired k w d.calls)
        × (given_back w (plx_release_resources d).calls ≡ given_back w d.calls + owe w d.bars)
        × Settled k 0 (plx_release_resources d).bars
        × (length (plx_release_resources d).bars ≡ length d.bars)
  unfolding plx_release_resources
  release-Clear d on s = rw on (
    release_bars-acquired k w d.bars d.calls,
    release_bars-given_back k w d.bars d.calls,
    release_bars-Settled k w 0 d.bars d.calls s,
    release_bars-length k w d.bars d.calls,
  )

  give_up-Clear : (d : Device) → Held d → Clear k w (give_up d)
  unfolding give_up acquired given_back
  give_up-Clear d (h, s, six, on, queue, va_2) =
      let d1 = record d { calls = destroy_workqueue ∷ flush_workqueue ∷ d.calls } in
      let (a, g, s', same) = release-Clear d1 on s in (omega (arith, a, g, h), s', same ∙ six)

  -- What the result of probe says of the device.
  abbrev Probed : ℤ × Device → Type 0
  Probed (pos zero, d) = Held d × (d.drvdata ≡ true)
  Probed (r, d) = Clear k w d

  module _ (e : Env) (aligned : (i : ℕ) → k.start i % 16 ≡ 0) (serves : Serves k) where
    request-Held :
        (d : Device)
        → acquired k w d.calls ≡ given_back w d.calls + w device
        → Settled k 0 d.bars
        → length d.bars ≡ no_of_bars
        → Held (plx_request_resources k e d).1 × (va_of 0 (plx_request_resources k e d).1.bars ≢ 0)
    unfolding plx_request_resources acquired given_back
    request-Held d h s six = (
      (
        rw (serves.queues (request_bars k e 0 d.bars d).1.calls) (
            omega (
              arith,
              h,
              request_bars-acquired k w e aligned 0 d.bars d s,
              request_bars-given_back k w e aligned 0 d.bars d,
            )),
        request_bars-Settled k w e aligned 0 d.bars d s,
        request_bars-length k w e aligned 0 d.bars d ∙ six,
        refl,
        serves.queues (request_bars k e 0 d.bars d).1.calls,
        request_bars-va k w e aligned 0 2 d.bars d (omega arith) serves.bar_2,
      ),
      request_bars-va k w e aligned 0 0 d.bars d (omega arith) serves.bar_0,
    )

    module _ (fuel : ℕ) (enough : enough_fuel ≤ fuel) (clock : Clock e) where
      start_hardware-Ends : Ends (start_hardware e fuel)
      unfolding start_hardware
      start_hardware-Ends = then-Ends (lift (plx_board_reset e)) _ (lift-Ends _) (λ s.
          then-Ends (lift (command_link_write pci_mc_card_status (2 ^ 30))) _ (lift-Ends _) (λ u.
            then-Ends _ _ (immediate_cmd-Ends e fuel enough clock xl_stop)
              (λ r. immediate_cmd-Ends e fuel enough clock xl_init)))

      -- The call returns a result with the property.
      abbrev Returns : {A : Type 0} → (A → Type 0) → Option A → Type 0
      Returns P none = ⊥
      Returns P (some a) = P a

      finish_probe-Probed :
          (d : Device) → Held d × (va_of 0 d.bars ≢ 0) → Returns Probed (finish_probe e fuel d)
      unfolding finish_probe
      finish_probe-Probed d (h, va_0) = elim (Option-cases (start_hardware e fuel d.driver)) [
        | inl stuck ↦ absurd (start_hardware-Ends d.driver stuck)
        | inr (r, done) ↦ rw (ne_zero va_0, ne_zero h.5, done, Returns) (h, refl)
      ]

      probe-Probed : (d : Device) → Clear k w d → Returns Probed (probe k e fuel d)
      unfolding probe disable_device plx_request_resources acquired given_back
      probe-Probed d (h, s, six) =
          let d1 = record d { calls = pci_enable_device ∷ d.calls } in
          let d2 = record d1 { calls = dma_set_mask ∷ d1.calls } in
          elim (Bool-cases (k.enabled d.calls)) [
            | inl on ↦ elim (Bool-cases (e.irq == 0)) [
              | inl no_irq ↦ rw (on, no_irq) (ground arith, s, six)
              | inr irq ↦ elim (Bool-cases (k.mask_set d1.calls)) [
                | inl set ↦
                    rw (on, irq, set) (finish_probe-Probed _ (request-Held d2 (ground arith) s six))
                | inr unset ↦ rw (on, irq, unset) (ground arith, s, six)
              ]
            ]
            | inr off ↦ rw off (ground arith, s, six)
          ]

      remove-Clear :
          (d : Device) → Held d → d.drvdata ≡ true → Returns (Clear k w) (remove e fuel d)
      unfolding remove
      remove-Clear d h on =
          rw (on, ne_zero h.5, h.4)
            (elim (Option-cases (plx_immediate_cmd e fuel xl_stop d.driver)) [
              | inl stuck ↦ absurd (immediate_cmd-Ends e fuel enough clock xl_stop d.driver stuck)
              | inr (r, done) ↦
                  rw (done, Returns) (give_up-Clear (record d { driver = r.1; drvdata = false }) h)
            ])

      plug-Clear : (d : Device) → Clear k w d → Returns (Clear k w) (plug k e fuel d)
      unfolding plug
      plug-Clear d c = elim (Option-cases (probe k e fuel d)) [
        | inl stuck ↦ absurd (subst (Returns Probed) stuck (probe-Probed d c))
        | inr (r, done) ↦
            rw (done, Returns) (plugged r (subst (Returns Probed) done (probe-Probed d c)))
      ]
        where
          plugged :
              (r : ℤ × Device)
              → Probed r
              → Returns (Clear k w) (if is_zero r.0 then remove e fuel r.1 else some r.1)
          plugged (pos zero, d') (h, on) = remove-Clear d' h on
          plugged (pos (suc n), d') c = c
          plugged (negsuc n, d') c = c

      -- On a cycle counter that goes on, with fuel for every wait of the command link, with BARs at
      -- multiples of 16, and with a kernel that maps the memory of BAR 0 and BAR 2 and makes the work
      -- queue whenever it is asked to: however often the device is plugged in and taken away, and
      -- whatever else the kernel refuses, every probe and every remove returns, and at the end each
      -- region, mapping, work queue and enabling that was taken has been given back as often, if it
      -- was so before.
      pub hotplug-Clear :
          (n : ℕ) (d : Device)
          → Clear k w d
          → (d' : Device) × (hotplug k e fuel n d ≡ some d') × Clear k w d'
      unfolding hotplug
      hotplug-Clear zero d c = (d, refl, c)
      hotplug-Clear (suc n) d c = elim (Option-cases (plug k e fuel d)) [
        | inl stuck ↦ absurd (subst (Returns (Clear k w)) stuck (plug-Clear d c))
        | inr (d1, done) ↦
            rw (done, hotplug)
              (hotplug-Clear n d1 (subst (Returns (Clear k w)) done (plug-Clear d c)))
      ]
