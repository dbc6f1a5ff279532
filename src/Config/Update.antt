-- ===== src/Config/Update.antt =====
-- configuration.c: update_configuration.
use cjunk.Prelude.{ℕ, zero, suc, ◌+◌, false, List, [], ◌∷◌, if◌then◌else◌}
use cjunk.Config.Defs.{
  Name, Setting, config_path, max_no_of_channels, Registers, Misc, Configuration, Rc,
  configuration_not_found, setting_not_found, group_not_found, wrong_config_type, Libconfig, Store,
  hvps, channels, regs, misc, cmd, setup, frame_count, integration_time, reset_time, trigger_delay,
  asic_initial_value, intercolumn_delay, frame_rate, binning, field_x0, field_y0, field_width,
  field_height,
}
use cjunk.Config.Edit.{Edit, done, stop, both, unchanged, need, attempt, update_elements, edit_file}

-- The elements of the groups regs and misc, in the order of the code.
abbrev pub register_elements : Registers → List (Name × ℕ)
register_elements r =
    (cmd, r.cmd)
    ∷ (setup, r.setup)
    ∷ (frame_count, r.frame_count)
    ∷ (integration_time, r.integration_time)
    ∷ (reset_time, r.reset_time)
    ∷ (trigger_delay, r.trigger_delay)
    ∷ (asic_initial_value, r.asic_initial_value)
    ∷ (intercolumn_delay, r.intercolumn_delay)
    ∷ []

abbrev pub misc_elements : Misc → List (Name × ℕ)
misc_elements m =
    (frame_rate, m.frame_rate)
    ∷ (binning, m.binning)
    ∷ (field_x0, m.field_x0)
    ∷ (field_y0, m.field_y0)
    ∷ (field_width, m.field_width)
    ∷ (field_height, m.field_height)
    ∷ []

module _ (lib : Libconfig) where
  -- for(i = 0; i< MAX_NO_OF_CHANNELS; i++), with `n` rounds left.
  unfoldable pub set_channels : Setting → (ℕ → ℕ) → ℕ → ℕ → Edit lib
  set_channels p channel zero i = unchanged lib
  set_channels p channel (suc n) i =
      both lib (attempt lib (λ t. lib.set_elem t p i (channel i)) wrong_config_type)
        (set_channels p channel n (i + 1))

  -- The first lookup fails without fclose.
  unfoldable pub need_configuration : Setting → Edit lib
  need_configuration p t = if lib.exists t p then done t else stop configuration_not_found false

  -- The changes to the tree.
  unfoldable pub update_tree : Configuration → ℕ → Edit lib
  unfolding set_channels need_configuration
  update_tree c config_no =
      let p = config_path config_no in
      both lib (need_configuration p) (
        both lib (need lib (hvps ∷ p) setting_not_found) (
          both lib (need lib (channels ∷ hvps ∷ p) setting_not_found) (
            both lib (set_channels (channels ∷ hvps ∷ p) c.channel max_no_of_channels 0) (
              both lib (need lib (regs ∷ p) setting_not_found) (
                both lib (update_elements lib (regs ∷ p) (register_elements c.registers)) (
                  both lib (need lib (misc ∷ p) group_not_found)
                    (update_elements lib (misc ∷ p) (misc_elements c.misc))))))))

  unfoldable pub update_configuration : Store lib → Configuration → ℕ → Rc × Store lib
  unfolding update_tree
  update_configuration s c config_no = edit_file lib s (update_tree c config_no)
