-- ===== src/Config/Save.antt =====
-- configuration.c: save_configuration and copy_configuration_file.
use cjunk.Prelude.{
  ℕ, zero, suc, ◌+◌, ltb, Bool, true, false, Option, none, some, [], ◌∷◌, if◌then◌else◌,
}
use cjunk.Config.Defs.{
  Name, Setting, config_path, max_configs, max_no_of_channels, Configuration, Failure, error,
  configuration_not_found, wrong_config_type, setting_not_found, no_root_not_found,
  failed_create_config, failed_create_group, failed_parent_not_group, outside_config_range,
  failed_create_list, Rc, success, failed, type_bool, type_string, type_group, type_list, Libconfig,
  Store, application, software, max_no_of_configs, description, hvps, channels, regs, misc,
  calibration, valid_gain_frame, valid_offset_frame, valid_bad_pixel_map, valid_simple_gain,
}
use cjunk.Config.Edit.{
  Edit, done, stop, both, unchanged, need, attempt, opened, add_elements, edit_file,
}
use cjunk.Config.Update.{register_elements, misc_elements}

module _ (lib : Libconfig) where
  unfoldable pub check_range : ℕ → Edit lib
  check_range n t = if ltb max_configs n then stop outside_config_range true else done t

  -- for(i=0; i<MAX_NO_OF_CHANNELS; i++), with `n` rounds left.
  unfoldable pub add_channels : Setting → (ℕ → ℕ) → ℕ → ℕ → Edit lib
  add_channels p channel zero i = unchanged lib
  add_channels p channel (suc n) i =
      both lib (attempt lib (λ t. lib.add_elem t p) failed_parent_not_group) (
        both lib (attempt lib (λ t. lib.set_elem t p i (channel i)) wrong_config_type)
          (add_channels p channel n (i + 1)))

  -- A flag is added without fclose on failure.
  abbrev attempt_open : (lib.Tree → Option (lib.Tree)) → Failure → Edit lib
  attempt_open f rc t = elim (f t) [ none ↦ stop rc false | some t' ↦ done t' ]

  unfoldable pub add_flag : Setting → Name → Edit lib
  add_flag group name =
      both lib (attempt_open (λ t. lib.add t (name ∷ group) type_bool) failed_parent_not_group)
        (attempt_open (λ t. lib.set_bool t (name ∷ group) 0) wrong_config_type)

  -- Up to the channels.
  unfoldable pub add_configuration : Configuration → Setting → Edit lib
  unfolding add_channels
  add_configuration c p =
      both lib (attempt lib (λ t. lib.add t p type_group) failed_create_config) (
        both lib
          (attempt lib (λ t. lib.add t (description ∷ p) type_string) failed_parent_not_group)
          (both lib
            (attempt lib (λ t. lib.set_string t (description ∷ p) c.description) wrong_config_type)
            (both lib (attempt lib (λ t. lib.add t (hvps ∷ p) type_group) failed_create_group) (
              both lib
                (attempt lib (λ t. lib.add t (channels ∷ hvps ∷ p) type_list) failed_create_list)
                (add_channels (channels ∷ hvps ∷ p) c.channel max_no_of_channels 0)))))

  -- The other groups.
  unfoldable pub add_groups : Configuration → Setting → Edit lib
  unfolding add_flag
  add_groups c p =
      both lib (attempt lib (λ t. lib.add t (regs ∷ p) type_group) failed_create_group) (
        both lib (add_elements lib (regs ∷ p) (register_elements c.registers)) (
          both lib (attempt lib (λ t. lib.add t (misc ∷ p) type_group) failed_create_group) (
            both lib (add_elements lib (misc ∷ p) (misc_elements c.misc)) (
              both lib
                (attempt lib (λ t. lib.add t (calibration ∷ p) type_group) failed_create_group)
                (both lib (add_flag (calibration ∷ p) valid_offset_frame) (
                  both lib (add_flag (calibration ∷ p) valid_gain_frame) (
                    both lib (add_flag (calibration ∷ p) valid_simple_gain)
                      (add_flag (calibration ∷ p) valid_bad_pixel_map))))))))

  abbrev pub max_path : Setting
  max_path = max_no_of_configs ∷ software ∷ application ∷ []

  -- max_config = config_no + 1
  unfoldable pub set_max : ℕ → Edit lib
  set_max n =
      both lib (need lib max_path setting_not_found)
        (attempt lib (λ t. lib.set_int t max_path (n + 1)) wrong_config_type)

  unfoldable pub add_all : Configuration → ℕ → Edit lib
  unfolding check_range add_configuration add_groups
  add_all c n = both lib (check_range n) (
      both lib (need lib (application ∷ []) no_root_not_found)
        (both lib (add_configuration c (config_path n)) (add_groups c (config_path n))))

  unfoldable pub save_configuration : Store lib → Configuration → ℕ → Rc × Store lib
  unfolding edit_file add_all set_max
  save_configuration s c config_no =
      edit_file lib s (both lib (add_all c config_no) (set_max config_no))

  -- The copy is written to a file of another name, which can be opened if `writable`. The second
  -- component is what that file holds then. An early return closes one of the two files.
  abbrev pub Copied : Type 0
  Copied = Rc × Option (lib.Content) × Store lib

  abbrev pub write_copy : Store lib → Option (lib.Content) → Copied
  write_copy s none = (failed configuration_not_found, none, opened lib s)
  write_copy s (some copy) = (success, some copy, s)

  abbrev pub read_copy : Store lib → Option (lib.Tree) → Copied
  read_copy s none = (failed configuration_not_found, none, opened lib s)
  read_copy s (some t) = write_copy s (lib.write t)

  abbrev pub copy_content : Store lib → Bool → Option (lib.Content) → Copied
  copy_content s writable none = (failed error, none, s)
  copy_content s true (some content) = read_copy s (lib.read content)
  copy_content s false (some content) = (failed error, none, opened lib s)

  unfoldable pub copy_configuration_file : Store lib → Bool → Copied
  copy_configuration_file s writable = copy_content s writable s.file
