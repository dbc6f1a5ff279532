-- ===== src/Config/Flags.antt =====
-- configuration.c: set_calibration_flag and get_calibration_flag.
use cjunk.Prelude.{ℕ, ◌==◌, ltb, Option, none, some, ◌∷◌, ◌⊎◌, inl, inr, if◌then◌else◌}
use cjunk.Prelude.Word.{u8, has_bit}
use cjunk.Config.Defs.{
  Name, Setting, config_path, Calibration, Rc, Failure, failed, file_open_failed, file_parse_error,
  configuration_not_found, setting_not_found, wrong_config_type, flag_not_defined, Libconfig, Store,
  calibration, valid_gain_frame, valid_offset_frame, valid_bad_pixel_map, valid_simple_gain,
}
use cjunk.Config.Read.{update}
use cjunk.Config.Edit.{write_back}

-- OFFSET_FLAG, GAIN_FLAG, BAD_PIXEL_FLAG and SIMPLE_GAIN_FLAG.
pub data Flag : Type 0 where
  offset gain bad_pixel simple_gain : Flag

unfoldable pub flag_of : ℕ → Option Flag
flag_of n =
    if n == 1
    then some offset
    else if n == 2
    then some gain
    else if n == 3
    then some bad_pixel
    else if n == 4
    then some simple_gain
    else none

abbrev pub flag_name : Flag → Name
flag_name offset = valid_offset_frame
flag_name gain = valid_gain_frame
flag_name bad_pixel = valid_bad_pixel_map
flag_name simple_gain = valid_simple_gain

abbrev pub put_flag : Flag → ℕ → Calibration → Calibration
put_flag offset v k = record k { valid_offset_frame = v }
put_flag gain v k = record k { valid_gain_frame = v }
put_flag bad_pixel v k = record k { valid_bad_pixel_map = v }
put_flag simple_gain v k = record k { valid_simple_gain = v }

abbrev pub take_flag : Flag → Calibration → ℕ
take_flag offset k = k.valid_offset_frame
take_flag gain k = k.valid_gain_frame
take_flag bad_pixel k = k.valid_bad_pixel_map
take_flag simple_gain k = k.valid_simple_gain

module _ (lib : Libconfig) where
  -- i_config.configurations[current_config_no].<flag> = (boolean) v;
  abbrev pub put_ram_flag : Store lib → ℕ → Flag → ℕ → Store lib
  put_ram_flag s n f v = record s {
    ram =
        let r = s.ram in
        record r {
          configurations =
              let c = r.configurations n in
              update r.configurations n
                (record c { calibration = put_flag f (u8 v) c.calibration });
        };
  }

  -- From the lookup of the flag's setting to the end; the entry in memory is already changed.
  unfoldable pub write_flag : Store lib → lib.Tree → Setting → ℕ → Rc × Store lib
  write_flag s t p c =
      if lib.exists t p
      then elim (lib.set_bool t p c) [
        | none ↦ (failed wrong_config_type, s)
        | some t' ↦ write_back lib s t'
      ]
      else (failed setting_not_found, s)

  -- The lookup of the group, and the switch on `flag`.
  abbrev pub set_in_group : Store lib → lib.Tree → ℕ → ℕ → ℕ → Rc × Store lib
  set_in_group s t n flag c =
      let group = calibration ∷ config_path n in
      if lib.exists t group
      then elim (flag_of flag) [
        | none ↦ (failed flag_not_defined, s)
        | some f ↦ write_flag (put_ram_flag s n f flag) t (flag_name f ∷ group) c
      ]
      else (failed setting_not_found, s)

  unfoldable pub set_in_tree : Store lib → lib.Tree → ℕ → ℕ → ℕ → Rc × Store lib
  set_in_tree s t n flag c =
      if lib.exists t (config_path n)
      then set_in_group s t n flag c
      else (failed configuration_not_found, s)

  abbrev pub set_in_content : Store lib → lib.Content → ℕ → ℕ → ℕ → Rc × Store lib
  set_in_content s content n flag c = elim (lib.read content) [
    | none ↦ (failed file_parse_error, s)
    | some t ↦ set_in_tree s t n flag c
  ]

  -- The number of the configuration is taken to be within the array.
  unfoldable pub set_calibration_flag : Store lib → ℕ → ℕ → ℕ → Rc × Store lib
  set_calibration_flag s current_config_no flag c = elim s.file [
    | none ↦ (failed file_open_failed, s)
    | some content ↦ set_in_content s content current_config_no flag c
  ]

  -- The value, or the code that is returned.
  unfoldable pub get_calibration_flag : Store lib → ℕ → ℕ → ℕ ⊎ Failure
  get_calibration_flag s current_config_no flag =
      let max = s.ram.c_config.max_no_of_configs in
      if has_bit max 31
      then inr configuration_not_found
      else if ltb max current_config_no
      then inr configuration_not_found
      else elim (flag_of flag) [
        | none ↦ inr flag_not_defined
        | some f ↦ inl (take_flag f (s.ram.configurations current_config_no).calibration)
      ]
