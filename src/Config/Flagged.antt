-- ===== src/Config/Flagged.antt =====
-- configuration.c: set_calibration_flag, then get_calibration_flag.
use cjunk.Prelude.{
  ℕ, ◌==◌, ltb, ◌≤◌, ◌≡◌, refl, sym, ap, ◌∙◌, true, false, none, some, ◌∷◌, inl, arith,
}
use cjunk.Prelude.Word.{u8, has_bit}
use cjunk.Config.Defs.{
  Setting, config_path, Calibration, Rc, success, failed, configuration_not_found,
  setting_not_found, flag_not_defined, wrong_config_type, file_open_failed, file_parse_error,
  Libconfig, Store, calibration,
}
use cjunk.Config.Edit.{write_back}
use cjunk.Config.Flags.{
  Flag, offset, gain, bad_pixel, simple_gain, flag_of, flag_name, put_flag, take_flag, put_ram_flag,
  write_flag, set_in_group, set_in_tree, set_in_content, set_calibration_flag, get_calibration_flag,
}
use cjunk.Config.Runs.{get_some, if_true, failing}

take-put : (f : Flag) (v : ℕ) (k : Calibration) → take_flag f (put_flag f v k) ≡ v
take-put offset v k = refl
take-put gain v k = refl
take-put bad_pixel v k = refl
take-put simple_gain v k = refl

-- The numbers of the flags are bytes.
flag_of-byte : (n : ℕ) (f : Flag) → flag_of n ≡ some f → u8 n ≡ n
unfolding flag_of
flag_of-byte n f h = ground arith

within : (n max : ℕ) → n ≤ max → ltb max n ≡ false
within n max l = ground arith

itself : (n : ℕ) → (n == n) ≡ true
itself n = ground arith

module _ (lib : Libconfig) where
  write_back-ram :
      (s s' : Store lib) (t : lib.Tree) → write_back lib s t ≡ (success, s') → s'.ram ≡ s.ram
  write_back-ram s s' t h =
      let (content, written, h') =
        get_some (lib.write t) (λ x. (success, record s { file = some x }))
          (failed configuration_not_found, s) (success, s')
          (failing lib configuration_not_found s s') h in
      ap (λ r. r.1.ram) (sym h')

  write_flag-ram :
      (s s' : Store lib) (t : lib.Tree) (p : Setting) (v : ℕ)
      → write_flag lib s t p v ≡ (success, s')
      → s'.ram ≡ s.ram
  unfolding write_flag
  write_flag-ram s s' t p v h =
      let (there, h1) =
        if_true (lib.exists t p)
          (elim (lib.set_bool t p v) as (λ x. Rc × Store lib) [
            | none ↦ (failed wrong_config_type, s)
            | some t' ↦ write_back lib s t'
          ])
          (failed setting_not_found, s) (success, s') (failing lib setting_not_found s s') h in
      let (t', set, h2) =
        get_some (lib.set_bool t p v) (λ t'. write_back lib s t') (failed wrong_config_type, s)
          (success, s') (failing lib wrong_config_type s s') h1 in
      write_back-ram s s' t' h2

  set_in_tree-ram :
      (s s' : Store lib) (t : lib.Tree) (n flag v : ℕ)
      → set_in_tree lib s t n flag v ≡ (success, s')
      → (f : Flag) × (flag_of flag ≡ some f) × (s'.ram ≡ (put_ram_flag lib s n f flag).ram)
  unfolding set_in_tree
  set_in_tree-ram s s' t n flag v h =
      let group = calibration ∷ config_path n in
      let (there, h1) =
        if_true (lib.exists t (config_path n)) (set_in_group lib s t n flag v)
          (failed configuration_not_found, s) (success, s')
          (failing lib configuration_not_found s s') h in
      let (there', h2) =
        if_true (lib.exists t group)
          (elim (flag_of flag) as (λ x. Rc × Store lib) [
            | none ↦ (failed flag_not_defined, s)
            | some f ↦ write_flag lib (put_ram_flag lib s n f flag) t (flag_name f ∷ group) v
          ])
          (failed setting_not_found, s) (success, s') (failing lib setting_not_found s s') h1 in
      let (f, e, h3) =
        get_some (flag_of flag)
          (λ f. write_flag lib (put_ram_flag lib s n f flag) t (flag_name f ∷ group) v)
          (failed flag_not_defined, s) (success, s') (failing lib flag_not_defined s s') h2 in
      (f, e, write_flag-ram (put_ram_flag lib s n f flag) s' t (flag_name f ∷ group) v h3)

  -- After set_calibration_flag has succeeded, get_calibration_flag of the same configuration and
  -- flag gives the number of the flag, whatever value `v` was set, if the configuration is in the
  -- range that get_calibration_flag accepts.
  pub get_calibration_flag-set_calibration_flag :
      (s s' : Store lib) (n flag v : ℕ)
      → has_bit s.ram.c_config.max_no_of_configs 31 ≡ false
      → n ≤ s.ram.c_config.max_no_of_configs
      → set_calibration_flag lib s n flag v ≡ (success, s')
      → get_calibration_flag lib s' n flag ≡ inl flag
  unfolding set_calibration_flag get_calibration_flag
  get_calibration_flag-set_calibration_flag s s' n flag v signed range h =
      let (c, held, h1) =
        get_some (s.file) (λ c. set_in_content lib s c n flag v) (failed file_open_failed, s)
          (success, s') (failing lib file_open_failed s s') h in
      let (t, parsed, h2) =
        get_some (lib.read c) (λ t. set_in_tree lib s t n flag v) (failed file_parse_error, s)
          (success, s') (failing lib file_parse_error s s') h1 in
      let (f, e, ram) = set_in_tree-ram s s' t n flag v h2 in
      let put = put_flag f (u8 flag) (s.ram.configurations n).calibration in
      (λ i. get_calibration_flag lib (record s' { ram = ram i }) n flag)
      ∙ (rw signed (
          rw (within n s.ram.c_config.max_no_of_configs range) (
            rw e (
              rw (itself n) (
                ap (λ x. inl x)
                  (take-put f (u8 flag) (s.ram.configurations n).calibration
                    ∙ flag_of-byte flag f e))))))
