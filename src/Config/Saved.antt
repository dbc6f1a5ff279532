-- ===== src/Config/Saved.antt =====
-- configuration.c: what save_configuration and copy_configuration_file leave behind.
use mathlib.Core.Path.{subst}
use cjunk.Prelude.{
  ℕ, ◌+◌, ◌<◌, ◌^◌, ◌≡◌, refl, sym, ap, ◌∙◌, Bool, true, false, Option, none, some, List, [], ◌∷◌,
  arith,
}
use cjunk.Prelude.Word.{u32}
use cjunk.Config.Defs.{
  Name, Configuration, Rc, success, failed, Libconfig, Store, Ram, CommonConfiguration, software,
  application, snmp_agent, setting_not_found, wrong_config_type, max_no_of_configs, thresholds,
}
use cjunk.Config.Laws.{Lawful}
use cjunk.Config.Read.{common_of, optional_string, read_common, read_configuration_file}
use cjunk.Config.Edit.{both, need, attempt, done}
use cjunk.Config.Elements.{both-done, attempt-done}
use cjunk.Config.Save.{
  max_path, add_all, set_max, save_configuration, write_copy, read_copy, copy_content,
  copy_configuration_file,
}
use cjunk.Config.Runs.{Parsed-once, Filled, read-Filled, edit_file-done}

common_inj : (a b : CommonConfiguration) → some a ≡ some b → a ≡ b
common_inj a b e = cc

common_max :
    (o : Option (List ℕ)) (value threshold : Name → ℕ) (k : CommonConfiguration)
    → common_of o value threshold ≡ some k
    → k.max_no_of_configs ≡ u32 (value max_no_of_configs)
common_max none value threshold k e = cc
common_max (some text) value threshold k e = sym (ap (λ z. z.max_no_of_configs) (common_inj _ _ e))

word_value : (x n : ℕ) → x ≡ n + 1 → n + 1 < 2 ^ 32 → u32 x ≡ n + 1
word_value x n e l = omega arith

module _ (lib : Libconfig) (law : Lawful lib) where
  set_max-get_int :
      (n : ℕ) (t t' : lib.Tree)
      → n + 1 < 2 ^ 32
      → set_max lib n t ≡ done t'
      → lib.get_int t' (max_path lib) ≡ n + 1
  unfolding set_max
  set_max-get_int n t t' small h =
      let (t1, needed, set) =
        both-done lib law (need lib (max_path lib) setting_not_found)
          (attempt lib (λ t. lib.set_int t (max_path lib) (n + 1)) wrong_config_type) t t' h in
      (law.int_set t1 t' (max_path lib) (n + 1) small (
        attempt-done lib law (λ t. lib.set_int t (max_path lib) (n + 1)) wrong_config_type t1 t'
          set)).0

  Filled-max :
      (t : lib.Tree) (r : Ram)
      → Filled lib t r
      → r.c_config.max_no_of_configs ≡ u32 (lib.get_int t (max_path lib))
  unfolding read_common
  Filled-max t r f =
      common_max
        (optional_string lib 20 (lib.get_string t (snmp_agent ∷ software ∷ application ∷ [])))
        (λ x. lib.get_int t (x ∷ software ∷ application ∷ []))
        (λ x. lib.get_int t (x ∷ thresholds ∷ application ∷ [])) r.c_config f.common

  -- After a successful save_configuration of number `n`, a read of the new file that succeeds finds
  -- n + 1 as the number of configurations, whatever it was before.
  save_configuration-max_no_of_configs :
      (s s' after : Store lib) (c : Configuration) (n : ℕ)
      → n + 1 < 2 ^ 32
      → save_configuration lib s c n ≡ (success, s')
      → read_configuration_file lib s' ≡ some (success, after)
      → after.ram.c_config.max_no_of_configs ≡ n + 1
  unfolding save_configuration
  save_configuration-max_no_of_configs s s' after c n small h was =
      let (t, t', content, p, made, written, same) =
        edit_file-done lib s s' (both lib (add_all lib c n) (set_max lib n)) h in
      let (t1, added, set) = both-done lib law (add_all lib c n) (set_max lib n) t t' made in
      let (t2, p2, there, f) = read-Filled lib s' after was in
      let at = Parsed-once lib s' t2 t' p2 (record {
        content = content;
        held = ap (λ q. q.file) (sym same);
        parsed = law.read_write t' content written;
      }) in
      Filled-max t2 after.ram f
      ∙ word_value (lib.get_int t2 (max_path lib)) n
          (ap (λ u. lib.get_int u (max_path lib)) at ∙ set_max-get_int n t1 t' small set) small

-- The files that a failure leaves open.
abbrev pub left_open : Rc → ℕ
left_open success = 0
left_open (failed e) = 1

plus_zero : (n : ℕ) → n ≡ n + 0
plus_zero n = omega arith

module _ (lib : Libconfig) where
  -- When copy_configuration_file can open the file that it copies, it leaves one file open whenever
  -- it fails, and none when it succeeds.
  copy_configuration_file-open_files :
      (s : Store lib) (content : lib.Content) (writable : Bool)
      → s.file ≡ some content
      → (copy_configuration_file lib s writable).2.open_files
        ≡ s.open_files + left_open (copy_configuration_file lib s writable).0
  unfolding copy_configuration_file
  copy_configuration_file-open_files s content writable held =
      subst
        (λ o.
          (copy_content lib s writable o).2.open_files
          ≡ s.open_files + left_open (copy_content lib s writable o).0)
        (sym held) (by_writable writable)
    where
      by_write :
          (o : Option (lib.Content))
          → (write_copy lib s o).2.open_files ≡ s.open_files + left_open (write_copy lib s o).0
      by_write none = refl
      by_write (some copy) = plus_zero (s.open_files)

      by_read :
          (o : Option (lib.Tree))
          → (read_copy lib s o).2.open_files ≡ s.open_files + left_open (read_copy lib s o).0
      by_read none = refl
      by_read (some t) = by_write (lib.write t)

      by_writable :
          (b : Bool)
          → (copy_content lib s b (some content)).2.open_files
            ≡ s.open_files + left_open (copy_content lib s b (some content)).0
      by_writable true = by_read (lib.read content)
      by_writable false = refl
