-- ===== src/Config/Closing.antt =====
-- configuration.c: which of the early returns of update_configuration close the file.
use cjunk.Prelude.{
  ℕ, zero, suc, ◌+◌, ◌≡◌, refl, ◌∙◌, Bool, true, false, Option, none, some, List, [], ◌∷◌,
  if◌then◌else◌,
}
use cjunk.Config.Defs.{
  Name, Setting, config_path, Failure, Configuration, Libconfig, Store, Rc, success, failed,
  file_open_failed, file_parse_error, wrong_config_format, hvps, channels, regs, misc,
  setting_not_found, group_not_found, wrong_config_type, max_no_of_channels,
  configuration_not_found,
}
use cjunk.Config.Edit.{
  Edit, Edited, done, stop, both, need, attempt, finish, edit_content, edit_file, update_element,
  update_elements,
}
use cjunk.Config.Update.{
  register_elements, misc_elements, set_channels, need_configuration, update_tree,
  update_configuration,
}
use cjunk.Config.Runs.{Parsed}

module _ (lib : Libconfig) where
  -- No return of this part leaves the file open.
  abbrev pub closes : Edited (lib.Tree) → Bool
  closes (done t) = true
  closes (stop rc closed) = closed

  abbrev pub IsClosing : Edit lib → Type 0
  IsClosing m = (t : lib.Tree) → closes (m t) ≡ true

  both-IsClosing : (m k : Edit lib) → IsClosing m → IsClosing k → IsClosing (both lib m k)
  both-IsClosing m k a b t = by_result (m t) (a t)
    where
      by_result :
          (o : Edited (lib.Tree))
          → closes o ≡ true
          → closes (elim o [ done t1 ↦ k t1 | stop rc closed ↦ stop rc closed ]) ≡ true
      by_result (done t1) h = b t1
      by_result (stop rc closed) h = h

  need-IsClosing : (p : Setting) (rc : Failure) → IsClosing (need lib p rc)
  need-IsClosing p rc t = by_test (lib.exists t p)
    where
      by_test : (b : Bool) → closes (if b then done t else stop rc true) ≡ true
      by_test true = refl
      by_test false = refl

  attempt-IsClosing :
      (f : lib.Tree → Option (lib.Tree)) (rc : Failure) → IsClosing (attempt lib f rc)
  attempt-IsClosing f rc t = by_result (f t)
    where
      by_result :
          (o : Option (lib.Tree))
          → closes (elim o [ none ↦ stop rc true | some t1 ↦ done t1 ]) ≡ true
      by_result none = refl
      by_result (some t1) = refl

  update_element-IsClosing : (g : Setting) (x : Name) (v : ℕ) → IsClosing (update_element lib g x v)
  unfolding update_element
  update_element-IsClosing g x v t = by_test (lib.exists t (x ∷ g)) (lib.set_int t (x ∷ g) v)
    where
      by_test :
          (b : Bool) (o : Option (lib.Tree))
          → closes (
              if b
              then elim o [
                | none ↦ stop wrong_config_type true
                | some t1 ↦ elim (lib.set_format t1 (x ∷ g)) [
                  | none ↦ stop wrong_config_format true
                  | some t2 ↦ done t2
                ]
              ]
              else stop setting_not_found true)
            ≡ true
      by_test false o = refl
      by_test true none = refl
      by_test true (some t1) =
          attempt-IsClosing (λ u. lib.set_format u (x ∷ g)) wrong_config_format t1

  update_elements-IsClosing :
      (g : Setting) (es : List (Name × ℕ)) → IsClosing (update_elements lib g es)
  unfolding update_elements
  update_elements-IsClosing g [] t = refl
  update_elements-IsClosing g ((x, v) ∷ es) t =
      both-IsClosing (update_element lib g x v) (update_elements lib g es)
        (update_element-IsClosing g x v) (update_elements-IsClosing g es) t

  set_channels-IsClosing :
      (p : Setting) (channel : ℕ → ℕ) (n i : ℕ) → IsClosing (set_channels lib p channel n i)
  unfolding set_channels
  set_channels-IsClosing p channel zero i t = refl
  set_channels-IsClosing p channel (suc n) i t =
      both-IsClosing (attempt lib (λ t. lib.set_elem t p i (channel i)) wrong_config_type)
        (set_channels lib p channel n (i + 1))
        (attempt-IsClosing (λ t. lib.set_elem t p i (channel i)) wrong_config_type)
        (set_channels-IsClosing p channel n (i + 1)) t

  need-both :
      (p : Setting) (rc : Failure) (k : Edit lib)
      → IsClosing k
      → IsClosing (both lib (need lib p rc) k)
  need-both p rc k h = both-IsClosing (need lib p rc) k (need-IsClosing p rc) h

  first_lookup :
      (p : Setting) (k : Edit lib)
      → IsClosing k
      → (t : lib.Tree) → closes (both lib (need_configuration lib p) k t) ≡ lib.exists t p
  unfolding need_configuration
  first_lookup p k h t = by_test (lib.exists t p)
    where
      by_test :
          (b : Bool)
          → closes (elim (if b then done t else stop configuration_not_found false) [
            | done t1 ↦ k t1
            | stop rc closed ↦ stop rc closed
          ])
            ≡ b
      by_test true = h t
      by_test false = refl

  -- With the configuration in the tree, no return of update_tree leaves the file open; without it,
  -- the first does.
  update_tree-closes :
      (c : Configuration) (n : ℕ) (t : lib.Tree)
      → closes (update_tree lib c n t) ≡ lib.exists t (config_path n)
  unfolding update_tree need_configuration
  update_tree-closes c n t =
      let p = config_path n in
      let list = channels ∷ hvps ∷ p in
      let m1 = update_elements lib (misc ∷ p) (misc_elements c.misc) in
      let m2 = both lib (need lib (misc ∷ p) group_not_found) m1 in
      let m3 = both lib (update_elements lib (regs ∷ p) (register_elements c.registers)) m2 in
      let m4 = both lib (need lib (regs ∷ p) setting_not_found) m3 in
      let m5 = both lib (set_channels lib list c.channel max_no_of_channels 0) m4 in
      let m6 = both lib (need lib list setting_not_found) m5 in
      first_lookup p (both lib (need lib (hvps ∷ p) setting_not_found) m6)
        (need-both (hvps ∷ p) setting_not_found m6 (
          need-both list setting_not_found m5 (
            both-IsClosing (set_channels lib list c.channel max_no_of_channels 0) m4
              (set_channels-IsClosing list c.channel max_no_of_channels 0)
              (need-both (regs ∷ p) setting_not_found m3 (
                both-IsClosing (update_elements lib (regs ∷ p) (register_elements c.registers)) m2
                  (update_elements-IsClosing (regs ∷ p) (register_elements c.registers))
                  (need-both (misc ∷ p) group_not_found m1
                    (update_elements-IsClosing (misc ∷ p) (misc_elements c.misc))))))))
        t

  finish-open_files :
      (s : Store lib) (o : Edited (lib.Tree))
      → (finish lib s o).1.open_files ≡ (if closes o then s.open_files else s.open_files + 1)
  finish-open_files s (done t) = by_result (lib.write t)
    where
      by_result :
          (o : Option (lib.Content))
          → (elim o as (λ x. Rc × Store lib) [
            | none ↦ (failed configuration_not_found, s)
            | some content ↦ (success, record s { file = some content })
          ]).1.open_files
            ≡ s.open_files
      by_result none = refl
      by_result (some content) = refl
  finish-open_files s (stop rc true) = refl
  finish-open_files s (stop rc false) = refl

  -- If update_configuration could open and parse the file, the number of files left open is the
  -- same afterwards when the configuration is in the file, whatever else happens, and one more when
  -- it is not.
  pub update_configuration-open_files :
      (s : Store lib) (t : lib.Tree) (c : Configuration) (n : ℕ)
      → Parsed lib s t
      → (update_configuration lib s c n).1.open_files
        ≡ (if lib.exists t (config_path n) then s.open_files else s.open_files + 1)
  unfolding update_configuration edit_file
  update_configuration-open_files s t c n p =
      (λ i.
        (elim (p.held i) as (λ x. Rc × Store lib) [
          | none ↦ (failed file_open_failed, s)
          | some x ↦ edit_content lib s (update_tree lib c n) x
        ]).1.open_files)
      ∙ ((λ i.
            (elim (p.parsed i) as (λ x. Rc × Store lib) [
              | none ↦ (failed file_parse_error, s)
              | some u ↦ finish lib s (update_tree lib c n u)
            ]).1.open_files)
          ∙ (finish-open_files s (update_tree lib c n t)
              ∙ (λ i. if update_tree-closes c n t i then s.open_files else s.open_files + 1)))
