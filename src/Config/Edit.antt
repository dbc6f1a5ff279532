-- ===== src/Config/Edit.antt =====
-- configuration.c: what the functions that change the configuration file share. They open and parse
-- the file, change the tree, and write it back; an early return closes the file or does not.
use cjunk.Prelude.{ℕ, ◌+◌, Bool, true, false, Option, none, some, List, [], ◌∷◌, if◌then◌else◌}
use cjunk.Config.Defs.{
  Name, Setting, Rc, Failure, failed, success, file_open_failed, file_parse_error,
  configuration_not_found, wrong_config_type, setting_not_found, failed_parent_not_group,
  wrong_config_format, type_int, Libconfig, Store, software, application,
}

-- The tree after a change; or the value returned early, and whether fclose was called before.
pub data Edited (T : Type 0) : Type 0 where
  done : T → Edited T
  stop : Failure → Bool → Edited T

module _ (lib : Libconfig) where
  abbrev pub Edit : Type 0
  Edit = lib.Tree → Edited (lib.Tree)

  -- Two parts of a function, one after the other.
  abbrev pub both : Edit → Edit → Edit
  both m k t = elim (m t) [ done t' ↦ k t' | stop rc closed ↦ stop rc closed ]

  abbrev pub unchanged : Edit
  unchanged t = done t

  -- if (NULL == config_lookup(...)) { fclose(fp); return rc; }
  abbrev pub need : Setting → Failure → Edit
  need p rc t = if lib.exists t p then done t else stop rc true

  -- A call of libconfig that fails with rc, after fclose.
  abbrev pub attempt : (lib.Tree → Option (lib.Tree)) → Failure → Edit
  attempt f rc t = elim (f t) [ none ↦ stop rc true | some t' ↦ done t' ]

  unfoldable pub update_element : Setting → Name → ℕ → Edit
  update_element group name value t =
      let p = name ∷ group in
      if lib.exists t p
      then elim (lib.set_int t p value) [
        | none ↦ stop wrong_config_type true
        | some t1 ↦ elim (lib.set_format t1 p) [
          | none ↦ stop wrong_config_format true
          | some t2 ↦ done t2
        ]
      ]
      else stop setting_not_found true

  unfoldable pub add_element : Setting → Name → ℕ → Edit
  add_element group name value t =
      let p = name ∷ group in
      elim (lib.add t p type_int) [
        | none ↦ stop failed_parent_not_group true
        | some t1 ↦ elim (lib.set_int t1 p value) [
          | none ↦ stop wrong_config_type true
          | some t2 ↦ elim (lib.set_format t2 p) [
            | none ↦ stop wrong_config_format true
            | some t3 ↦ done t3
          ]
        ]
      ]

  -- if (0 != (rc = update_element(...))) { fclose(fp); return rc; }, for one element after another.
  unfoldable pub update_elements : Setting → List (Name × ℕ) → Edit
  unfolding update_element
  update_elements group [] = unchanged
  update_elements group ((name, value) ∷ rest) =
      both (update_element group name value) (update_elements group rest)

  unfoldable pub add_elements : Setting → List (Name × ℕ) → Edit
  unfolding add_element
  add_elements group [] = unchanged
  add_elements group ((name, value) ∷ rest) =
      both (add_element group name value) (add_elements group rest)

  abbrev pub opened : Store lib → Store lib
  opened s = record s { open_files = s.open_files + 1 }

  -- From the write to the end, with the file open: the return value and the store after fclose.
  abbrev pub write_back : Store lib → lib.Tree → Rc × Store lib
  write_back s t = elim (lib.write t) [
    | none ↦ (failed configuration_not_found, s)
    | some content ↦ (success, record s { file = some content })
  ]

  abbrev pub finish : Store lib → Edited (lib.Tree) → Rc × Store lib
  finish s (done t) = write_back s t
  finish s (stop rc true) = (failed rc, s)
  finish s (stop rc false) = (failed rc, opened s)

  abbrev pub edit_content : Store lib → Edit → lib.Content → Rc × Store lib
  edit_content s m content = elim (lib.read content) [
    | none ↦ (failed file_parse_error, s)
    | some t ↦ finish s (m t)
  ]

  -- The frame of the functions: fopen, config_read, the changes, config_write_file, fclose.
  unfoldable pub edit_file : Store lib → Edit → Rc × Store lib
  edit_file s m = elim s.file [
    | none ↦ (failed file_open_failed, s)
    | some content ↦ edit_content s m content
  ]

  -- save_default_configuration_number
  unfoldable pub save_default_configuration_number : Store lib → ℕ → Rc × Store lib
  unfolding edit_file
  save_default_configuration_number s config_no =
      let group = software ∷ application ∷ [] in
      edit_file s (
        both (need group setting_not_found) (update_element group Name.default_config_no config_no))
