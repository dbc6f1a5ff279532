-- ===== src/Config/Tree.antt =====
-- configuration.c: what the tree holds after the changes of update_configuration.
use mathlib.Core.Path.{subst}
use cjunk.Prelude.{
  ℕ, ◌<◌, ◌≡◌, refl, sym, ◌∙◌, Bool, true, false, ◌||◌, List, [], ◌∷◌, arith, if◌then◌else◌,
}
use cjunk.Config.Defs.{
  Name, Setting, same_setting, config_path, max_no_of_channels, Configuration, Failure, Libconfig,
  hvps, channels, regs, misc, setting_not_found, group_not_found, configuration_not_found,
}
use cjunk.Config.Laws.{Frame, is, Lawful, Frame-trans, Frame-weaken}
use cjunk.Config.Edit.{Edit, done, stop, both, need, update_elements}
use cjunk.Config.Update.{
  register_elements, misc_elements, set_channels, need_configuration, update_tree,
}
use cjunk.Config.Elements.{named, AreWords, Holds, done_inj, both-done, update_elements_lem}
use cjunk.Config.Channels.{set_channels-AreSet}

-- The settings that update_configuration changes.
abbrev pub touched : Setting → Configuration → Setting → Bool
touched p c q =
    same_setting q (channels ∷ hvps ∷ p)
    || (named (regs ∷ p) (register_elements c.registers) q
        || named (misc ∷ p) (misc_elements c.misc) q)

or_first : (a b c : Bool) → a || (b || c) ≡ false → a ≡ false
or_first false b c h = refl
or_first true b c h = h

or_second : (a b c : Bool) → a || (b || c) ≡ false → b ≡ false
or_second false false c h = refl
or_second false true c h = h
or_second true b c h = ground (arith, h)

or_third : (a b c : Bool) → a || (b || c) ≡ false → c ≡ false
or_third a b false h = refl
or_third false false true h = h
or_third false true true h = h
or_third true b true h = h

module _ (lib : Libconfig) (law : Lawful lib) where
  -- A lookup that did not fail.
  looked_up :
      (p : Setting) (rc : Failure) (closed : Bool) (t t' : lib.Tree)
      → (if lib.exists t p then done t else stop rc closed) ≡ done t'
      → (lib.exists t p ≡ true) × (t ≡ t')
  looked_up p rc closed t t' h = by_test (lib.exists t p) refl h
    where
      by_test :
          (b : Bool)
          → lib.exists t p ≡ b
          → (if b then done t else stop rc closed) ≡ done t'
          → (lib.exists t p ≡ true) × (t ≡ t')
      by_test true e h = (e, done_inj lib law t t' h)
      by_test false e h = cc

  looked_up-both :
      (p : Setting) (rc : Failure) (closed : Bool) (k : Edit lib) (t t' : lib.Tree)
      → both lib (λ u. if lib.exists u p then done u else stop rc closed) k t ≡ done t'
      → (lib.exists t p ≡ true) × (k t ≡ done t')
  looked_up-both p rc closed k t t' h =
      let (t1, first, rest) =
        both-done lib law (λ u. if lib.exists u p then done u else stop rc closed) k t t' h in
      let (there, same) = looked_up p rc closed t t1 first in
      (there, subst (λ u. k u ≡ done t') (sym same) rest)

  -- The tree `t'` holds the values of `c` at the configuration `p`.
  pub record IsUpdated (p : Setting) (c : Configuration) (t t' : lib.Tree) : Type 0 where
    pub there : lib.exists t p ≡ true
    pub hvps_there : lib.exists t (hvps ∷ p) ≡ true
    pub channels_there : lib.exists t (channels ∷ hvps ∷ p) ≡ true
    pub regs_there : lib.exists t (regs ∷ p) ≡ true
    pub misc_there : lib.exists t (misc ∷ p) ≡ true
    pub channels_fit : (j : ℕ) → j < max_no_of_channels → j < lib.length t (channels ∷ hvps ∷ p)
    pub channels_set :
        (j : ℕ) → j < max_no_of_channels → lib.get_elem t' (channels ∷ hvps ∷ p) j ≡ c.channel j
    pub regs_set : Holds lib law t' (regs ∷ p) (register_elements c.registers)
    pub misc_set : Holds lib law t' (misc ∷ p) (misc_elements c.misc)
    pub frame : Frame lib (touched p c) t t'

  Holds-carry :
      (t t' : lib.Tree) (g : Setting) (es : List (Name × ℕ))
      → ((x : Name) → lib.get_int t' (x ∷ g) ≡ lib.get_int t (x ∷ g))
      → Holds lib law t g es
      → Holds lib law t' g es
  Holds-carry t t' g [] kept h = tt
  Holds-carry t t' g ((x, v) ∷ es) kept h = (kept x ∙ h.0, Holds-carry t t' g es kept h.1)

  touched_parts :
      (p : Setting) (c : Configuration) (t t1 t2 t' : lib.Tree)
      → Frame lib (is lib (channels ∷ hvps ∷ p)) t t1
      → Frame lib (named (regs ∷ p) (register_elements c.registers)) t1 t2
      → Frame lib (named (misc ∷ p) (misc_elements c.misc)) t2 t'
      → Frame lib (touched p c) t t'
  touched_parts p c t t1 t2 t' a f f' =
      let list = λ (q : Setting). same_setting q (channels ∷ hvps ∷ p) in
      let registers = named (regs ∷ p) (register_elements c.registers) in
      let others = named (misc ∷ p) (misc_elements c.misc) in
      Frame-trans lib (Frame-weaken lib (λ q. or_first (list q) (registers q) (others q)) a) (
        Frame-trans lib (Frame-weaken lib (λ q. or_second (list q) (registers q) (others q)) f)
          (Frame-weaken lib (λ q. or_third (list q) (registers q) (others q)) f'))

  pub update_tree-IsUpdated :
      (c : Configuration) (n : ℕ) (t t' : lib.Tree)
      → AreWords (register_elements c.registers)
      → AreWords (misc_elements c.misc)
      → update_tree lib c n t ≡ done t'
      → IsUpdated (config_path n) c t t'
  unfolding update_tree need_configuration
  update_tree-IsUpdated c n t t' w w' h =
      let p = config_path n in
      let list = channels ∷ hvps ∷ p in
      let misc_part = update_elements lib (misc ∷ p) (misc_elements c.misc) in
      let regs_part =
        both lib (update_elements lib (regs ∷ p) (register_elements c.registers))
          (both lib (need lib (misc ∷ p) group_not_found) misc_part) in
      let list_part =
        both lib (set_channels lib list c.channel max_no_of_channels 0)
          (both lib (need lib (regs ∷ p) setting_not_found) regs_part) in
      let hvps_part = both lib (need lib list setting_not_found) list_part in
      let (there, h1) =
        looked_up-both p configuration_not_found false
          (both lib (need lib (hvps ∷ p) setting_not_found) hvps_part) t t' h in
      let (hvps_there, h2) = looked_up-both (hvps ∷ p) setting_not_found true hvps_part t t' h1 in
      let (channels_there, h3) = looked_up-both list setting_not_found true list_part t t' h2 in
      let (t1, set, h4) =
        both-done lib law (set_channels lib list c.channel max_no_of_channels 0)
          (both lib (need lib (regs ∷ p) setting_not_found) regs_part) t t' h3 in
      let (regs_there, h5) = looked_up-both (regs ∷ p) setting_not_found true regs_part t1 t' h4 in
      let (t2, updated, h6) =
        both-done lib law (update_elements lib (regs ∷ p) (register_elements c.registers))
          (both lib (need lib (misc ∷ p) group_not_found) misc_part) t1 t' h5 in
      let (misc_there, h7) = looked_up-both (misc ∷ p) group_not_found true misc_part t2 t' h6 in
      let a = set_channels-AreSet lib law list c.channel max_no_of_channels 0 t t1 set in
      let (holds, f) =
        update_elements_lem lib law (regs ∷ p) (register_elements c.registers) t1 t2 refl w
          updated in
      let (holds', f') =
        update_elements_lem lib law (misc ∷ p) (misc_elements c.misc) t2 t' refl w' h7 in
      record {
        there = there;
        hvps_there = hvps_there;
        channels_there = channels_there;
        regs_there = sym (a.frame.exists (regs ∷ p)) ∙ regs_there;
        misc_there = sym (a.frame.exists (misc ∷ p)) ∙ (sym (f.exists (misc ∷ p)) ∙ misc_there);
        channels_fit = λ j l. a.inside j (omega arith) l;
        channels_set =
            λ j l. f'.elems list j refl ∙ (f.elems list j refl ∙ a.set j (omega arith) l);
        regs_set =
            Holds-carry t2 t' (regs ∷ p) (register_elements c.registers)
              (λ x. f'.ints (x ∷ regs ∷ p) refl) holds;
        misc_set = holds';
        frame = touched_parts p c t t1 t2 t' a.frame f f';
      }
