-- ===== src/Config/Elements.antt =====
-- configuration.c: what update_element and the loop over the channels do to the tree.
use mathlib.Core.Path.{subst}
use cjunk.Prelude.{
  ℕ, ◌<◌, ◌^◌, ◌≡◌, refl, ◌∙◌, Bool, true, false, not, ◌&&◌, Option, none, some, List, [], ◌∷◌,
  arith, if◌then◌else◌,
}
use cjunk.Config.Defs.{
  Name, Setting, same_name, same_setting, Failure, Libconfig, setting_not_found, wrong_config_type,
  wrong_config_format,
}
use cjunk.Config.Laws.{Frame, is, Lawful, Frame-refl, Frame-trans, Frame-weaken}
use cjunk.Config.Edit.{Edit, Edited, done, stop, both, attempt, update_element, update_elements}

-- No element of the list has this name.
abbrev pub fresh : Name → List (Name × ℕ) → Bool
fresh n [] = true
fresh n ((m, v) ∷ es) = not (same_name n m) && fresh n es

abbrev pub distinct : List (Name × ℕ) → Bool
distinct [] = true
distinct ((n, v) ∷ es) = fresh n es && distinct es

abbrev pub AreWords : List (Name × ℕ) → Type 0
AreWords [] = Unit {0}
AreWords ((n, v) ∷ es) = (v < 2 ^ 32) × AreWords es

-- The settings of the group that the list names.
abbrev pub named : Setting → List (Name × ℕ) → Setting → Bool
named g es [] = false
named g es (x ∷ q) = same_setting q g && not (fresh x es)

or_out : (a b c : Bool) → a && not (not b && c) ≡ false → b && a ≡ false
or_out true true true h = h
or_out true true false h = h
or_out true false c h = refl
or_out false true c h = refl
or_out false false c h = refl

or_rest : (a b c : Bool) → a && not (not b && c) ≡ false → a && not c ≡ false
or_rest true true true h = refl
or_rest true true false h = h
or_rest true false c h = h
or_rest false b c h = refl

named_first :
    (g : Setting) (n : Name) (v : ℕ) (es : List (Name × ℕ)) (q : Setting)
    → named g ((n, v) ∷ es) q ≡ false
    → same_setting q (n ∷ g) ≡ false
named_first g n v es [] h = refl
named_first g n v es (x ∷ q) h = or_out (same_setting q g) (same_name x n) (fresh x es) h

named_rest :
    (g : Setting) (n : Name) (v : ℕ) (es : List (Name × ℕ)) (q : Setting)
    → named g ((n, v) ∷ es) q ≡ false
    → named g es q ≡ false
named_rest g n v es [] h = refl
named_rest g n v es (x ∷ q) h = or_rest (same_setting q g) (same_name x n) (fresh x es) h

named-fresh :
    (g : Setting) (n : Name) (es : List (Name × ℕ)) → fresh n es ≡ true → named g es (n ∷ g) ≡ false
named-fresh g n es h = ground (arith, h)

distinct_parts :
    (n : Name) (v : ℕ) (es : List (Name × ℕ))
    → distinct ((n, v) ∷ es) ≡ true
    → (fresh n es ≡ true) × (distinct es ≡ true)
distinct_parts n v es h = ground (arith, h)

module _ (lib : Libconfig) (law : Lawful lib) where
  pub done_inj : (t t' : lib.Tree) → done t ≡ done t' → t ≡ t'
  done_inj t t' h = cc

  -- Two parts that end have a tree between them.
  pub both-done :
      (m k : Edit lib) (t t' : lib.Tree)
      → both lib m k t ≡ done t'
      → (t1 : lib.Tree) × (m t ≡ done t1) × (k t1 ≡ done t')
  both-done m k t t' h = by_result (m t) refl h
    where
      by_result :
          (o : Edited (lib.Tree))
          → m t ≡ o
          → elim o [ done t1 ↦ k t1 | stop rc closed ↦ stop rc closed ] ≡ done t'
          → (t1 : lib.Tree) × (m t ≡ done t1) × (k t1 ≡ done t')
      by_result (done t1) e h = (t1, e, h)
      by_result (stop rc closed) e h = cc

  pub attempt-done :
      (f : lib.Tree → Option (lib.Tree)) (rc : Failure) (t t' : lib.Tree)
      → attempt lib f rc t ≡ done t'
      → f t ≡ some t'
  attempt-done f rc t t' h = by_result (f t) refl h
    where
      by_result :
          (o : Option (lib.Tree))
          → f t ≡ o
          → elim o [ none ↦ stop rc true | some t1 ↦ done t1 ] ≡ done t'
          → f t ≡ some t'
      by_result none e h = cc
      by_result (some t1) e h = cc

  -- The tree holds these elements in the group.
  abbrev pub Holds : lib.Tree → Setting → List (Name × ℕ) → Type 0
  Holds t g [] = Unit {0}
  Holds t g ((n, v) ∷ es) = (lib.get_int t (n ∷ g) ≡ v) × Holds t g es

  set_then_format :
      (p : Setting) (v : ℕ) (t t1 t2 : lib.Tree)
      → v < 2 ^ 32
      → lib.set_int t p v ≡ some t1
      → lib.set_format t1 p ≡ some t2
      → (lib.get_int t2 p ≡ v) × Frame lib (is lib p) t t2
  set_then_format p v t t1 t2 small set formatted =
      let a = law.int_set t t1 p v small set in
      let b = law.format_set t1 t2 p formatted in (b.0 ∙ a.0, Frame-trans lib a.1 b.1)

  pub update_element_lem :
      (g : Setting) (n : Name) (v : ℕ) (t t' : lib.Tree)
      → v < 2 ^ 32
      → update_element lib g n v t ≡ done t'
      → (lib.get_int t' (n ∷ g) ≡ v) × Frame lib (is lib (n ∷ g)) t t'
  unfolding update_element
  update_element_lem g n v t t' small h =
      by_exists (lib.exists t (n ∷ g)) (lib.set_int t (n ∷ g) v) refl h
    where
      by_format :
          (t1 : lib.Tree) (o : Option (lib.Tree))
          → lib.set_int t (n ∷ g) v ≡ some t1
          → lib.set_format t1 (n ∷ g) ≡ o
          → elim o [ none ↦ stop wrong_config_format true | some t2 ↦ done t2 ] ≡ done t'
          → (lib.get_int t' (n ∷ g) ≡ v) × Frame lib (is lib (n ∷ g)) t t'
      by_format t1 none e f h = cc
      by_format t1 (some t2) e f h = set_then_format (n ∷ g) v t t1 t' small e cc

      by_exists :
          (b : Bool) (o : Option (lib.Tree))
          → lib.set_int t (n ∷ g) v ≡ o
          → (if b
              then elim o [
                | none ↦ stop wrong_config_type true
                | some t1 ↦ elim (lib.set_format t1 (n ∷ g)) [
                  | none ↦ stop wrong_config_format true
                  | some t2 ↦ done t2
                ]
              ]
              else stop setting_not_found true)
            ≡ done t'
          → (lib.get_int t' (n ∷ g) ≡ v) × Frame lib (is lib (n ∷ g)) t t'
      by_exists false o e h = cc
      by_exists true none e h = cc
      by_exists true (some t1) e h = by_format t1 (lib.set_format t1 (n ∷ g)) e refl h

  pub update_elements_lem :
      (g : Setting) (es : List (Name × ℕ)) (t t' : lib.Tree)
      → distinct es ≡ true
      → AreWords es
      → update_elements lib g es t ≡ done t'
      → Holds t' g es × Frame lib (named g es) t t'
  unfolding update_elements
  update_elements_lem g [] t t' d w h = (
    tt,
    subst (λ u. Frame lib (named g []) t u) (done_inj t t' h) (Frame-refl lib (named g []) t),
  )
  update_elements_lem g ((n, v) ∷ es) t t' d w h =
      let (t1, first, rest) =
        both-done (update_element lib g n v) (update_elements lib g es) t t' h in
      let (set, frame) = update_element_lem g n v t t1 w.0 first in
      let (fresh, more) = distinct_parts n v es d in
      let (holds, frame') = update_elements_lem g es t1 t' more w.1 rest in
      (
        (frame'.ints (n ∷ g) (named-fresh g n es fresh) ∙ set, holds),
        Frame-trans lib (Frame-weaken lib (named_first g n v es) frame)
            (Frame-weaken lib (named_rest g n v es) frame'),
      )
