-- ===== src/Config/Runs.antt =====
-- configuration.c: what a successful run of read_configuration_file or update_configuration has done.
use mathlib.Core.Path.{subst}
use cjunk.Prelude.{
  ◌≡◌, refl, ◌∙◌, sym, ap, ◌≢◌, Bool, true, false, Option, none, some, [], ◌∷◌, if◌then◌else◌,
}
use cjunk.Config.Defs.{
  Libconfig, Store, Ram, Rc, Failure, success, failed, error, file_open_failed, file_parse_error,
  configuration_not_found, application,
}
use cjunk.Config.Read.{
  zero_configuration, read_common, read_from, no_of_rounds, fill_ram, read_tree, read_content,
  read_configuration_file,
}
use cjunk.Config.Edit.{Edit, Edited, done, stop, write_back, finish, edit_content, edit_file}

bind_some :
    {A B : Type 0} (o : Option A) (k : A → Option B) (b : B)
    → elim o [ none ↦ none | some a ↦ k a ] ≡ some b
    → (a : A) × (o ≡ some a) × (k a ≡ some b)
bind_some none k b h = cc
bind_some (some a) k b h = (a, refl, h)

-- As bind_some, where the failure has a value, which is not the result.
pub get_some :
    {A B : Type 0} (o : Option A) (k : A → B) (bad b : B)
    → bad ≢ b
    → elim o [ none ↦ bad | some a ↦ k a ] ≡ b
    → (a : A) × (o ≡ some a) × (k a ≡ b)
get_some none k bad b differ h = absurd (differ h)
get_some (some a) k bad b differ h = (a, refl, h)

pub if_true :
    {B : Type 0} (b : Bool) (x bad y : B)
    → bad ≢ y
    → (if b then x else bad) ≡ y
    → (b ≡ true) × (x ≡ y)
if_true true x bad y differ h = (refl, h)
if_true false x bad y differ h = absurd (differ h)

failed≢success : (e : Failure) → failed e ≢ success
failed≢success e h = cc

module _ (lib : Libconfig) where
  rc_of : (a b : Rc × Store lib) → some a ≡ some b → a.0 ≡ b.0
  rc_of a b h = cc

  -- The file of the store was parsed to `t`.
  pub record Parsed (s : Store lib) (t : lib.Tree) : Type 0 where
    pub content : lib.Content
    pub held : s.file ≡ some content
    pub parsed : lib.read content ≡ some t

  tree_inj : (t t' : lib.Tree) → some t ≡ some t' → t ≡ t'
  tree_inj t t' e = cc

  content_inj : (t t' : lib.Content) → some t ≡ some t' → t ≡ t'
  content_inj t t' e = cc

  pub Parsed-once : (s : Store lib) (t t' : lib.Tree) → Parsed s t → Parsed s t' → t ≡ t'
  Parsed-once s t t' p q =
      let same = content_inj p.content q.content (sym p.held ∙ q.held) in
      tree_inj t t' (sym p.parsed ∙ (ap (λ c. lib.read c) same ∙ q.parsed))

  pub record Filled (t : lib.Tree) (r : Ram) : Type 0 where
    pub common : read_common lib t ≡ some r.c_config
    pub entries :
        read_from lib t (no_of_rounds lib r.c_config.max_no_of_configs) 0 (λ i. zero_configuration)
        ≡ some r.configurations

  ram_inj : (a b : Ram) → some a ≡ some b → a ≡ b
  ram_inj a b e = cc

  pub fill_ram-Filled : (t : lib.Tree) (r : Ram) → fill_ram lib t ≡ some r → Filled t r
  unfolding fill_ram
  fill_ram-Filled t r h =
      let (common, e, h') =
        bind_some (read_common lib t)
          (λ c.
            elim (read_from lib t (no_of_rounds lib c.max_no_of_configs) 0
              (λ i. zero_configuration)) [
                | none ↦ none
                | some f ↦ some (record { c_config = c; configurations = f })
              ])
          r h in
      let (f, e', h'') =
        bind_some
          (read_from lib t (no_of_rounds lib common.max_no_of_configs) 0 (λ i. zero_configuration))
          (λ f. some (record { c_config = common; configurations = f })) r h' in
      subst (λ q. Filled t q) (ram_inj _ _ h'') record { common = e; entries = e' }

  pub Filled-fill_ram : (t : lib.Tree) (r : Ram) → Filled t r → fill_ram lib t ≡ some r
  unfolding fill_ram
  Filled-fill_ram t r f =
      (λ i. elim (f.common i) [
        | none ↦ none
        | some c ↦
            elim (read_from lib t (no_of_rounds lib c.max_no_of_configs) 0
              (λ i. zero_configuration)) [
                | none ↦ none
                | some g ↦ some (record { c_config = c; configurations = g })
              ]
      ])
      ∙ (λ i. elim (f.entries i) [
        | none ↦ none
        | some g ↦ some (record { c_config = r.c_config; configurations = g })
      ])

  failed-success :
      (s s' : Store lib)
      → ◌≢◌ {A = Option (Rc × Store lib)} (some (failed error, s)) (some (success, s'))
  failed-success s s' h = failed≢success error (rc_of (failed error, s) (success, s') h)

  ram_of :
      (a b : Store lib)
      → ◌≡◌ {A = Option (Rc × Store lib)} (some (success, a)) (some (success, b))
      → a.ram ≡ b.ram
  ram_of a b h = cc

  pub read-Filled :
      (s s' : Store lib)
      → read_configuration_file lib s ≡ some (success, s')
      → (t : lib.Tree) × Parsed s t × (lib.exists t (application ∷ []) ≡ true) × Filled t s'.ram
  unfolding read_configuration_file
  read-Filled s s' h =
      let (c, held, h1) =
        get_some (s.file) (λ c. read_content lib s c) (some (failed error, s)) (some (success, s'))
          (failed-success s s') h in
      let (t, parsed, h2) =
        get_some (lib.read c) (λ t. read_tree lib s t) (some (failed error, s)) (some (success, s'))
          (failed-success s s') h1 in
      let (there, h3) =
        if_true (lib.exists t (application ∷ []))
          (elim (fill_ram lib t) [
            | none ↦ none
            | some ram ↦ some (success, record s { ram = ram })
          ])
          (some (failed error, s)) (some (success, s')) (failed-success s s') h2 in
      let (r, filled, h4) =
        bind_some (fill_ram lib t) (λ ram. some (success, record s { ram = ram })) (success, s')
          h3 in
      (
        t,
        record { content = c; held = held; parsed = parsed },
        there,
        subst (λ q. Filled t q) (ram_of _ _ h4) (fill_ram-Filled t r filled),
      )

  pub Filled-read :
      (s : Store lib) (t : lib.Tree) (r : Ram)
      → Parsed s t
      → lib.exists t (application ∷ []) ≡ true
      → Filled t r
      → read_configuration_file lib s ≡ some (success, record s { ram = r })
  unfolding read_configuration_file
  Filled-read s t r p there f =
      (λ i. elim (p.held i) [ none ↦ some (failed error, s) | some c ↦ read_content lib s c ])
      ∙ ((λ i. elim (p.parsed i) [ none ↦ some (failed error, s) | some t ↦ read_tree lib s t ])
          ∙ (λ i.
              if there i
              then elim (Filled-fill_ram t r f i) [
                | none ↦ none
                | some ram ↦ some (success, record s { ram = ram })
              ]
              else some (failed error, s)))

  pub failing :
      (e : Failure) (s s' : Store lib) → ◌≢◌ {A = Rc × Store lib} (failed e, s) (success, s')
  failing e s s' h = failed≢success e (ap (λ r. r.0) h)

  finish-done :
      (s s' : Store lib) (o : Edited (lib.Tree))
      → finish lib s o ≡ (success, s')
      → (t : lib.Tree) × (o ≡ done t) × (write_back lib s t ≡ (success, s'))
  finish-done s s' (done t) h = (t, refl, h)
  finish-done s s' (stop rc true) h = absurd (failing rc s s' h)
  finish-done s s' (stop rc false) h = absurd (failed≢success rc (ap (λ r. r.0) h))

  pub edit_file-done :
      (s s' : Store lib) (m : Edit lib)
      → edit_file lib s m ≡ (success, s')
      → (t : lib.Tree) × (t' : lib.Tree) × (c : lib.Content) × Parsed s t
        × (m t ≡ done t')
        × (lib.write t' ≡ some c)
        × (record s { file = some c } ≡ s')
  unfolding edit_file
  edit_file-done s s' m h =
      let (c, held, h1) =
        get_some (s.file) (λ c. edit_content lib s m c) (failed file_open_failed, s) (success, s')
          (failing file_open_failed s s') h in
      let (t, parsed, h2) =
        get_some (lib.read c) (λ t. finish lib s (m t)) (failed file_parse_error, s) (success, s')
          (failing file_parse_error s s') h1 in
      let (t', made, h3) = finish-done s s' (m t) h2 in
      let (new, written, h4) =
        get_some (lib.write t') (λ x. (success, record s { file = some x }))
          (failed configuration_not_found, s) (success, s') (failing configuration_not_found s s')
          h3 in
      (
        t,
        t',
        new,
        record { content = c; held = held; parsed = parsed },
        made,
        written,
        ap (λ r. r.1) h4,
      )
