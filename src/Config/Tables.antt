-- ===== src/Config/Tables.antt =====
-- A libconfig whose trees are tables of the settings' values; a file holds the tree. It has the laws.
use mathlib.Core.Path.{subst}
use cjunk.Prelude.{
  ℕ, ◌<◌, ◌==◌, ltb, ◌≡◌, ◌≢◌, refl, sym, Bool, true, false, none, some, [], ◌∷◌, arith,
  if◌then◌else◌, ◌∙◌,
}
use cjunk.Config.Defs.{Name, Setting, same_name, same_setting, Libconfig}
use cjunk.Config.Laws.{Frame, is, Lawful, Frame-refl}
use cjunk.Config.Runs.{if_true}

pub record Table : Type 0 where
  pub there : Setting → Bool
  pub ints : Setting → ℕ
  pub bools : Setting → ℕ
  pub elems : Setting → ℕ → ℕ

abbrev pub put {ℓ} : {A : Type ℓ} → (Setting → A) → Setting → A → Setting → A
put f p v q = if same_setting q p then v else f q

abbrev pub put_elem : (ℕ → ℕ) → ℕ → ℕ → ℕ → ℕ
put_elem f i v j = if j == i then v else f j

abbrev pub tables : Libconfig
tables = record {
  Tree = Table;
  Content = Table;
  read = λ t. some t;
  write = λ t. some t;
  exists = λ t p. t.there p;
  get_int = λ t p. t.ints p;
  get_bool = λ t p. t.bools p;
  get_string = λ t p. some [];
  length = λ t p. 27;
  get_elem = λ t p. t.elems p;
  set_int = λ t p v. some (record t { ints = put t.ints p v });
  set_format = λ t p. some t;
  set_bool = λ t p v. some (record t { bools = put t.bools p v });
  set_string = λ t p v. some t;
  set_elem = λ t p i v.
      if ltb i 27
      then some (record t { elems = put t.elems p (put_elem (t.elems p) i v) })
      else none;
  add = λ t p k. some t;
  add_elem = λ t p. some t;
}

same_name_refl : (x : Name) → same_name x x ≡ true
same_name_refl x = ground arith

same_setting_refl : (p : Setting) → same_setting p p ≡ true
same_setting_refl [] = refl
same_setting_refl (x ∷ p) = rw (same_name_refl x) (same_setting_refl p)

put-here : {A : Type 0} (f : Setting → A) (p : Setting) (v : A) → put f p v p ≡ v
put-here f p v = rw (same_setting_refl p) refl

put-there :
    {A : Type 0} (f : Setting → A) (p q : Setting) (v : A)
    → same_setting q p ≡ false
    → put f p v q ≡ f q
put-there f p q v e = rw e refl

table_inj : (a b : Table) → some a ≡ some b → a ≡ b
table_inj a b e = cc

int_put :
    (t : Table) (p : Setting) (v : ℕ)
    → (put t.ints p v p ≡ v) × Frame tables (is tables p) t (record t { ints = put t.ints p v })
int_put t p v = (
  put-here t.ints p v,
  record {
    exists = λ q. refl;
    bools = λ q. refl;
    strings = λ q. refl;
    lengths = λ q. refl;
    ints = λ q out. put-there t.ints p q v out;
    elems = λ q i out. refl;
  },
)

put_elem-here : (f : ℕ → ℕ) (i v : ℕ) → put_elem f i v i ≡ v
put_elem-here f i v = ground arith

put_elem-other : (f : ℕ → ℕ) (i v j : ℕ) → j ≢ i → put_elem f i v j ≡ f j
put_elem-other f i v j other = by_test (j == i) refl
  where
    by_test : (b : Bool) → (j == i) ≡ b → (if b then v else f j) ≡ f j
    by_test true e = absurd (other (ground arith))
    by_test false e = refl

elem_put :
    (t : Table) (p : Setting) (i v : ℕ)
    → i < 27
    → (let t' = record t { elems = put t.elems p (put_elem (t.elems p) i v) } in
        (i < 27)
        × (t'.elems p i ≡ v)
        × ((j : ℕ) → j ≢ i → t'.elems p j ≡ t.elems p j)
        × Frame tables (is tables p) t t')
elem_put t p i v l =
    let e = put-here t.elems p (put_elem (t.elems p) i v) in
    (
      l,
      (λ k. e k i) ∙ put_elem-here (t.elems p) i v,
      (λ j other. (λ k. e k j) ∙ put_elem-other (t.elems p) i v j other),
      record {
        exists = λ q. refl;
        bools = λ q. refl;
        strings = λ q. refl;
        lengths = λ q. refl;
        ints = λ q out. refl;
        elems = λ q j out. λ k. put-there t.elems p q (put_elem (t.elems p) i v) out k j;
      },
    )

none_differs : (t : Table) → none ≢ some t
none_differs t h = cc

pub tables-Lawful : Lawful tables
tables-Lawful = record {
  read_write = λ t c e. sym e;
  int_set = λ t t' p v l e.
      subst (λ u. (u.ints p ≡ v) × Frame tables (is tables p) t u) (table_inj _ _ e)
        (int_put t p v);
  format_set = λ t t' p e.
      subst (λ u. (u.ints p ≡ t.ints p) × Frame tables (is tables p) t u) (table_inj _ _ e)
        (refl, Frame-refl tables (is tables p) t);
  elem_set = λ t t' p i v e.
      let (l, e') =
        if_true (ltb i 27) (some (record t { elems = put t.elems p (put_elem (t.elems p) i v) }))
          none (some t') (none_differs t') e in
      subst
        (λ u.
          (i < 27)
          × (u.elems p i ≡ v)
          × ((j : ℕ) → j ≢ i → u.elems p j ≡ t.elems p j)
          × Frame tables (is tables p) t u)
        (table_inj _ _ e') (elem_put t p i v (ground arith));
}
