-- ===== src/Tag/Laws.antt =====
-- hash/tag.c: what it relies on of uthash, as its documentation has it: items are kept in the order in
-- which they were added, HASH_DEL takes out the item it is given, and HASH_FIND finds the item with a
-- key where no two items have the same.
use mathlib.Core.Path.{subst}
use cjunk.Prelude.{
  ℕ, ◌==◌, ◌≡◌, ◌≢◌, refl, sym, ap, ◌∙◌, Bool, true, false, Option, none, some, List, [], ◌∷◌, ◌++◌,
  if◌then◌else◌, arith, inl, inr, Bool-cases,
}
use cjunk.Tag.{Assoc, hash_key, UtHash}

-- The list without the items that pass the test.
abbrev pub without : (Assoc → Bool) → List Assoc → List Assoc
without test [] = []
without test (s ∷ q) = if test s then without test q else s ∷ without test q

abbrev pub has_key : ℕ → Assoc → Bool
has_key k s = hash_key s == k

abbrev pub is_at : ℕ → Assoc → Bool
is_at p s = s.address == p

abbrev pub lookup : ℕ → List Assoc → Option Assoc
lookup k [] = none
lookup k (s ∷ q) = if has_key k s then some s else lookup k q

-- No item of the list has the key or the address of `s`.
abbrev pub IsNew : Assoc → List Assoc → Type 0
IsNew s [] = Unit
IsNew s (r ∷ q) = (hash_key r ≢ hash_key s) × (r.address ≢ s.address) × IsNew s q

abbrev pub AreUnique : List Assoc → Type 0
AreUnique [] = Unit
AreUnique (s ∷ q) = IsNew s q × AreUnique q

pub record Lawful (ut : UtHash) : Type 0 where
  pub added : (t : ut.Table) (s : Assoc) → ut.items (ut.hash_add t s) ≡ ut.items t ++ s ∷ []
  pub deleted :
      (t : ut.Table) (s : Assoc)
      → ut.items (ut.hash_del t s) ≡ without (is_at s.address) (ut.items t)
  pub found :
      (t : ut.Table) (k : ℕ) → AreUnique (ut.items t) → ut.hash_find t k ≡ lookup k (ut.items t)

IsNew-without :
    (s : Assoc) (test : Assoc → Bool) (q : List Assoc) → IsNew s q → IsNew s (without test q)
IsNew-without s test [] n = n
IsNew-without s test (r ∷ q) n = elim (Bool-cases (test r)) [
  | inl e ↦ rw e (IsNew-without s test q n.2)
  | inr e ↦ rw e (n.0, n.1, IsNew-without s test q n.2)
]

pub without-AreUnique :
    (test : Assoc → Bool) (q : List Assoc) → AreUnique q → AreUnique (without test q)
without-AreUnique test [] u = u
without-AreUnique test (s ∷ q) u = elim (Bool-cases (test s)) [
  | inl e ↦ rw e (without-AreUnique test q u.1)
  | inr e ↦ rw e (IsNew-without s test q u.0, without-AreUnique test q u.1)
]

-- Nothing is taken out by an address or a key that no item has.
pub without_address : (s : Assoc) (q : List Assoc) → IsNew s q → without (is_at s.address) q ≡ q
without_address s [] n = refl
without_address s (r ∷ q) n =
    let other : is_at s.address r ≡ false = ground arith in
    rw other (ap (λ l. r ∷ l) (without_address s q n.2))

without_key : (s : Assoc) (q : List Assoc) → IsNew s q → without (has_key (hash_key s)) q ≡ q
without_key s [] n = refl
without_key s (r ∷ q) n =
    let other : has_key (hash_key s) r ≡ false = ground arith in
    rw other (ap (λ l. r ∷ l) (without_key s q n.2))

assoc_inj : (r s : Assoc) → some r ≡ some s → r ≡ s
assoc_inj r s e = cc

pub first_address : (s : Assoc) (q : List Assoc) → IsNew s q → without (is_at s.address) (s ∷ q) ≡ q
first_address s q n =
    let same : is_at s.address s ≡ true = ground arith in rw same (without_address s q n)

first_key :
    (k : ℕ) (s : Assoc) (q : List Assoc)
    → has_key k s ≡ true
    → IsNew s q
    → without (has_key k) q ≡ q
first_key k s q h n =
    let same : hash_key s ≡ k = ground arith in
    subst (λ x. without (has_key x) q ≡ q) same (without_key s q n)

lookup-IsNew :
    (k : ℕ) (q : List Assoc) (r s : Assoc) → lookup k q ≡ some s → IsNew r q → r.address ≢ s.address
lookup-IsNew k [] r s e n = cc
lookup-IsNew k (x ∷ q) r s e n = elim (Bool-cases (has_key k x)) [
  | inl h ↦
      let same : x ≡ s = assoc_inj x s (rw h at e) in λ a. n.1 (ap (λ y. y.address) same ∙ sym a)
  | inr h ↦ lookup-IsNew k q r s (rw h at e) n.2
]

-- The item that is found is the one that goes.
pub without_found :
    (k : ℕ) (q : List Assoc) (s : Assoc)
    → AreUnique q
    → lookup k q ≡ some s
    → without (is_at s.address) q ≡ without (has_key k) q
without_found k [] s u e = refl
without_found k (r ∷ q) s u e = elim (Bool-cases (has_key k r)) [
  | inl h ↦
      subst (λ x. without (is_at x.address) (r ∷ q) ≡ without (has_key k) (r ∷ q))
        (assoc_inj r s (rw h at e)) (first_address r q u.0 ∙ rw h (sym (first_key k r q h u.0)))
  | inr h ↦
      let rest : lookup k q ≡ some s = rw h at e in
      let apart = lookup-IsNew k q r s rest u.0 in
      let other : is_at s.address r ≡ false = ground arith in
      rw h (rw other (ap (λ l. r ∷ l) (without_found k q s u.1 rest)))
]

none_differs : (s : Assoc) → some s ≢ none
none_differs s e = cc

pub without_missing : (k : ℕ) (q : List Assoc) → lookup k q ≡ none → without (has_key k) q ≡ q
without_missing k [] e = refl
without_missing k (r ∷ q) e = elim (Bool-cases (has_key k r)) [
  | inl h ↦ absurd (none_differs r (rw h at e))
  | inr h ↦ rw h (ap (λ l. r ∷ l) (without_missing k q (rw h at e)))
]
