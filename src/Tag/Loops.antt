-- ===== src/Tag/Loops.antt =====
-- hash/tag.c: the loops that delete from the table that they walk.
use mathlib.Core.Path.{subst}
use mathlib.Core.List.{append_assoc}
use cjunk.Prelude.{
  ◌≡◌, ◌≢◌, refl, sym, ap, ◌∙◌, Bool, false, List, [], ◌∷◌, ◌++◌, arith, inl, inr, Bool-cases,
}
use cjunk.Tag.{Assoc, UtHash, delete_if}
use cjunk.Tag.Laws.{without, is_at, IsNew, AreUnique, Lawful, without-AreUnique, first_address}

IsNew-middle : (r s : Assoc) (p q : List Assoc) → IsNew r (p ++ s ∷ q) → s.address ≢ r.address
IsNew-middle r s [] q n = n.1
IsNew-middle r s (x ∷ p) q n = IsNew-middle r s p q n.2

-- To take `s` out of a list in which it stands once.
without_middle :
    (p q : List Assoc) (s : Assoc)
    → AreUnique (p ++ s ∷ q)
    → without (is_at s.address) (p ++ s ∷ q) ≡ p ++ q
without_middle [] q s u = first_address s q u.0
without_middle (r ∷ p) q s u =
    let apart = IsNew-middle r s p q u.0 in
    let other : is_at s.address r ≡ false = ground arith in
    rw other (ap (λ l. r ∷ l) (without_middle p q s u.1))

AreUnique-middle : (p q : List Assoc) (s : Assoc) → AreUnique (p ++ s ∷ q) → AreUnique (p ++ q)
AreUnique-middle p q s u =
    subst AreUnique (without_middle p q s u) (without-AreUnique (is_at s.address) (p ++ s ∷ q) u)

module _ (ut : UtHash) (law : Lawful ut) (test : Assoc → Bool) where
  -- The items before `rest` have been met, and those that passed the test are gone.
  delete_if-items :
      (p rest : List Assoc) (t : ut.Table)
      → ut.items t ≡ p ++ rest
      → AreUnique (p ++ rest)
      → ut.items (delete_if ut test rest t) ≡ p ++ without test rest
  unfolding delete_if
  delete_if-items p [] t e u = e
  delete_if-items p (s ∷ rest) t e u = elim (Bool-cases (test s)) [
    | inl h ↦
        let gone : ut.items (ut.hash_del t s) ≡ p ++ rest =
          law.deleted t s ∙ (ap (λ l. without (is_at s.address) l) e ∙ without_middle p rest s u) in
        rw h (delete_if-items p rest (ut.hash_del t s) gone (AreUnique-middle p rest s u))
    | inr h ↦
        let same = append_assoc p (s ∷ []) rest in
        rw h (
          delete_if-items (p ++ s ∷ []) rest t (e ∙ sym same) (subst AreUnique (sym same) u)
          ∙ append_assoc p (s ∷ []) (without test rest))
  ]

  -- The loop leaves the items that do not pass the test.
  pub delete_if-without :
      (t : ut.Table)
      → AreUnique (ut.items t)
      → ut.items (delete_if ut test (ut.items t) t) ≡ without test (ut.items t)
  delete_if-without t u = delete_if-items [] (ut.items t) t refl u
