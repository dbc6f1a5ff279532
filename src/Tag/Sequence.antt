-- ===== src/Tag/Sequence.antt =====
-- hash/tag.c: any sequence of its calls, against a list of associations.
use mathlib.Core.Path.{subst}
use cjunk.Prelude.{
  Bool, ℕ, ◌+◌, ◌==◌, leb, ◌≡◌, ◌≢◌, refl, sym, ap, ◌∙◌, false, Option, none, some, List, [], ◌∷◌,
  ◌++◌, if◌then◌else◌, arith, inl, inr, Bool-cases, Option-cases,
}
use cjunk.Prelude.Word.{u32}
use cjunk.Tag.{
  Assoc, hash_key, UtHash, socket_of, timeout_cmd_tag, tie_tag_2_socket, is_of_socket, is_old,
  delete_tags_assocs_to_socket, purge_hash, get_socket_in_hash, untie_tag_2_socket,
  delete_multi_cmd_tag,
}
use cjunk.Tag.Laws.{
  without, has_key, lookup, IsNew, AreUnique, Lawful, without-AreUnique, without_found,
  without_missing,
}
use cjunk.Tag.Loops.{delete_if-without}

-- The calls; `now` is what time() gives, `fresh` what malloc gives.
pub data Call : Type 0 where
  tie : (fresh now cmd_tag socket : ℕ) → Call
  untie : (cmd_tag : ℕ) → Call
  close : (socket : ℕ) → Call
  purge : (now : ℕ) → Call
  multi : (now cmd_tag old_time : ℕ) → Call

module _ (ut : UtHash) where
  pub step : Call → ut.Table → Option (ut.Table)
  step (tie fresh now cmd_tag socket) t = tie_tag_2_socket ut fresh now t cmd_tag socket
  step (untie cmd_tag) t = untie_tag_2_socket ut t cmd_tag
  step (close socket) t = some (delete_tags_assocs_to_socket ut t socket)
  step (purge now) t = some (purge_hash ut now t)
  step (multi now cmd_tag old_time) t = some (delete_multi_cmd_tag ut now t cmd_tag old_time)

  pub steps : List Call → ut.Table → Option (ut.Table)
  unfolding step
  steps [] t = some t
  steps (c ∷ cs) t = elim (step c t) [ none ↦ none | some t1 ↦ steps cs t1 ]

-- The specification: what an item must be to go.
abbrev pub is_tied_to : ℕ → Assoc → Bool
is_tied_to socket s = socket == s.socket

-- 10 seconds or more have passed.
abbrev pub is_expired : ℕ → Assoc → Bool
is_expired now s = leb (s.time + 10) now

abbrev pub made : ℕ → ℕ → ℕ → ℕ → Assoc
made fresh now cmd_tag socket = record {
  address = fresh;
  cmd_tag = cmd_tag;
  socket = socket;
  time = now;
}

unfoldable pub list_step : Call → List Assoc → List Assoc
list_step (tie fresh now cmd_tag socket) q = q ++ made fresh now cmd_tag socket ∷ []
list_step (untie cmd_tag) q = without (has_key (u32 cmd_tag)) q
list_step (close socket) q = without (is_tied_to socket) q
list_step (purge now) q = without (is_expired now) q
list_step (multi now cmd_tag old_time) q =
    if leb (old_time + 10) now then without (has_key (u32 cmd_tag)) q else q

pub list_steps : List Call → List Assoc → List Assoc
unfolding list_step
list_steps [] q = q
list_steps (c ∷ cs) q = list_steps cs (list_step c q)

-- A call that the program may make: malloc gives an address that is in use nowhere, a tag is tied
-- once, and a tag that is untied was tied.
abbrev pub IsAllowed : Call → List Assoc → Type 0
IsAllowed (tie fresh now cmd_tag socket) q = (fresh ≢ 0) × IsNew (made fresh now cmd_tag socket) q
IsAllowed (untie cmd_tag) q = lookup (u32 cmd_tag) q ≢ none
IsAllowed _ q = Unit {0}

abbrev pub AreAllowed : List Call → List Assoc → Type 0
AreAllowed [] q = Unit
AreAllowed (c ∷ cs) q = IsAllowed c q × AreAllowed cs (list_step c q)

IsNew-snoc :
    (r s : Assoc) (q : List Assoc)
    → IsNew r q
    → hash_key s ≢ hash_key r
    → s.address ≢ r.address
    → IsNew r (q ++ s ∷ [])
IsNew-snoc r s [] n k a = (k, a, tt)
IsNew-snoc r s (x ∷ q) n k a = (n.0, n.1, IsNew-snoc r s q n.2 k a)

AreUnique-snoc : (s : Assoc) (q : List Assoc) → IsNew s q → AreUnique q → AreUnique (q ++ s ∷ [])
AreUnique-snoc s [] n u = (tt, tt)
AreUnique-snoc s (r ∷ q) n u =
    (IsNew-snoc r s q u.0 (λ e. n.0 (sym e)) (λ e. n.1 (sym e)), AreUnique-snoc s q n.2 u.1)

list_step-AreUnique :
    (c : Call) (q : List Assoc) → IsAllowed c q → AreUnique q → AreUnique (list_step c q)
unfolding list_step
list_step-AreUnique (tie fresh now cmd_tag socket) q a u =
    AreUnique-snoc (made fresh now cmd_tag socket) q a.1 u
list_step-AreUnique (untie cmd_tag) q a u = without-AreUnique (has_key (u32 cmd_tag)) q u
list_step-AreUnique (close socket) q a u = without-AreUnique (is_tied_to socket) q u
list_step-AreUnique (purge now) q a u = without-AreUnique (is_expired now) q u
list_step-AreUnique (multi now cmd_tag old_time) q a u =
    elim (Bool-cases (leb (old_time + timeout_cmd_tag) now)) [
      | inl h ↦ rw h (without-AreUnique (has_key (u32 cmd_tag)) q u)
      | inr h ↦ rw h u
    ]

module _ (ut : UtHash) (law : Lawful ut) where
  -- HASH_DEL of the item that was found.
  found-deleted :
      (t : ut.Table) (k : ℕ) (s : Assoc)
      → AreUnique (ut.items t)
      → ut.hash_find t k ≡ some s
      → ut.items (ut.hash_del t s) ≡ without (has_key k) (ut.items t)
  found-deleted t k s u e =
      law.deleted t s ∙ without_found k (ut.items t) s u (sym (law.found t k u) ∙ e)

  abbrev Refines : Call → ut.Table → Type 0
  Refines c t = (t1 : ut.Table) × (step ut c t ≡ some t1) × (ut.items t1 ≡ list_step c (ut.items t))

  untie_found :
      (cmd_tag : ℕ) (t : ut.Table) (s : Assoc)
      → AreUnique (ut.items t)
      → ut.hash_find t (u32 cmd_tag) ≡ some s
      → Refines (untie cmd_tag) t
  unfolding step list_step untie_tag_2_socket
  untie_found cmd_tag t s u e = (
    ut.hash_del t s,
    λ i. elim (e i) as (λ x. Option (ut.Table)) [ none ↦ none | some s' ↦ some (ut.hash_del t s') ],
    found-deleted t (u32 cmd_tag) s u e,
  )

  multi_found :
      (now cmd_tag old_time : ℕ) (t : ut.Table)
      → AreUnique (ut.items t)
      → Refines (multi now cmd_tag old_time) t
  unfolding step list_step delete_multi_cmd_tag
  multi_found now cmd_tag old_time t u = elim (Bool-cases (leb (old_time + timeout_cmd_tag) now)) [
    | inr h ↦ (t, rw h refl, rw h refl)
    | inl h ↦ elim (Option-cases (ut.hash_find t (u32 cmd_tag))) [
      | inl e ↦ (
        t,
        rw h (rw e refl),
        rw h (
            sym
              (without_missing (u32 cmd_tag) (ut.items t) (sym (law.found t (u32 cmd_tag) u) ∙ e))),
      )
      | inr (s, e) ↦ (ut.hash_del t s, rw h (rw e refl), rw h (found-deleted t (u32 cmd_tag) s u e))
    ]
  ]

  step-Refines :
      (c : Call) (t : ut.Table) → AreUnique (ut.items t) → IsAllowed c (ut.items t) → Refines c t
  unfolding step list_step tie_tag_2_socket delete_tags_assocs_to_socket purge_hash
  step-Refines (tie fresh now cmd_tag socket) t u a =
      let held : (fresh == 0) ≡ false = ground arith in
      let s = made fresh now cmd_tag socket in (ut.hash_add t s, rw held refl, law.added t s)
  step-Refines (untie cmd_tag) t u a = elim (Option-cases (ut.hash_find t (u32 cmd_tag))) [
    | inl e ↦ absurd (a (sym (law.found t (u32 cmd_tag) u) ∙ e))
    | inr (s, e) ↦ untie_found cmd_tag t s u e
  ]
  step-Refines (close socket) t u a = (
    delete_tags_assocs_to_socket ut t socket,
    refl,
    delete_if-without ut law (is_of_socket socket) t u,
  )
  step-Refines (purge now) t u a =
      (purge_hash ut now t, refl, delete_if-without ut law (is_old now) t u)
  step-Refines (multi now cmd_tag old_time) t u a = multi_found now cmd_tag old_time t u

  abbrev pub EndsAs : List Call → ut.Table → List Assoc → Type 0
  EndsAs cs t q =
      (end : ut.Table) × (steps ut cs t ≡ some end)
      × (ut.items end ≡ list_steps cs q)
      × ((cmd_tag : ℕ)
          → get_socket_in_hash ut end cmd_tag ≡ socket_of (lookup (u32 cmd_tag) (list_steps cs q)))

  -- After any sequence of calls, made on a table whose items have distinct tags and addresses: the
  -- calls end, and the table holds what the list of associations holds after the same calls, in the
  -- same order; get_socket_in_hash gives the socket that the list has for a tag, and 0 if it has none.
  -- Each tag must be tied once at a time, and untied only when it is tied, and malloc must succeed
  -- with an address that no item has.
  pub steps_refine :
      (cs : List Call) (t : ut.Table)
      → AreUnique (ut.items t)
      → AreAllowed cs (ut.items t)
      → EndsAs cs t (ut.items t)
  unfolding steps list_steps get_socket_in_hash
  steps_refine [] t u a = (t, refl, refl, λ cmd_tag. ap socket_of (law.found t (u32 cmd_tag) u))
  steps_refine (c ∷ cs) t u a =
      let (t1, made_step, same) = step-Refines c t u a.0 in
      let q = list_step c (ut.items t) in
      let u1 : AreUnique (ut.items t1) =
        subst AreUnique (sym same) (list_step-AreUnique c (ut.items t) a.0 u) in
      let (end, run, items, got) =
        subst (λ l. EndsAs cs t1 l) same
          (steps_refine cs t1 u1 (subst (λ l. AreAllowed cs l) (sym same) a.1)) in
      (
        end,
        (λ i. elim (made_step i) as (λ x. Option (ut.Table)) [
          | none ↦ none
          | some t' ↦ steps ut cs t'
        ])
            ∙ run,
        items,
        got,
      )
