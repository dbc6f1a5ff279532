-- ===== src/GenList/Walk.antt =====
-- linked_list/generic_list/gen_list.c: what calls of get_next_node return.
use mathlib.Core.Path.{subst}
use cjunk.Prelude.{
  ◌==◌, ◌≡◌, ◌≢◌, refl, sym, ap, ◌∙◌, true, false, Option, none, some, List, [], ◌∷◌, arith,
}
use cjunk.GenList.{Ptr, null, Node, Heap, load, get_next_node}

module _ {ℓ} {A : Type ℓ} where
  -- From the address on, the heap holds these nodes, up to NULL.
  abbrev pub IsChain : (Ptr → Option (Node A)) → Ptr → List (Ptr × Node A) → Type ℓ
  IsChain f p [] = (p ≡ null) × Unit {ℓ}
  IsChain f p ((q, c) ∷ rest) = (p ≡ q) × (q ≢ null) × (f q ≡ some c) × IsChain f c.next rest

  -- What the calls of get_next_node on these heads return, one after the other.
  pub answers : Heap A → List Ptr → Option (List Ptr)
  answers h [] = some []
  answers h (p ∷ ps) = elim (get_next_node h p) [
    | none ↦ none
    | some (q, h1) ↦ elim (answers h1 ps) [ none ↦ none | some qs ↦ some (q ∷ qs) ]
  ]

  -- The nodes of the chain, and then NULL for each further call.
  pub along : List (Ptr × Node A) → List Ptr → List Ptr
  along chain [] = []
  along [] (p ∷ ps) = null ∷ along [] ps
  along ((q, c) ∷ rest) (p ∷ ps) = q ∷ along rest ps

  answers-cons :
      (h h1 : Heap A) (p q : Ptr) (ps qs : List Ptr)
      → get_next_node h p ≡ some (q, h1)
      → answers h1 ps ≡ some qs
      → answers h (p ∷ ps) ≡ some (q ∷ qs)
  unfolding answers
  answers-cons h h1 p q ps qs e f =
      (λ i. elim (e i) as (λ x. Option (List Ptr)) [
        | none ↦ none
        | some (q', h') ↦ elim (answers h' ps) as (λ x. Option (List Ptr)) [
          | none ↦ none
          | some qs' ↦ some (q' ∷ qs')
        ]
      ])
      ∙ (λ i. elim (f i) as (λ x. Option (List Ptr)) [ none ↦ none | some qs' ↦ some (q ∷ qs') ])

  next-end :
      (h : Heap A) (p : Ptr) → h.first ≡ false → h.n ≡ null → get_next_node h p ≡ some (null, h)
  unfolding get_next_node
  next-end h p e z = let at : (h.n == null) ≡ true = ground arith in rw e (rw at refl)

  load-node : (h : Heap A) (p : Ptr) (c : Node A) → p ≢ null → h.cell p ≡ some c → load h p ≡ some c
  unfolding load
  load-node h p c l e = let at : (p == null) ≡ false = ground arith in rw at e

  next-step :
      (h : Heap A) (p : Ptr) (c : Node A)
      → h.first ≡ false
      → h.n ≢ null
      → h.cell h.n ≡ some c
      → get_next_node h p ≡ some (h.n, record h { n = c.next })
  unfolding get_next_node
  next-step h p c e l held =
      let at : (h.n == null) ≡ false = ground arith in
      rw at (rw (load-node h (h.n) c l held) (rw e refl))

  next-first :
      (h : Heap A) (p : Ptr) (c : Node A)
      → h.first ≡ true
      → p ≢ null
      → h.cell p ≡ some c
      → get_next_node h p ≡ some (p, record h { first = false; n = c.next })
  unfolding get_next_node
  next-first h p c e l held = rw (load-node h p c l held) (rw e refl)

  answers-later :
      (h : Heap A) (chain : List (Ptr × Node A)) (ps : List Ptr)
      → h.first ≡ false
      → IsChain h.cell h.n chain
      → answers h ps ≡ some (along chain ps)
  unfolding answers along
  answers-later h chain [] e c = refl
  answers-later h [] (p ∷ ps) e c =
      answers-cons h h p null ps _ (next-end h p e c.0) (answers-later h [] ps e c)
  answers-later h ((q, c) ∷ rest) (p ∷ ps) e k =
      let l : h.n ≢ null = subst (λ x. x ≢ null) (sym k.0) k.1 in
      let held : h.cell h.n ≡ some c = subst (λ x. h.cell x ≡ some c) (sym k.0) k.2 in
      answers-cons h (record h { n = c.next }) p q ps _
        (next-step h p c e l held ∙ ap (λ x. some (x, record h { n = c.next })) k.0)
        (answers-later (record h { n = c.next }) rest ps e k.3)

  -- The first call that is made of get_next_node, on a list that is not empty, returns its first node,
  -- and each later call the next node of that list, up to its end, and NULL from then on, whatever
  -- list the later calls are made on.
  pub answers-along :
      (h : Heap A) (head : Ptr) (chain : List (Ptr × Node A)) (others : List Ptr)
      → h.first ≡ true
      → head ≢ null
      → IsChain h.cell head chain
      → answers h (head ∷ others) ≡ some (along chain (head ∷ others))
  unfolding answers along
  answers-along h head [] others e l k = absurd (l k.0)
  answers-along h head ((q, c) ∷ rest) others e l k =
      let h1 = record h { first = false; n = c.next } in
      let held : h.cell head ≡ some c = subst (λ x. h.cell x ≡ some c) (sym k.0) k.2 in
      answers-cons h h1 head q others _ (next-first h head c e l held ∙ ap (λ x. some (x, h1)) k.0)
        (answers-later h1 rest others refl k.3)
