-- ===== src/GenList/Deletion.antt =====
-- linked_list/generic_list/gen_list.c: DeleteList.
use mathlib.Core.List.{append-nil, append_assoc}
use cjunk.Prelude.{
  ℕ, zero, suc, ◌==◌, ◌<◌, ◌≡◌, ◌≢◌, sym, ap, ◌∙◌, true, false, Option, none, some, List, [], ◌∷◌,
  ◌++◌, arith, length,
}
use cjunk.GenList.{Ptr, null, Node, Heap, update, destroy, delete_list}
use cjunk.GenList.Walk.{IsChain}

module _ {ℓ} {A : Type ℓ} where
  -- No node of the chain stands at this address.
  abbrev pub Avoids : Ptr → List (Ptr × Node A) → Type 0
  Avoids p [] = Unit
  Avoids p ((q, c) ∷ rest) = (q ≢ p) × Avoids p rest

  abbrev pub AreApart : List (Ptr × Node A) → Type 0
  AreApart [] = Unit
  AreApart ((q, c) ∷ rest) = Avoids q rest × AreApart rest

  pub calls : List (Ptr × Node A) → List (ℕ × A)
  calls [] = []
  calls ((q, c) ∷ rest) = (c.destruct_func, c.value) ∷ calls rest

  pub freed : (Ptr → Option (Node A)) → List (Ptr × Node A) → Ptr → Option (Node A)
  freed f [] = f
  freed f ((q, c) ∷ rest) = freed (update f q none) rest

  IsChain-update :
      (f : Ptr → Option (Node A)) (p q : Ptr) (chain : List (Ptr × Node A))
      → Avoids q chain
      → IsChain f p chain
      → IsChain (update f q none) p chain
  IsChain-update f p q [] a k = k
  IsChain-update f p q ((r, c) ∷ rest) a k =
      let other : (r == q) ≡ false = ground arith in
      (k.0, k.1, rw other k.2, IsChain-update f c.next q rest a.1 k.3)

  delete_round :
      (fuel : ℕ) (h : Heap A) (p : Ptr) (c : Node A)
      → p ≢ null
      → h.cell p ≡ some c
      → delete_list (suc fuel) h p ≡ delete_list fuel (destroy h p c) c.next
  unfolding delete_list
  delete_round fuel h p c l held =
      let no_end : (p == null) ≡ false = ground arith in
      rw no_end (λ i. elim (held i) as (λ x. Option (Heap A)) [
        | none ↦ none
        | some c' ↦ delete_list fuel (destroy h p c') c'.next
      ])

  -- DeleteList of a list of distinct nodes ends, with fuel for one round more than there are nodes: it
  -- has called the destructor of each node with the data of the node, in the order of the list, has
  -- freed the nodes, and has changed nothing else.
  pub delete_list_lem :
      (fuel : ℕ) (h : Heap A) (head : Ptr) (chain : List (Ptr × Node A))
      → length chain < fuel
      → AreApart chain
      → IsChain h.cell head chain
      → delete_list fuel h head
        ≡ some (record h { cell = freed h.cell chain; destroyed = h.destroyed ++ calls chain })
  unfolding delete_list calls freed
  delete_list_lem zero h head chain l a k = absurd (omega arith)
  delete_list_lem (suc fuel) h head [] l a k =
      let end : (head == null) ≡ true = ground arith in
      rw end (ap (λ d. some (record h { destroyed = d })) (sym (append-nil h.destroyed)))
  delete_list_lem (suc fuel) h head ((q, c) ∷ rest) l a k =
      let h1 = destroy h q c in
      ap (λ p. delete_list (suc fuel) h p) k.0
      ∙ (delete_round fuel h q c k.1 k.2
          ∙ (delete_list_lem fuel h1 c.next rest (omega arith) a.1
                (IsChain-update h.cell c.next q rest a.0 k.3)
              ∙ ap (λ d. some (record h { cell = freed h1.cell rest; destroyed = d }))
                  (append_assoc h.destroyed ((c.destruct_func, c.value) ∷ []) (calls rest))))
