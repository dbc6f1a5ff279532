-- ===== src/GenList.antt =====
-- linked_list/generic_list/gen_list.c: the list of nodes that each hold a copy of their data and a
-- destructor. The data of a node is a value of a type `A`, and the destructor a number that names it.
-- An address is a number, NULL is 0; `none` is a read or a write through NULL or a freed pointer.
pub mod Walk
pub mod Deletion
mod Tests
use cjunk.Prelude.{
  ℕ, zero, suc, ◌==◌, Bool, true, false, Option, none, some, List, [], ◌∷◌, ◌++◌, if◌then◌else◌,
}

abbrev pub Ptr : Type 0
Ptr = ℕ

abbrev pub null : Ptr
null = 0

-- The data of the node, or NULL. Only its address is computed.
unfoldable pub get_current_node : Ptr → Option Ptr
get_current_node head = if head == null then none else some head

-- The structure `list`, and the data that stands behind it.
pub record Node {ℓ} (A : Type ℓ) : Type ℓ where
  pub value : A
  pub destruct_func : ℕ
  pub next : Ptr

-- The heap; the static variables `first` and `n` of get_next_node; the calls of destructors, each with
-- the data of its node.
pub record Heap {ℓ} (A : Type ℓ) : Type ℓ where
  pub cell : Ptr → Option (Node A)
  pub first : Bool
  pub n : Ptr
  pub destroyed : List (ℕ × A)

module _ {ℓ} {A : Type ℓ} where
  abbrev pub update : (Ptr → Option (Node A)) → Ptr → Option (Node A) → Ptr → Option (Node A)
  update f p c q = if q == p then c else f q

  -- `*p`
  unfoldable pub load : Heap A → Ptr → Option (Node A)
  load h p = if p == null then none else h.cell p

  -- `fresh` is what malloc returns; it is not tested.
  unfoldable pub add_2_list : Ptr → Heap A → Ptr → A → ℕ → Option (Ptr × Heap A)
  add_2_list fresh h head value destructor =
      if fresh == null
      then none
      else some (
        fresh,
        record h {
          cell =
              update h.cell fresh
                (some (record { value = value; destruct_func = destructor; next = head }));
        },
      )

  -- The node whose data is returned, NULL if there is none.
  unfoldable pub get_next_node : Heap A → Ptr → Option (Ptr × Heap A)
  get_next_node h head =
      if h.first
      then elim (load h head) [
        | none ↦ none
        | some c ↦ some (head, record h { first = false; n = c.next })
      ]
      else if h.n == null
      then some (null, h)
      else elim (load h h.n) [ none ↦ none | some c ↦ some (h.n, record h { n = c.next }) ]

  -- head->DestructFunc((void *) head); free(head);
  abbrev pub destroy : Heap A → Ptr → Node A → Heap A
  destroy h p c = record h {
    cell = update h.cell p none;
    destroyed = h.destroyed ++ (c.destruct_func, c.value) ∷ [];
  }

  -- The new head.
  unfoldable pub del_node_in_list : Heap A → Ptr → Option (Ptr × Heap A)
  unfolding load
  del_node_in_list h head =
      if head == null
      then some (null, h)
      else elim (load h head) [ none ↦ none | some c ↦ some (c.next, destroy h head c) ]

  -- while( head ), with fuel for the rounds; the second `none` is the end of the fuel.
  unfoldable pub delete_list : ℕ → Heap A → Ptr → Option (Heap A)
  unfolding load
  delete_list zero h head = none
  delete_list (suc fuel) h head =
      if head == null
      then some h
      else elim (load h head) [ none ↦ none | some c ↦ delete_list fuel (destroy h head c) c.next ]
