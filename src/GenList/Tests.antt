-- ===== src/GenList/Tests.antt =====
-- linked_list/generic_list/gen_list.c: the theorems at concrete inputs.
use cjunk.Prelude.{ℕ, ◌==◌, ◌≡◌, refl, true, none, some, List, [], ◌∷◌, arith, if◌then◌else◌}
use cjunk.GenList.{Ptr, null, Node, Heap}
use cjunk.GenList.Walk.{answers, along, answers-along}

abbrev empty : Heap ℕ
empty = record { cell = λ p. none; first = true; n = null; destroyed = [] }

abbrev node : ℕ → ℕ → Ptr → Node ℕ
node v d p = record { value = v; destruct_func = d; next = p }

-- The list 11, 10 at the addresses 5 and 4, and the list 20 at 7.
abbrev two_lists : Heap ℕ
two_lists = record empty {
  cell = λ p.
      if p == 5
      then some (node 11 1 4)
      else if p == 4
      then some (node 10 1 0)
      else if p == 7
      then some (node 20 1 0)
      else none;
}

abbrev first_list : List (Ptr × Node ℕ)
first_list = (5, node 11 1 4) ∷ (4, node 10 1 0) ∷ []

-- Neither a second walk nor a walk of the other list is possible.
answers-along_example :
    answers two_lists (5 ∷ 5 ∷ 5 ∷ 5 ∷ 7 ∷ []) ≡ some (along first_list (5 ∷ 5 ∷ 5 ∷ 5 ∷ 7 ∷ []))
answers-along_example =
    answers-along two_lists 5 first_list (5 ∷ 5 ∷ 5 ∷ 7 ∷ []) refl (λ e. omega arith)
      (refl, (λ e. omega arith), refl, (refl, (λ e. omega arith), refl, (refl, tt)))
