-- ===== src/Tag/Tests.antt =====
-- hash/tag.c: the theorem at a concrete input, with lists for the tables of uthash.
use cjunk.Prelude.{refl, [], ◌∷◌, ◌++◌, List, arith}
use cjunk.Tag.{Assoc, UtHash}
use cjunk.Tag.Laws.{Lawful, without, is_at, lookup}
use cjunk.Tag.Sequence.{Call, tie, untie, purge, multi, list_step, AreAllowed, EndsAs, steps_refine}

abbrev lists : UtHash
lists = record {
  Table = List Assoc;
  items = λ q. q;
  hash_find = λ q k. lookup k q;
  hash_add = λ q s. q ++ s ∷ [];
  hash_del = λ q s. without (is_at s.address) q;
}

lists-Lawful : Lawful lists
lists-Lawful = record { added = λ t s. refl; deleted = λ t s. refl; found = λ t k u. refl }

-- Three commands; the first is answered, and the second gets too old.
abbrev session : List Call
session = tie 100 5 1 7 ∷ tie 200 6 2 8 ∷ tie 300 20 3 8 ∷ untie 1 ∷ purge 17 ∷ multi 21 3 20 ∷ []

session-AreAllowed : AreAllowed session []
unfolding list_step
session-AreAllowed = (
  (ground arith, tt),
  (
    (ground arith, (ground arith, ground arith, tt)),
    (
      (ground arith, (ground arith, ground arith, (ground arith, ground arith, tt))),
      ((λ e. cc), (tt, (tt, tt))),
    ),
  ),
)

steps_refine_example : EndsAs lists lists-Lawful session [] []
steps_refine_example = steps_refine lists lists-Lawful session [] tt session-AreAllowed
