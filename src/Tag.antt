-- ===== src/Tag.antt =====
-- hash/tag.c: the table that ties the tag of a command to the socket on which its reply is sent. The
-- table is one of uthash, of which `UtHash` is what tag.c uses. `none` is a use of NULL.
pub mod Laws
pub mod Loops
pub mod Sequence
mod Tests
use cjunk.Prelude.{
  ℕ, ◌+◌, ◌==◌, leb, Bool, true, false, Option, none, some, List, [], ◌∷◌, if◌then◌else◌,
}
use cjunk.Prelude.Word.{u32}

-- TIMEOUT_CMD_TAG
abbrev pub timeout_cmd_tag : ℕ
timeout_cmd_tag = 10

-- struct assoc_2_socket, and the address at which it was allocated.
pub record Assoc : Type 0 where
  pub address : ℕ
  pub cmd_tag : ℕ
  pub socket : ℕ
  pub time : ℕ

-- The bytes of cmd_tag that HASH_ADD_INT takes for the key.
abbrev pub hash_key : Assoc → ℕ
hash_key s = u32 s.cmd_tag

-- HASH_FIND_INT, HASH_ADD_INT and HASH_DEL, and the items in the order of hh.next.
pub record UtHash : Type 1 where
  pub Table : Type 0
  pub items : Table → List Assoc
  pub hash_find : Table → ℕ → Option Assoc
  pub hash_add : Table → Assoc → Table
  pub hash_del : Table → Assoc → Table

abbrev pub is_of_socket : ℕ → Assoc → Bool
is_of_socket socket s = socket == s.socket

abbrev pub is_old : ℕ → Assoc → Bool
is_old now s = leb (s.time + timeout_cmd_tag) now

-- if(s == NULL) return 0; return (s->socket);
abbrev pub socket_of : Option Assoc → ℕ
socket_of none = 0
socket_of (some s) = s.socket

module _ (ut : UtHash) where
  -- `fresh` is what malloc returns, 0 for NULL, which is logged and then used.
  unfoldable pub tie_tag_2_socket : ℕ → ℕ → ut.Table → ℕ → ℕ → Option (ut.Table)
  tie_tag_2_socket fresh now t cmd_tag socket =
      if fresh == 0
      then none
      else some (
          ut.hash_add t
            (record { address = fresh; cmd_tag = cmd_tag; socket = socket; time = now }))

  -- for(s=ptr_2_hash; s != NULL; s=s->hh.next) if (...) HASH_DEL(ptr_2_hash, s); over the items that
  -- are left. An item that HASH_DEL takes out is not freed and keeps its hh.next, so that the loop
  -- meets the items that the table had at its start.
  unfoldable pub delete_if : (Assoc → Bool) → List Assoc → ut.Table → ut.Table
  delete_if test [] t = t
  delete_if test (s ∷ rest) t = delete_if test rest (if test s then ut.hash_del t s else t)

  unfoldable pub delete_tags_assocs_to_socket : ut.Table → ℕ → ut.Table
  unfolding delete_if
  delete_tags_assocs_to_socket t socket = delete_if (is_of_socket socket) (ut.items t) t

  unfoldable pub purge_hash : ℕ → ut.Table → ut.Table
  unfolding delete_if
  purge_hash now t = delete_if (is_old now) (ut.items t) t

  abbrev pub find_socket_in_hash : ut.Table → ℕ → Option Assoc
  find_socket_in_hash t cmd_tag = ut.hash_find t (u32 cmd_tag)

  unfoldable pub get_socket_in_hash : ut.Table → ℕ → ℕ
  get_socket_in_hash t cmd_tag = socket_of (ut.hash_find t (u32 cmd_tag))

  -- HASH_DEL of what was found, which is not tested.
  unfoldable pub untie_tag_2_socket : ut.Table → ℕ → Option (ut.Table)
  untie_tag_2_socket t cmd_tag = elim (find_socket_in_hash t cmd_tag) [
    | none ↦ none
    | some s ↦ some (ut.hash_del t s)
  ]

  unfoldable pub delete_multi_cmd_tag : ℕ → ut.Table → ℕ → ℕ → ut.Table
  delete_multi_cmd_tag now t cmd_tag old_time =
      if leb (old_time + timeout_cmd_tag) now
      then elim (find_socket_in_hash t cmd_tag) [ none ↦ t | some s ↦ ut.hash_del t s ]
      else t
