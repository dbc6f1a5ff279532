-- ===== src/Sockets/Connecting.antt =====
-- socket/communication.c: what create_connection returns, and which descriptors it leaves open.
use Prim.Native.String.{String}
use cjunk.Prelude.{
  ℕ, zero, suc, ◌+◌, ◌==◌, ◌<◌, ◌≤◌, ltb, leb, ◌≡◌, refl, ap, ◌∙◌, Bool, true, false, List, [], ◌∷◌,
  ℤ, pos, negsuc, arith, length, if◌then◌else◌, ◌&&◌, not,
}
use cjunk.Prelude.Word.{u16}
use cjunk.Sockets.{
  Net, S, Sys, close, Address, Opt, Family, SocketKind, socket, connect, setsockopt, inet, stream,
  inet_at, so_reuseaddr, is_ok, is_error, minus_one, htons, create_connection,
}

abbrev remove : ℕ → List ℕ → List ℕ
remove fd [] = []
remove fd (x ∷ fds) = if x == fd then fds else x ∷ remove fd fds

-- The descriptors that are open after the calls, latest first: socket makes one, and close, if it
-- succeeds, takes one away.
abbrev pub opened : Net → List Sys → List ℕ
opened k [] = []
opened k (socket f t ∷ l) = elim (k.answer l (socket f t)) [
  | pos fd ↦ fd ∷ opened k l
  | negsuc n ↦ opened k l
]
opened k (close (pos fd) ∷ l) =
    if is_ok (k.answer l (close (pos fd))) then remove fd (opened k l) else opened k l
opened k (c ∷ l) = opened k l

-- What POSIX says of the calls: socket answers a descriptor or -1, and a call on the descriptor -1
-- fails with -1.
pub record Posix (k : Net) : Type 0 where
  pub socket_answers :
      (l : List Sys) (f : Family) (t : SocketKind) {n : ℕ}
      → k.answer l (socket f t) ≡ negsuc n
      → n ≡ 0
  pub connect_bad : (l : List Sys) (a : Address) → k.answer l (connect minus_one a) ≡ minus_one
  pub setsockopt_bad :
      (l : List Sys) (o : Opt) (v : ℤ) → k.answer l (setsockopt minus_one o v) ≡ minus_one

abbrev pub peer : Net → ℕ → String → Address
peer k port addr = inet_at (htons (u16 port)) (k.inet_addr addr)

-- connect and then setsockopt succeed on the descriptor that socket, called after `l`, has answered.
abbrev pub is_accepted : Net → ℕ → String → List Sys → ℕ → Bool
is_accepted k port addr l fd =
    let l1 = socket inet stream ∷ l in
    let c = connect (pos fd) (peer k port addr) in
    is_ok (k.answer l1 c)
    && not (is_error (k.answer (c ∷ l1) (setsockopt (pos fd) so_reuseaddr (pos 1))))

-- The descriptor of a connection, or -1.
abbrev pub if_accepted : (ℕ → Bool) → ℤ → ℤ
if_accepted p (pos fd) = if p fd then pos fd else minus_one
if_accepted p (negsuc n) = minus_one

-- The open descriptors after socket has answered.
abbrev pub with_made : ℤ → List ℕ → List ℕ
with_made (pos fd) fds = fd ∷ fds
with_made (negsuc n) fds = fds

module _ (k : Net) (posix : Posix k) where
  connected :
      (port : ℕ) (addr : String) (bufsize : ℤ) (l : List Sys) (s : ℤ)
      → k.answer l (socket inet stream) ≡ s
      → ((create_connection k port addr bufsize l).0 ≡ if_accepted (is_accepted k port addr l) s)
        × (opened k (create_connection k port addr bufsize l).1 ≡ with_made s (opened k l))
  unfolding create_connection
  connected port addr bufsize l (pos fd) made =
      let c = connect (pos fd) (peer k port addr) in
      ground (arith, posix.setsockopt_bad (c ∷ socket inet stream ∷ l) so_reuseaddr (pos 1))
  connected port addr bufsize l (negsuc n) made =
      let l1 = socket inet stream ∷ l in
      let c = connect minus_one (peer k port addr) in
      ground (
        arith,
        posix.socket_answers l inet stream made,
        posix.connect_bad l1 (peer k port addr),
        posix.setsockopt_bad (c ∷ l1) so_reuseaddr (pos 1),
      )

-- A system on which a process can have `limit` descriptors of sockets, and on which the peer refuses
-- every connection.
pub record Refuses (k : Net) (limit : ℕ) : Type 0 where
  pub makes : (l : List Sys) → length (opened k l) < limit → ℕ
  pub made :
      (l : List Sys) (h : length (opened k l) < limit)
      → k.answer l (socket inet stream) ≡ pos (makes l h)
  pub exhausted :
      (l : List Sys) → limit ≤ length (opened k l) → k.answer l (socket inet stream) ≡ minus_one
  pub refused : (l : List Sys) (s : ℤ) (a : Address) → k.answer l (connect s a) ≡ minus_one

-- A client that calls create_connection so many times.
abbrev pub attempts : Net → ℕ → String → ℤ → ℕ → S (List ℤ)
attempts k port addr bufsize zero l = ([], l)
attempts k port addr bufsize (suc n) l =
    let (r, l1) = create_connection k port addr bufsize l in
    let (rs, l2) = attempts k port addr bufsize n l1 in (r ∷ rs, l2)

abbrev pub failures : ℕ → List ℤ
failures zero = []
failures (suc n) = minus_one ∷ failures n

-- The descriptors that are open after `n` more were asked for.
abbrev pub at_most : ℕ → ℕ → ℕ
at_most limit n = if leb n limit then n else limit

module _ (k : Net) (posix : Posix k) (limit : ℕ) (refuses : Refuses k limit) where
  one_attempt :
      (port : ℕ) (addr : String) (bufsize : ℤ) (l : List Sys)
      → length (opened k l) ≤ limit
      → ((create_connection k port addr bufsize l).0 ≡ minus_one)
        × (length (opened k (create_connection k port addr bufsize l).1)
            ≡ at_most limit (suc (length (opened k l))))
  one_attempt port addr bufsize l small = by_test (ltb (length (opened k l)) limit) refl
    where
      by_test :
          (b : Bool)
          → ltb (length (opened k l)) limit ≡ b
          → ((create_connection k port addr bufsize l).0 ≡ minus_one)
            × (length (opened k (create_connection k port addr bufsize l).1)
                ≡ at_most limit (suc (length (opened k l))))
      by_test true h =
          let room : length (opened k l) < limit = ground arith in
          let fd = refuses.makes l room in
          let (r, o) = connected k posix port addr bufsize l (pos fd) (refuses.made l room) in
          let no = refuses.refused (socket inet stream ∷ l) (pos fd) (peer k port addr) in
          (ground (arith, r, no), ap length o ∙ ground arith)
      by_test false h =
          let full : limit ≤ length (opened k l) = ground arith in
          let (r, o) = connected k posix port addr bufsize l minus_one (refuses.exhausted l full) in
          (r, ap length o ∙ ground arith)

  -- While the peer refuses every connection, on a system that answers as POSIX says: however often a
  -- client tries again, each create_connection returns -1 and leaves one more descriptor open, until
  -- all descriptors that the process can have are in use.
  pub create_connection-leak :
      (port : ℕ) (addr : String) (bufsize : ℤ) (n : ℕ) (l : List Sys)
      → length (opened k l) ≤ limit
      → ((attempts k port addr bufsize n l).0 ≡ failures n)
        × (length (opened k (attempts k port addr bufsize n l).1)
            ≡ at_most limit (n + length (opened k l)))
  create_connection-leak port addr bufsize zero l small = (refl, ground arith)
  create_connection-leak port addr bufsize (suc n) l small =
      let l1 = (create_connection k port addr bufsize l).1 in
      let (r, o) = one_attempt port addr bufsize l small in
      let (rs, os) = create_connection-leak port addr bufsize n l1 (ground (arith, o)) in
      (rw (r, rs) refl, ground (arith, o, os))
