-- ===== src/Sockets/Tests.antt =====
-- The theorem about connections at a concrete input.
use cjunk.Prelude.{
  ℕ, suc, ◌+◌, ◌≡◌, refl, List, [], ◌∷◌, ℤ, pos, negsuc, length, arith, if◌then◌else◌, ltb,
}
use cjunk.Sockets.{Net, Sys, close, socket, setsockopt, minus_one}
use cjunk.Sockets.Connecting.{Posix, Refuses, opened, attempts, failures, create_connection-leak}

-- The sockets that a process made, if it can have three.
abbrev sockets : List Sys → ℕ
sockets [] = 0
sockets (socket f t ∷ l) = if ltb (sockets l) 3 then suc (sockets l) else sockets l
sockets (c ∷ l) = sockets l

-- A system with three descriptors for sockets, a peer that refuses each connection, and no close.
abbrev answers : List Sys → Sys → ℤ
answers l (socket f t) = if ltb (sockets l) 3 then pos (3 + sockets l) else minus_one
answers l (setsockopt (pos fd) o v) = pos 0
answers l c = minus_one

abbrev refusing : Net
refusing = record { answer = answers; inet_addr = λ t. 16777343 }

refusing-Posix : Posix refusing
refusing-Posix = record {
  socket_answers = λ l f t h. ground arith;
  connect_bad = λ l a. refl;
  setsockopt_bad = λ l o v. refl;
}

length-opened : (l : List Sys) → length (opened refusing l) ≡ sockets l
length-opened [] = refl
length-opened (socket f t ∷ l) = ground (arith, length-opened l)
length-opened (close (pos fd) ∷ l) = length-opened l
length-opened (close (negsuc n) ∷ l) = length-opened l
length-opened (c ∷ l) = length-opened l

refusing-Refuses : Refuses refusing 3
refusing-Refuses = record {
  makes = λ l h. 3 + sockets l;
  made = λ l h. ground (arith, length-opened l);
  exhausted = λ l h. ground (arith, length-opened l);
  refused = λ l s a. refl;
}

create_connection-leak_example :
    ((attempts refusing 4390 "127.0.0.1" (pos 0) 5 []).0 ≡ failures 5)
    × (length (opened refusing (attempts refusing 4390 "127.0.0.1" (pos 0) 5 []).1) ≡ 3)
create_connection-leak_example =
    create_connection-leak refusing refusing-Posix 3 refusing-Refuses 4390 "127.0.0.1" (pos 0) 5 []
      (ground arith)
