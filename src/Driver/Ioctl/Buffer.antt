-- ===== src/Driver/Ioctl/Buffer.antt =====
-- plx_ioctl.c: what the caller finds in the buffer that is copied back, and the refused commands.
use cjunk.Prelude.{
  ℕ, zero, suc, ◌+◌, ◌≤◌, ◌<◌, ◌≡◌, ◌≢◌, refl, ap, not, ◌==◌, ltb, leb, ◌||◌, ◌&&◌, if◌then◌else◌,
  ◌∙◌, Bool, true, false, Option, Option-cases, none, some, List, [], ◌∷◌, arith, length, get_or,
  set, ℤ, pos, negsuc, inl, inr,
}
use cjunk.Driver.Defs.{Env}
use cjunk.Driver.Request.{
  Cmd, User, State, Flow, leave, finish, command, order_hw, unknown, mag_num, device_driver_version,
  word, put, efault, enotty, enoioctlcmd, ioc_maxnr, ioc_bufsize,
}
use cjunk.Driver.Ioctl.{
  Reply, dump_from, put_all, counter_words, read_counters, order, order_case, dispatch, reply,
  serve, take_argument, plx_drv_ioctl, fail, dump_one,
}

add_zero : (i : ℕ) → i + 0 ≡ i
add_zero i = omega arith

add_suc : (i j : ℕ) → i + suc j ≡ suc i + j
add_suc i j = omega arith

length-set : (xs : List ℕ) (i v : ℕ) → length (set xs i v) ≡ length xs
length-set [] i v = refl
length-set (x ∷ xs) zero v = refl
length-set (x ∷ xs) (suc i) v = omega (arith, length-set xs i v)

get_or-set : (xs : List ℕ) (i v : ℕ) → i < length xs → get_or (set xs i v) i 0 ≡ v
get_or-set [] i v h = omega arith
get_or-set (x ∷ xs) zero v h = refl
get_or-set (x ∷ xs) (suc i) v h = get_or-set xs i v (omega arith)

pub get_or-set_other : (xs : List ℕ) (i j v : ℕ) → i ≢ j → get_or (set xs i v) j 0 ≡ get_or xs j 0
get_or-set_other [] i j v h = refl
get_or-set_other (x ∷ xs) zero zero v h = absurd (h refl)
get_or-set_other (x ∷ xs) zero (suc j) v h = refl
get_or-set_other (x ∷ xs) (suc i) zero v h = refl
get_or-set_other (x ∷ xs) (suc i) (suc j) v h = get_or-set_other xs i j v (λ e. h (ap suc e))

dump_from-length :
    (e : Env) (n i : ℕ) (s : State) → length (dump_from e n i s).localbuf ≡ length s.localbuf
unfolding dump_from
dump_from-length e zero i s = refl
dump_from-length e (suc n) i s =
    dump_from-length e n (i + 1) (dump_one e i s) ∙ length-set s.localbuf (2 + i) _

put_all-length :
    (i : ℕ) (vs : List ℕ) (s : State) → length (put_all i vs s).localbuf ≡ length s.localbuf
unfolding put_all
put_all-length i [] s = refl
put_all-length i (v ∷ vs) s = put_all-length (suc i) vs (put i v s) ∙ length-set s.localbuf i v

order-length :
    (e : Env) (fuel n : ℕ) (s : State) {r : ℤ × State}
    → order e fuel n s ≡ some r
    → length r.1.localbuf ≡ length s.localbuf
unfolding order read_counters
order-length e fuel n s h =
    ground (arith, dump_from-length e 16 0 s, put_all-length 2 (counter_words s.driver.cntr) s)

reply-copied :
    (u : User) (c : Cmd) (out : Flow × State) {b : List ℕ}
    → (reply u c out).copied ≡ some b
    → b ≡ out.1.localbuf
reply-copied u c (leave r, s) h = cc
reply-copied u c (finish (negsuc n), s) h = cc
reply-copied u c (finish (pos n), s) h = ground arith

order_case-version :
    (e : Env) (fuel : ℕ) (s : State) {out : Flow × State}
    → 1 < length s.localbuf
    → order_case e fuel s ≡ some out
    → word out.1 1 ≡ device_driver_version
unfolding order_case
order_case-version e fuel s {out} long h = elim (Option-cases (order e fuel (word s 0) s)) [
  | inl stuck ↦ ground arith
  | inr ((r, s'), done) ↦
      ground (
        arith,
        get_or-set s'.localbuf 1 device_driver_version,
        order-length e fuel (word s 0) s done,
      )
]

put_all_below : (i j : ℕ) (vs : List ℕ) (s : State) → j < i → word (put_all i vs s) j ≡ word s j
unfolding put_all
put_all_below i j [] s h = refl
put_all_below i j (v ∷ vs) s h =
    put_all_below (suc i) j vs (put i v s) (omega arith)
    ∙ get_or-set_other s.localbuf i j v (λ e. omega arith)

-- A counter is stored behind those before it.
pub get_or-put_all :
    (i j : ℕ) (vs : List ℕ) (s : State)
    → j < length vs
    → i + length vs ≤ length s.localbuf
    → word (put_all i vs s) (i + j) ≡ get_or vs j 0
unfolding put_all
get_or-put_all i j [] s h k = omega arith
get_or-put_all i zero (v ∷ vs) s h k =
    ap (λ k. word (put_all (suc i) vs (put i v s)) k) (add_zero i)
    ∙ put_all_below (suc i) i vs (put i v s) (omega arith)
    ∙ get_or-set s.localbuf i v (omega arith)
get_or-put_all i (suc j) (v ∷ vs) s h k =
    ap (λ k. word (put_all (suc i) vs (put i v s)) k) (add_suc i j)
    ∙ get_or-put_all (suc i) j vs (put i v s) (omega arith)
        (omega (arith, length-set s.localbuf i v))

-- A call that ends with an error, copies nothing back, and leaves the driver's state alone.
pub record Refused (s : State) (out : Option Reply) : Type 0 where
  pub answer : Reply
  pub errno : ℕ
  pub ends : out ≡ some answer
  pub error : answer.result ≡ negsuc errno
  pub nothing_copied : answer.copied ≡ none
  pub untouched : answer.state.driver ≡ s.driver

refuse :
    (s : State) (n : ℕ) (b : List ℕ) {out : Option Reply}
    → out ≡ some (fail (negsuc n) (record s { localbuf = b }))
    → Refused s out
refuse s n b h = record {
  answer = fail (negsuc n) (record s { localbuf = b });
  errno = n;
  ends = h;
  error = refl;
  nothing_copied = refl;
  untouched = refl;
}

module _ (e : Env) (fuel : ℕ) (u : User) (c : Cmd) where
  serve-version :
      (s : State) {r : Reply} {b : List ℕ}
      → command c ≡ order_hw
      → 1 < length s.localbuf
      → serve e fuel u c s ≡ some r
      → r.copied ≡ some b
      → get_or b 1 0 ≡ device_driver_version
  unfolding serve dispatch
  serve-version s is_order long done copied = elim (Option-cases (order_case e fuel s)) [
    | inl stuck ↦ ground (arith, is_order)
    | inr (out, ended) ↦
        ground
          (arith, is_order, ended, order_case-version e fuel s long ended, reply-copied u c out)
  ]

  -- Whatever the order is, if ORDER_HW copies the buffer back to the caller, container->start_addr
  -- holds the driver's version in it. (The buffer has two words or more.)
  pub order_overwrites :
      (s : State) {r : Reply} {b : List ℕ}
      → command c ≡ order_hw
      → 1 < length (u.from_user s.localbuf).1
      → 1 < length s.localbuf
      → plx_drv_ioctl e fuel u c s ≡ some r
      → r.copied ≡ some b
      → get_or b 1 0 ≡ device_driver_version
  unfolding plx_drv_ioctl take_argument
  order_overwrites s {r} {b} is_order long long' done copied =
      let s1 = record s { localbuf = (u.from_user s.localbuf).1 } in
      ground (
        arith,
        serve-version s {r = r} {b = b} is_order long',
        serve-version s1 {r = r} {b = b} is_order long,
      )

  serve-unknown : (s : State) → command c ≡ unknown → serve e fuel u c s ≡ some (fail enoioctlcmd s)
  unfolding serve dispatch
  serve-unknown s h = ground (arith, h)

  -- A command that the switch does not know ends with an error, copies nothing back, and leaves the
  -- driver's state as it was.
  pub unknown-Refused : (s : State) → command c ≡ unknown → Refused s (plx_drv_ioctl e fuel u c s)
  unfolding plx_drv_ioctl take_argument
  unknown-Refused s h =
      tests (not (c.magic == mag_num)) (ltb ioc_maxnr c.nr)
        ((c.reads || c.writes) && not u.access_ok) (c.writes && leb c.size ioc_bufsize) _
        (serve-unknown (record s { localbuf = (u.from_user s.localbuf).1 }) h) (serve-unknown s h)
    where
      tests :
          (a b d f g : Bool) {x y : Option Reply}
          → let b1 = (u.from_user s.localbuf).1 in
            let s1 = record s { localbuf = b1 } in
            x ≡ some (fail enoioctlcmd s1)
            → y ≡ some (fail enoioctlcmd s)
            → Refused s (
                if a
                then some (fail enotty s)
                else if b
                then some (fail enotty s)
                else if d
                then some (fail efault s)
                else if f
                then (if g then some (fail efault s1) else x)
                else y)
      tests true b d f g h k = refuse s 24 s.localbuf refl
      tests false true d f g h k = refuse s 24 s.localbuf refl
      tests false false true f g h k = refuse s 13 s.localbuf refl
      tests false false false true true h k = refuse s 13 (u.from_user s.localbuf).1 refl
      tests false false false true false h k = refuse s 514 (u.from_user s.localbuf).1 h
      tests false false false false g h k = refuse s 514 s.localbuf k
