-- ===== src/FrameList/Fifo.antt =====
-- logging/log4c/pointers.c: the circular list as a queue of at most seven frames.
use mathlib.Core.Path.{◌≡⟨◌⟩◌, ◌∎}
use cjunk.Prelude.{
  ℕ, zero, suc, ◌+◌, ◌-◌, ◌%◌, ◌<◌, ◌≤◌, ◌==◌, ◌≡◌, refl, sym, ap, ◌∙◌, true, false, List, [], ◌∷◌,
  ◌++◌, length, arith, if◌then◌else◌, inl, inr, Bool-cases,
}
use cjunk.Prelude.Word.{u8}
use cjunk.FrameList.{
  FrameList, put_frame, max_frames, is_full, store, wrap_wp, writer, wrap_rp, take_frame, reader,
  Round, write, read, run,
}

-- `n` frames from the place `p` on, round the array.
abbrev pub frames_from : (ℕ → ℕ) → ℕ → ℕ → List ℕ
frames_from f p zero = []
frames_from f p (suc n) = f (p % 8) ∷ frames_from f (p + 1) n

-- The number of frames that are held, and the frames, the oldest first.
abbrev pub held_count : FrameList → ℕ
held_count r = (r.wp + 8 - r.rp) % 8

abbrev pub held : FrameList → List ℕ
held r = frames_from r.frames r.rp (held_count r)

pub record IsFrameList (r : FrameList) : Type 0 where
  pub wp_in : r.wp < max_frames
  pub rp_in : r.rp ≤ max_frames

frames_from-put_frame :
    (f : ℕ → ℕ) (w v p n k : ℕ)
    → (p + n + k) % 8 ≡ w
    → n + k < 8
    → frames_from (put_frame f w v) p n ≡ frames_from f p n
frames_from-put_frame f w v p zero k e l = refl
frames_from-put_frame f w v p (suc n) k e l =
    ground (arith, frames_from-put_frame f w v (p + 1) n k)

frames_from-snoc :
    (f : ℕ → ℕ) (p n : ℕ) → frames_from f p (suc n) ≡ frames_from f p n ++ f ((p + n) % 8) ∷ []
frames_from-snoc f p zero = ground arith
frames_from-snoc f p (suc n) = ground (arith, frames_from-snoc f (p + 1) n)

frames_from-wrap : (f : ℕ → ℕ) (p n : ℕ) → frames_from f (p + 8) n ≡ frames_from f p n
frames_from-wrap f p zero = refl
frames_from-wrap f p (suc n) = ground (arith, frames_from-wrap f (p + 1) n)

room : (r : FrameList) → IsFrameList r → is_full r ≡ false → held_count r < 7
unfolding is_full
room r v e = ground arith

count_stored :
    (r : FrameList) (i : ℕ)
    → IsFrameList r
    → is_full r ≡ false
    → held_count (wrap_wp (store i r)) ≡ suc (held_count r)
unfolding is_full store wrap_wp
count_stored r i v e = ground arith

place : (r : FrameList) → IsFrameList r → (r.rp + held_count r) % 8 ≡ r.wp
place r v = ground arith

at_place : (f : ℕ → ℕ) (w v k : ℕ) → k ≡ w → put_frame f w v k ≡ v
at_place f w v k e = ground arith

stored-held :
    (i : ℕ) (r : FrameList)
    → IsFrameList r
    → is_full r ≡ false
    → held (wrap_wp (store i r)) ≡ held r ++ u8 i ∷ []
unfolding store wrap_wp
stored-held i r v e =
    let n = held_count r in
    let f = put_frame r.frames r.wp (u8 i) in
    held (wrap_wp (store i r))
    ≡⟨ ap (λ k. frames_from f r.rp k) (count_stored r i v e) ⟩ frames_from f r.rp (suc n)
    ≡⟨ frames_from-snoc f r.rp n ⟩ frames_from f r.rp n ++ f ((r.rp + n) % 8) ∷ []
    ≡⟨ ap (λ x. frames_from f r.rp n ++ x ∷ []) (at_place r.frames r.wp (u8 i) _ (place r v)) ⟩
      frames_from f r.rp n ++ u8 i ∷ []
    ≡⟨ ap (λ l. l ++ u8 i ∷ [])
        (frames_from-put_frame r.frames r.wp (u8 i) r.rp n 0 (omega (arith, place r v))
          (omega (arith, room r v e))) ⟩
      held r ++ u8 i ∷ [] ∎

writer-IsFrameList : (i : ℕ) (r : FrameList) → IsFrameList r → IsFrameList (writer i r).1
unfolding writer is_full store wrap_wp
writer-IsFrameList i r v = ground arith

wrap_rp-held : (r : FrameList) → IsFrameList r → held (wrap_rp r) ≡ held r
unfolding wrap_rp
wrap_rp-held r v = elim (Bool-cases (r.rp == 8)) [
  | inl e ↦
      let at : r.rp ≡ 8 = ground arith in
      let n = (r.wp + 8 - 0) % 8 in
      let same : n ≡ (r.wp + 8 - 8) % 8 = omega arith in
      rw e (rw at (sym (frames_from-wrap r.frames 0 n) ∙ ap (λ k. frames_from r.frames 8 k) same))
  | inr e ↦ rw e refl
]

reader-IsFrameList : (r : FrameList) → IsFrameList r → IsFrameList (reader r).1
unfolding reader wrap_rp take_frame
reader-IsFrameList r v = ground arith

length-frames_from : (f : ℕ → ℕ) (p n : ℕ) → length (frames_from f p n) ≡ n
length-frames_from f p zero = refl
length-frames_from f p (suc n) = omega (arith, length-frames_from f (p + 1) n)

-- The specification: a queue that holds seven frames at most.
pub enqueue : ℕ → List ℕ → List ℕ
enqueue x q = if length q == 7 then q else q ++ x ∷ []

pub dequeue : List ℕ → List ℕ × List ℕ
dequeue [] = ([], [])
dequeue (x ∷ q) = (x ∷ [], q)

pub run_queue : List Round → List ℕ → List ℕ × List ℕ
unfolding enqueue dequeue
run_queue [] q = ([], q)
run_queue (write i ∷ rest) q = run_queue rest (enqueue (u8 i) q)
run_queue (read ∷ rest) q =
    let (got, end) = run_queue rest (dequeue q).1 in ((dequeue q).0 ++ got, end)

full_count : (r : FrameList) → IsFrameList r → is_full r ≡ true → held_count r ≡ 7
unfolding is_full
full_count r v e = ground arith

writer-refines :
    (i : ℕ) (r : FrameList) → IsFrameList r → held (writer i r).1 ≡ enqueue (u8 i) (held r)
unfolding enqueue writer
writer-refines i r v = elim (Bool-cases (is_full r)) [
  | inl e ↦
      let seven : (length (held r) == 7) ≡ true =
        ground (arith, full_count r v e, length-frames_from r.frames r.rp (held_count r)) in
      rw e (rw seven refl)
  | inr e ↦
      let fewer : (length (held r) == 7) ≡ false =
        ground (arith, room r v e, length-frames_from r.frames r.rp (held_count r)) in
      rw e (rw fewer (stored-held i r v e))
]

take_frame-refines :
    (r : FrameList)
    → r.rp < 8
    → r.wp < 8
    → dequeue (held r) ≡ ((take_frame r).0, held (take_frame r).1)
unfolding take_frame dequeue
take_frame-refines r p w = elim (Bool-cases (r.rp == r.wp)) [
  | inl e ↦
      let none_held : held_count r ≡ 0 = ground arith in
      rw e (
        ap (λ k. dequeue (frames_from r.frames r.rp k)) none_held
        ∙ ap (λ k. ([], frames_from r.frames r.rp k)) (sym none_held))
  | inr e ↦
      let n = (r.wp + 8 - (r.rp + 1)) % 8 in
      let count : held_count r ≡ suc n = ground arith in
      let first : r.rp % 8 ≡ r.rp = omega arith in
      rw e (
        ap (λ k. dequeue (frames_from r.frames r.rp k)) count
        ∙ ap (λ k. (r.frames k ∷ [], frames_from r.frames (r.rp + 1) n)) first)
]

reader-refines :
    (r : FrameList) → IsFrameList r → dequeue (held r) ≡ ((reader r).0, held (reader r).1)
unfolding reader wrap_rp
reader-refines r v =
    ap dequeue (sym (wrap_rp-held r v))
    ∙ take_frame-refines (wrap_rp r) (ground arith) (ground arith)

-- Whatever the order of the rounds of the two threads is, if each round runs without interruption,
-- the reader gets the frames that it would get from a queue of seven: all that were stored, in their
-- order and once, a round of the writer on a full list storing none. So is what the list holds.
pub rounds_refine :
    (s : List Round) (r : FrameList)
    → IsFrameList r
    → run_queue s (held r) ≡ ((run s r).0, held (run s r).1)
unfolding run run_queue
rounds_refine [] r v = refl
rounds_refine (write i ∷ s) r v =
    ap (λ q. run_queue s q) (sym (writer-refines i r v))
    ∙ rounds_refine s (writer i r).1 (writer-IsFrameList i r v)
rounds_refine (read ∷ s) r v =
    ap (λ p. let (got, end) = run_queue s p.1 in (p.0 ++ got, end)) (reader-refines r v)
    ∙ ap (λ p. ((reader r).0 ++ p.0, p.1)) (rounds_refine s (reader r).1 (reader-IsFrameList r v))
