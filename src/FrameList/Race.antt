-- ===== src/FrameList/Race.antt =====
-- logging/log4c/pointers.c: rounds of the reader between the two lines with which the writer steps wp.
use cjunk.Prelude.{
  ℕ, zero, suc, ◌+◌, ◌-◌, ◌%◌, ◌<◌, ◌≤◌, ◌==◌, ◌≡◌, refl, ap, ◌∙◌, true, false, [], ◌∷◌, ◌++◌,
  arith,
}
use cjunk.Prelude.Word.{u8}
use cjunk.FrameList.{
  FrameList, put_frame, is_full, store, wrap_wp, wrap_rp, take_frame, reader, reads,
}
use cjunk.FrameList.Fifo.{frames_from, held_count, held}

abbrev ring : (ℕ → ℕ) → ℕ → ℕ → FrameList
ring f w p = record { frames = f; wp = w; rp = p }

reader-wrapped : (f : ℕ → ℕ) → reader (ring f 8 8) ≡ (f 0 ∷ [], ring f 8 1)
unfolding reader wrap_rp take_frame
reader-wrapped f = refl

reader-passed :
    (f : ℕ → ℕ) (p : ℕ) → p < 8 → reader (ring f 8 p) ≡ (f (p % 8) ∷ [], ring f 8 (p + 1))
unfolding reader wrap_rp take_frame
reader-passed f p l =
    let inside : (p == 8) ≡ false = ground arith in
    rw inside (rw inside (ap (λ k. (f k ∷ [], ring f 8 (p + 1))) (omega arith)))

-- While wp is 8, the reader finds a frame at each place up to 7, and then at 0.
reads_past :
    (n : ℕ) (f : ℕ → ℕ) (p : ℕ)
    → p + n ≡ 8
    → reads (suc n) (ring f 8 p) ≡ (frames_from f p n ++ f 0 ∷ [], ring f 8 1)
unfolding reads
reads_past zero f p e =
    let last : p ≡ 8 = omega arith in
    ap (λ k. reads 1 (ring f 8 k)) last ∙ ap (λ q. (q.0 ++ [], q.1)) (reader-wrapped f)
reads_past (suc n) f p e =
    ap (λ q. let (more, end) = reads (suc n) q.1 in (q.0 ++ more, end))
      (reader-passed f p (omega arith))
    ∙ ap (λ q. (f (p % 8) ∷ q.0, q.1)) (reads_past n f (p + 1) (omega arith))

-- The writer has stored a frame in the last place, and is stopped before it sets wp to 0. The reader
-- then gets all frames that are held, and after them the frame in place 0, which is not among them.
-- When the writer goes on, the list holds the seven frames from place 1 on, as if it were full.
pub reader_overtakes :
    (i : ℕ) (r : FrameList)
    → r.wp ≡ 7
    → 1 ≤ r.rp
    → r.rp ≤ 7
    → (let stopped = store i r in
        let (got, after) = reads (suc (held_count (wrap_wp stopped))) stopped in
        (got ≡ held (wrap_wp stopped) ++ r.frames 0 ∷ [])
        × (held (wrap_wp after) ≡ frames_from stopped.frames 1 7)
        × (is_full (wrap_wp after) ≡ true))
unfolding store wrap_wp is_full
reader_overtakes i r w l h =
    let passed = reads_past ((8 - r.rp) % 8) (put_frame r.frames 7 (u8 i)) r.rp (omega arith) in
    rw w (rw passed (refl, refl, refl))
