-- ===== src/FrameList.antt =====
-- logging/log4c/pointers.c: the circular list of frames that the threads `writer` and `reader` share.
-- Each function is one round of its thread's loop; the number `i` that a round of the writer draws,
-- and fills the frame with, is an argument. What the reader would send is the frame that it reads.
pub mod Fifo
pub mod Race
mod Tests
use cjunk.Prelude.{
  ℕ, zero, suc, ◌+◌, ◌==◌, Bool, ◌&&◌, ◌||◌, Option, none, some, List, [], ◌∷◌, ◌++◌, if◌then◌else◌,
}
use cjunk.Prelude.Word.{u8}

abbrev pub max_frames : ℕ
max_frames = 8

-- frames, wp and rp. A frame is what it is filled with.
pub record FrameList : Type 0 where
  pub frames : ℕ → ℕ
  pub wp : ℕ
  pub rp : ℕ

-- What main leaves: every frame filled with the low byte of 0xabba.
abbrev pub initial : FrameList
initial = record { frames = λ j. 0xba; wp = 0; rp = 0 }

abbrev pub put_frame : (ℕ → ℕ) → ℕ → ℕ → ℕ → ℕ
put_frame f j v k = if k == j then v else f k

-- The writer has caught up with the reader.
pub is_full : FrameList → Bool
is_full r = r.wp + 1 == r.rp || (r.wp + 1 == max_frames && r.rp == 0)

-- memset(frames[wp],i,sizeof(frame)); wp++;
pub store : ℕ → FrameList → FrameList
store i r = record r { frames = put_frame r.frames r.wp (u8 i); wp = r.wp + 1 }

-- if (wp == MAX) wp =0;
pub wrap_wp : FrameList → FrameList
wrap_wp r = record r { wp = if r.wp == max_frames then 0 else r.wp }

-- One round of writer(): the frames that it has stored, and the ring after it.
pub writer : ℕ → FrameList → List ℕ × FrameList
unfolding is_full store wrap_wp
writer i r = if is_full r then ([], r) else (u8 i ∷ [], wrap_wp (store i r))

-- if (rp == MAX) rp =0;
pub wrap_rp : FrameList → FrameList
wrap_rp r = record r { rp = if r.rp == max_frames then 0 else r.rp }

-- The rest of a round of reader().
pub take_frame : FrameList → List ℕ × FrameList
take_frame r = if r.rp == r.wp then ([], r) else (r.frames r.rp ∷ [], record r { rp = r.rp + 1 })

-- One round of reader(): the frames that it has read, and the ring after it.
pub reader : FrameList → List ℕ × FrameList
unfolding wrap_rp take_frame
reader r = take_frame (wrap_rp r)

-- Rounds of the two threads, one after the other.
pub data Round : Type 0 where
  write : ℕ → Round
  read : Round

-- The frames that the reader gets, and the ring at the end.
pub run : List Round → FrameList → List ℕ × FrameList
unfolding writer reader
run [] r = ([], r)
run (write i ∷ rest) r = run rest (writer i r).1
run (read ∷ rest) r = let (got, end) = run rest (reader r).1 in ((reader r).0 ++ got, end)

-- `n` rounds of the reader alone.
pub reads : ℕ → FrameList → List ℕ × FrameList
unfolding reader
reads zero r = ([], r)
reads (suc n) r = let (taken, r1) = reader r in let (more, r2) = reads n r1 in (taken ++ more, r2)
