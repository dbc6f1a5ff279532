-- ===== src/FrameList/Tests.antt =====
-- logging/log4c/pointers.c: the theorems at concrete inputs.
use cjunk.Prelude.{◌+◌, ◌≡◌, refl, true, List, [], ◌∷◌, ◌++◌, arith, suc}
use cjunk.FrameList.{FrameList, initial, Round, write, read, run, store, wrap_wp, is_full, reads}
use cjunk.FrameList.Fifo.{IsFrameList, held, held_count, frames_from, run_queue, rounds_refine}
use cjunk.FrameList.Race.{reader_overtakes}

abbrev rounds_run : List Round
rounds_run = write 5 ∷ read ∷ read ∷ write 6 ∷ write 7 ∷ read ∷ []

initial-IsFrameList : IsFrameList initial
initial-IsFrameList = omega arith

rounds_refine_example :
    run_queue rounds_run (held initial)
    ≡ ((run rounds_run initial).0, held (run rounds_run initial).1)
rounds_refine_example = rounds_refine rounds_run initial initial-IsFrameList

-- Two frames are held, in the places 5 and 6, and a third is stored in 7.
abbrev late : FrameList
late = record { frames = λ j. 10 + j; wp = 7; rp = 5 }

reader_overtakes_example :
    (let stopped = store 3 late in
      let (got, after) = reads (suc (held_count (wrap_wp stopped))) stopped in
      (got ≡ held (wrap_wp stopped) ++ late.frames 0 ∷ [])
      × (held (wrap_wp after) ≡ frames_from stopped.frames 1 7)
      × (is_full (wrap_wp after) ≡ true))
reader_overtakes_example = reader_overtakes 3 late refl (omega arith) (omega arith)
