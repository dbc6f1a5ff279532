-- ===== src/Unscramble/Tests.antt =====
-- unscramble/unscrambla.c: the theorem at a concrete input.
use cjunk.Prelude.{◌*◌, ◌<◌, ◌≡◌, arith}
use cjunk.Unscramble.{col, row, main}
use cjunk.Unscramble.Bijection.{row_of_number, col_of_number, main-bijective}

main-bijective_example :
    (main (row_of_number 1006) (col_of_number 1006) ≡ 1006)
    × (main 700 33 < row * col)
    × (row_of_number (main 700 33) ≡ 700)
    × (col_of_number (main 700 33) ≡ 33)
main-bijective_example = main-bijective 700 33 1006 (omega arith) (omega arith) (omega arith)
