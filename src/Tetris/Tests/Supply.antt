-- ===== src/Tetris/Tests/Supply.antt =====
-- The bag and the garbage.
use corestack_50005_htt.Prelude.{◌≡◌, refl}
use corestack_50005_htt.Prelude.{◌++◌, arith}
use corestack_50005_htt.Prelude.{drop}
use corestack_50005_htt.Prelude.Int.{pos}
use corestack_50005_htt.Tetris.Garbage.{add_garbage}
use corestack_50005_htt.Tetris.Garbage.Rise.{garbage_rows, add_garbage_lem}
use corestack_50005_htt.Tetris.Tests.{no_luck, low_board, demo}

add_garbage_lem_example :
    (add_garbage demo (pos 2) no_luck).0.board ≡ drop 2 low_board ++ garbage_rows 2 no_luck
add_garbage_lem_example = add_garbage_lem demo 2 no_luck refl (omega arith)
