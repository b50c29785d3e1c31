-- ===== src/Tetris/Tests/Motion.antt =====
-- Drops, moves and rotations of an O piece.
use corestack_50005_htt.Prelude.{ℕ, ◌≡◌, refl, false}
use corestack_50005_htt.Prelude.{arith}
use corestack_50005_htt.Prelude.Int.{pos, negsuc, ◌+ℤ◌}
use corestack_50005_htt.Tetris.State.{GameState}
use corestack_50005_htt.Tetris.Piece.{solid}
use corestack_50005_htt.Tetris.Board.{is_valid_pos, cells_fit, cell_fits}
use corestack_50005_htt.Tetris.Move.{moved, piece_fits, hard_drop}
use corestack_50005_htt.Tetris.Move.Drop.{hard_drop_lem}
use corestack_50005_htt.Tetris.Move.{drop_loop, kick_offsets, test_rotate, rotate_current_piece}
use corestack_50005_htt.Tetris.Move.{rotate_counter_clockwise}
use corestack_50005_htt.Tetris.Piece.{get_transition_index}
use corestack_50005_htt.Tetris.Move.Kicks.{Rotates, rotates_lem}
use corestack_50005_htt.Tetris.Tests.{demo}

-- The same piece at the top.
abbrev high : GameState
high = record demo { current = record { type = 2; rot = 0; x = pos 3; y = negsuc 1 } }

hard_drop_lem_example :
    let (s', rows) = hard_drop high in
    (s' ≡ moved high (pos 3) (negsuc 1 +ℤ pos rows))
    × (piece_fits high (pos 3) (negsuc 1 +ℤ pos rows +ℤ pos 1) ≡ false)
hard_drop_lem_example = hard_drop_lem high (omega arith) (omega arith) (omega arith)

rows_of_high : (hard_drop high).1 ≡ 17
unfolding hard_drop drop_loop is_valid_pos cells_fit cell_fits solid ◌+ℤ◌
rows_of_high = refl

rotates_lem_example :
    let kicks = λ (r : ℕ). kick_offsets 2 (get_transition_index 0 r) in
    Rotates demo 2 (kicks 2) (test_rotate demo 2)
    × Rotates demo 1 (kicks 1) (rotate_current_piece demo, (test_rotate demo 1).1)
    × Rotates demo 3 (kicks 3) (rotate_counter_clockwise demo, (test_rotate demo 3).1)
rotates_lem_example = rotates_lem demo 2
