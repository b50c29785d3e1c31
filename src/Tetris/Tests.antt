-- ===== src/Tetris/Tests.antt =====
-- Small games on which the theorems about the rules are applied.
mod Motion
mod Supply
mod Rivals
use corestack_50005_htt.Prelude.{ℕ, ◌+◌, ◌-◌, ◌*◌, ◌/◌, ◌≡◌, ◌≤◌, refl, true, false, inl, inr}
use corestack_50005_htt.Prelude.{[], ◌∷◌, ◌++◌, length, replicate, arith, Draws, count}
use corestack_50005_htt.Prelude.{if◌then◌else◌, ◌==◌, ltb, ◌⊎◌, drop}
use corestack_50005_htt.Prelude.Int.{pos, negsuc, ◌+ℤ◌, ltb_ℤ}
use corestack_50005_htt.Tetris.State.{Board, GameState, cell_at}
use corestack_50005_htt.Tetris.Piece.{solid, get_rotation_index, box}
use corestack_50005_htt.Tetris.Piece.Rotation.{rotation_quarter_turn, rotation_index_inj}
use corestack_50005_htt.Tetris.Board.{
  is_valid_pos, cells_fit, cell_fits, is_full, lock_piece, clear_lines, empty_row,
}
use corestack_50005_htt.Tetris.Board.Wf.{IsBoard, filled}
use corestack_50005_htt.Tetris.Board.Fits.{Fits, is_valid_pos_iff}
use corestack_50005_htt.Tetris.Board.Lock.{covers, lock_piece_lem}
use corestack_50005_htt.Tetris.Board.LockCount.{filled-lock_piece}
use corestack_50005_htt.Tetris.Board.Clear.{full_count, keep, clear_lines_lem}
use corestack_50005_htt.Tetris.Board.ClearCount.{clear_lines-IsBoard, full_count-clear_lines}
use corestack_50005_htt.Tetris.Bag.{kinds, shuffle_array, spawn_new_piece}
use corestack_50005_htt.Tetris.Bag.Fair.{IsDeal, IsBag, shuffle_array_lem, spawn-IsBag, deal}
use corestack_50005_htt.Tetris.Garbage.{add_garbage, queue_garbage, calculate_garbage}
use corestack_50005_htt.Tetris.Garbage.Rise.{garbage_rows, add_garbage_lem, queue_garbage_lem}
use corestack_50005_htt.Tetris.Garbage.Attack.{calculate_garbage_mono}
use corestack_50005_htt.Tetris.Move.{moved, piece_fits, hard_drop, move_left, move_right, soft_drop}
use corestack_50005_htt.Tetris.Move.Drop.{hard_drop_lem, hard_drop_way}
use corestack_50005_htt.Tetris.Engine.{
  zero_state, land, start_game, update_timers, tick_game, check_t_spin,
}
use corestack_50005_htt.Tetris.Engine.{cancel_garbage}
use corestack_50005_htt.Tetris.Engine.Ok.{GameOk}
use corestack_50005_htt.Tetris.Engine.Steps.{start, next, left, Reach-Ok}
use corestack_50005_htt.Tetris.Engine.Timers.{run_timers, rests_then_locks, update_timers_bounds}
use corestack_50005_htt.Tetris.Killfeed.{Entry, Killfeed, no_entry, add_kill_feed, draw_kill_feed}
use corestack_50005_htt.Tetris.Killfeed.Recent.{IsFeed, last_four, add_kill_feed_lem}
use corestack_50005_htt.Tetris.Targeting.{Roster, resolve_target_id, cycle_manual_target}
use corestack_50005_htt.Tetris.Targeting.Cycle.{cycle_manual_target_lem}
use corestack_50005_htt.Tetris.Targeting.Choice.{Living, resolve_target_id_lem, resolve_random}
use corestack_50005_htt.Tetris.Engine.Ok.{cancel_garbage_lem}
use corestack_50005_htt.Tetris.Move.{drop_loop, kick_offsets, test_rotate, rotate_current_piece}
use corestack_50005_htt.Tetris.Move.{rotate_counter_clockwise}
use corestack_50005_htt.Tetris.Piece.{get_transition_index}
use corestack_50005_htt.Prelude.{◌<◌, ◌↔◌}
use corestack_50005_htt.Tetris.Move.Kicks.{
  Rotates, rotates_lem, Moves, moves_lem, kick, kick_inverse,
}
use corestack_50005_htt.Tetris.Engine.Turn.{land_lem}
use corestack_50005_htt.Tetris.Engine.Landing.{land-tiles}

abbrev pub no_luck : Draws
no_luck k = 0

-- Row 18 has a hole at column 9, row 19 is full.
abbrev pub low_board : Board
low_board = replicate 18 empty_row ++ (replicate 9 3 ++ 0 ∷ []) ∷ replicate 10 8 ∷ []

-- An O piece over column 4 and 5, one row above the stack.
abbrev pub demo : GameState
demo = record zero_state {
  board = low_board;
  current = record { type = 2; rot = 0; x = pos 3; y = pos 15 };
  bag = kinds ++ kinds;
  level = 1;
  combo = negsuc 0;
}

pub low_board-IsBoard : IsBoard low_board
low_board-IsBoard = record { height = refl; rows = omega arith }

abbrev pub kinds-IsDeal : IsDeal kinds
kinds-IsDeal = record { size = refl; each = λ v. refl }

abbrev pub demo-IsBag : IsBag demo.bag demo.bag_index
demo-IsBag = record {
  first = kinds;
  second = kinds;
  halves = refl;
  first_deal = kinds-IsDeal;
  second_deal = kinds-IsDeal;
  index = omega arith;
}

demo-Ok : GameOk demo
demo-Ok = record {
  board_ok = low_board-IsBoard;
  bag_ok = demo-IsBag;
  piece_ok = omega arith;
  held_ok = omega arith;
  pending_ok = omega arith;
  score_ok = refl;
  level_ok = refl;
}

demo-fits : is_valid_pos demo 2 0 (pos 3) (pos 15) ≡ true
unfolding is_valid_pos cells_fit cell_fits solid ◌+ℤ◌ ltb_ℤ
demo-fits = refl

pub demo-Fits : Fits demo.board 2 0 (pos 3) (pos 15)
demo-Fits = (is_valid_pos_iff demo 2 0 (pos 3) (pos 15)).0 demo-fits

demo-rests : piece_fits demo (pos 3) (pos 16) ≡ false
unfolding is_valid_pos cells_fit cell_fits solid ◌+ℤ◌ ltb_ℤ
demo-rests = refl

Reach-Ok_example : GameOk (move_left (start_game no_luck).0).0
Reach-Ok_example = Reach-Ok (next (start no_luck) (left (start_game no_luck).0))

clear_lines_lem_example :
    let (s', lines) = clear_lines demo in
    (lines ≡ 1)
    × (s'.board ≡ empty_row ∷ keep low_board)
    × (s'.lines_cleared ≡ 0 + lines)
    × (s'.score ≡ 0 + lines * 100)
    × (s'.level ≡ (if ltb 0 lines then s'.lines_cleared / 10 + 1 else 1))
unfolding is_full
clear_lines_lem_example = clear_lines_lem demo refl

land_lem_example :
    let (t, cleared, _) = land demo no_luck in
    let damage = (calculate_garbage demo cleared (check_t_spin demo)).1 in
    (t.outgoing_garbage ≡ damage - 0)
    × (t.pending_garbage ≡ (if cleared == 0 then 0 else 0 - damage))
    × (t.combo ≡ (if cleared == 0 then negsuc 0 else negsuc 0 +ℤ pos 1))
    × (t.pieces_placed ≡ 1)
    × (t.t_spins ≡ 0 + (if check_t_spin demo then 1 else 0))
    × (t.tetrises ≡ 0 + (if cleared == 4 then 1 else 0))
land_lem_example = land_lem demo no_luck (omega arith)

land-tiles_example :
    filled (land demo no_luck).0.board + 10 * (land demo no_luck).1 ≡ filled low_board + 4
land-tiles_example = land-tiles demo no_luck demo-Ok (omega arith) demo-Fits (inl refl)

is_valid_pos_iff_example :
    (is_valid_pos demo 2 0 (pos 3) (pos 15) ≡ true) ↔ Fits low_board 2 0 (pos 3) (pos 15)
is_valid_pos_iff_example = is_valid_pos_iff demo 2 0 (pos 3) (pos 15)

lock_piece_lem_example :
    cell_at (lock_piece demo).board 17 5
    ≡ (if covers 2 0 (pos 3) (pos 15) box 5 17 then 2 else cell_at low_board 17 5)
lock_piece_lem_example =
    lock_piece_lem demo 5 17 low_board-IsBoard (omega arith) (omega arith) (omega arith)

-- 30 rests into its lock.
abbrev resting : GameState
resting = record demo { lock_timer = 30 }

rests_then_locks_example :
    (run_timers 19 resting no_luck ≡ (record demo { lock_timer = 49 }, no_luck))
    × (update_timers (record demo { lock_timer = 49 }) no_luck ≡ (
      record (tick_game (record demo { lock_timer = 50 }) no_luck).0 {
        lock_timer = 0;
        gravity_timer = 0;
      },
      true,
      (tick_game (record demo { lock_timer = 50 }) no_luck).2,
    ))
unfolding ◌+ℤ◌ is_valid_pos
rests_then_locks_example = rests_then_locks resting no_luck demo-rests (omega arith)
