-- ===== src/Tetris/Protocol/Tests.antt =====
-- A snapshot of a started game, taken by a client whose state is empty.
use corestack_50005_htt.Prelude.{arith, ◌∷◌, drop, ◌≡◌, refl, [], true, replicate}
use corestack_50005_htt.Prelude.Int.{pos}
use corestack_50005_htt.Tetris.State.{GameState}
use corestack_50005_htt.Tetris.Bag.{kinds}
use corestack_50005_htt.Prelude.{◌++◌}
use corestack_50005_htt.Tetris.Engine.{zero_state}
use corestack_50005_htt.Tetris.Protocol.{StatePayload, build_state_payload, apply_state_payload}
use corestack_50005_htt.Tetris.Protocol.Mirror.{Words, apply-build_state_payload}

abbrev shown : GameState
shown = record zero_state {
  current = record { type = 3; rot = 1; x = pos 4; y = pos 9 };
  bag = kinds ++ kinds;
  bag_index = 5;
  has_held = true;
  held_type = 6;
  score = 1200;
  lines_cleared = 12;
  level = 2;
}

abbrev blank : StatePayload
blank = record {
  board = [];
  current_type = 0;
  current_rot = 0;
  current_x = pos 0;
  current_y = pos 0;
  next_type = 0;
  preview = replicate 3 0;
  held_type = 0;
  has_held = 0;
  player_id = 0;
  score = 0;
  level = 0;
  lines_cleared = 0;
  combo = pos 0;
  b2b = 0;
  t_spins = 0;
  tetrises = 0;
  pending_garbage = 0;
  target_player_id = 0;
  target_mode = 0;
  game_over = 0;
  winner_id = 0;
}

shown-Words : Words shown
shown-Words = record {
  bag_words = ground arith;
  type_word = omega arith;
  rot_word = omega arith;
  score_word = omega arith;
  level_word = omega arith;
  lines_word = omega arith;
  spins_word = omega arith;
  fours_word = omega arith;
  mode_word = omega arith;
  over_word = omega arith;
}

apply-build_state_payload_example :
    apply_state_payload (build_state_payload shown blank) zero_state ≡ record zero_state {
      board = shown.board;
      current = shown.current;
      bag_index = 0;
      bag = 6 ∷ 7 ∷ 1 ∷ drop 3 zero_state.bag;
      held_type = 6;
      has_held = true;
      player_id = shown.player_id;
      score = 1200;
      level = 2;
      lines_cleared = 12;
      combo = shown.combo;
      b2b = shown.b2b;
      t_spins = shown.t_spins;
      tetrises = shown.tetrises;
      pending_garbage = shown.pending_garbage;
      target_player_id = shown.target_player_id;
      target_mode = shown.target_mode;
      game_over = shown.game_over;
      winner_id = shown.winner_id;
    }
apply-build_state_payload_example =
    apply-build_state_payload shown zero_state blank shown-Words refl
