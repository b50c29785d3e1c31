-- ===== src/Tetris/Protocol/Mirror.antt =====
-- The client's mirror shows what the server has sent.
use native.Mathlib.Nat.{mod-eq_of_lt}
use corestack_50005_htt.Prelude.{ℕ, zero, suc, All, IsWord, ◌+◌, ◌%◌, ◌^◌, ◌<◌, ◌≡◌, refl}
use corestack_50005_htt.Prelude.{Bool, true, false, List, [], ◌∷◌, drop, length, get_or, arith}
use corestack_50005_htt.Tetris.State.{GameState}
use corestack_50005_htt.Tetris.Protocol.{StatePayload, to_word, of_bool, to_bool, preview_from}
use corestack_50005_htt.Tetris.Protocol.{build_state_payload, fill_bag, apply_state_payload}

to_bool-of_bool : (b : Bool) → to_bool (of_bool b) ≡ b
to_bool-of_bool true = refl
to_bool-of_bool false = refl

-- The three pieces of a preview stand at the front of the bag, and the other places are left.
fill_bag_lem :
    (a b c : ℕ) (bag : List ℕ)
    → length bag ≡ 14
    → fill_bag (a ∷ b ∷ c ∷ []) 3 0 bag ≡ a ∷ b ∷ c ∷ drop 3 bag
unfolding fill_bag
fill_bag_lem a b c (x ∷ y ∷ z ∷ bag) h = refl
fill_bag_lem a b c bag h = absurd (omega arith)

-- The piece that comes `i` pieces behind the current one.
abbrev pub coming : GameState → ℕ → ℕ
coming s i = get_or s.bag ((s.bag_index + i) % 14) 0

get_or-IsWord : (l : List ℕ) (i : ℕ) → All IsWord l → get_or l i 0 < 2 ^ 32
get_or-IsWord [] i h = omega arith
get_or-IsWord (x ∷ l) zero h = h.0
get_or-IsWord (x ∷ l) (suc i) h = get_or-IsWord l i h.1

-- The pieces in the bag, the counters and the enumerations of a state are words.
pub record Words (s : GameState) : Type 0 where
  pub bag_words : All IsWord s.bag
  pub type_word : s.current.type < 2 ^ 32
  pub rot_word : s.current.rot < 2 ^ 32
  pub score_word : s.score < 2 ^ 32
  pub level_word : s.level < 2 ^ 32
  pub lines_word : s.lines_cleared < 2 ^ 32
  pub spins_word : s.t_spins < 2 ^ 32
  pub fours_word : s.tetrises < 2 ^ 32
  pub mode_word : s.target_mode < 2 ^ 32
  pub over_word : s.game_over < 2 ^ 32

-- Where the counters and the bag of the server's state are words and the client's bag has 14 places, the client's
-- state after a snapshot is its old one with the board, the piece, the hold, the player, the counters, the pending
-- garbage, the target and the result of the server's, with the index of its bag at 0 and, in the first
-- three places, the three pieces that come next at the server.
pub apply-build_state_payload :
    (s m : GameState) (payload : StatePayload)
    → Words s
    → length m.bag ≡ 14
    → apply_state_payload (build_state_payload s payload) m ≡ record m {
      board = s.board;
      current = s.current;
      bag_index = 0;
      bag = coming s 0 ∷ coming s 1 ∷ coming s 2 ∷ drop 3 m.bag;
      held_type = s.held_type;
      has_held = s.has_held;
      player_id = s.player_id;
      score = s.score;
      level = s.level;
      lines_cleared = s.lines_cleared;
      combo = s.combo;
      b2b = s.b2b;
      t_spins = s.t_spins;
      tetrises = s.tetrises;
      pending_garbage = s.pending_garbage;
      target_player_id = s.target_player_id;
      target_mode = s.target_mode;
      game_over = s.game_over;
      winner_id = s.winner_id;
    }
unfolding build_state_payload apply_state_payload preview_from
apply-build_state_payload s m payload w h =
    rw
      (
        fill_bag_lem (to_word (coming s 0)) (to_word (coming s 1)) (to_word (coming s 2)) m.bag h,
        mod-eq_of_lt (get_or-IsWord s.bag ((s.bag_index + 0) % 14) w.bag_words),
        mod-eq_of_lt (get_or-IsWord s.bag ((s.bag_index + 1) % 14) w.bag_words),
        mod-eq_of_lt (get_or-IsWord s.bag ((s.bag_index + 2) % 14) w.bag_words),
        to_bool-of_bool s.has_held,
        to_bool-of_bool s.b2b,
        mod-eq_of_lt w.type_word,
        mod-eq_of_lt w.rot_word,
        mod-eq_of_lt w.score_word,
        mod-eq_of_lt w.level_word,
        mod-eq_of_lt w.lines_word,
        mod-eq_of_lt w.spins_word,
        mod-eq_of_lt w.fours_word,
        mod-eq_of_lt w.mode_word,
        mod-eq_of_lt w.over_word,
      )
      refl
