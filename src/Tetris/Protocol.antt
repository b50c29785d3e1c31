-- ===== src/Tetris/Protocol.antt =====
-- libtetrisprotocol/protocol.c: what the server sends of a `GameState`, and what the client takes
-- from it. The conversions between `int` and `int32_t` keep the value; those to `uint32_t` wrap. A
-- counter that is a natural number here would be negative in C for a received word from 2^31 on,
-- which no server sends; the model takes the word as it is.
pub mod Mirror
mod Tests
use package.corestack_50005_htt.Prelude.{ℕ, zero, suc, ◌+◌, ◌%◌, ◌^◌, Bool, true, false, not, ◌==◌}
use package.corestack_50005_htt.Prelude.{if◌then◌else◌, List, [], ◌∷◌, get_or, set}
use package.corestack_50005_htt.Prelude.Int.{ℤ}
use package.corestack_50005_htt.Tetris.State.{GameState, Board}

pub record StatePayload : Type 0 where
  pub board : Board
  pub current_type : ℕ
  pub current_rot : ℕ
  pub current_x : ℤ
  pub current_y : ℤ
  pub next_type : ℕ
  pub preview : List ℕ
  pub held_type : ℕ
  pub has_held : ℕ
  pub player_id : ℕ
  pub score : ℕ
  pub level : ℕ
  pub lines_cleared : ℕ
  pub combo : ℤ
  pub b2b : ℕ
  pub t_spins : ℕ
  pub tetrises : ℕ
  pub pending_garbage : ℕ
  pub target_player_id : ℕ
  pub target_mode : ℕ
  pub game_over : ℕ
  pub winner_id : ℕ

-- `(uint32_t)` of a number that is not negative.
abbrev pub to_word : ℕ → ℕ
to_word n = n % 2 ^ 32

-- `(uint32_t)` of a `bool`, and `(bool)` of a word.
abbrev pub of_bool : Bool → ℕ
of_bool b = if b then 1 else 0

abbrev pub to_bool : ℕ → Bool
to_bool w = not (w == 0)

-- The loop over the preview, with `n` pieces left.
pub preview_from : GameState → ℕ → ℕ → List ℕ
preview_from s zero i = []
preview_from s (suc n) i =
    to_word (get_or s.bag ((s.bag_index + i) % 14) 0) ∷ preview_from s n (i + 1)

-- `build_state_payload`, which leaves `next_type` as it was in the payload.
pub build_state_payload : GameState → StatePayload → StatePayload
build_state_payload s payload = record payload {
  board = s.board;
  current_type = to_word s.current.type;
  current_rot = to_word s.current.rot;
  current_x = s.current.x;
  current_y = s.current.y;
  preview = preview_from s 3 0;
  held_type = s.held_type;
  has_held = of_bool s.has_held;
  player_id = s.player_id;
  score = to_word s.score;
  level = to_word s.level;
  lines_cleared = to_word s.lines_cleared;
  combo = s.combo;
  b2b = of_bool s.b2b;
  t_spins = to_word s.t_spins;
  tetrises = to_word s.tetrises;
  pending_garbage = s.pending_garbage;
  target_player_id = s.target_player_id;
  target_mode = to_word s.target_mode;
  game_over = to_word s.game_over;
  winner_id = s.winner_id;
}

-- The loop that fills the first places of the bag, from the place `i` on.
pub fill_bag : List ℕ → ℕ → ℕ → List ℕ → List ℕ
fill_bag preview zero i bag = bag
fill_bag preview (suc n) i bag = fill_bag preview n (i + 1) (set bag i (get_or preview i 0))

pub apply_state_payload : StatePayload → GameState → GameState
apply_state_payload payload s = record s {
  board = payload.board;
  current = record {
    type = payload.current_type;
    rot = payload.current_rot;
    x = payload.current_x;
    y = payload.current_y;
  };
  bag_index = 0;
  bag = fill_bag payload.preview 3 0 s.bag;
  held_type = payload.held_type;
  has_held = to_bool payload.has_held;
  player_id = payload.player_id;
  score = payload.score;
  level = payload.level;
  lines_cleared = payload.lines_cleared;
  combo = payload.combo;
  b2b = to_bool payload.b2b;
  t_spins = payload.t_spins;
  tetrises = payload.tetrises;
  pending_garbage = payload.pending_garbage;
  target_player_id = payload.target_player_id;
  target_mode = payload.target_mode;
  game_over = payload.game_over;
  winner_id = payload.winner_id;
}
