-- ===== src/Tetris/State.antt =====
-- The data of tetris/include/lib/libtetrisbrain: board.h, piece.h and state.h.
-- An `int` that can be negative is an integer, one that only counts up from 0 is a natural number.
-- The enumerations are numbers, as in C, where a received word is cast to them unchecked.
use corestack_50005_htt.Prelude.{ℕ, List, Bool, get_or, set}
use corestack_50005_htt.Prelude.Int.{ℤ}

abbrev pub board_width : ℕ
board_width = 10

abbrev pub board_height : ℕ
board_height = 20

-- `uint8_t cells[BOARD_HEIGHT][BOARD_WIDTH]`, from the top row down.
abbrev pub Row : Type 0
Row = List ℕ

abbrev pub Board : Type 0
Board = List Row

-- `cells[y][x]`, read and written.
abbrev pub cell_at : Board → ℕ → ℕ → ℕ
cell_at b y x = get_or (get_or b y List.[]) x 0

abbrev pub put_cell : Board → ℕ → ℕ → ℕ → Board
put_cell b y x v = set b y (set (get_or b y List.[]) x v)

-- `Piece`: type 0 is PIECE_NONE, 1 to 7 are I O T S Z J L; rot is 0 to 3.
pub record Piece : Type 0 where
  pub type : ℕ
  pub rot : ℕ
  pub x : ℤ
  pub y : ℤ

pub record GameState : Type 0 where
  pub board : Board
  pub current : Piece
  pub next : Piece
  pub target_mode : ℕ
  pub player_id : ℕ
  pub target_player_id : ℕ
  pub gravity_timer : ℕ
  pub lock_timer : ℕ
  pub held_type : ℕ
  pub has_held : Bool
  pub bag : List ℕ
  pub bag_index : ℕ
  pub pieces_placed : ℕ
  pub tetrises : ℕ
  pub t_spins : ℕ
  pub last_action_rotation : Bool
  pub pending_garbage : ℕ
  pub outgoing_garbage : ℕ
  pub last_attacker_id : ℕ
  pub score : ℕ
  pub lines_cleared : ℕ
  pub combo : ℤ
  pub b2b : Bool
  pub level : ℕ
  pub game_over : ℕ
  pub winner_id : ℕ

-- `TargetingMode`
abbrev pub target_manual : ℕ
target_manual = 0

abbrev pub target_random : ℕ
target_random = 1

abbrev pub target_ko : ℕ
target_ko = 2

abbrev pub target_mode_count : ℕ
target_mode_count = 3
