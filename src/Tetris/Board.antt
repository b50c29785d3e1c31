-- ===== src/Tetris/Board.antt =====
-- The board functions of libtetrisbrain/board_control.c: the collision test, locking a piece and
-- clearing lines. A function of C that changes `*state` takes the old state and returns the new.
pub mod Wf
pub mod Fits
pub mod Lock
pub mod LockCount
pub mod Clear
pub mod ClearCount
use package.corestack_50005_htt.Prelude.{ℕ, zero, suc, ◌+◌, ◌*◌, ◌/◌, ◌%◌, ◌^◌, Bool, true, false}
use package.corestack_50005_htt.Prelude.{not, ◌&&◌, ◌||◌, ◌==◌, if◌then◌else◌, List, [], ◌∷◌}
use package.corestack_50005_htt.Prelude.{get_or, set, replicate, ltb}
use package.corestack_50005_htt.Prelude.Int.{ℤ, pos, pos_part, ◌+ℤ◌, ltb_ℤ}
use package.corestack_50005_htt.Tetris.State.{board_width, board_height, Row, Board, cell_at}
use package.corestack_50005_htt.Tetris.State.{put_cell, GameState}
use package.corestack_50005_htt.Tetris.Piece.{solid, box}

-- The body of the inner loop of `is_valid_pos`: `false` is its `return false`.
unfoldable pub cell_fits : Board → ℕ → ℕ → ℤ → ℤ → ℕ × ℕ → Bool
cell_fits board type rot pos_x pos_y (px, py) =
    if not (solid type rot px py)
    then true
    else let board_x = pos_x +ℤ pos px in
      let board_y = pos_y +ℤ pos py in
      if ltb_ℤ board_x (pos 0)
        || not (ltb_ℤ board_x (pos board_width))
        || not (ltb_ℤ board_y (pos board_height))
      then false
      else if not (ltb_ℤ board_y (pos 0))
          && not (cell_at board (pos_part board_y) (pos_part board_x) == 0)
      then false
      else true

-- The two loops over the box.
unfoldable pub cells_fit : Board → ℕ → ℕ → ℤ → ℤ → List (ℕ × ℕ) → Bool
cells_fit board type rot pos_x pos_y [] = true
cells_fit board type rot pos_x pos_y (c ∷ cs) =
    if cell_fits board type rot pos_x pos_y c
    then cells_fit board type rot pos_x pos_y cs
    else false

-- `is_valid_pos`
unfoldable pub is_valid_pos : GameState → ℕ → ℕ → ℤ → ℤ → Bool
is_valid_pos s type rot pos_x pos_y = cells_fit s.board type rot pos_x pos_y box

-- The body of the inner loop of `lock_piece`. The cell is a `uint8_t`.
pub lock_cell : ℕ → ℕ → ℤ → ℤ → ℕ × ℕ → Board → Board
lock_cell type rot x y (px, py) b =
    let board_x = x +ℤ pos px in
    let board_y = y +ℤ pos py in
    if solid type rot px py
    then if not (ltb_ℤ board_y (pos 0)) && ltb_ℤ board_y (pos board_height)
      then if not (ltb_ℤ board_x (pos 0)) && ltb_ℤ board_x (pos board_width)
        then put_cell b (pos_part board_y) (pos_part board_x) (type % 2 ^ 8)
        else b
      else b
    else b

pub lock_cells : ℕ → ℕ → ℤ → ℤ → List (ℕ × ℕ) → Board → Board
lock_cells type rot x y [] b = b
lock_cells type rot x y (c ∷ cs) b = lock_cells type rot x y cs (lock_cell type rot x y c b)

-- `lock_piece`
unfoldable pub lock_piece : GameState → GameState
lock_piece s = record s {
  board = lock_cells s.current.type s.current.rot s.current.x s.current.y box s.board;
}

-- The loop that looks for an empty cell in a row: `is_full`.
unfoldable pub is_full : Row → Bool
is_full [] = true
is_full (c ∷ cs) = if c == 0 then false else is_full cs

abbrev pub empty_row : Row
empty_row = replicate board_width 0

-- `for (yy = y; yy > 0; yy--) cells[yy] = cells[yy - 1]`, each step the copy of a whole row.
pub shift_rows : ℕ → Board → Board
shift_rows zero b = b
shift_rows (suc yy) b = shift_rows yy (set b (suc yy) (get_or b yy []))

-- The loop of `clear_lines`, with `y = n - 1`: it goes on with the same row where it was full, and
-- returns the board and `lines_cleared`. The first number is fuel.
pub clear_loop : ℕ → ℕ → Board → ℕ → Board × ℕ
clear_loop zero n b lines = (b, lines)
clear_loop (suc fuel) zero b lines = (b, lines)
clear_loop (suc fuel) (suc y) b lines =
    let again = clear_loop fuel (suc y) (set (shift_rows y b) 0 empty_row) (lines + 1) in
    let up = clear_loop fuel y b lines in if is_full (get_or b y []) then again else up

-- `clear_lines`: the new state and the number of lines. Each row is met once, and once more for
-- each line that is cleared.
unfoldable pub clear_lines : GameState → GameState × ℕ
clear_lines s =
    let (b, lines) = clear_loop (2 * board_height + 1) board_height s.board 0 in
    let total = s.lines_cleared + lines in
    if ltb 0 lines
    then (
      record s {
        board = b;
        lines_cleared = total;
        level = total / 10 + 1;
        score = s.score + lines * 100;
      },
      lines,
    )
    else (record s { board = b }, lines)
