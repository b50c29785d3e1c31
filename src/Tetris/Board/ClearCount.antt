-- ===== src/Tetris/Board/ClearCount.antt =====
-- What clearing lines keeps: the shape of the board, and the count of its tiles.
use corestack_50005_htt.Prelude.{ℕ, zero, suc, ◌+◌, ◌*◌, ◌≡◌, refl, ◌∙◌}
use corestack_50005_htt.Prelude.{true, Bool-cases, inl, inr, arith}
use corestack_50005_htt.Prelude.{[], ◌∷◌, ◌++◌, length, replicate, length-append}
use corestack_50005_htt.Prelude.{length-replicate, All, All-append, All-replicate}
use corestack_50005_htt.Tetris.State.{Row, Board, GameState, board_height}
use corestack_50005_htt.Tetris.Board.{is_full, empty_row, clear_lines}
use corestack_50005_htt.Tetris.Board.Wf.{IsRow, IsBoard, filled, filled_row, filled-append}
use corestack_50005_htt.Tetris.Board.Clear.{full_count, keep, clear_lines_lem}

filled_row-full : (r : Row) → is_full r ≡ true → filled_row r ≡ length r
unfolding is_full
filled_row-full [] e = refl
filled_row-full (c ∷ cs) e = ground (arith, filled_row-full cs)

filled-keep : (b : Board) → All IsRow b → filled (keep b) + 10 * full_count b ≡ filled b
filled-keep [] h = refl
filled-keep (r ∷ b) h = ground (arith, filled-keep b h.1, filled_row-full r, h.0.0)

filled-empty : (k : ℕ) → filled (replicate k empty_row) ≡ 0
filled-empty zero = refl
filled-empty (suc k) = omega (arith, filled-empty k)

All-keep : (b : Board) → All IsRow b → All IsRow (keep b)
All-keep [] h = tt
All-keep (r ∷ b) h = elim (Bool-cases (is_full r)) [
  | inl e ↦ rw e (All-keep b h.1)
  | inr e ↦ rw e (h.0, All-keep b h.1)
]

length-keep : (b : Board) → length (keep b) + full_count b ≡ length b
length-keep [] = refl
length-keep (r ∷ b) = ground (arith, length-keep b)

empty_row-IsRow : IsRow empty_row
empty_row-IsRow = omega arith

-- `clear_lines` keeps the shape of the board, and each line that it clears takes ten tiles away.
pub clear_lines-IsBoard :
    (s : GameState)
    → IsBoard s.board
    → let (s', lines) = clear_lines s in
      IsBoard s'.board × (filled s'.board + 10 * lines ≡ filled s.board)
clear_lines-IsBoard s w =
    let (count, board, _, _, _) = clear_lines_lem s w.height in
    let top = replicate (full_count s.board) empty_row in
    rw (count, board)
      (
        record {
          height = omega (
            arith,
            length-append top (keep s.board),
            length-keep s.board,
            w.height,
            length-replicate (full_count s.board) empty_row,
          );
          rows =
              All-append IsRow top (keep s.board) (All-replicate IsRow _ empty_row empty_row-IsRow)
                (All-keep s.board w.rows);
        },
        omega (
          arith,
          filled-append top (keep s.board),
          filled-keep s.board w.rows,
          filled-empty (full_count s.board),
        ),
      )

full_count-empty : (k : ℕ) (b : Board) → full_count (replicate k empty_row ++ b) ≡ full_count b
unfolding is_full
full_count-empty zero b = refl
full_count-empty (suc k) b = omega (arith, full_count-empty k b)

full_count-keep : (b : Board) → full_count (keep b) ≡ 0
full_count-keep [] = refl
full_count-keep (r ∷ b) = ground (arith, full_count-keep b)

-- After `clear_lines` no row of the board is full.
pub full_count-clear_lines :
    (s : GameState) → length s.board ≡ board_height → full_count (clear_lines s).0.board ≡ 0
full_count-clear_lines s h =
    rw ((clear_lines_lem s h).1)
      (full_count-empty (full_count s.board) (keep s.board) ∙ full_count-keep s.board)
