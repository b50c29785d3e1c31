-- ===== src/Tetris/Board/Wf.antt =====
-- The shape of a board: twenty rows of ten cells, each cell 0 to 8.
use native.Mathlib.Decide.{ℕ_discrete}
use corestack_50005_htt.Prelude.{ℕ, zero, suc, ◌+◌, ◌≤◌, ◌<◌, ◌≡◌, ◌≢◌, ◌⊎◌, inl, inr, ap, ◌∙◌}
use corestack_50005_htt.Prelude.{
  [], ◌∷◌, ◌++◌, arith, length, get_or, set, All, All-set, All-get_in,
}
use corestack_50005_htt.Prelude.{get_or-set_self, get_or-set_ne, length-set, if◌then◌else◌, ◌==◌}
use corestack_50005_htt.Tetris.State.{Row, Board, board_width, board_height, put_cell, cell_at}

abbrev pub IsCell : ℕ → Type 0
IsCell c = c ≤ 8

abbrev pub IsRow : Row → Type 0
IsRow r = (length r ≡ board_width) × All IsCell r

-- `uint8_t cells[BOARD_HEIGHT][BOARD_WIDTH]` with the tiles that the rules write.
pub record IsBoard (b : Board) : Type 0 where
  pub height : length b ≡ board_height
  pub rows : All IsRow b

-- A write at a place of the board keeps its shape.
pub put_cell-IsBoard :
    (b : Board) (y x v : ℕ) → y < board_height → v ≤ 8 → IsBoard b → IsBoard (put_cell b y x v)
put_cell-IsBoard b y x v hy hv w =
    let row = All-get_in IsRow b y [] (omega (arith, w.height)) w.rows in
    record {
      height = length-set b y _ ∙ w.height;
      rows = All-set IsRow b y _ (length-set _ x v ∙ row.0, All-set IsCell _ x v hv row.1) w.rows;
    }

-- The number of cells of a row, and of a board, that are not empty.
abbrev pub filled_row : Row → ℕ
filled_row [] = 0
filled_row (c ∷ cs) = (if c == 0 then 0 else 1) + filled_row cs

abbrev pub filled : Board → ℕ
filled [] = 0
filled (r ∷ b) = filled_row r + filled b

pub filled-append : (a b : Board) → filled (a ++ b) ≡ filled a + filled b
filled-append [] b = omega arith
filled-append (r ∷ a) b = omega (arith, filled-append a b)

-- 1 for a tile and 0 for an empty cell.
abbrev pub tile : ℕ → ℕ
tile c = if c == 0 then 0 else 1

filled_row-set :
    (r : Row) (x v : ℕ)
    → x < length r
    → filled_row (set r x v) + tile (get_or r x 0) ≡ filled_row r + tile v
filled_row-set [] x v h = absurd (omega arith)
filled_row-set (c ∷ cs) zero v h = omega arith
filled_row-set (c ∷ cs) (suc x) v h = omega (arith, filled_row-set cs x v (omega arith))

filled-set :
    (b : Board) (y : ℕ) (r : Row)
    → y < length b
    → filled (set b y r) + filled_row (get_or b y []) ≡ filled b + filled_row r
filled-set [] y r h = absurd (omega arith)
filled-set (q ∷ b) zero r h = omega arith
filled-set (q ∷ b) (suc y) r h = omega (arith, filled-set b y r (omega arith))

module _ (b : Board) (w : IsBoard b) (y x : ℕ) (hy : y < board_height) (hx : x < board_width) where
  row_length : length (get_or b y []) ≡ board_width
  row_length = (All-get_in IsRow b y [] (omega (arith, w.height)) w.rows).0

  -- A write changes the count by the tile that it puts and the one that it removes.
  pub filled-put_cell :
      (v : ℕ) → filled (put_cell b y x v) + tile (cell_at b y x) ≡ filled b + tile v
  filled-put_cell v = omega (
    arith,
    filled-set b y (set (get_or b y []) x v) (omega (arith, w.height)),
    filled_row-set (get_or b y []) x v (omega (arith, row_length)),
  )

  pub cell_at-put_self : (v : ℕ) → cell_at (put_cell b y x v) y x ≡ v
  cell_at-put_self v =
      rw (get_or-set_self b y (set (get_or b y []) x v) [] (omega (arith, w.height)))
        (get_or-set_self (get_or b y []) x v 0 (omega (arith, row_length)))

  pub cell_at-put_ne :
      (v y' x' : ℕ) → (y ≢ y') ⊎ (x ≢ x') → cell_at (put_cell b y x v) y' x' ≡ cell_at b y' x'
  cell_at-put_ne v y' x' (inl ne) =
      ap (λ r. get_or r x' 0) (get_or-set_ne b (set (get_or b y []) x v) [] ne)
  cell_at-put_ne v y' x' (inr ne) = elim (ℕ_discrete y y') [
    | yes e ↦
        rw (← e, get_or-set_self b y (set (get_or b y []) x v) [] (omega (arith, w.height)))
          (get_or-set_ne (get_or b y []) v 0 ne)
    | no far ↦ ap (λ r. get_or r x' 0) (get_or-set_ne b (set (get_or b y []) x v) [] far)
  ]
