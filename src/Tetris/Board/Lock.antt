-- ===== src/Tetris/Board/Lock.antt =====
-- `lock_piece` against its meaning, cell by cell, and the count of the tiles.
use native.Mathlib.Decide.{ℕ_discrete}
use corestack_50005_htt.Prelude.{ℕ, ◌%◌, ◌^◌, ◌≤◌, ◌<◌, ◌≡◌, refl, subst, ◌⊎◌}
use corestack_50005_htt.Prelude.{Bool, true, false, List, [], ◌∷◌, ◌&&◌, ◌||◌, not, arith}
use corestack_50005_htt.Prelude.{if◌then◌else◌, Bool-cases, inl, inr}
use corestack_50005_htt.Prelude.Int.{ℤ, pos, pos_part, ◌+ℤ◌, eqb_ℤ, ltb_ℤ}
use corestack_50005_htt.Tetris.State.{
  Board, GameState, board_width, board_height, cell_at, put_cell,
}
use corestack_50005_htt.Tetris.Piece.{solid, box}
use corestack_50005_htt.Tetris.Board.{lock_cell, lock_cells, lock_piece}
use corestack_50005_htt.Tetris.Board.Wf.{
  IsBoard, put_cell-IsBoard, cell_at-put_self, cell_at-put_ne,
}

-- The position (px, py) of a piece at (x, y) is solid and lies on the cell in column `bx`, row `by`.
abbrev pub hits : ℕ → ℕ → ℤ → ℤ → ℕ × ℕ → ℕ → ℕ → Bool
hits type rot x y (px, py) bx by =
    solid type rot px py && eqb_ℤ (x +ℤ pos px) (pos bx) && eqb_ℤ (y +ℤ pos py) (pos by)

unfoldable pub covers : ℕ → ℕ → ℤ → ℤ → List (ℕ × ℕ) → ℕ → ℕ → Bool
covers type rot x y [] bx by = false
covers type rot x y (c ∷ cs) bx by = hits type rot x y c bx by || covers type rot x y cs bx by

-- The two range tests of `lock_piece` at the position (px, py).
abbrev pub on_board : ℤ → ℤ → Bool
on_board bx by =
    not (ltb_ℤ by (pos 0))
    && ltb_ℤ by (pos board_height)
    && (not (ltb_ℤ bx (pos 0)) && ltb_ℤ bx (pos board_width))

-- A place on the board: its row and column, which are not negative, and their bounds.
pub on_board_range :
    (bx by : ℤ)
    → on_board bx by ≡ true
    → (row : ℕ) × (col : ℕ) × (by ≡ pos row)
      × (bx ≡ pos col)
      × (row < board_height)
      × (col < board_width)
on_board_range bx by o =
    (pos_part by, pos_part bx, ground arith, ground arith, ground arith, ground arith)

module _ (type rot : ℕ) (x y : ℤ) where
  lock_cell-put :
      (px py : ℕ) (b : Board)
      → solid type rot px py ≡ true
      → on_board (x +ℤ pos px) (y +ℤ pos py) ≡ true
      → lock_cell type rot x y (px, py) b
        ≡ put_cell b (pos_part (y +ℤ pos py)) (pos_part (x +ℤ pos px)) (type % 2 ^ 8)
  unfolding lock_cell
  lock_cell-put px py b s o = ground arith

  lock_cell-skip :
      (px py : ℕ) (b : Board)
      → (solid type rot px py && on_board (x +ℤ pos px) (y +ℤ pos py)) ≡ false
      → lock_cell type rot x y (px, py) b ≡ b
  unfolding lock_cell
  lock_cell-skip px py b o = ground arith

  -- Either the position is solid and on the board, and is written, or nothing changes.
  pub lock_cell-cases :
      (px py : ℕ) (b : Board)
      → (solid type rot px py ≡ true)
          × (on_board (x +ℤ pos px) (y +ℤ pos py) ≡ true)
          × (lock_cell type rot x y (px, py) b
              ≡ put_cell b (pos_part (y +ℤ pos py)) (pos_part (x +ℤ pos px)) (type % 2 ^ 8))
        ⊎ ((solid type rot px py && on_board (x +ℤ pos px) (y +ℤ pos py)) ≡ false)
          × (lock_cell type rot x y (px, py) b ≡ b)
  lock_cell-cases px py b = elim (Bool-cases (solid type rot px py)) [
    | inl s ↦ elim (Bool-cases (on_board (x +ℤ pos px) (y +ℤ pos py))) [
      | inl o ↦ inl (s, o, lock_cell-put px py b s o)
      | inr o ↦
          let off : (solid type rot px py && on_board (x +ℤ pos px) (y +ℤ pos py)) ≡ false =
            ground arith in
          inr (off, lock_cell-skip px py b off)
    ]
    | inr s ↦
        let off : (solid type rot px py && on_board (x +ℤ pos px) (y +ℤ pos py)) ≡ false =
          ground arith in
        inr (off, lock_cell-skip px py b off)
  ]

  pub lock_cell-IsBoard :
      (c : ℕ × ℕ) (b : Board) → type ≤ 8 → IsBoard b → IsBoard (lock_cell type rot x y c b)
  lock_cell-IsBoard (px, py) b h w = elim (lock_cell-cases px py b) [
    | inl (s, o, e) ↦ rw e (put_cell-IsBoard b _ _ _ (ground arith) (omega arith) w)
    | inr (o, e) ↦ rw e w
  ]

  lock_cells-IsBoard :
      (cs : List (ℕ × ℕ)) (b : Board)
      → type ≤ 8
      → IsBoard b
      → IsBoard (lock_cells type rot x y cs b)
  unfolding lock_cells
  lock_cells-IsBoard [] b h w = w
  lock_cells-IsBoard (c ∷ cs) b h w = lock_cells-IsBoard cs _ h (lock_cell-IsBoard c b h w)

  lock_cell_lem :
      (c : ℕ × ℕ) (b : Board) (bx by : ℕ)
      → bx < board_width
      → by < board_height
      → IsBoard b
      → cell_at (lock_cell type rot x y c b) by bx
        ≡ (if hits type rot x y c bx by then type % 2 ^ 8 else cell_at b by bx)
  lock_cell_lem (px, py) b bx by hx hy w = elim (lock_cell-cases px py b) [
    | inl (s, o, e) ↦
        let (row, col, nr, nc, hr, hc) = on_board_range (x +ℤ pos px) (y +ℤ pos py) o in
        rw e (elim (ℕ_discrete row by) [
          | yes ey ↦ elim (ℕ_discrete col bx) [
            | yes ex ↦ ground (arith, nr, nc, cell_at-put_self b w row col hr hc (type % 2 ^ 8))
            | no nx ↦
                ground
                  (arith, nr, nc, cell_at-put_ne b w row col hr hc (type % 2 ^ 8) by bx (inr nx))
          ]
          | no ny ↦
              ground (arith, nr, nc, cell_at-put_ne b w row col hr hc (type % 2 ^ 8) by bx (inl ny))
        ])
    | inr (o, e) ↦ rw e (ground arith)
  ]

  lock_cells_lem :
      (cs : List (ℕ × ℕ)) (b : Board) (bx by : ℕ)
      → bx < board_width
      → by < board_height
      → IsBoard b
      → type ≤ 8
      → cell_at (lock_cells type rot x y cs b) by bx
        ≡ (if covers type rot x y cs bx by then type % 2 ^ 8 else cell_at b by bx)
  unfolding lock_cells covers
  lock_cells_lem [] b bx by hx hy w t = refl
  lock_cells_lem (c ∷ cs) b bx by hx hy w t = ground (
    arith,
    lock_cells_lem cs (lock_cell type rot x y c b) bx by hx hy (lock_cell-IsBoard c b t w) t,
    lock_cell_lem c b bx by hx hy w,
  )

-- `lock_piece` keeps the shape of the board.
pub lock_piece-IsBoard :
    (s : GameState) → IsBoard s.board → s.current.type ≤ 8 → IsBoard (lock_piece s).board
unfolding lock_piece
lock_piece-IsBoard s w t =
    lock_cells-IsBoard s.current.type s.current.rot s.current.x s.current.y box s.board t w

-- On a board of the right shape, for a piece of type at most 7, `lock_piece` writes the type into
-- the cells of the board that the solid positions of the piece cover, and leaves every other cell as
-- it was.
pub lock_piece_lem :
    (s : GameState) (bx by : ℕ)
    → IsBoard s.board
    → s.current.type ≤ 7
    → bx < board_width
    → by < board_height
    → cell_at (lock_piece s).board by bx ≡ (
        if covers s.current.type s.current.rot s.current.x s.current.y box bx by
        then s.current.type
        else cell_at s.board by bx)
unfolding lock_piece
lock_piece_lem s bx by w t hx hy =
    let low : s.current.type % 2 ^ 8 ≡ s.current.type = omega arith in
    subst
      (λ v.
        cell_at (lock_cells s.current.type s.current.rot s.current.x s.current.y box s.board) by bx
        ≡ (if covers s.current.type s.current.rot s.current.x s.current.y box bx by
            then v
            else cell_at s.board by bx))
      low
      (lock_cells_lem s.current.type s.current.rot s.current.x s.current.y box s.board bx by hx hy w
        (omega arith))
