-- ===== src/Tetris/Board/LockCount.antt =====
-- Locking a piece that fits adds its four cells to the tiles of the board.
use corestack_50005_htt.Prelude.{ℕ, ◌+◌, ◌%◌, ◌^◌, ◌≤◌, ◌<◌, ◌≡◌, ◌≢◌, ◌⊎◌}
use corestack_50005_htt.Prelude.{true, List, [], ◌∷◌, arith}
use corestack_50005_htt.Prelude.{All, if◌then◌else◌, inl, inr}
use corestack_50005_htt.Prelude.Int.{ℤ, pos, pos_part, ◌+ℤ◌, ◌≤ℤ◌, +ℤ_parts}
use corestack_50005_htt.Tetris.State.{Board, GameState, cell_at}
use corestack_50005_htt.Tetris.Piece.{solid, box}
use corestack_50005_htt.Tetris.Piece.Rotation.{count_solid, count_solid-box, All-box}
use corestack_50005_htt.Tetris.Board.{lock_cell, lock_cells, lock_piece}
use corestack_50005_htt.Tetris.Board.Wf.{IsBoard, cell_at-put_ne}
use corestack_50005_htt.Tetris.Board.Wf.{filled, filled-put_cell}
use corestack_50005_htt.Tetris.Board.Lock.{
  on_board, on_board_range, lock_cell-cases, lock_cell-IsBoard,
}
use corestack_50005_htt.Tetris.Board.Fits.{Fits}

-- A position of the piece that may be locked: where it is solid it lies on an empty cell.
abbrev Free : ℕ → ℕ → ℤ → ℤ → Board → ℕ × ℕ → Type 0
Free type rot x y b (px, py) =
    solid type rot px py ≡ true
    → (on_board (x +ℤ pos px) (y +ℤ pos py) ≡ true)
      × (cell_at b (pos_part (y +ℤ pos py)) (pos_part (x +ℤ pos px)) ≡ 0)

-- No position stands twice in the list.
abbrev Distinct : List (ℕ × ℕ) → Type 0
Distinct [] = Unit {0}
Distinct (c ∷ cs) = All (λ d. c ≢ d) cs × Distinct cs

module _ (type rot : ℕ) (x y : ℤ) (h1 : 1 ≤ type) (h7 : type ≤ 7) where
  Free-lock_cell :
      (c d : ℕ × ℕ) (b : Board)
      → IsBoard b
      → c ≢ d
      → Free type rot x y b d
      → Free type rot x y (lock_cell type rot x y c b) d
  Free-lock_cell (px, py) (qx, qy) b w ne f s = elim (lock_cell-cases type rot x y px py b) [
    | inl (sp, o, e) ↦
        let (row, col, nr, nc, hr, hc) = on_board_range (x +ℤ pos px) (y +ℤ pos py) o in
        let (row', col', nr', nc', hr', hc') = on_board_range (x +ℤ pos qx) (y +ℤ pos qy) (f s).0 in
        let apart : (row ≢ row') ⊎ (col ≢ col') = ground (
          arith,
          +ℤ_parts x (pos px),
          +ℤ_parts x (pos qx),
          +ℤ_parts y (pos py),
          +ℤ_parts y (pos qy),
        ) in
        (
          (f s).0,
          rw e (
              ground (arith, f s, cell_at-put_ne b w row col hr hc (type % 2 ^ 8) row' col' apart)),
        )
    | inr (o, e) ↦ rw e (f s)
  ]

  filled-lock_cell :
      (c : ℕ × ℕ) (b : Board)
      → IsBoard b
      → Free type rot x y b c
      → filled (lock_cell type rot x y c b) ≡ (if solid type rot c.0 c.1 then 1 else 0) + filled b
  filled-lock_cell (px, py) b w f = elim (lock_cell-cases type rot x y px py b) [
    | inl (sp, o, e) ↦
        let (row, col, nr, nc, hr, hc) = on_board_range (x +ℤ pos px) (y +ℤ pos py) o in
        rw e (ground (arith, f sp, filled-put_cell b w row col hr hc (type % 2 ^ 8)))
    | inr (o, e) ↦ rw e (ground arith)
  ]

  All-Free :
      (c : ℕ × ℕ) (cs : List (ℕ × ℕ)) (b : Board)
      → IsBoard b
      → All (λ d. c ≢ d) cs
      → All (Free type rot x y b) cs
      → All (Free type rot x y (lock_cell type rot x y c b)) cs
  All-Free c [] b w ne f = tt
  All-Free c (d ∷ cs) b w ne f = (Free-lock_cell c d b w ne.0 f.0, All-Free c cs b w ne.1 f.1)

  filled-lock_cells :
      (cs : List (ℕ × ℕ)) (b : Board)
      → IsBoard b
      → Distinct cs
      → All (Free type rot x y b) cs
      → filled (lock_cells type rot x y cs b) ≡ count_solid type rot cs + filled b
  unfolding lock_cells count_solid
  filled-lock_cells [] b w n f = omega arith
  filled-lock_cells (c ∷ cs) b w n f = omega (
    arith,
    filled-lock_cell c b w f.0,
    filled-lock_cells cs (lock_cell type rot x y c b)
        (lock_cell-IsBoard type rot x y c b (omega arith) w) n.1 (All-Free c cs b w n.0 f.1),
  )

box-Distinct : Distinct box
box-Distinct = ground arith

Free-Fits :
    (s : GameState)
    → pos 0 ≤ℤ s.current.y
    → Fits s.board s.current.type s.current.rot s.current.x s.current.y
    → (px py : ℕ) → px < 4
    → py < 4
    → Free s.current.type s.current.rot s.current.x s.current.y s.board (px, py)
Free-Fits s hy f px py hx hy' sol =
    let (left, right, low, free) = f.at px py hx hy' sol in
    let inside : pos 0 ≤ℤ s.current.y +ℤ pos py = omega (arith, +ℤ_parts s.current.y (pos py)) in
    (ground arith, free inside)

-- Locking one of the seven pieces where it fits, no lower than row 0 of its box, adds four tiles.
pub filled-lock_piece :
    (s : GameState)
    → IsBoard s.board
    → 1 ≤ s.current.type
    → s.current.type ≤ 7
    → s.current.rot < 4
    → pos 0 ≤ℤ s.current.y
    → Fits s.board s.current.type s.current.rot s.current.x s.current.y
    → filled (lock_piece s).board ≡ filled s.board + 4
unfolding lock_piece
filled-lock_piece s w h1 h7 hr hy f = omega (
  arith,
  count_solid-box s.current.type s.current.rot h1 h7 hr,
  filled-lock_cells s.current.type s.current.rot s.current.x s.current.y h1 h7 box s.board w
      box-Distinct
      (All-box (Free s.current.type s.current.rot s.current.x s.current.y s.board)
        (Free-Fits s hy f)),
)
