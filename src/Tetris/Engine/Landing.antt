-- ===== src/Tetris/Engine/Landing.antt =====
-- The tiles on the board through a turn.
use corestack_50005_htt.Prelude.{ℕ, ◌+◌, ◌*◌, ◌≡◌, ◌≢◌, ap, ◌∙◌}
use corestack_50005_htt.Prelude.{Bool-cases, inl, inr, arith}
use corestack_50005_htt.Prelude.{◌⊎◌, Draws}
use corestack_50005_htt.Prelude.Int.{pos, ◌≤ℤ◌}
use corestack_50005_htt.Tetris.State.{GameState}
use corestack_50005_htt.Tetris.Board.{clear_lines}
use corestack_50005_htt.Tetris.Board.Wf.{IsBoard, filled}
use corestack_50005_htt.Tetris.Board.Fits.{Fits}
use corestack_50005_htt.Tetris.Board.LockCount.{filled-lock_piece}
use corestack_50005_htt.Tetris.Board.ClearCount.{clear_lines-IsBoard}
use corestack_50005_htt.Tetris.Engine.{take_garbage, land}
use corestack_50005_htt.Tetris.Engine.{check_t_spin}
use corestack_50005_htt.Tetris.Engine.Ok.{GameOk, cancel_garbage_lem, Ok-lock}
use corestack_50005_htt.Tetris.Engine.Turn.{placed_state, cancelled_state, damage_of, charged_state}
use corestack_50005_htt.Tetris.Engine.Turn.{counted_state, risen_state, Counted-all}
use corestack_50005_htt.Tetris.Engine.Turn.{calculate_garbage_frame, next_piece_frame}

board-take :
    (s : GameState) (cleared : ℕ) (d : Draws)
    → (s.pending_garbage ≡ 0) ⊎ (cleared ≢ 0)
    → (take_garbage s cleared d).0.board ≡ s.board
unfolding take_garbage
board-take s cleared d h = ground arith

filled-placed :
    (s : GameState)
    → GameOk s
    → pos 0 ≤ℤ s.current.y
    → Fits s.board s.current.type s.current.rot s.current.x s.current.y
    → IsBoard (placed_state s).board × (filled (placed_state s).board ≡ filled s.board + 4)
filled-placed s o hy f = elim (Bool-cases (check_t_spin s)) [
  | inl e ↦
      let t = record s { t_spins = s.t_spins + 1 } in
      rw e (
        (Ok-lock t o).board_ok,
        filled-lock_piece t o.board_ok (o.piece_ok).0 (o.piece_ok).1 (o.piece_ok).2 hy f,
      )
  | inr e ↦ rw e (
    (Ok-lock s o).board_ok,
    filled-lock_piece s o.board_ok (o.piece_ok).0 (o.piece_ok).1 (o.piece_ok).2 hy f,
  )
]

-- In a turn in which no garbage rises, because none was pending or lines were cleared, a piece that
-- lands where it fits, no higher than row 0, adds four tiles to the board and each cleared line
-- takes ten away.
pub land-tiles :
    (s : GameState) (d : Draws)
    → GameOk s
    → pos 0 ≤ℤ s.current.y
    → Fits s.board s.current.type s.current.rot s.current.x s.current.y
    → (s.pending_garbage ≡ 0) ⊎ ((land s d).1 ≢ 0)
    → filled (land s d).0.board + 10 * (land s d).1 ≡ filled s.board + 4
unfolding land
land-tiles s d o hy f h =
    let n = (clear_lines (placed_state s)).1 in
    let c = Counted-all s in
    let charge = calculate_garbage_frame (counted_state s) n (check_t_spin s) in
    let due : (charged_state s).pending_garbage ≡ s.pending_garbage =
      ap (λ (u : GameState). u.pending_garbage) charge ∙ c.pending in
    let (less, out, cancel) =
      cancel_garbage_lem (charged_state s) (damage_of s) (omega (arith, due, o.pending_ok)) in
    let quiet : ((cancelled_state s).pending_garbage ≡ 0) ⊎ (n ≢ 0) = ground (arith, less, due) in
    let (shape, four) = filled-placed s o hy f in
    let board : (land s d).0.board ≡ (clear_lines (placed_state s)).0.board =
      ap (λ (u : GameState). u.board) (next_piece_frame (risen_state s d).0 (risen_state s d).1)
      ∙ board-take (cancelled_state s) n d quiet
      ∙ ap (λ (u : GameState). u.board) cancel
      ∙ ap (λ (u : GameState). u.board) charge
      ∙ c.cleared_board in
    rw board ((clear_lines-IsBoard (placed_state s) shape).1 ∙ four)
