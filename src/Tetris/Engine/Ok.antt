-- ===== src/Tetris/Engine/Ok.antt =====
-- The invariant of a running game, and that every operation of the rules keeps it.
use corestack_50005_htt.Prelude.Int.{to_int}
use corestack_50005_htt.Prelude.{ℕ, ◌+◌, ◌-◌, ◌*◌, ◌/◌, ◌^◌, not, ◌≤◌, ◌<◌, ◌≡◌, refl, sym}
use corestack_50005_htt.Prelude.{
  subst, Bool, true, false, Bool-cases, inl, inr, if◌then◌else◌, arith,
}
use corestack_50005_htt.Prelude.{List, ltb, ◌==◌, Draws, ◌&&◌}
use corestack_50005_htt.Prelude.Int.{ℤ, pos, ltb_ℤ}
use corestack_50005_htt.Tetris.State.{GameState, Board, board_height}
use corestack_50005_htt.Tetris.Board.{lock_piece, clear_lines}
use corestack_50005_htt.Tetris.Board.Wf.{IsBoard}
use corestack_50005_htt.Tetris.Board.Lock.{lock_piece-IsBoard}
use corestack_50005_htt.Tetris.Board.Clear.{clear_lines_lem, clear_frame}
use corestack_50005_htt.Tetris.Board.ClearCount.{clear_lines-IsBoard}
use corestack_50005_htt.Tetris.Bag.{spawn_new_piece}
use corestack_50005_htt.Tetris.Bag.Fair.{IsBag, spawn-IsBag, spawn_frame}
use corestack_50005_htt.Tetris.Garbage.{add_garbage, calculate_garbage}
use corestack_50005_htt.Tetris.Garbage.Rise.{add_garbage-IsBoard}
use corestack_50005_htt.Tetris.Move.{piece_fits}
use corestack_50005_htt.Tetris.Engine.{cancel_garbage, take_garbage, next_piece}

-- One of the seven pieces, in one of its four states.
abbrev pub IsPiece : ℕ → ℕ → Type 0
IsPiece type rot = (1 ≤ type) × (type ≤ 7) × (rot < 4)

-- Over the parts of the state that it speaks of, so that it is the same for states that differ in
-- others.
pub record Ok (board : Board) (bag : List ℕ)
    (bag_index type rot held_type pending score lines_cleared level : ℕ) : Type 0 where
  pub board_ok : IsBoard board
  pub bag_ok : IsBag bag bag_index
  pub piece_ok : IsPiece type rot
  pub held_ok : held_type ≤ 7
  pub pending_ok : pending ≤ board_height
  pub score_ok : score ≡ 100 * lines_cleared
  pub level_ok : level ≡ lines_cleared / 10 + 1

abbrev pub GameOk : GameState → Type 0
GameOk s =
    Ok s.board s.bag s.bag_index s.current.type s.current.rot s.held_type s.pending_garbage s.score
      s.lines_cleared s.level

pub Ok-if : (b : Bool) (t u : GameState) → GameOk t → GameOk u → GameOk (if b then t else u)
Ok-if true t u ht hu = ht
Ok-if false t u ht hu = hu

pub Ok-lock : (s : GameState) → GameOk s → GameOk (lock_piece s)
unfolding lock_piece
Ok-lock s o = record {
  board_ok = lock_piece-IsBoard s o.board_ok (omega (arith, (o.piece_ok).1));
  bag_ok = o.bag_ok;
  piece_ok = o.piece_ok;
  held_ok = o.held_ok;
  pending_ok = o.pending_ok;
  score_ok = o.score_ok;
  level_ok = o.level_ok;
}

pub Ok-clear : (s : GameState) → GameOk s → GameOk (clear_lines s).0
Ok-clear s o =
    let (count, board, lines, score, level) = clear_lines_lem s o.board_ok.height in
    subst GameOk (sym (clear_frame s)) (record {
      board_ok = (clear_lines-IsBoard s o.board_ok).0;
      bag_ok = o.bag_ok;
      piece_ok = o.piece_ok;
      held_ok = o.held_ok;
      pending_ok = o.pending_ok;
      score_ok = omega (arith, o.score_ok);
      level_ok = ground (arith, o.level_ok);
    })

-- A new piece makes the piece valid, whatever it was before.
pub Ok-deal :
    (s : GameState) (d : Draws)
    → IsBoard s.board
    → IsBag s.bag s.bag_index
    → s.held_type ≤ 7
    → s.pending_garbage ≤ board_height
    → s.score ≡ 100 * s.lines_cleared
    → s.level ≡ s.lines_cleared / 10 + 1
    → GameOk (spawn_new_piece s d).0
Ok-deal s d board bag held pending score level =
    let (bag', kind, low, high) = spawn-IsBag s d bag in
    subst GameOk (sym (spawn_frame s d)) (record {
      board_ok = board;
      bag_ok = bag';
      piece_ok = (low, high, omega arith);
      held_ok = held;
      pending_ok = pending;
      score_ok = score;
      level_ok = level;
    })

pub Ok-spawn : (s : GameState) (d : Draws) → GameOk s → GameOk (spawn_new_piece s d).0
Ok-spawn s d o = Ok-deal s d o.board_ok o.bag_ok o.held_ok o.pending_ok o.score_ok o.level_ok

pub Ok-calculate :
    (s : GameState) (n : ℕ) (t : Bool) → GameOk s → GameOk (calculate_garbage s n t).0
unfolding calculate_garbage
Ok-calculate s n t o = elim (Bool-cases (n == 0)) [ inl e ↦ rw e o | inr e ↦ rw e o ]

-- The pending garbage is all that matters of the two garbage steps.
Ok-pending :
    (s t : GameState)
    → GameOk s
    → t.pending_garbage ≤ board_height
    → t ≡ record s { pending_garbage = t.pending_garbage; outgoing_garbage = t.outgoing_garbage }
    → GameOk t
Ok-pending s t o h e = subst GameOk (sym e) (record {
  board_ok = o.board_ok;
  bag_ok = o.bag_ok;
  piece_ok = o.piece_ok;
  held_ok = o.held_ok;
  pending_ok = h;
  score_ok = o.score_ok;
  level_ok = o.level_ok;
})

-- Where the pending garbage is below 2^31, `cancel_garbage` changes the pending and the outgoing garbage:
-- what pending garbage the damage cancels is taken from both.
pub cancel_garbage_lem :
    (s : GameState) (damage : ℕ)
    → s.pending_garbage < 2 ^ 31
    → let t = cancel_garbage s damage in
      (t.pending_garbage ≡ s.pending_garbage - damage)
      × (t.outgoing_garbage ≡ damage - s.pending_garbage)
      × (t
          ≡ record s { pending_garbage = t.pending_garbage; outgoing_garbage = t.outgoing_garbage })
unfolding cancel_garbage
cancel_garbage_lem s damage small = elim (Bool-cases (ltb 0 damage && ltb 0 s.pending_garbage)) [
  | inl e ↦ elim (Bool-cases (not (ltb_ℤ (pos damage) (to_int s.pending_garbage)))) [
    | inl f ↦ rw (e, f) (ground arith, ground arith, refl)
    | inr f ↦ rw (e, f) (ground arith, ground arith, refl)
  ]
  | inr e ↦ rw e (ground arith, ground arith, refl)
]

pub Ok-cancel : (s : GameState) (damage : ℕ) → GameOk s → GameOk (cancel_garbage s damage)
Ok-cancel s damage o =
    let (pending, out, frame) = cancel_garbage_lem s damage (omega (arith, o.pending_ok)) in
    Ok-pending s (cancel_garbage s damage) o (omega (arith, o.pending_ok)) frame

-- `add_garbage` changes the board.
pub add_garbage_frame :
    (s : GameState) (lines : ℤ) (d : Draws)
    → (add_garbage s lines d).0 ≡ record s { board = (add_garbage s lines d).0.board }
unfolding add_garbage
add_garbage_frame s lines d = elim (Bool-cases (ltb_ℤ (pos 0) lines)) [
  | inl e ↦ rw e refl
  | inr e ↦ rw e refl
]

pub Ok-take :
    (s : GameState) (cleared : ℕ) (d : Draws) → GameOk s → GameOk (take_garbage s cleared d).0
unfolding take_garbage
Ok-take s cleared d o = elim (Bool-cases (cleared == 0 && ltb 0 s.pending_garbage)) [
  | inl e ↦
      let t = (add_garbage s (to_int s.pending_garbage) d).0 in
      rw e (
        subst (λ u. GameOk (record u { pending_garbage = 0 }))
          (sym (add_garbage_frame s (to_int s.pending_garbage) d))
          (record {
            board_ok = add_garbage-IsBoard s (to_int s.pending_garbage) d o.board_ok;
            bag_ok = o.bag_ok;
            piece_ok = o.piece_ok;
            held_ok = o.held_ok;
            pending_ok = omega arith;
            score_ok = o.score_ok;
            level_ok = o.level_ok;
          }))
  | inr e ↦ rw e o
]

pub Ok-next : (s : GameState) (d : Draws) → GameOk s → GameOk (next_piece s d).0
unfolding next_piece
Ok-next s d o =
    let (t, d') = spawn_new_piece s d in
    elim (Bool-cases (piece_fits t t.current.x t.current.y)) [
      | inl e ↦ rw e (Ok-spawn s d o)
      | inr e ↦ rw e (Ok-spawn s d o)
    ]
