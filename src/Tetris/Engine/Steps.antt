-- ===== src/Tetris/Engine/Steps.antt =====
-- Every operation of the rules keeps the invariant, from the start of a game on.
use corestack_50005_htt.Prelude.{ℕ, ◌+◌, ◌%◌, ◌^◌, ◌<◌, ◌≡◌, refl, sym, subst}
use corestack_50005_htt.Prelude.{Bool, false, Bool-cases, inl, inr, if◌then◌else◌, arith}
use corestack_50005_htt.Prelude.{List, [], ◌++◌, length, leb, ◌==◌, Draws, replicate}
use corestack_50005_htt.Prelude.{copy_into, copy_into_lem, append-nil}
use corestack_50005_htt.Prelude.Int.{ℤ, pos, negsuc, ◌+ℤ◌, ltb_ℤ}
use corestack_50005_htt.Tetris.State.{GameState}
use corestack_50005_htt.Tetris.Board.{lock_piece, clear_lines}
use corestack_50005_htt.Tetris.Bag.{shuffle_array, kinds}
use corestack_50005_htt.Tetris.Bag.Fair.{shuffle-IsDeal, Fresh}
use corestack_50005_htt.Tetris.Garbage.{calculate_garbage, queue_garbage}
use corestack_50005_htt.Tetris.Move.{piece_fits, hard_drop, move_left, move_right, soft_drop}
use corestack_50005_htt.Tetris.Move.{rotate_current_piece, rotate_counter_clockwise}
use corestack_50005_htt.Tetris.Move.Drop.{hard_drop_lem}
use corestack_50005_htt.Tetris.Move.Kicks.{moves_lem, Moves, rotates_lem, Rotates}
use corestack_50005_htt.Tetris.Engine.{cancel_garbage, land, tick_game}
use corestack_50005_htt.Tetris.Engine.{
  check_t_spin, hold_piece, update_timers, start_game, zero_state,
}
use corestack_50005_htt.Tetris.Engine.{lock_timer_tick, gravity_timer_tick, lock_threshold_start}
use corestack_50005_htt.Tetris.Engine.{current_gravity}
use corestack_50005_htt.Tetris.Engine.Ok.{GameOk, Ok-if, Ok-lock, Ok-clear, Ok-spawn, Ok-deal}
use corestack_50005_htt.Tetris.Engine.Ok.{Ok-calculate, Ok-cancel, Ok-take, Ok-next}

Ok-land : (s : GameState) (d : Draws) → GameOk s → GameOk (land s d).0
unfolding land
Ok-land s d o =
    let tspin = check_t_spin s in
    let spun = if tspin then record s { t_spins = s.t_spins + 1 } else s in
    let locked = lock_piece spun in
    let placed = record locked { pieces_placed = locked.pieces_placed + 1 } in
    let swept = (clear_lines placed).0 in
    let cleared = (clear_lines placed).1 in
    let counted = if cleared == 4 then record swept { tetrises = swept.tetrises + 1 } else swept in
    let charged = (calculate_garbage counted cleared tspin).0 in
    let damage = (calculate_garbage counted cleared tspin).1 in
    let o1 : GameOk spun = Ok-if tspin (record s { t_spins = s.t_spins + 1 }) s o o in
    let o2 : GameOk swept = Ok-clear placed (Ok-lock spun o1) in
    let o3 : GameOk counted =
      Ok-if (cleared == 4) (record swept { tetrises = swept.tetrises + 1 }) swept o2 o2 in
    let o4 : GameOk charged = Ok-calculate counted cleared tspin o3 in
    Ok-next _ _ (Ok-take (cancel_garbage charged damage) cleared d (Ok-cancel charged damage o4))

-- `tick_game` keeps the invariant on each of its branches.
pub Ok-tick : (s : GameState) (d : Draws) → GameOk s → GameOk (tick_game s d).0
unfolding tick_game
Ok-tick s d o = elim (Bool-cases (piece_fits s s.current.x (s.current.y +ℤ pos 1))) [
  | inl e ↦ rw e o
  | inr e ↦ elim (Bool-cases (ltb_ℤ s.current.y (pos 0))) [
    | inl f ↦ rw (e, f) o
    | inr f ↦ rw (e, f) (Ok-land s d o)
  ]
]

pub Ok-timers : (s : GameState) (d : Draws) → GameOk s → GameOk (update_timers s d).0
unfolding update_timers lock_timer_tick gravity_timer_tick
Ok-timers s d o = elim (Bool-cases (piece_fits s s.current.x (s.current.y +ℤ pos 1))) [
  | inl e ↦ elim (Bool-cases (leb (current_gravity s.level) (s.gravity_timer + 1))) [
    | inl f ↦
        rw (e, f) (Ok-tick (record s { lock_timer = 0; gravity_timer = s.gravity_timer + 1 }) d o)
    | inr f ↦ rw (e, f) o
  ]
  | inr e ↦ elim (Bool-cases (leb lock_threshold_start (s.lock_timer + 1))) [
    | inl f ↦ rw (e, f) (Ok-tick (record s { lock_timer = s.lock_timer + 1 }) d o)
    | inr f ↦ rw (e, f) o
  ]
]

pub Ok-hold : (s : GameState) (d : Draws) → GameOk s → GameOk (hold_piece s d).0
unfolding hold_piece
Ok-hold s d o = elim (Bool-cases s.has_held) [
  | inl e ↦ rw e o
  | inr e ↦ elim (Bool-cases (s.held_type == 0)) [
    | inl f ↦
        rw (e, f)
          (Ok-spawn (record s { held_type = s.current.type; has_held = false }) d
            (record {
              board_ok = o.board_ok;
              bag_ok = o.bag_ok;
              piece_ok = o.piece_ok;
              held_ok = (o.piece_ok).1;
              pending_ok = o.pending_ok;
              score_ok = o.score_ok;
              level_ok = o.level_ok;
            }))
    | inr f ↦
        rw (e, f)
          (record {
            board_ok = o.board_ok;
            bag_ok = o.bag_ok;
            piece_ok = (ground arith, o.held_ok, omega arith);
            held_ok = (o.piece_ok).1;
            pending_ok = o.pending_ok;
            score_ok = o.score_ok;
            level_ok = o.level_ok;
          })
  ]
]

-- A rotation to one of the four states keeps the invariant.
Ok-rotated :
    (s : GameState) (next_rot : ℕ) (l : List (ℤ × ℤ)) (out : GameState × Bool)
    → next_rot < 4
    → GameOk s
    → Rotates s next_rot l out
    → GameOk out.0
Ok-rotated s next_rot l (t, done) lt o (inl (k, _, _, r, _)) = subst GameOk (sym r.result) (record {
  board_ok = o.board_ok;
  bag_ok = o.bag_ok;
  piece_ok = ((o.piece_ok).0, (o.piece_ok).1, lt);
  held_ok = o.held_ok;
  pending_ok = o.pending_ok;
  score_ok = o.score_ok;
  level_ok = o.level_ok;
})
Ok-rotated s next_rot l (t, done) lt o (inr (_, same, _)) = subst GameOk (sym same) o

Ok-moved :
    (s : GameState) (x y : ℤ) (out : GameState × Bool) → GameOk s → Moves s x y out → GameOk out.0
Ok-moved s x y (t, done) o (inl (_, r)) = subst GameOk (sym r.result) o
Ok-moved s x y (t, done) o (inr (_, same, _)) = subst GameOk (sym same) o

Ok-queue : (s : GameState) (n : ℕ) → GameOk s → GameOk (queue_garbage s (pos n))
unfolding queue_garbage
Ok-queue s n o = elim (Bool-cases (ltb_ℤ (pos 0) (pos n))) [
  | inl e ↦ rw e (record {
    board_ok = o.board_ok;
    bag_ok = o.bag_ok;
    piece_ok = o.piece_ok;
    held_ok = o.held_ok;
    pending_ok = ground arith;
    score_ok = o.score_ok;
    level_ok = o.level_ok;
  })
  | inr e ↦ rw e o
]

-- What a player or the server can do to a game between its start and its end.
pub data Step : GameState → GameState → Type 0 where
  left : (s : GameState) → Step s (move_left s).0
  right : (s : GameState) → Step s (move_right s).0
  down : (s : GameState) → Step s (soft_drop s).0
  drop_down : (s : GameState) → Step s (hard_drop s).0
  clockwise : (s : GameState) → Step s (rotate_current_piece s)
  counter_clockwise : (s : GameState) → Step s (rotate_counter_clockwise s)
  hold : (s : GameState) (d : Draws) → Step s (hold_piece s d).0
  tick : (s : GameState) (d : Draws) → Step s (tick_game s d).0
  timers : (s : GameState) (d : Draws) → Step s (update_timers s d).0
  attacked : (s : GameState) (n : ℕ) → n < 2 ^ 31 → Step s (queue_garbage s (pos n))

pub data Reach : GameState → Type 0 where
  start : (d : Draws) → Reach (start_game d).0
  next : {s t : GameState} → Reach s → Step s t → Reach t

pub Step-Ok : {s t : GameState} → Step s t → GameOk s → GameOk t
Step-Ok (left s) o = Ok-moved s _ _ (move_left s) o (moves_lem s).0
Step-Ok (right s) o = Ok-moved s _ _ (move_right s) o (moves_lem s).1
Step-Ok (down s) o = Ok-moved s _ _ (soft_drop s) o (moves_lem s).2
Step-Ok (drop_down s) o =
    subst GameOk (sym (hard_drop_lem s (o.piece_ok).0 (o.piece_ok).1 (o.piece_ok).2).0) o
Step-Ok (clockwise s) o =
    Ok-rotated s ((s.current.rot + 1) % 4) _ _ (omega arith) o (rotates_lem s 0).1
Step-Ok (counter_clockwise s) o =
    Ok-rotated s ((s.current.rot + 3) % 4) _ _ (omega arith) o (rotates_lem s 0).2
Step-Ok (hold s d) o = Ok-hold s d o
Step-Ok (tick s d) o = Ok-tick s d o
Step-Ok (timers s d) o = Ok-timers s d o
Step-Ok (attacked s n h) o = Ok-queue s n o

-- The bag of `start_game` is two shuffled deals.
start_bag :
    (bag1 bag2 : List ℕ)
    → length bag1 ≡ 7
    → length bag2 ≡ 7
    → copy_into 0 7 0 7 bag2 (copy_into 0 7 0 0 bag1 (replicate 14 0)) ≡ bag1 ++ bag2
start_bag bag1 bag2 h1 h2 =
    let first : copy_into 0 7 0 0 bag1 (replicate 14 0) ≡ bag1 ++ replicate 7 0 =
      copy_into_lem 0 7 0 0 [] (replicate 7 0) (replicate 7 0) [] bag1 refl refl refl h1 in
    let second : copy_into 0 7 0 7 bag2 (bag1 ++ (replicate 7 0 ++ [])) ≡ bag1 ++ (bag2 ++ []) =
      copy_into_lem 0 7 0 7 bag1 (replicate 7 0) [] [] bag2 (omega arith) refl refl h2 in
    rw first (
      subst (λ u. copy_into 0 7 0 7 bag2 (bag1 ++ replicate 7 0) ≡ bag1 ++ u) (append-nil bag2)
        second)

-- The state of `start_game` before its first piece, and the draws that are left; its bag is fresh.
abbrev pub opening : Draws → GameState × Draws
opening d =
    let (bag1, d1) = shuffle_array kinds 7 d in
    let (bag2, d2) = shuffle_array kinds 7 d1 in
    let bag = copy_into 0 7 0 7 bag2 (copy_into 0 7 0 0 bag1 (replicate 14 0)) in
    (record zero_state { combo = negsuc 0; level = 1; bag = bag; bag_index = 0 }, d2)

pub opening-Fresh : (d : Draws) → Fresh (opening d).0
opening-Fresh d =
    let bag1 = (shuffle_array kinds 7 d).0 in
    let d1 = (shuffle_array kinds 7 d).1 in
    let bag2 = (shuffle_array kinds 7 d1).0 in
    (
      record {
        first = bag1;
        second = bag2;
        halves = start_bag bag1 bag2 (shuffle-IsDeal d).size (shuffle-IsDeal d1).size;
        first_deal = shuffle-IsDeal d;
        second_deal = shuffle-IsDeal d1;
        index = omega arith;
      },
      refl,
    )

pub start_game-Ok : (d : Draws) → GameOk (start_game d).0
unfolding start_game
start_game-Ok d =
    Ok-deal (opening d).0 (opening d).1 (omega arith) (opening-Fresh d).0 (omega arith)
      (omega arith) (omega arith) (omega arith)

-- In every state that a game reaches from `start_game` by moves, rotations, drops, holds, ticks and
-- attacks, for all values of `rand()`, the board is 20 rows of 10 cells 0 to 8, the bag is two whole
-- deals, the piece is one of the seven in one of its four states, the held type is at most 7, at most
-- 20 rows of garbage are pending, the score is 100 for each line, and the level is a tenth of the
-- lines plus one.
pub Reach-Ok : {s : GameState} → Reach s → GameOk s
Reach-Ok (start d) = start_game-Ok d
Reach-Ok (next r st) = Step-Ok st (Reach-Ok r)
