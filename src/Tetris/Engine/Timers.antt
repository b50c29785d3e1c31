-- ===== src/Tetris/Engine/Timers.antt =====
-- The two timers of `update_timers`: they stay below their thresholds, and they run out.
use corestack_50005_htt.Prelude.{ℕ, zero, suc, ◌+◌, ◌-◌, ◌≤◌, ◌<◌, ◌≡◌, refl, ◌∙◌}
use corestack_50005_htt.Prelude.{Bool, true, false, Bool-cases, inl, inr, arith}
use corestack_50005_htt.Prelude.{leb, Draws}
use corestack_50005_htt.Prelude.Int.{pos, ◌+ℤ◌}
use corestack_50005_htt.Tetris.State.{GameState}
use corestack_50005_htt.Tetris.Board.{is_valid_pos}
use corestack_50005_htt.Tetris.Move.{moved, piece_fits}
use corestack_50005_htt.Tetris.Engine.{
  tick_game, update_timers, lock_timer_tick, gravity_timer_tick,
}
use corestack_50005_htt.Tetris.Engine.{current_gravity, lock_threshold_start}

-- The piece can fall one row further.
abbrev pub can_fall : GameState → Bool
can_fall s = piece_fits s s.current.x (s.current.y +ℤ pos 1)

-- Gravity is at least 5 and at most 50 ticks for a row.
pub current_gravity_bounds :
    (level : ℕ) → 1 ≤ level → (5 ≤ current_gravity level) × (current_gravity level ≤ 50)
unfolding current_gravity
current_gravity_bounds level h = ground arith

-- A tick of a piece that can fall only moves it.
tick_game-fall :
    (s : GameState) (d : Draws)
    → can_fall s ≡ true
    → tick_game s d ≡ (moved s s.current.x (s.current.y +ℤ pos 1), 0, d)
unfolding tick_game
tick_game-fall s d e = rw e

-- From a level of at least 1 and timers below 50, `update_timers` leaves both timers below 50.
pub update_timers_bounds :
    (s : GameState) (d : Draws)
    → 1 ≤ s.level
    → s.lock_timer < 50
    → s.gravity_timer < 50
    → let s' = (update_timers s d).0 in (s'.lock_timer < 50) × (s'.gravity_timer < 50)
unfolding update_timers lock_timer_tick gravity_timer_tick is_valid_pos
update_timers_bounds s d hl lock gravity = elim (Bool-cases (can_fall s)) [
  | inl e ↦
      let fall =
        tick_game-fall (record s { lock_timer = 0; gravity_timer = s.gravity_timer + 1 }) d e in
      elim (Bool-cases (leb (current_gravity s.level) (s.gravity_timer + 1))) [
        | inl f ↦ rw (e, f, fall) (omega arith, omega arith)
        | inr f ↦ rw (e, f) (omega arith, ground (arith, current_gravity_bounds s.level hl))
      ]
  | inr e ↦ elim (Bool-cases (leb lock_threshold_start (s.lock_timer + 1))) [
    | inl f ↦ rw (e, f) (omega arith, omega arith)
    | inr f ↦ rw (e, f) (ground arith, gravity)
  ]
]

-- `n` calls of `update_timers`, one after the other.
pub run_timers : ℕ → GameState → Draws → GameState × Draws
run_timers zero s d = (s, d)
run_timers (suc n) s d = run_timers n (update_timers s d).0 (update_timers s d).2

waiting :
    (s : GameState) (d : Draws)
    → can_fall s ≡ false
    → s.lock_timer + 1 < 50
    → update_timers s d ≡ (record s { lock_timer = s.lock_timer + 1 }, false, d)
unfolding update_timers lock_timer_tick
waiting s d e h =
    let f : leb lock_threshold_start (s.lock_timer + 1) ≡ false = ground arith in rw (e, f)

timer_eq :
    (s : GameState) (d : Draws) (a b : ℕ)
    → a ≡ b
    → ◌≡◌ {A = GameState × Draws} (record s { lock_timer = a }, d) (record s { lock_timer = b }, d)
timer_eq s d a b e = rw e

run_waiting :
    (n : ℕ) (s : GameState) (d : Draws)
    → can_fall s ≡ false
    → s.lock_timer + n < 50
    → run_timers n s d ≡ (record s { lock_timer = s.lock_timer + n }, d)
unfolding run_timers is_valid_pos
run_waiting zero s d e h = timer_eq s d s.lock_timer (s.lock_timer + 0) (omega arith)
run_waiting (suc n) s d e h = rw (waiting s d e (omega arith)) (
    run_waiting n (record s { lock_timer = s.lock_timer + 1 }) d e (omega arith)
    ∙ timer_eq s d (s.lock_timer + 1 + n) (s.lock_timer + suc n) (omega arith))

-- A piece that rests, with its lock timer below 50, waits unchanged but for that timer until the
-- timer has reached 49, and in the next call `update_timers` ticks the game, resets both timers and
-- reports a change.
pub rests_then_locks :
    (s : GameState) (d : Draws)
    → can_fall s ≡ false
    → s.lock_timer < 50
    → let n = 49 - s.lock_timer in
      let last = record s { lock_timer = 49 } in
      (run_timers n s d ≡ (last, d))
      × (update_timers last d ≡ (
        record (tick_game (record s { lock_timer = 50 }) d).0 { lock_timer = 0; gravity_timer = 0 },
        true,
        (tick_game (record s { lock_timer = 50 }) d).2,
      ))
unfolding update_timers lock_timer_tick is_valid_pos
rests_then_locks s d e h = (
  run_waiting (49 - s.lock_timer) s d e (omega arith)
      ∙ timer_eq s d (s.lock_timer + (49 - s.lock_timer)) 49 (omega arith),
  rw e refl,
)
