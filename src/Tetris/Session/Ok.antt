-- ===== src/Tetris/Session/Ok.antt =====
-- Every game of a session of game.c stays sound.
use native.Mathlib.Decide.{ℕ_discrete}
use corestack_50005_htt.Prelude.{ℕ, zero, suc, ◌+◌, ◌≤◌, ◌<◌, ◌≡◌, refl, sym, subst, ◌∙◌}
use corestack_50005_htt.Prelude.{Bool, true, false, Bool-cases, inl, inr, if◌then◌else◌, arith, not}
use corestack_50005_htt.Prelude.{length, get_or, set, length-set, get_or-set_self, get_or-set_ne}
use corestack_50005_htt.Prelude.{some, Draws, ◌==◌, ◌||◌}
use corestack_50005_htt.Tetris.State.{GameState}
use corestack_50005_htt.Tetris.Move.{move_left, move_right, soft_drop, hard_drop}
use corestack_50005_htt.Tetris.Engine.{update_timers, hold_piece}
use corestack_50005_htt.Tetris.Engine.Ok.{GameOk}
use corestack_50005_htt.Tetris.Engine.Steps.{Step-Ok, left, right, down, drop_down, clockwise}
use corestack_50005_htt.Tetris.Engine.Steps.{counter_clockwise, hold, tick, timers}
use corestack_50005_htt.Tetris.Targeting.{Roster}
use corestack_50005_htt.Tetris.Targeting.Cycle.{cycle_manual_target_frame, cycle_target_mode_frame}
use corestack_50005_htt.Tetris.Session.{
  PlayerSlot, GameSession, PlayerAction, slot_at, put_slot, act,
}
use corestack_50005_htt.Tetris.Session.{
  settle, reset_if, is_out, apply_action, tick_slot, tick_slots, tick_session,
}
use corestack_50005_htt.Tetris.Session.{max_lobby_size, zero_slot}
use corestack_50005_htt.Tetris.Session.{action_none, action_quit}
use corestack_50005_htt.Tetris.Session.{action_move_left, action_move_right, action_rotate_cw}
use corestack_50005_htt.Tetris.Session.{action_rotate_ccw, action_soft_drop, action_hard_drop}
use corestack_50005_htt.Tetris.Session.{action_hold, action_cycle_target_mode, action_cycle_target}

-- The session has its two places, and every game below `n` is sound.
pub record GamesOk (session : GameSession) (n : ℕ) : Type 0 where
  pub places : length session.players ≡ max_lobby_size
  pub games : (i : ℕ) → i < n → GameOk (slot_at session i).state

-- A slot with a sound game is put into its place.
pub put_slot-Ok :
    (session : GameSession) (n i : ℕ) (slot : PlayerSlot)
    → n ≤ max_lobby_size
    → GamesOk session n
    → GameOk slot.state
    → GamesOk (put_slot session i slot) n
put_slot-Ok session n i slot h w o = record {
  places = length-set session.players i slot ∙ w.places;
  games = games;
}
  where
    games : (j : ℕ) → j < n → GameOk (slot_at (put_slot session i slot) j).state
    games j lt = elim (ℕ_discrete i j) [
      | yes e ↦
          subst (λ k. GameOk (get_or (set session.players i slot) k zero_slot).state) e
            (rw (get_or-set_self session.players i slot zero_slot (omega (arith, w.places))) o)
      | no ne ↦ rw (get_or-set_ne session.players slot zero_slot ne) (w.games j lt)
    ]

-- The place after those that are sound.
pub put_next-Ok :
    (session : GameSession) (n : ℕ) (slot : PlayerSlot)
    → n < max_lobby_size
    → GamesOk session n
    → GameOk slot.state
    → GamesOk (put_slot session n slot) (n + 1)
put_next-Ok session n slot h w o = record {
  places = length-set session.players n slot ∙ w.places;
  games = games;
}
  where
    games : (j : ℕ) → j < n + 1 → GameOk (slot_at (put_slot session n slot) j).state
    games j lt = elim (ℕ_discrete n j) [
      | yes e ↦
          subst (λ k. GameOk (get_or (set session.players n slot) k zero_slot).state) e
            (rw (get_or-set_self session.players n slot zero_slot (omega (arith, w.places))) o)
      | no ne ↦ rw (get_or-set_ne session.players slot zero_slot ne) (w.games j (omega arith))
    ]

reset_if-Ok : (out : GameState × Bool) → GameOk out.0 → GameOk (reset_if out)
unfolding reset_if
reset_if-Ok (s, true) o = o
reset_if-Ok (s, false) o = o

either-Ok :
    (b : Bool) (t u : GameState × Draws) → GameOk t.0 → GameOk u.0 → GameOk (if b then t else u).0
either-Ok true t u ht hu = ht
either-Ok false t u ht hu = hu

act-Ok :
    (r : Roster) (action : PlayerAction) (s : GameState) (d : Draws)
    → GameOk s
    → GameOk (act r action s d).0
unfolding act
act-Ok r action_none s d o = o
act-Ok r action_move_left s d o = reset_if-Ok (move_left s) (Step-Ok (left s) o)
act-Ok r action_move_right s d o = reset_if-Ok (move_right s) (Step-Ok (right s) o)
act-Ok r action_rotate_cw s d o = Step-Ok (clockwise s) o
act-Ok r action_rotate_ccw s d o = Step-Ok (counter_clockwise s) o
act-Ok r action_soft_drop s d o = reset_if-Ok (soft_drop s) (Step-Ok (down s) o)
act-Ok r action_hard_drop s d o = Step-Ok (tick (hard_drop s).0 d) (Step-Ok (drop_down s) o)
act-Ok r action_hold s d o =
    either-Ok (not s.has_held) (record (hold_piece s d).0 { gravity_timer = 0 }, (hold_piece s d).1)
      (s, d) (Step-Ok (hold s d) o) o
act-Ok r action_cycle_target_mode s d o = subst GameOk (sym (cycle_target_mode_frame s)) o
act-Ok r action_cycle_target s d o = subst GameOk (sym (cycle_manual_target_frame s r)) o
act-Ok r action_quit s d o = o

settle-state :
    (action : PlayerAction) (slot : PlayerSlot) (s : GameState)
    → GameOk slot.state
    → GameOk s
    → GameOk (settle action slot s).state
unfolding settle
settle-state action_none slot s old new = old
settle-state action_quit slot s old new = new
settle-state action slot s old new = new

-- The sessions of a lobby of at most two.
pub record SessionOk (session : GameSession) : Type 0 where
  pub counted : session.count ≤ max_lobby_size
  pub sound : GamesOk session session.count

pub apply_action-Ok :
    (session : GameSession) (i : ℕ) (action : PlayerAction) (d : Draws)
    → SessionOk session
    → i < session.count
    → SessionOk (apply_action session (some i) action d).0
unfolding apply_action
apply_action-Ok session i action d w lt =
    let s = (act session.roster action (slot_at session i).state d).0 in
    let old = w.sound.games i lt in
    let placed =
      put_slot-Ok session session.count i (settle action (slot_at session i) s) w.counted w.sound (
        settle-state action (slot_at session i) s old
          (act-Ok session.roster action (slot_at session i).state d old)) in
    elim (Bool-cases (is_out (slot_at session i))) [
      | inl e ↦ rw e w
      | inr e ↦ rw e (record {
        counted = w.counted;
        sound = record { places = placed.places; games = placed.games };
      })
    ]

tick_slot-Ok :
    (session : GameSession) (i : ℕ) (d : Draws)
    → SessionOk session
    → i < session.count
    → SessionOk (tick_slot session i d).0 × ((tick_slot session i d).0.count ≡ session.count)
unfolding tick_slot
tick_slot-Ok session i d w lt =
    let slot = slot_at session i in
    let (s, changed, d') = update_timers slot.state d in
    let ticked = record slot {
      state = s;
      dirty = slot.dirty || changed || not (s.game_over == 0);
    } in
    let placed =
      put_slot-Ok session session.count i ticked w.counted w.sound
        (Step-Ok (timers slot.state d) (w.sound.games i lt)) in
    elim (Bool-cases (is_out slot)) [
      | inl e ↦ rw e (w, refl)
      | inr e ↦ rw e (
        record {
          counted = w.counted;
          sound = record { places = placed.places; games = placed.games };
        },
        refl,
      )
    ]

pub tick_slots-Ok :
    (n i : ℕ) (session : GameSession) (d : Draws)
    → SessionOk session
    → i + n ≤ session.count
    → SessionOk (tick_slots n i session d).0
unfolding tick_slots
tick_slots-Ok zero i session d w h = w
tick_slots-Ok (suc n) i session d w h =
    let (w', same) = tick_slot-Ok session i d w (omega arith) in
    tick_slots-Ok n (i + 1) (tick_slot session i d).0 (tick_slot session i d).1 w' (omega arith)

pub tick_session-Ok :
    (session : GameSession) (d : Draws) → SessionOk session → SessionOk (tick_session session d).0
unfolding tick_session
tick_session-Ok session d w = tick_slots-Ok session.count 0 session d w (omega arith)
