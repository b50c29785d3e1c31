-- ===== src/Tetris/Session/Frame.antt =====
-- What an action or a tick leaves alone, and how the roster follows the games.
use native.Mathlib.Decide.{ℕ_discrete}
use corestack_50005_htt.Prelude.{ℕ, zero, suc, ◌+◌, ◌≤◌, ◌≡◌, ◌≢◌, refl, ap, ◌∙◌}
use corestack_50005_htt.Prelude.{Bool, true, false, Bool-cases, inl, inr, if◌then◌else◌, arith}
use corestack_50005_htt.Prelude.{
  List, length, get_or, set, length-set, get_or-set_self, get_or-set_ne,
}
use corestack_50005_htt.Prelude.{Option, none, some, Draws, ltb, leb, ◌==◌, ◌&&◌}
use corestack_50005_htt.Tetris.Targeting.{Roster}
use corestack_50005_htt.Tetris.Session.{PlayerSlot, GameSession, PlayerAction, slot_at, act}
use corestack_50005_htt.Tetris.Session.{
  settle, is_out, apply_action, tick_slot, tick_slots, zero_slot,
}
use corestack_50005_htt.Tetris.Session.{tick_session, eliminate, eliminate_from, roster_after}
use corestack_50005_htt.Tetris.Session.{action_quit}

-- An action of one player leaves the slot of every other as it was.
pub apply_action_other :
    (session : GameSession) (i j : ℕ) (action : PlayerAction) (d : Draws)
    → i ≢ j
    → slot_at (apply_action session (some i) action d).0 j ≡ slot_at session j
unfolding apply_action
apply_action_other session i j action d ne =
    let s = (act session.roster action (slot_at session i).state d).0 in
    elim (Bool-cases (is_out (slot_at session i))) [
      | inl e ↦ rw e refl
      | inr e ↦
          rw e (get_or-set_ne session.players (settle action (slot_at session i) s) zero_slot ne)
    ]

tick_slot_other :
    (session : GameSession) (i j : ℕ) (d : Draws)
    → i ≢ j
    → slot_at (tick_slot session i d).0 j ≡ slot_at session j
unfolding tick_slot
tick_slot_other session i j d ne = elim (Bool-cases (is_out (slot_at session i))) [
  | inl e ↦ rw e refl
  | inr e ↦ rw e (get_or-set_ne session.players _ zero_slot ne)
]

tick_slot_out :
    (session : GameSession) (i : ℕ) (d : Draws)
    → is_out (slot_at session i) ≡ true
    → tick_slot session i d ≡ (session, d)
unfolding tick_slot
tick_slot_out session i d e = rw e

tick_slots_out :
    (n i j : ℕ) (session : GameSession) (d : Draws)
    → is_out (slot_at session j) ≡ true
    → slot_at (tick_slots n i session d).0 j ≡ slot_at session j
unfolding tick_slots
tick_slots_out zero i j session d e = refl
tick_slots_out (suc n) i j session d e =
    let same : slot_at (tick_slot session i d).0 j ≡ slot_at session j = elim (ℕ_discrete i j) [
      | yes p ↦
          ap (λ (o : GameSession × Draws). slot_at o.0 j)
            (tick_slot_out session i d (ap (λ k. is_out (slot_at session k)) p ∙ e))
      | no ne ↦ tick_slot_other session i j d ne
    ] in
    tick_slots_out n (i + 1) j (tick_slot session i d).0 (tick_slot session i d).1
      (ap is_out same ∙ e)
    ∙ same

-- A slot that is inactive or whose game is over stays as it is through every tick of the session.
pub tick_session_out :
    (session : GameSession) (j : ℕ) (d : Draws)
    → is_out (slot_at session j) ≡ true
    → slot_at (tick_session session d).0 j ≡ slot_at session j
unfolding tick_session
tick_session_out session j d e = tick_slots_out session.count 0 j session d e

eliminate_from_lem :
    (ids : List ℕ) (player_id n i k : ℕ) (marks : List Bool)
    → i + n ≤ length marks
    → get_or (eliminate_from ids player_id n i marks) k false ≡ (
        if leb i k && ltb k (i + n) && get_or ids k 0 == player_id
        then true
        else get_or marks k false)
unfolding eliminate_from
eliminate_from_lem ids player_id zero i k marks h = ground arith
eliminate_from_lem ids player_id (suc n) i k marks h =
    elim (Bool-cases (get_or ids i 0 == player_id)) [
      | inl e ↦ rw e (
          eliminate_from_lem ids player_id n (i + 1) k (set marks i true)
            (omega (arith, length-set marks i true))
          ∙ elim (ℕ_discrete i k) [
            | yes p ↦ ground (arith, p, get_or-set_self marks i true false (omega arith))
            | no ne ↦ ground (arith, get_or-set_ne marks true false ne)
          ])
      | inr e ↦ rw e (
          eliminate_from_lem ids player_id n (i + 1) k marks (omega arith)
          ∙ elim (ℕ_discrete i k) [ yes p ↦ ground (arith, p) | no ne ↦ ground arith ])
    ]

-- `eliminate` marks exactly the places in use that hold the player's id, and leaves the other marks.
pub eliminate_lem :
    (r : Roster) (player_id k : ℕ)
    → r.count ≤ length r.eliminated
    → get_or (eliminate r player_id).eliminated k false ≡ (
        if ltb k r.count && get_or r.ids k 0 == player_id
        then true
        else get_or r.eliminated k false)
unfolding eliminate
eliminate_lem r player_id k h =
    eliminate_from_lem r.ids player_id r.count 0 k r.eliminated (omega arith) ∙ ground arith

roster_after_lem :
    (action : PlayerAction) (slot : PlayerSlot) (r : Roster)
    → action ≢ action_quit
    → roster_after action slot r ≡ r
unfolding roster_after
roster_after_lem action_quit slot r ne = absurd (ne refl)
roster_after_lem action slot r ne = refl

-- No action but `action_quit` changes the roster. So a player whose game ends in the tick of a hard
-- drop is not marked as eliminated by it.
pub apply_action_roster :
    (session : GameSession) (found : Option ℕ) (action : PlayerAction) (d : Draws)
    → action ≢ action_quit
    → (apply_action session found action d).0.roster ≡ session.roster
unfolding apply_action
apply_action_roster session none action d ne = refl
apply_action_roster session (some i) action d ne = elim (Bool-cases (is_out (slot_at session i))) [
  | inl e ↦ rw e refl
  | inr e ↦ rw e (roster_after_lem action (slot_at session i) session.roster ne)
]
