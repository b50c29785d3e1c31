-- ===== src/Tetris/Room/Ok.antt =====
-- Garbage that arrives from another room keeps the games sound.
use corestack_50005_htt.Prelude.Int.{to_int}
use corestack_50005_htt.Prelude.{ℕ, ◌^◌, ◌≡◌, refl, Bool-cases, inl, inr, not}
use corestack_50005_htt.Prelude.{Option, none, some, arith, ltb, ltb→lt, ◌==◌, ◌-◌}
use corestack_50005_htt.Prelude.Int.{negsuc}
use corestack_50005_htt.Tetris.State.{GameState}
use corestack_50005_htt.Tetris.Garbage.{queue_garbage}
use corestack_50005_htt.Tetris.Engine.Ok.{GameOk}
use corestack_50005_htt.Tetris.Engine.Steps.{Step-Ok, attacked}
use corestack_50005_htt.Tetris.Session.{GameSession, slot_at, find_player}
use corestack_50005_htt.Tetris.Session.Ok.{SessionOk, put_slot-Ok}
use corestack_50005_htt.Tetris.Session.Reach.{find_player_lem}
use corestack_50005_htt.Tetris.Room.{HubAttack, hit, hit_found, apply_remote_garbage}

queue_none : (s : GameState) (n : ℕ) → queue_garbage s (negsuc n) ≡ s
unfolding queue_garbage
queue_none s n = ground arith

pub queue_word-Ok : (s : GameState) (w : ℕ) → GameOk s → GameOk (queue_garbage s (to_int w))
queue_word-Ok s w o = elim (Bool-cases (ltb w (2 ^ 31))) [
  | inl e ↦ rw e (Step-Ok (attacked s w (ltb→lt w (2 ^ 31) e)) o)
  | inr e ↦ rw (e, queue_none s (2 ^ 32 - w - 1)) o
]

hit_found-Ok :
    (session : GameSession) (attack : HubAttack) (found : Option ℕ)
    → find_player session attack.victim_id ≡ found
    → SessionOk session
    → SessionOk (hit_found session attack found)
unfolding hit_found hit
hit_found-Ok session attack none e w = w
hit_found-Ok session attack (some i) e w =
    let victim = slot_at session i in
    let old = w.sound.games i (find_player_lem session attack.victim_id i e).in_use in
    let placed =
      put_slot-Ok session session.count i (hit attack victim) w.counted w.sound
        (queue_word-Ok victim.state attack.lines old) in
    elim (Bool-cases (not (victim.state.game_over == 0))) [
      | inl f ↦ rw f w
      | inr f ↦ rw f (record { counted = w.counted; sound = placed })
    ]

-- An attack from another room, of any number of lines, keeps every game of a session sound: at most
-- 20 rows of garbage are pending for its victim, and the rest of the invariant holds as before.
pub apply_remote_garbage-Ok :
    (session : GameSession) (attack : HubAttack)
    → SessionOk session
    → SessionOk (apply_remote_garbage session attack)
unfolding apply_remote_garbage
apply_remote_garbage-Ok session attack w =
    hit_found-Ok session attack (find_player session attack.victim_id) refl w
