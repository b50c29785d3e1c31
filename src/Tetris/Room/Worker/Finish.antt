-- ===== src/Tetris/Room/Worker/Finish.antt =====
-- tetrisd/room.c: the end of a room, behind its tick loop.
use native.Mathlib.Decide.{ℕ_discrete}
use corestack_50005_htt.Prelude.{
  ℕ, zero, suc, ◌+◌, ◌≤◌, ◌<◌, ◌≡◌, ◌≢◌, refl, ap, ◌∙◌, true, false, not,
}
use corestack_50005_htt.Prelude.{if◌then◌else◌, if_both, List, [], ◌∷◌, length, arith}
use corestack_50005_htt.Prelude.{get_or-set_self, get_or-set_ne, length-set}
use corestack_50005_htt.Tetris.Session.{PlayerSlot, GameSession, slot_at, put_slot, zero_slot}
use corestack_50005_htt.Tetris.Protocol.{StatePayload, build_state_payload}
use corestack_50005_htt.Tetris.Room.Worker.{RoomEffect, pushes}

-- The loop behind the match, from the slot `i` on, with `n` of them left.
pub finish_slots : StatePayload → ℕ → ℕ → ℕ → GameSession → GameSession × List RoomEffect
finish_slots blank winner_id zero i session = (session, [])
finish_slots blank winner_id (suc n) i session =
    let slot = slot_at session i in
    let ended = record slot {
      state = record slot.state { game_over = 1; winner_id = winner_id };
    } in
    let (gone, quiet) = finish_slots blank winner_id n (i + 1) session in
    let (told, later) = finish_slots blank winner_id n (i + 1) (put_slot session i ended) in
    if not slot.active
    then (gone, quiet)
    else (told, pushes slot.player_id (build_state_payload ended.state blank) ∷ later)

pub finish_room : StatePayload → ℕ → GameSession → GameSession × List RoomEffect
finish_room blank winner_id session = finish_slots blank winner_id session.count 0 session

-- A slot at the end of the room.
abbrev pub ended : ℕ → PlayerSlot → PlayerSlot
ended winner_id slot =
    if slot.active
    then record slot { state = record slot.state { game_over = 1; winner_id = winner_id } }
    else slot

finish_before :
    (blank : StatePayload) (winner_id n i j : ℕ) (session : GameSession)
    → j < i
    → slot_at (finish_slots blank winner_id n i session).0 j ≡ slot_at session j
unfolding finish_slots
finish_before blank winner_id zero i j session h = refl
finish_before blank winner_id (suc n) i j session h =
    let slot = slot_at session i in
    let last = record slot { state = record slot.state { game_over = 1; winner_id = winner_id } } in
    let other : i ≢ j = λ e. absurd (omega arith) in
    let put = put_slot session i last in
    let (told, later) = finish_slots blank winner_id n (i + 1) put in
    if_both (λ (o : GameSession × List RoomEffect). slot_at o.0 j ≡ slot_at session j)
      (not slot.active) (finish_slots blank winner_id n (i + 1) session)
      (told, pushes slot.player_id (build_state_payload last.state blank) ∷ later)
      (λ _. finish_before blank winner_id n (i + 1) j session (omega arith))
      (λ _.
        finish_before blank winner_id n (i + 1) j put (omega arith)
        ∙ get_or-set_ne session.players last zero_slot other)

finish_slots_lem :
    (blank : StatePayload) (winner_id n i j : ℕ) (session : GameSession)
    → i + n ≤ length session.players
    → i ≤ j
    → j < i + n
    → slot_at (finish_slots blank winner_id n i session).0 j ≡ ended winner_id (slot_at session j)
unfolding finish_slots
finish_slots_lem blank winner_id zero i j session h a b = absurd (omega arith)
finish_slots_lem blank winner_id (suc n) i j session h a b =
    let slot = slot_at session i in
    let last = record slot { state = record slot.state { game_over = 1; winner_id = winner_id } } in
    let put = put_slot session i last in
    let (told, later) = finish_slots blank winner_id n (i + 1) put in
    if_both
      (λ (o : GameSession × List RoomEffect). slot_at o.0 j ≡ ended winner_id (slot_at session j))
      (not slot.active) (finish_slots blank winner_id n (i + 1) session)
      (told, pushes slot.player_id (build_state_payload last.state blank) ∷ later)
      (λ gone. elim (ℕ_discrete i j) [
        | yes e ↦
            let out : slot.active ≡ false = ground arith in
            rw (← e) (finish_before blank winner_id n (i + 1) i session (omega arith) ∙ rw out refl)
        | no ne ↦
            finish_slots_lem blank winner_id n (i + 1) j session (omega arith) (omega arith)
              (omega arith)
      ])
      (λ stays. elim (ℕ_discrete i j) [
        | yes e ↦
            let here : slot.active ≡ true = ground arith in
            rw (← e) (
              finish_before blank winner_id n (i + 1) i put (omega arith)
              ∙ get_or-set_self session.players i last zero_slot (omega arith)
              ∙ if_both (λ q. last ≡ q) slot.active last slot (λ _. refl) (λ off. cc))
        | no ne ↦
            finish_slots_lem blank winner_id n (i + 1) j put
              (omega (arith, length-set session.players i last)) (omega arith) (omega arith)
            ∙ ap (ended winner_id) (get_or-set_ne session.players last zero_slot ne)
      ])

-- At the end of the room the game of each active player is over and holds the winner that the master named, and
-- the slot is otherwise as it was; the slots of players that are gone stay as they were.
pub finish_room_lem :
    (blank : StatePayload) (winner_id j : ℕ) (session : GameSession)
    → session.count ≤ length session.players
    → j < session.count
    → slot_at (finish_room blank winner_id session).0 j ≡ ended winner_id (slot_at session j)
unfolding finish_room
finish_room_lem blank winner_id j session h b =
    finish_slots_lem blank winner_id session.count 0 j session (omega arith) (omega arith)
      (omega arith)
