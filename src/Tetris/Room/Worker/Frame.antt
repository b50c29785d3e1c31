-- ===== src/Tetris/Room/Worker/Frame.antt =====
-- What the phases of a tick leave alone: the players' ids and the marks of their reports.
use corestack_50005_htt.Prelude.{ℕ, zero, suc, ◌+◌, ◌≡◌, refl, not, ◌&&◌}
use corestack_50005_htt.Prelude.{if_both, List, [], ◌∷◌, Option, none, some, Draws, ◌==◌}
use corestack_50005_htt.Prelude.{Bool-cases, inl, inr, ltb}
use corestack_50005_htt.Tetris.Session.{PlayerSlot, GameSession, slot_at, put_slot, find_player}
use corestack_50005_htt.Tetris.Session.Same.{
  Same, Same-refl, Same-trans, put_slot-Same, apply_action-Same,
}
use corestack_50005_htt.Tetris.Protocol.{StatePayload}
use corestack_50005_htt.Corestack.Htttp.{
  unknown, req_move, req_drop, req_rotate, req_state, req_attack, req_action, req_roster,
}
use corestack_50005_htt.Tetris.Hub.State.{
  HubMsg, hub_ready, hub_joined, hub_attack, hub_eliminated, hub_feed, hub_start, hub_garbage,
  hub_roster, hub_gameover,
}
use corestack_50005_htt.Tetris.Room.{
  HubAttack, HubRoster, hit, hit_found, apply_remote_garbage, resolve_victim,
}
use corestack_50005_htt.Tetris.Room.Worker.{
  RoomEffect, reports, feeds, Request, Worker, handle_request, drain_requests, handle_hub,
  drain_hub, deliver, route_slot, route_garbage, push_slot, push_states, keepalive_ticks,
}

handle_request-Same :
    (r : Request) (session : GameSession) (d : Draws) → Same session (handle_request r session d).0
unfolding handle_request
handle_request-Same none session d = Same-refl session
handle_request-Same (some (req_action, sender_id, action)) session d =
    apply_action-Same session (find_player session sender_id) action d
handle_request-Same (some (unknown, sender_id, action)) session d = Same-refl session
handle_request-Same (some (req_move, sender_id, action)) session d = Same-refl session
handle_request-Same (some (req_drop, sender_id, action)) session d = Same-refl session
handle_request-Same (some (req_rotate, sender_id, action)) session d = Same-refl session
handle_request-Same (some (req_state, sender_id, action)) session d = Same-refl session
handle_request-Same (some (req_attack, sender_id, action)) session d = Same-refl session
handle_request-Same (some (req_roster, sender_id, action)) session d = Same-refl session

pub drain_requests-Same :
    (n : ℕ) (requests : List Request) (session : GameSession) (d : Draws)
    → Same session (drain_requests n requests session d).0
unfolding drain_requests
drain_requests-Same zero requests session d = Same-refl session
drain_requests-Same (suc n) [] session d = Same-refl session
drain_requests-Same (suc n) (r ∷ requests) session d =
    let (session', d') = handle_request r session d in
    Same-trans (handle_request-Same r session d) (drain_requests-Same n requests session' d')

hit_found-Same :
    (session : GameSession) (attack : HubAttack) (found : Option ℕ)
    → Same session (hit_found session attack found)
unfolding hit_found hit
hit_found-Same session attack none = Same-refl session
hit_found-Same session attack (some i) =
    let slot = slot_at session i in
    if_both (Same session) (not (slot.state.game_over == 0)) session
      (put_slot session i (hit attack slot)) (λ _. Same-refl session)
      (λ _. put_slot-Same session i (hit attack slot) refl refl)

handle_hub-Same : (msg : HubMsg) (w : Worker) → Same w.session (handle_hub msg w).0.session
unfolding handle_hub apply_remote_garbage
handle_hub-Same (hub_garbage attack) w =
    hit_found-Same w.session attack (find_player w.session attack.victim_id)
handle_hub-Same (hub_feed attack) w = Same-refl w.session
handle_hub-Same (hub_roster roster) w = Same-refl w.session
handle_hub-Same (hub_gameover id) w = Same-refl w.session
handle_hub-Same hub_ready w = Same-refl w.session
handle_hub-Same (hub_joined id) w = Same-refl w.session
handle_hub-Same (hub_attack attack) w = Same-refl w.session
handle_hub-Same (hub_eliminated id) w = Same-refl w.session
handle_hub-Same (hub_start n) w = Same-refl w.session

pub drain_hub-Same : (msgs : List HubMsg) (w : Worker) → Same w.session (drain_hub msgs w).0.session
unfolding drain_hub
drain_hub-Same [] w = Same-refl w.session
drain_hub-Same (msg ∷ msgs) w =
    Same-trans (handle_hub-Same msg w) (drain_hub-Same msgs (handle_hub msg w).0)

deliver-Same :
    (session : GameSession) (i : ℕ) (attack : HubAttack) (found : Option ℕ)
    → Same session (deliver session i attack found).0
unfolding deliver hit
deliver-Same session i attack none =
    if_both (λ (o : GameSession × List RoomEffect). Same session o.0)
      (not (attack.victim_id == 0) && not (attack.victim_id == attack.attacker_id))
      (session, reports (hub_attack attack) ∷ feeds attack ∷ reports (hub_feed attack) ∷ [])
      (session, []) (λ _. Same-refl session) (λ _. Same-refl session)
deliver-Same session i attack (some v) =
    let victim = slot_at session v in
    if_both (λ (o : GameSession × List RoomEffect). Same session o.0)
      (not (v == i) && victim.state.game_over == 0)
      (put_slot session v (hit attack victim), feeds attack ∷ reports (hub_feed attack) ∷ [])
      (session, []) (λ _. put_slot-Same session v (hit attack victim) refl refl)
      (λ _. Same-refl session)

pub route_slot-Same :
    (global : HubRoster) (i : ℕ) (session : GameSession) (d : Draws)
    → Same session (route_slot global i session d).0
unfolding route_slot
route_slot-Same global i session d =
    let attacker = slot_at session i in
    let spent = record attacker { state = record attacker.state { outgoing_garbage = 0 } } in
    let consumed = put_slot session i spent in
    let (victim_id, d') = resolve_victim consumed spent global d in
    let attack : HubAttack = record {
      attacker_id = attacker.player_id;
      victim_id = victim_id;
      lines = attacker.state.outgoing_garbage;
    } in
    let (routed, out) = deliver consumed i attack (find_player consumed victim_id) in
    if_both (λ (o : GameSession × List RoomEffect × Draws). Same session o.0)
      (attacker.state.outgoing_garbage == 0) (session, [], d) (routed, out, d')
      (λ _. Same-refl session)
      (λ _.
        Same-trans (put_slot-Same session i spent refl refl)
          (deliver-Same consumed i attack (find_player consumed victim_id)))

pub route_garbage-Same :
    (global : HubRoster) (n i : ℕ) (session : GameSession) (d : Draws)
    → Same session (route_garbage global n i session d).0
unfolding route_garbage
route_garbage-Same global zero i session d = Same-refl session
route_garbage-Same global (suc n) i session d =
    let (session', out, d') = route_slot global i session d in
    Same-trans (route_slot-Same global i session d)
      (route_garbage-Same global n (i + 1) session' d')

push_slot-Same :
    (blank : StatePayload) (slot : PlayerSlot)
    → ((push_slot blank slot).0.elim_reported ≡ slot.elim_reported)
      × ((push_slot blank slot).0.player_id ≡ slot.player_id)
unfolding push_slot
push_slot-Same blank slot =
    elim (Bool-cases (not slot.dirty && ltb slot.idle_ticks keepalive_ticks)) [
      | inl e ↦ rw e (refl, refl)
      | inr e ↦ rw e (refl, refl)
    ]

pub push_states-Same :
    (blank : StatePayload) (n i : ℕ) (session : GameSession)
    → Same session (push_states blank n i session).0
unfolding push_states
push_states-Same blank zero i session = Same-refl session
push_states-Same blank (suc n) i session =
    let (slot, out) = push_slot blank (slot_at session i) in
    let (marked, named) = push_slot-Same blank (slot_at session i) in
    Same-trans (put_slot-Same session i slot marked named)
      (push_states-Same blank n (i + 1) (put_slot session i slot))
