-- ===== src/Tetris/Room/Worker/Tick.antt =====
-- A tick of the worker keeps the games of the room sound.
use corestack_50005_htt.Prelude.{ℕ, zero, suc, ◌+◌, ◌≤◌, ◌<◌, ◌≡◌, refl, true, not, ◌&&◌, ◌||◌}
use corestack_50005_htt.Prelude.{
  if_both, List, [], ◌∷◌, ◌++◌, Option, none, some, Draws, ◌==◌, arith,
}
use corestack_50005_htt.Prelude.{ltb, subst, sym, Bool-cases, inl, inr}
use corestack_50005_htt.Tetris.Room.Worker.Frame.{route_slot-Same}
use corestack_50005_htt.Tetris.Engine.Ok.{GameOk}
use corestack_50005_htt.Tetris.Session.{
  PlayerSlot, GameSession, slot_at, put_slot, find_player, tick_session,
}
use corestack_50005_htt.Tetris.Session.Ok.{SessionOk, put_slot-Ok, tick_session-Ok}
use corestack_50005_htt.Tetris.Session.Reach.{find_player_lem, acted-Ok}
use corestack_50005_htt.Tetris.Protocol.{StatePayload}
use corestack_50005_htt.Corestack.Htttp.{
  unknown, req_move, req_drop, req_rotate, req_state, req_attack, req_action, req_roster,
}
use corestack_50005_htt.Tetris.Hub.State.{
  HubMsg, hub_ready, hub_joined, hub_attack, hub_eliminated, hub_feed, hub_start, hub_garbage,
  hub_roster, hub_gameover,
}
use corestack_50005_htt.Tetris.Room.{HubAttack, HubRoster, hit, resolve_victim}
use corestack_50005_htt.Tetris.Room.Ok.{apply_remote_garbage-Ok, queue_word-Ok}
use corestack_50005_htt.Tetris.Room.Worker.{
  RoomEffect, reports, feeds, Request, Worker, Inbox, handle_request, drain_requests, handle_hub,
  drain_hub, is_lost, report_eliminations, deliver, route_slot, route_garbage, push_slot,
  push_states, advance, tick_worker, run_worker, keepalive_ticks, max_msgs_per_tick,
}

put-Ok :
    (session : GameSession) (i : ℕ) (slot : PlayerSlot)
    → SessionOk session
    → GameOk slot.state
    → SessionOk (put_slot session i slot)
put-Ok session i slot w o = record {
  counted = w.counted;
  sound = put_slot-Ok session session.count i slot w.counted w.sound o;
}

handle_request-Ok :
    (r : Request) (session : GameSession) (d : Draws)
    → SessionOk session
    → SessionOk (handle_request r session d).0
unfolding handle_request
handle_request-Ok none session d w = w
handle_request-Ok (some (req_action, sender_id, action)) session d w =
    acted-Ok session sender_id action d (find_player session sender_id) refl w
handle_request-Ok (some (unknown, sender_id, action)) session d w = w
handle_request-Ok (some (req_move, sender_id, action)) session d w = w
handle_request-Ok (some (req_drop, sender_id, action)) session d w = w
handle_request-Ok (some (req_rotate, sender_id, action)) session d w = w
handle_request-Ok (some (req_state, sender_id, action)) session d w = w
handle_request-Ok (some (req_attack, sender_id, action)) session d w = w
handle_request-Ok (some (req_roster, sender_id, action)) session d w = w

drain_requests-Ok :
    (n : ℕ) (requests : List Request) (session : GameSession) (d : Draws)
    → SessionOk session
    → SessionOk (drain_requests n requests session d).0
unfolding drain_requests
drain_requests-Ok zero requests session d w = w
drain_requests-Ok (suc n) [] session d w = w
drain_requests-Ok (suc n) (r ∷ requests) session d w =
    let (session', d') = handle_request r session d in
    drain_requests-Ok n requests session' d' (handle_request-Ok r session d w)

handle_hub-Ok :
    (msg : HubMsg) (w : Worker) → SessionOk w.session → SessionOk (handle_hub msg w).0.session
unfolding handle_hub
handle_hub-Ok (hub_garbage attack) w o = apply_remote_garbage-Ok w.session attack o
handle_hub-Ok (hub_feed attack) w o = o
handle_hub-Ok (hub_roster roster) w o = o
handle_hub-Ok (hub_gameover id) w o = o
handle_hub-Ok hub_ready w o = o
handle_hub-Ok (hub_joined id) w o = o
handle_hub-Ok (hub_attack attack) w o = o
handle_hub-Ok (hub_eliminated id) w o = o
handle_hub-Ok (hub_start n) w o = o

drain_hub-Ok :
    (msgs : List HubMsg) (w : Worker) → SessionOk w.session → SessionOk (drain_hub msgs w).0.session
unfolding drain_hub
drain_hub-Ok [] w o = o
drain_hub-Ok (msg ∷ msgs) w o = drain_hub-Ok msgs (handle_hub msg w).0 (handle_hub-Ok msg w o)

report_eliminations-Ok :
    (n i : ℕ) (session : GameSession)
    → i + n ≤ session.count
    → SessionOk session
    → SessionOk (report_eliminations n i session).0
unfolding report_eliminations
report_eliminations-Ok zero i session h w = w
report_eliminations-Ok (suc n) i session h w =
    let slot = slot_at session i in
    let put = put_slot session i (record slot { elim_reported = true }) in
    let (left, quiet) = report_eliminations n (i + 1) session in
    let (marked, told) = report_eliminations n (i + 1) put in
    if_both (λ (o : GameSession × List RoomEffect). SessionOk o.0)
      (is_lost slot && not slot.elim_reported)
      (marked, reports (hub_eliminated slot.player_id) ∷ told) (left, quiet)
      (λ _.
        report_eliminations-Ok n (i + 1) put (omega arith) (
          put-Ok session i (record slot { elim_reported = true }) w
            (w.sound.games i (omega arith))))
      (λ _. report_eliminations-Ok n (i + 1) session (omega arith) w)

deliver-Ok :
    (session : GameSession) (i : ℕ) (attack : HubAttack) (found : Option ℕ)
    → find_player session attack.victim_id ≡ found
    → SessionOk session
    → SessionOk (deliver session i attack found).0
unfolding deliver hit
deliver-Ok session i attack none e w =
    if_both (λ (o : GameSession × List RoomEffect). SessionOk o.0)
      (not (attack.victim_id == 0) && not (attack.victim_id == attack.attacker_id))
      (session, reports (hub_attack attack) ∷ feeds attack ∷ reports (hub_feed attack) ∷ [])
      (session, []) (λ _. w) (λ _. w)
deliver-Ok session i attack (some v) e w =
    let victim = slot_at session v in
    let old = w.sound.games v (find_player_lem session attack.victim_id v e).in_use in
    if_both (λ (o : GameSession × List RoomEffect). SessionOk o.0)
      (not (v == i) && victim.state.game_over == 0)
      (put_slot session v (hit attack victim), feeds attack ∷ reports (hub_feed attack) ∷ [])
      (session, [])
      (λ _. put-Ok session v (hit attack victim) w (queue_word-Ok victim.state attack.lines old))
      (λ _. w)

route_slot-Ok :
    (global : HubRoster) (i : ℕ) (session : GameSession) (d : Draws)
    → i < session.count
    → SessionOk session
    → SessionOk (route_slot global i session d).0
unfolding route_slot
route_slot-Ok global i session d h w =
    let attacker = slot_at session i in
    let spent = record attacker { state = record attacker.state { outgoing_garbage = 0 } } in
    let consumed = put_slot session i spent in
    let (victim_id, d') = resolve_victim consumed spent global d in
    let attack : HubAttack = record {
      attacker_id = attacker.player_id;
      victim_id = victim_id;
      lines = attacker.state.outgoing_garbage;
    } in
    let (routed, out) = deliver consumed i attack (find_player consumed victim_id) in
    if_both (λ (o : GameSession × List RoomEffect × Draws). SessionOk o.0)
      (attacker.state.outgoing_garbage == 0) (session, [], d) (routed, out, d') (λ _. w)
      (λ _.
        deliver-Ok consumed i attack (find_player consumed victim_id) refl
          (put-Ok session i spent w (w.sound.games i h)))

route_garbage-Ok :
    (global : HubRoster) (n i : ℕ) (session : GameSession) (d : Draws)
    → i + n ≤ session.count
    → SessionOk session
    → SessionOk (route_garbage global n i session d).0
unfolding route_garbage
route_garbage-Ok global zero i session d h w = w
route_garbage-Ok global (suc n) i session d h w =
    let (session', out, d') = route_slot global i session d in
    let same = (route_slot-Same global i session d).count in
    route_garbage-Ok global n (i + 1) session' d' (omega arith)
      (route_slot-Ok global i session d (omega arith) w)

push_slot-state :
    (blank : StatePayload) (slot : PlayerSlot) → (push_slot blank slot).0.state ≡ slot.state
unfolding push_slot
push_slot-state blank slot =
    elim (Bool-cases (not slot.dirty && ltb slot.idle_ticks keepalive_ticks)) [
      | inl e ↦ rw e refl
      | inr e ↦ rw e refl
    ]

push_states-Ok :
    (blank : StatePayload) (n i : ℕ) (session : GameSession)
    → i + n ≤ session.count
    → SessionOk session
    → SessionOk (push_states blank n i session).0
unfolding push_states
push_states-Ok blank zero i session h w = w
push_states-Ok blank (suc n) i session h w =
    let (slot, out) = push_slot blank (slot_at session i) in
    push_states-Ok blank n (i + 1) (put_slot session i slot) (omega arith) (
      put-Ok session i slot w (
        subst GameOk (sym (push_slot-state blank (slot_at session i)))
          (w.sound.games i (omega arith))))

advance-Ok :
    (blank : StatePayload) (w : Worker) (d : Draws)
    → SessionOk w.session
    → SessionOk (advance blank w d).0.session
unfolding advance
advance-Ok blank w d o =
    let (ticked, d1) = tick_session w.session d in
    let (reported, told) = report_eliminations ticked.count 0 ticked in
    let (routed, hits, d2) = route_garbage w.global reported.count 0 reported d1 in
    push_states-Ok blank routed.count 0 routed (omega arith) (
      route_garbage-Ok w.global reported.count 0 reported d1 (omega arith) (
        report_eliminations-Ok ticked.count 0 ticked (omega arith) (tick_session-Ok w.session d o)))

-- One round of the loop.
pub tick_worker-Ok :
    (blank : StatePayload) (inbox : Inbox) (w : Worker) (d : Draws)
    → SessionOk w.session
    → SessionOk (tick_worker blank inbox w d).0.session
unfolding tick_worker
tick_worker-Ok blank inbox w d o =
    let (acted, d1) = drain_requests max_msgs_per_tick inbox.requests w.session d in
    let (heard, out) = drain_hub inbox.msgs (record w { session = acted }) in
    let stopped = record heard { match_over = heard.match_over || inbox.gone } in
    let (after, later, d2) = advance blank stopped d1 in
    let sound =
      drain_hub-Ok inbox.msgs (record w { session = acted })
        (drain_requests-Ok max_msgs_per_tick inbox.requests w.session d o) in
    if_both (λ (r : Worker × List RoomEffect × Draws). SessionOk r.0.session) stopped.match_over
      (stopped, out, d1) (after, out ++ later, d2) (λ _. sound)
      (λ _. advance-Ok blank stopped d1 sound)

-- Over any number of rounds of the worker's loop, whatever the clients and the master send and for all values
-- of `rand()`, the games of the room stay sound: under actions, garbage from outside, the tick, the reports,
-- the routing of garbage between the players of the room and the push of their states.
pub run_worker-Ok :
    (blank : StatePayload) (inboxes : List Inbox) (w : Worker) (d : Draws)
    → SessionOk w.session
    → SessionOk (run_worker blank inboxes w d).0.session
unfolding run_worker
run_worker-Ok blank [] w d o = o
run_worker-Ok blank (inbox ∷ inboxes) w d o =
    let (w', out, d') = tick_worker blank inbox w d in
    let (w'', later, d'') = run_worker blank inboxes w' d' in
    if_both (λ (r : Worker × List RoomEffect × Draws). SessionOk r.0.session) w.match_over
      (w, [], d) (w'', out ++ later, d'') (λ _. o)
      (λ _. run_worker-Ok blank inboxes w' d' (tick_worker-Ok blank inbox w d o))
