-- ===== src/Tetris/Room/Worker.antt =====
-- tetrisd/room.c: the worker of a room, its lobby, its tick and its end. A received request is what
-- `parse_hypertext` and `req_extract_info` make of it, and what a tick sends is a list of effects; the
-- log and the sleep of a tick are left out.
pub mod Lobby
pub mod Finish
pub mod Tick
pub mod Frame
pub mod Reports
pub mod Quiet
pub mod Once
mod Tests
use package.corestack_50005_htt.Prelude.Int.{to_int}
use package.corestack_50005_htt.Prelude.{
  ℕ, zero, suc, ◌+◌, ◌-◌, ◌%◌, ◌^◌, min, Bool, true, false, not, ◌&&◌, ◌||◌, ◌==◌,
}
use package.corestack_50005_htt.Prelude.{
  if◌then◌else◌, List, [], ◌∷◌, ◌++◌, get_or, length, ltb, leb,
}
use package.corestack_50005_htt.Prelude.{Option, none, some, Draws, rand}
use package.corestack_50005_htt.Tetris.State.{GameState}
use package.corestack_50005_htt.Tetris.Garbage.{queue_garbage}
use package.corestack_50005_htt.Tetris.Session.{
  PlayerSlot, GameSession, PlayerAction, slot_at, put_slot, find_player, apply_action, tick_session,
}
use package.corestack_50005_htt.Tetris.Protocol.{StatePayload, build_state_payload}
use package.corestack_50005_htt.Corestack.Htttp.{MethodHttp, req_action}
use package.corestack_50005_htt.Tetris.Hub.State.{
  HubMsg, hub_ready, hub_joined, hub_attack, hub_eliminated, hub_feed, hub_start, hub_garbage,
  hub_roster, hub_gameover,
}
use package.corestack_50005_htt.Tetris.Room.{
  HubAttack, HubRoster, hit, apply_remote_garbage, resolve_victim,
}

abbrev pub keepalive_ticks : ℕ
keepalive_ticks = 50

abbrev pub max_msgs_per_tick : ℕ
max_msgs_per_tick = 64

-- A message to the master, an attack for the kill feeds of the clients, and the state of a player for them.
pub data RoomEffect : Type 0 where
  reports : HubMsg → RoomEffect
  feeds : HubAttack → RoomEffect
  pushes : ℕ → StatePayload → RoomEffect

-- A request with its method, its sender and its action, or `none` for one that cannot be parsed.
abbrev pub Request : Type 0
Request = Option (MethodHttp × ℕ × PlayerAction)

-- The body of the loop over the requests.
unfoldable pub handle_request : Request → GameSession → Draws → GameSession × Draws
handle_request none session d = (session, d)
handle_request (some (req_action, sender_id, action)) session d =
    apply_action session (find_player session sender_id) action d
handle_request (some (method, sender_id, action)) session d = (session, d)

-- The loop, with `n` rounds left.
unfoldable pub drain_requests : ℕ → List Request → GameSession → Draws → GameSession × Draws
drain_requests zero requests session d = (session, d)
drain_requests (suc n) [] session d = (session, d)
drain_requests (suc n) (r ∷ requests) session d =
    let (session', d') = handle_request r session d in drain_requests n requests session' d'

-- The local variables of the tick loop.
pub record Worker : Type 0 where
  pub session : GameSession
  pub global : HubRoster
  pub match_over : Bool
  pub winner_id : ℕ

-- Whether garbage from another room finds its victim, as in `apply_remote_garbage`.
unfoldable pub feed_found : GameSession → HubAttack → Option ℕ → List RoomEffect
feed_found session attack none = []
feed_found session attack (some i) =
    if not ((slot_at session i).state.game_over == 0) then [] else feeds attack ∷ []

-- The `switch` over a message of the master.
unfoldable pub handle_hub : HubMsg → Worker → Worker × List RoomEffect
handle_hub (hub_garbage attack) w = (
  record w { session = apply_remote_garbage w.session attack },
  feed_found w.session attack (find_player w.session attack.victim_id),
)
handle_hub (hub_feed attack) w = (w, feeds attack ∷ [])
handle_hub (hub_roster roster) w = (record w { global = roster }, [])
handle_hub (hub_gameover id) w = (record w { winner_id = id; match_over = true }, [])
handle_hub msg w = (w, [])

unfoldable pub drain_hub : List HubMsg → Worker → Worker × List RoomEffect
drain_hub [] w = (w, [])
drain_hub (msg ∷ msgs) w =
    let (w', out) = handle_hub msg w in let (w'', later) = drain_hub msgs w' in (w'', out ++ later)

-- The loop that reports eliminations, from the slot `i` on, with `n` of them left.
abbrev pub is_lost : PlayerSlot → Bool
is_lost slot = not (slot.state.game_over == 0) || not slot.active

unfoldable pub report_eliminations : ℕ → ℕ → GameSession → GameSession × List RoomEffect
report_eliminations zero i session = (session, [])
report_eliminations (suc n) i session =
    let slot = slot_at session i in
    let (left, quiet) = report_eliminations n (i + 1) session in
    let (marked, told) =
      report_eliminations n (i + 1) (put_slot session i (record slot { elim_reported = true })) in
    if is_lost slot && not slot.elim_reported
    then (marked, reports (hub_eliminated slot.player_id) ∷ told)
    else (left, quiet)

-- Where the garbage of the attacker in slot `i` goes, in a session where it is consumed.
unfoldable pub deliver : GameSession → ℕ → HubAttack → Option ℕ → GameSession × List RoomEffect
deliver session i attack none =
    if not (attack.victim_id == 0) && not (attack.victim_id == attack.attacker_id)
    then (session, reports (hub_attack attack) ∷ feeds attack ∷ reports (hub_feed attack) ∷ [])
    else (session, [])
deliver session i attack (some v) =
    if not (v == i) && (slot_at session v).state.game_over == 0
    then (
      put_slot session v (hit attack (slot_at session v)),
      feeds attack ∷ reports (hub_feed attack) ∷ [],
    )
    else (session, [])

-- The body of the loop that routes garbage.
unfoldable pub route_slot :
    HubRoster → ℕ → GameSession → Draws → GameSession × List RoomEffect × Draws
route_slot global i session d =
    let attacker = slot_at session i in
    let spent = record attacker { state = record attacker.state { outgoing_garbage = 0 } } in
    let consumed = put_slot session i spent in
    let (victim_id, d') = resolve_victim consumed spent global d in
    let attack : HubAttack = record {
      attacker_id = attacker.player_id;
      victim_id = victim_id;
      lines = attacker.state.outgoing_garbage;
    } in
    let (routed, out) = deliver consumed i attack (find_player consumed victim_id) in
    if attacker.state.outgoing_garbage == 0 then (session, [], d) else (routed, out, d')

unfoldable pub route_garbage :
    HubRoster → ℕ → ℕ → GameSession → Draws → GameSession × List RoomEffect × Draws
route_garbage global zero i session d = (session, [], d)
route_garbage global (suc n) i session d =
    let (session', out, d') = route_slot global i session d in
    let (session'', later, d'') = route_garbage global n (i + 1) session' d' in
    (session'', out ++ later, d'')

-- The body of the loop that pushes states. `blank` is the payload before it is filled, which C leaves
-- indeterminate.
unfoldable pub push_slot : StatePayload → PlayerSlot → PlayerSlot × List RoomEffect
push_slot blank slot =
    if not slot.dirty && ltb slot.idle_ticks keepalive_ticks
    then (record slot { idle_ticks = slot.idle_ticks + 1 }, [])
    else (
      record slot { dirty = false; idle_ticks = 0 },
      pushes slot.player_id (build_state_payload slot.state blank) ∷ [],
    )

unfoldable pub push_states : StatePayload → ℕ → ℕ → GameSession → GameSession × List RoomEffect
push_states blank zero i session = (session, [])
push_states blank (suc n) i session =
    let (slot, out) = push_slot blank (slot_at session i) in
    let (session', later) = push_states blank n (i + 1) (put_slot session i slot) in
    (session', out ++ later)

-- What a tick receives: requests, messages of the master, and whether the master is gone.
pub record Inbox : Type 0 where
  pub requests : List Request
  pub msgs : List HubMsg
  pub gone : Bool

-- The phases of a tick behind the test for the end of the match.
unfoldable pub advance : StatePayload → Worker → Draws → Worker × List RoomEffect × Draws
advance blank w d =
    let (ticked, d1) = tick_session w.session d in
    let (reported, told) = report_eliminations ticked.count 0 ticked in
    let (routed, hits, d2) = route_garbage w.global reported.count 0 reported d1 in
    let (pushed, shown) = push_states blank routed.count 0 routed in
    (record w { session = pushed }, told ++ (hits ++ shown), d2)

-- One round of the tick loop.
unfoldable pub tick_worker :
    StatePayload → Inbox → Worker → Draws → Worker × List RoomEffect × Draws
tick_worker blank inbox w d =
    let (acted, d1) = drain_requests max_msgs_per_tick inbox.requests w.session d in
    let (heard, out) = drain_hub inbox.msgs (record w { session = acted }) in
    let stopped = record heard { match_over = heard.match_over || inbox.gone } in
    let (after, later, d2) = advance blank stopped d1 in
    if stopped.match_over then (stopped, out, d1) else (after, out ++ later, d2)

-- The loop, for the rounds that are given: none behind the end of the match.
unfoldable pub run_worker :
    StatePayload → List Inbox → Worker → Draws → Worker × List RoomEffect × Draws
run_worker blank [] w d = (w, [], d)
run_worker blank (inbox ∷ inboxes) w d =
    let (w', out, d') = tick_worker blank inbox w d in
    let (w'', later, d'') = run_worker blank inboxes w' d' in
    if w.match_over then (w, [], d) else (w'', out ++ later, d'')
