-- ===== src/Tetris/Hub/Daemon.antt =====
-- tetrisd/main.c: the messages of the workers, and the main loop.
use corestack_50005_htt.Prelude.{ℕ, ◌+◌, ◌*◌, true, false, not, ◌&&◌, ◌||◌, ◌==◌}
use corestack_50005_htt.Prelude.{if◌then◌else◌, List, [], ◌∷◌, ◌++◌, get_or, length, ltb}
use corestack_50005_htt.Prelude.{Option, map}
use corestack_50005_htt.Tetris.Room.{hub_max_players, HubAttack}
use corestack_50005_htt.Tetris.Hub.State.{
  max_rooms, HubMsg, hub_ready, hub_joined, hub_attack, hub_eliminated, hub_feed, hub_garbage,
}
use corestack_50005_htt.Tetris.Hub.State.{
  Room, PlayerRec, Master, Effect, sends, redirects, Done, ◌>>=◌, zero_room, room_at, put_room,
}
use corestack_50005_htt.Tetris.Hub.Dealing.{accept_client}
use corestack_50005_htt.Tetris.Hub.Match.{
  broadcast_roster, start_all_rooms, check_global_end, close_room,
}

-- The loop of HUB_ELIMINATED.
unfoldable pub eliminate_player : ℕ → List PlayerRec → List PlayerRec
eliminate_player id players =
    map (λ p. if p.id == id then record p { alive = false } else p) players

-- The loop of HUB_ATTACK, up to its `break`.
unfoldable pub route : List Room → HubAttack → List PlayerRec → List Effect
route rooms attack [] = []
route rooms attack (p ∷ players) =
    let rest = route rooms attack players in
    let target = get_or rooms p.room zero_room in
    if not (p.id == attack.victim_id) || not p.alive
    then rest
    else if target.used && target.started
    then sends target.hub_fd (hub_garbage attack) ∷ []
    else []

-- The loop of HUB_FEED, from the slot `i` on.
unfoldable pub fan_out : List Room → ℕ → ℕ → HubMsg → List Effect
fan_out [] i slot feed = []
fan_out (r ∷ rooms) i slot feed =
    let rest = fan_out rooms (i + 1) slot feed in
    if not (i == slot) && r.used && r.started then sends r.hub_fd feed ∷ rest else rest

-- The first part of HUB_JOINED, and the test for a full daemon at its end.
unfoldable pub add_player : Master → ℕ → ℕ → Master
add_player m slot id =
    let room = room_at m slot in
    let arrived : PlayerRec = record { id = id; room = slot; alive = true } in
    let players =
      if ltb (length m.players) hub_max_players then m.players ++ arrived ∷ [] else m.players in
    record (put_room m slot (record room { joined = room.joined + 1 })) { players = players }

unfoldable pub fill_up : Master → Done
fill_up m = if ltb (length m.players) (m.room_size * max_rooms) then (m, []) else start_all_rooms m

unfoldable pub handle_hub_msg : Master → ℕ → HubMsg → Done
handle_hub_msg m slot hub_ready =
    let room = room_at m slot in
    (
      put_room m slot (record room { ready = true; pending_fds = [] }),
      map (λ fd. redirects fd room.port) room.pending_fds,
    )
handle_hub_msg m slot (hub_joined id) = (add_player m slot id, []) >>= broadcast_roster >>= fill_up
handle_hub_msg m slot (hub_eliminated id) =
    (record m { players = eliminate_player id m.players }, [])
    >>= broadcast_roster
    >>= check_global_end
handle_hub_msg m slot (hub_attack attack) = (m, route m.rooms attack m.players)
handle_hub_msg m slot (hub_feed attack) = (m, fan_out m.rooms 0 slot (hub_feed attack))
handle_hub_msg m slot msg = (m, [])

-- What a pass of the main loop meets: a connection, ENTER, a message of a worker, and its end. Only
-- the hubs of rooms in use are polled.
pub data Event : Type 0 where
  connects : Option ℕ → Option ℕ → Event
  enter : Event
  says : ℕ → HubMsg → Event
  hangs_up : ℕ → Event

unfoldable pub step : Master → Event → Done
step m (connects client hub) = accept_client m client hub
step m enter = start_all_rooms m
step m (says slot msg) = if (room_at m slot).used then handle_hub_msg m slot msg else (m, [])
step m (hangs_up slot) = if (room_at m slot).used then close_room m slot else (m, [])

unfoldable pub run : List Event → Master → Done
run [] m = (m, [])
run (e ∷ events) m = step m e >>= run events
