-- ===== src/Tetris/Hub/Sound.antt =====
-- Every event keeps the master sound, and no client is refused for which there is a room.
use corestack_50005_htt.Prelude.{ℕ, suc, ◌+◌, ◌≤◌, ◌≡◌, refl, ap, Bool, true, false, arith}
use corestack_50005_htt.Prelude.{if◌then◌else◌, List, [], ◌∷◌, ◌++◌, length}
use corestack_50005_htt.Prelude.{◌==◌, ltb, inl, inr, ◌*◌}
use corestack_50005_htt.Prelude.{ltb→lt, All, All-append, length-append, if_both, ◌&&◌}
use corestack_50005_htt.Tetris.Hub.State.{Master, HubMsg, Done, ◌>>=◌, room_at}
use corestack_50005_htt.Tetris.Hub.State.{put_room}
use corestack_50005_htt.Tetris.Hub.State.{
  hub_ready, hub_joined, hub_attack, hub_eliminated, hub_feed, hub_start, hub_garbage, hub_roster,
  hub_gameover, PlayerRec, max_rooms,
}
use corestack_50005_htt.Tetris.Hub.Match.{
  broadcast_roster, start_all_rooms, check_global_end, kill_room, close_room,
}
use corestack_50005_htt.Tetris.Hub.Daemon.{
  Event, connects, enter, says, hangs_up, handle_hub_msg, step, run, eliminate_player, add_player,
  fill_up,
}
use corestack_50005_htt.Tetris.Room.{hub_max_players}
use corestack_50005_htt.Tetris.Hub.Ending.{check_global_end_lem}
use corestack_50005_htt.Tetris.Hub.Rooms.{used_inside}
use corestack_50005_htt.Tetris.Hub.Ok.{MasterOk, InTable, put_room-Ok, room_at-Ok}
use corestack_50005_htt.Tetris.Hub.Kept.{accept_client-Ok, start_rooms-Ok}

-- Other players, as many and in rooms of the table.
players-Ok :
    (m : Master) (players : List PlayerRec)
    → length players ≤ hub_max_players
    → All InTable players
    → MasterOk m
    → MasterOk (record m { players = players })
players-Ok m players h k o = record {
  table = o.table;
  rooms = o.rooms;
  capacity = h;
  places = k;
  positive = o.positive;
  lobby = o.lobby;
}

check_global_end-Ok : (m : Master) → MasterOk m → MasterOk (check_global_end m).0
check_global_end-Ok m o = elim (check_global_end_lem m) [
  | inl (_, e) ↦ rw e o
  | inr (_, _, e) ↦ rw e (record {
    table = o.table;
    rooms = o.rooms;
    capacity = o.capacity;
    places = o.places;
    positive = o.positive;
    lobby = o.lobby;
  })
]

eliminate_player-InTable :
    (id : ℕ) (players : List PlayerRec)
    → All InTable players
    → All InTable (eliminate_player id players)
      × (length (eliminate_player id players) ≡ length players)
unfolding eliminate_player
eliminate_player-InTable id [] h = (tt, refl)
eliminate_player-InTable id (p ∷ players) h =
    let (rest, same) = eliminate_player-InTable id players h.1 in
    (
      (if_both InTable (p.id == id) (record p { alive = false }) p (λ _. h.0) (λ _. h.0), rest),
      ap suc same,
    )

kill_room-InTable :
    (slot : ℕ) (players : List PlayerRec)
    → All InTable players
    → All InTable (kill_room slot players).0 × (length (kill_room slot players).0 ≡ length players)
unfolding kill_room
kill_room-InTable slot [] h = (tt, refl)
kill_room-InTable slot (p ∷ players) h =
    let (rest, same) = kill_room-InTable slot players h.1 in
    let (left, changed) = kill_room slot players in
    if_both (λ (d : List PlayerRec × Bool). All InTable d.0 × (length d.0 ≡ suc (length players)))
      (p.room == slot && p.alive) (record p { alive = false } ∷ left, true) (p ∷ left, changed)
      (λ _. ((h.0, rest), ap suc same)) (λ _. ((h.0, rest), ap suc same))

mourn-Ok :
    (m : Master) → MasterOk m → MasterOk ((m, []) >>= broadcast_roster >>= check_global_end).0
unfolding broadcast_roster
mourn-Ok m o = check_global_end-Ok m o

close_room-Ok : (m : Master) (slot : ℕ) → MasterOk m → MasterOk (close_room m slot).0
unfolding close_room
close_room-Ok m slot o =
    let room = room_at m slot in
    let old = room_at-Ok m slot o in
    let closed = put_room m slot (record room { used = false }) in
    let (players, changed) = kill_room slot m.players in
    let (places, same) = kill_room-InTable slot m.players o.places in
    let mourning =
      (record closed { players = players }, []) >>= broadcast_roster >>= check_global_end in
    let ok =
      put_room-Ok m slot (record room { used = false }) o
        (record {
          dealt = old.dealt;
          fits = old.fits;
          flushed = old.flushed;
          occupied = old.occupied;
        }) in
    if_both (λ (d : Done). MasterOk d.0) m.match_ended (closed, [])
      (if changed then mourning else (closed, [])) (λ _. ok)
      (λ _.
        if_both (λ (d : Done). MasterOk d.0) changed mourning (closed, [])
          (λ _.
            mourn-Ok (record closed { players = players })
              (players-Ok closed players (omega (arith, o.capacity)) places ok))
          (λ _. ok))

add_player-Ok :
    (m : Master) (slot id : ℕ)
    → (room_at m slot).used ≡ true
    → MasterOk m
    → MasterOk (add_player m slot id)
unfolding add_player
add_player-Ok m slot id e o =
    let room = room_at m slot in
    let old = room_at-Ok m slot o in
    let arrived : PlayerRec = record { id = id; room = slot; alive = true } in
    let inside = used_inside m.rooms slot e in
    let put =
      put_room-Ok m slot (record room { joined = room.joined + 1 }) o
        (record {
          dealt = old.dealt;
          fits = old.fits;
          flushed = old.flushed;
          occupied = λ _. omega arith;
        }) in
    let t = put_room m slot (record room { joined = room.joined + 1 }) in
    if_both (λ (players : List PlayerRec). MasterOk (record t { players = players }))
      (ltb (length m.players) hub_max_players) (m.players ++ arrived ∷ []) m.players
      (λ room_left.
        players-Ok t (m.players ++ arrived ∷ [])
          (omega (
            arith,
            length-append m.players (arrived ∷ []),
            ltb→lt (length m.players) hub_max_players room_left,
          ))
          (All-append InTable m.players (arrived ∷ []) o.places (omega (arith, o.table), tt)) put)
      (λ _. players-Ok t m.players o.capacity o.places put)

fill_up-Ok : (m : Master) → MasterOk m → MasterOk (fill_up m).0
unfolding fill_up start_all_rooms
fill_up-Ok m o =
    if_both (λ (d : Done). MasterOk d.0) (ltb (length m.players) (m.room_size * max_rooms)) (m, [])
      (start_all_rooms m) (λ _. o) (λ _. start_rooms-Ok max_rooms 0 m o)

handle_hub_msg-Ok :
    (m : Master) (slot : ℕ) (msg : HubMsg)
    → (room_at m slot).used ≡ true
    → MasterOk m
    → MasterOk (handle_hub_msg m slot msg).0
unfolding handle_hub_msg broadcast_roster
handle_hub_msg-Ok m slot hub_ready e o =
    let old = room_at-Ok m slot o in
    put_room-Ok m slot (record (room_at m slot) { ready = true; pending_fds = [] }) o
      (record {
        dealt = omega arith;
        fits = old.fits;
        flushed = λ _. refl;
        occupied = old.occupied;
      })
handle_hub_msg-Ok m slot (hub_joined id) e o =
    fill_up-Ok (add_player m slot id) (add_player-Ok m slot id e o)
handle_hub_msg-Ok m slot (hub_attack attack) e o = o
handle_hub_msg-Ok m slot (hub_eliminated id) e o =
    let (places, same) = eliminate_player-InTable id m.players o.places in
    mourn-Ok (record m { players = eliminate_player id m.players })
      (players-Ok m (eliminate_player id m.players) (omega (arith, o.capacity)) places o)
handle_hub_msg-Ok m slot (hub_feed attack) e o = o
handle_hub_msg-Ok m slot (hub_start n) e o = o
handle_hub_msg-Ok m slot (hub_garbage attack) e o = o
handle_hub_msg-Ok m slot (hub_roster roster) e o = o
handle_hub_msg-Ok m slot (hub_gameover id) e o = o

step-Ok : (m : Master) (e : Event) → MasterOk m → MasterOk (step m e).0
unfolding step start_all_rooms
step-Ok m (connects client hub) o = accept_client-Ok m client hub o
step-Ok m enter o = start_rooms-Ok max_rooms 0 m o
step-Ok m (says slot msg) o =
    if_both (λ (d : Done). MasterOk d.0) (room_at m slot).used (handle_hub_msg m slot msg) (m, [])
      (λ e. handle_hub_msg-Ok m slot msg e o) (λ _. o)
step-Ok m (hangs_up slot) o =
    if_both (λ (d : Done). MasterOk d.0) (room_at m slot).used (close_room m slot) (m, [])
      (λ _. close_room-Ok m slot o) (λ _. o)

-- Every event, an arbitrary message of a worker included, keeps the master sound: the table has 32 rooms, a
-- room has no more parked clients than were dealt into it and those are at most the room's size, a room whose
-- port is bound parks nobody, a started room has a client that joined, at most 64 players are recorded, and
-- each in a room of the table.
pub run-Ok : (events : List Event) (m : Master) → MasterOk m → MasterOk (run events m).0
unfolding run
run-Ok [] m o = o
run-Ok (e ∷ events) m o = run-Ok events (step m e).0 (step-Ok m e o)
