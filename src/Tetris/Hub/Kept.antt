-- ===== src/Tetris/Hub/Kept.antt =====
-- The dealing of clients and the start of rooms keep the master sound.
use corestack_50005_htt.Prelude.{ℕ, suc, zero, ◌+◌, ◌≡◌, refl, true, not, arith}
use corestack_50005_htt.Prelude.{[], ◌∷◌, Option, none, some}
use corestack_50005_htt.Prelude.{ltb, ◌||◌, ◌%◌, ◌^◌}
use corestack_50005_htt.Prelude.{All, All-append, if_both}
use corestack_50005_htt.Tetris.Hub.State.{Master, Done, ◌>>=◌, room_at}
use corestack_50005_htt.Tetris.Hub.State.{sends, put_room}
use corestack_50005_htt.Tetris.Hub.State.{hub_start}
use corestack_50005_htt.Tetris.Hub.Dealing.{first_room, spawn_into, spawn_room, is_filling}
use corestack_50005_htt.Tetris.Hub.Dealing.{found_or_spawn, filling_room, deal, accept_client}
use corestack_50005_htt.Tetris.Hub.Match.{broadcast_roster, start_room, start_rooms}
use corestack_50005_htt.Tetris.Hub.Ok.{MasterOk, HasPlace, IsKept, put_room-Ok, room_at-Ok}
use corestack_50005_htt.Tetris.Hub.Ok.{deal-Ok, found_or_spawn-Ok}

spawn_into-IsKept : (m : Master) (found hub : Option ℕ) → All IsKept (spawn_into m found hub).2
unfolding spawn_into
spawn_into-IsKept m none hub = tt
spawn_into-IsKept m (some slot) none = tt
spawn_into-IsKept m (some slot) (some fd) = (tt, tt)

found_or_spawn-IsKept :
    (m : Master) (found hub : Option ℕ) → All IsKept (found_or_spawn m found hub).2
unfolding found_or_spawn spawn_room
found_or_spawn-IsKept m none hub = spawn_into-IsKept m (first_room (λ r. not r.used) m.rooms 0) hub
found_or_spawn-IsKept m (some slot) hub = tt

-- While a room can be found or spawned, the client that is accepted is redirected or parked: it is not
-- refused, since a room that takes one more client has a place to park it.
pub accept_client-IsKept :
    (m : Master) (client_fd slot : ℕ) (hub : Option ℕ)
    → MasterOk m
    → (filling_room m hub).0 ≡ some slot
    → All IsKept (accept_client m (some client_fd) hub).1
unfolding accept_client filling_room
accept_client-IsKept m client_fd slot hub o found =
    let first = first_room (is_filling m) m.rooms 0 in
    let d = found_or_spawn m first hub in
    let (ok, place) = found_or_spawn-Ok m first hub refl o in
    All-append IsKept d.2 (deal d.1 d.0 client_fd).1 (found_or_spawn-IsKept m first hub)
      (rw found (deal-Ok d.1 slot client_fd (place slot found) ok).1)

deal-MasterOk :
    (m : Master) (found : Option ℕ) (client_fd : ℕ)
    → MasterOk m
    → ((slot : ℕ) → found ≡ some slot → HasPlace m slot)
    → MasterOk (deal m found client_fd).0
unfolding deal
deal-MasterOk m none client_fd o place = o
deal-MasterOk m (some slot) client_fd o place = (deal-Ok m slot client_fd (place slot refl) o).0

pub accept_client-Ok :
    (m : Master) (client hub : Option ℕ) → MasterOk m → MasterOk (accept_client m client hub).0
unfolding accept_client filling_room
accept_client-Ok m none hub o = o
accept_client-Ok m (some client_fd) hub o =
    let first = first_room (is_filling m) m.rooms 0 in
    let d = found_or_spawn m first hub in
    let (ok, place) = found_or_spawn-Ok m first hub refl o in
    deal-MasterOk d.1 d.0 client_fd ok place

start_room-Ok : (m : Master) (slot : ℕ) → MasterOk m → MasterOk (start_room m slot).0
unfolding start_room broadcast_roster
start_room-Ok m slot o =
    let room = room_at m slot in
    let old = room_at-Ok m slot o in
    let t = record (put_room m slot (record room { started = true })) { any_room_started = true } in
    let out = sends room.hub_fd (hub_start (room.redirected % 2 ^ 32)) ∷ [] in
    if_both (λ (d : Done). MasterOk d.0) (not room.used || room.started || ltb room.joined 1)
      (m, []) ((t, out) >>= broadcast_roster) (λ _. o)
      (λ e.
        let put =
          put_room-Ok m slot (record room { started = true }) o
            (record {
              dealt = old.dealt;
              fits = old.fits;
              flushed = old.flushed;
              occupied = λ _. ground arith;
            }) in
        record {
          table = put.table;
          rooms = put.rooms;
          capacity = put.capacity;
          places = put.places;
          positive = put.positive;
          lobby = put.lobby;
        })

pub start_rooms-Ok : (n i : ℕ) (m : Master) → MasterOk m → MasterOk (start_rooms n i m).0
unfolding start_rooms
start_rooms-Ok zero i m o = o
start_rooms-Ok (suc n) i m o = start_rooms-Ok n (i + 1) (start_room m i).0 (start_room-Ok m i o)
