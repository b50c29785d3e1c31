-- ===== src/Tetris/Hub/Match.antt =====
-- tetrisd/main.c: the match that the rooms play together, its start and its end.
use corestack_50005_htt.Prelude.{
  ℕ, suc, ◌+◌, ◌-◌, ◌%◌, ◌^◌, Bool, true, false, not, ◌&&◌, ◌||◌, ◌==◌,
}
use corestack_50005_htt.Prelude.{if◌then◌else◌, List, [], ◌∷◌, ◌++◌, length, ltb}
use corestack_50005_htt.Prelude.{map, take, replicate, zero}
use corestack_50005_htt.Tetris.Room.{hub_max_players, HubRoster}
use corestack_50005_htt.Tetris.Hub.State.{max_rooms, HubMsg, hub_start, hub_roster, hub_gameover}
use corestack_50005_htt.Tetris.Hub.State.{
  Room, PlayerRec, Master, Effect, sends, closes_client, closes_hub, Done, ◌>>=◌, room_at, put_room,
}

-- `msg.roster.ids` and `alive` up to `player_count`, in the arrays of zeros that the initialiser leaves.
abbrev pub roster_of : List PlayerRec → HubRoster
roster_of players = record {
  count = length players;
  ids =
      take hub_max_players
        (map (λ p. p.id) players ++ replicate (hub_max_players - length players) 0);
  alive =
      take hub_max_players
        (map (λ p. p.alive) players ++ replicate (hub_max_players - length players) false);
}

-- The loops that send one message on the hubs of some rooms.
unfoldable pub send_each : (Room → Bool) → HubMsg → List Room → List Effect
send_each test msg [] = []
send_each test msg (r ∷ rooms) =
    let rest = send_each test msg rooms in if test r then sends r.hub_fd msg ∷ rest else rest

abbrev pub is_running : Room → Bool
is_running r = r.used && r.started

unfoldable pub broadcast_roster : Master → Done
broadcast_roster m = (m, send_each is_running (hub_roster (roster_of m.players)) m.rooms)

unfoldable pub start_room : Master → ℕ → Done
start_room m slot =
    let room = room_at m slot in
    let started = record (put_room m slot (record room { started = true })) {
      any_room_started = true;
    } in
    if not room.used || room.started || ltb room.joined 1
    then (m, [])
    else (started, sends room.hub_fd (hub_start (room.redirected % 2 ^ 32)) ∷ [])
      >>= broadcast_roster

-- The loop of `start_all_rooms`, from the slot `i` on, with `n` of them left.
unfoldable pub start_rooms : ℕ → ℕ → Master → Done
start_rooms zero i m = (m, [])
start_rooms (suc n) i m = start_room m i >>= start_rooms n (i + 1)

unfoldable pub start_all_rooms : Master → Done
start_all_rooms m = start_rooms max_rooms 0 m

-- The count of the living players, and the id of the last one.
unfoldable pub count_alive : List PlayerRec → ℕ → ℕ → ℕ × ℕ
count_alive [] alive last_alive_id = (alive, last_alive_id)
count_alive (p ∷ players) alive last_alive_id =
    count_alive players (if p.alive then alive + 1 else alive)
      (if p.alive then p.id else last_alive_id)

abbrev pub is_over : ℕ → ℕ → Bool
is_over player_count alive = if ltb 1 player_count then ltb alive 2 else alive == 0

unfoldable pub check_global_end : Master → Done
check_global_end m =
    let (alive, last_alive_id) = count_alive m.players 0 0 in
    let winner_id : ℕ = if alive == 1 then last_alive_id else 0 in
    if m.match_ended || length m.players == 0
    then (m, [])
    else if not (is_over (length m.players) alive)
    then (m, [])
    else (record m { match_ended = true }, send_each (λ r. r.used) (hub_gameover winner_id) m.rooms)

-- The loop that kills the players of a closed room, and whether it changes one.
unfoldable pub kill_room : ℕ → List PlayerRec → List PlayerRec × Bool
kill_room slot [] = ([], false)
kill_room slot (p ∷ players) =
    let (rest, changed) = kill_room slot players in
    if p.room == slot && p.alive
    then (record p { alive = false } ∷ rest, true)
    else (p ∷ rest, changed)

unfoldable pub close_room : Master → ℕ → Done
close_room m slot =
    let room = room_at m slot in
    let closed = put_room m slot (record room { used = false }) in
    let (players, changed) = kill_room slot m.players in
    let mourning =
      (record closed { players = players }, []) >>= broadcast_roster >>= check_global_end in
    (closed, closes_hub room.hub_fd ∷ map closes_client room.pending_fds) >>= λ t.
    if m.match_ended then (t, []) else if changed then mourning else (t, [])
