-- ===== src/Tetris/Hub/Parked.antt =====
-- What becomes of the clients that the master accepts.
use corestack_50005_htt.Prelude.{ℕ, suc, zero, ◌+◌, ◌≡◌, refl, Bool, true, false, not, arith}
use corestack_50005_htt.Prelude.{if◌then◌else◌, List, [], ◌∷◌, ◌++◌, length, Option, none, some}
use corestack_50005_htt.Prelude.{map, count, count-append, ◌==◌, ltb, ◌||◌, ◌*◌, ◌%◌, ◌^◌}
use corestack_50005_htt.Prelude.{if_both}
use corestack_50005_htt.Tetris.Session.{max_lobby_size}
use corestack_50005_htt.Tetris.Hub.State.{Room, Master, Effect, HubMsg, Done, ◌>>=◌, room_at}
use corestack_50005_htt.Tetris.Hub.State.{sends, redirects, closes_client, closes_hub, put_room}
use corestack_50005_htt.Tetris.Hub.State.{
  hub_ready, hub_joined, hub_attack, hub_eliminated, hub_feed, hub_start, hub_garbage, hub_roster,
  hub_gameover, PlayerRec, max_rooms,
}
use corestack_50005_htt.Tetris.Hub.Dealing.{
  first_room, spawn_into, spawn_room, is_filling, new_room,
}
use corestack_50005_htt.Tetris.Hub.Dealing.{found_or_spawn, filling_room, deal, accept_client}
use corestack_50005_htt.Tetris.Hub.Match.{
  send_each, broadcast_roster, start_room, start_rooms, start_all_rooms, check_global_end,
  kill_room, close_room, is_running, count_alive, is_over, roster_of,
}
use corestack_50005_htt.Tetris.Hub.Daemon.{
  Event, connects, enter, says, hangs_up, handle_hub_msg, step, run, eliminate_player, add_player,
  fill_up,
}
use corestack_50005_htt.Tetris.Hub.Rooms.{first_room_lem, found_or_spawn_used}
use corestack_50005_htt.Tetris.Hub.Balance.{
  held, parked, settled, arrives, arrivals, settled-redirects, settled-closes, settled-send_each,
  settled-route, settled-fan_out, parked-set, parked-set_used, Balance, Balance->>=,
}

module _ (v : ℕ) where
  Balance-if :
      (n : ℕ) (m : Master) (b : Bool) (x y : Done)
      → (b ≡ true → Balance v n m x)
      → (b ≡ false → Balance v n m y)
      → Balance v n m (if b then x else y)
  Balance-if n m = if_both (Balance v n m)

  -- A room in use is replaced, and sockets are closed.
  put_room-Balance :
      (n : ℕ) (m : Master) (slot : ℕ) (room : Room) (out : List Effect)
      → (room_at m slot).used ≡ true
      → settled v out + held v room ≡ n + count v (room_at m slot).pending_fds
      → Balance v n m (put_room m slot room, out)
  put_room-Balance n m slot room out e h = omega (arith, parked-set_used v m.rooms slot room e)

  spawn_into-Balance :
      (m : Master) (slot hub : Option ℕ)
      → first_room (λ r. not r.used) m.rooms 0 ≡ slot
      → let d = spawn_into m slot hub in Balance v 0 m (d.1, d.2)
  unfolding spawn_into
  spawn_into-Balance m none hub e = omega arith
  spawn_into-Balance m (some slot) none e = omega arith
  spawn_into-Balance m (some slot) (some fd) e =
      let (k, at, inside, free) = first_room_lem (λ r. not r.used) m.rooms 0 slot e in
      let here : slot ≡ k = omega arith in
      let empty : held v (room_at m slot) ≡ 0 = rw here (ground arith) in
      omega (arith, parked-set v m.rooms slot (new_room slot fd) (omega arith))

  deal-Balance :
      (m : Master) (slot : ℕ) (client_fd : ℕ)
      → (room_at m slot).used ≡ true
      → Balance v (if client_fd == v then 1 else 0) m (deal m (some slot) client_fd)
  unfolding deal
  deal-Balance m slot client_fd e =
      let n : ℕ = if client_fd == v then 1 else 0 in
      let room = room_at m slot in
      let counted = record room { redirected = room.redirected + 1 } in
      let added = record counted { pending_fds = room.pending_fds ++ client_fd ∷ [] } in
      Balance-if n m room.ready (put_room m slot counted, redirects client_fd room.port ∷ [])
        (if ltb (length room.pending_fds) max_lobby_size
          then (put_room m slot added, [])
          else (m, closes_client client_fd ∷ []))
        (λ _.
          put_room-Balance n m slot counted (redirects client_fd room.port ∷ []) e
            (rw e (omega arith)))
        (λ _.
          Balance-if n m (ltb (length room.pending_fds) max_lobby_size) (put_room m slot added, [])
            (m, closes_client client_fd ∷ [])
            (λ _.
              put_room-Balance n m slot added [] e
                (rw e (omega (arith, count-append v room.pending_fds (client_fd ∷ [])))))
            (λ _. omega arith))

  broadcast_roster-Balance : (m : Master) → Balance v 0 m (broadcast_roster m)
  unfolding broadcast_roster
  broadcast_roster-Balance m =
      omega (arith, settled-send_each v is_running (hub_roster (roster_of m.players)) m.rooms)

  start_room-Balance : (m : Master) (slot : ℕ) → Balance v 0 m (start_room m slot)
  unfolding start_room
  start_room-Balance m slot =
      let room = room_at m slot in
      let t = record (put_room m slot (record room { started = true })) {
        any_room_started = true;
      } in
      let out = sends room.hub_fd (hub_start (room.redirected % 2 ^ 32)) ∷ [] in
      Balance-if 0 m (not room.used || room.started || ltb room.joined 1) (m, [])
        ((t, out) >>= broadcast_roster) (λ _. omega arith)
        (λ e.
          let used : room.used ≡ true = ground arith in
          Balance->>= v 0 0 m (t, out) broadcast_roster
            (put_room-Balance 0 m slot (record room { started = true }) out used (rw used refl))
            (broadcast_roster-Balance t))

  start_rooms-Balance : (n i : ℕ) (m : Master) → Balance v 0 m (start_rooms n i m)
  unfolding start_rooms
  start_rooms-Balance zero i m = omega arith
  start_rooms-Balance (suc n) i m =
      Balance->>= v 0 0 m (start_room m i) (start_rooms n (i + 1)) (start_room-Balance m i)
        (start_rooms-Balance n (i + 1) (start_room m i).0)

  check_global_end-Balance : (m : Master) → Balance v 0 m (check_global_end m)
  unfolding check_global_end
  check_global_end-Balance m =
      let (alive, last_alive_id) = count_alive m.players 0 0 in
      let winner_id : ℕ = if alive == 1 then last_alive_id else 0 in
      let ending : Done = (
        record m { match_ended = true },
        send_each (λ r. r.used) (hub_gameover winner_id) m.rooms,
      ) in
      Balance-if 0 m (m.match_ended || length m.players == 0) (m, [])
        (if not (is_over (length m.players) alive) then (m, []) else ending) (λ _. omega arith)
        (λ _.
          Balance-if 0 m (not (is_over (length m.players) alive)) (m, []) ending (λ _. omega arith)
            (λ _.
              omega (arith, settled-send_each v (λ r. r.used) (hub_gameover winner_id) m.rooms)))

  -- The players change, and the rooms hear of it.
  mourn-Balance :
      (m : Master) (players : List PlayerRec)
      → Balance v 0 m
          ((record m { players = players }, []) >>= broadcast_roster >>= check_global_end)
  mourn-Balance m players =
      let t : Master = record m { players = players } in
      let told : Balance v 0 m ((t, []) >>= broadcast_roster) =
        Balance->>= v 0 0 m (t, []) broadcast_roster (omega arith) (broadcast_roster-Balance t) in
      Balance->>= v 0 0 m ((t, []) >>= broadcast_roster) check_global_end told
        (check_global_end-Balance ((t, []) >>= broadcast_roster).0)

  close_room-Balance :
      (m : Master) (slot : ℕ) → (room_at m slot).used ≡ true → Balance v 0 m (close_room m slot)
  unfolding close_room
  close_room-Balance m slot e =
      let room = room_at m slot in
      let closed = put_room m slot (record room { used = false }) in
      let out = closes_hub room.hub_fd ∷ map closes_client room.pending_fds in
      let (players, changed) = kill_room slot m.players in
      let mourning =
        (record closed { players = players }, []) >>= broadcast_roster >>= check_global_end in
      Balance->>= v 0 0 m (closed, out)
        (λ t. if m.match_ended then (t, []) else if changed then mourning else (t, []))
        (put_room-Balance 0 m slot (record room { used = false }) out e
          (omega (arith, settled-closes v room.pending_fds)))
        (Balance-if 0 closed m.match_ended (closed, []) (if changed then mourning else (closed, []))
          (λ _. omega arith)
          (λ _.
            Balance-if 0 closed changed mourning (closed, []) (λ _. mourn-Balance closed players)
              (λ _. omega arith)))

  found_or_spawn-Balance :
      (m : Master) (found hub : Option ℕ)
      → let d = found_or_spawn m found hub in Balance v 0 m (d.1, d.2)
  unfolding found_or_spawn spawn_room
  found_or_spawn-Balance m none hub =
      spawn_into-Balance m (first_room (λ r. not r.used) m.rooms 0) hub refl
  found_or_spawn-Balance m (some slot) hub = omega arith

  filling_room-Balance :
      (m : Master) (hub : Option ℕ) → let d = filling_room m hub in Balance v 0 m (d.1, d.2)
  unfolding filling_room
  filling_room-Balance m hub = found_or_spawn-Balance m (first_room (is_filling m) m.rooms 0) hub

  dealt-Balance :
      (m : Master) (found : Option ℕ) (client_fd : ℕ)
      → ((slot : ℕ) → found ≡ some slot → (room_at m slot).used ≡ true)
      → Balance v (if client_fd == v then 1 else 0) m (deal m found client_fd)
  unfolding deal
  dealt-Balance m none client_fd h = omega arith
  dealt-Balance m (some slot) client_fd h = deal-Balance m slot client_fd (h slot refl)

  accept_client-Balance :
      (m : Master) (client hub : Option ℕ)
      → Balance v (arrives v (connects client hub)) m (accept_client m client hub)
  unfolding accept_client filling_room
  accept_client-Balance m none hub = omega arith
  accept_client-Balance m (some client_fd) hub =
      let found = first_room (is_filling m) m.rooms 0 in
      let d = found_or_spawn m found hub in
      omega (
        arith,
        Balance->>= v 0 (if client_fd == v then 1 else 0) m (d.1, d.2) (λ t. deal t d.0 client_fd)
            (found_or_spawn-Balance m found hub)
            (dealt-Balance d.1 d.0 client_fd
              (λ slot h. found_or_spawn_used m found hub slot refl h)),
      )

  add_player-Balance :
      (m : Master) (slot id : ℕ)
      → (room_at m slot).used ≡ true
      → Balance v 0 m (add_player m slot id, [])
  unfolding add_player
  add_player-Balance m slot id e =
      let room = room_at m slot in
      put_room-Balance 0 m slot (record room { joined = room.joined + 1 }) [] e (rw e refl)

  fill_up-Balance : (m : Master) → Balance v 0 m (fill_up m)
  unfolding fill_up start_all_rooms
  fill_up-Balance m =
      Balance-if 0 m (ltb (length m.players) (m.room_size * max_rooms)) (m, []) (start_all_rooms m)
        (λ _. omega arith) (λ _. start_rooms-Balance max_rooms 0 m)

  handle_hub_msg-Balance :
      (m : Master) (slot : ℕ) (msg : HubMsg)
      → (room_at m slot).used ≡ true
      → Balance v 0 m (handle_hub_msg m slot msg)
  unfolding handle_hub_msg
  handle_hub_msg-Balance m slot hub_ready e =
      let room = room_at m slot in
      put_room-Balance 0 m slot (record room { ready = true; pending_fds = [] })
        (map (λ fd. redirects fd room.port) room.pending_fds) e
        (rw e (omega (arith, settled-redirects v room.pending_fds room.port)))
  handle_hub_msg-Balance m slot (hub_joined id) e =
      let t = add_player m slot id in
      let told : Balance v 0 m ((t, []) >>= broadcast_roster) =
        Balance->>= v 0 0 m (t, []) broadcast_roster (add_player-Balance m slot id e)
          (broadcast_roster-Balance t) in
      Balance->>= v 0 0 m ((t, []) >>= broadcast_roster) fill_up told
        (fill_up-Balance ((t, []) >>= broadcast_roster).0)
  handle_hub_msg-Balance m slot (hub_attack attack) e =
      omega (arith, settled-route v m.rooms attack m.players)
  handle_hub_msg-Balance m slot (hub_eliminated id) e =
      mourn-Balance m (eliminate_player id m.players)
  handle_hub_msg-Balance m slot (hub_feed attack) e =
      omega (arith, settled-fan_out v m.rooms 0 slot (hub_feed attack))
  handle_hub_msg-Balance m slot (hub_start n) e = omega arith
  handle_hub_msg-Balance m slot (hub_garbage attack) e = omega arith
  handle_hub_msg-Balance m slot (hub_roster roster) e = omega arith
  handle_hub_msg-Balance m slot (hub_gameover id) e = omega arith

  step-Balance : (m : Master) (e : Event) → Balance v (arrives v e) m (step m e)
  unfolding step start_all_rooms
  step-Balance m (connects client hub) = accept_client-Balance m client hub
  step-Balance m enter = start_rooms-Balance max_rooms 0 m
  step-Balance m (says slot msg) =
      Balance-if 0 m (room_at m slot).used (handle_hub_msg m slot msg) (m, [])
        (handle_hub_msg-Balance m slot msg) (λ _. omega arith)
  step-Balance m (hangs_up slot) =
      Balance-if 0 m (room_at m slot).used (close_room m slot) (m, []) (close_room-Balance m slot)
        (λ _. omega arith)

-- Over every sequence of events, from every state of the master, each client socket is closed (on its own
-- or behind a redirect) or parked in a room in use exactly as often as it was accepted or was parked at the
-- start.
pub run_settles :
    (v : ℕ) (events : List Event) (m : Master)
    → settled v (run events m).1 + parked v (run events m).0.rooms
      ≡ arrivals v events + parked v m.rooms
unfolding run
run_settles v [] m = omega arith
run_settles v (e ∷ events) m =
    Balance->>= v (arrives v e) (arrivals v events) m (step m e) (run events) (step-Balance v m e)
      (run_settles v events (step m e).0)
