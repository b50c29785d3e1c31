-- ===== src/Tetris/Hub/Announcement.antt =====
-- The end of a match over whole runs of the master.
use corestack_50005_htt.Prelude.{ℕ, suc, zero, ◌+◌, ◌≡◌, refl, true, false, not}
use corestack_50005_htt.Prelude.{if◌then◌else◌, List, [], ◌∷◌, length, Option, none, some}
use corestack_50005_htt.Prelude.{map, ltb, Bool-cases, inl, inr, ◌∙◌, ◌||◌, ◌*◌, ◌%◌, ◌^◌}
use corestack_50005_htt.Prelude.{All, All-append}
use corestack_50005_htt.Tetris.Session.{max_lobby_size}
use corestack_50005_htt.Tetris.Hub.State.{Master, HubMsg, ◌>>=◌, room_at}
use corestack_50005_htt.Tetris.Hub.State.{sends, redirects, closes_client, closes_hub, put_room}
use corestack_50005_htt.Tetris.Hub.State.{
  hub_ready, hub_joined, hub_attack, hub_eliminated, hub_feed, hub_start, hub_garbage, hub_roster,
  hub_gameover, PlayerRec, max_rooms,
}
use corestack_50005_htt.Tetris.Hub.Dealing.{first_room, spawn_into, spawn_room, is_filling}
use corestack_50005_htt.Tetris.Hub.Dealing.{found_or_spawn, filling_room, deal, accept_client}
use corestack_50005_htt.Tetris.Hub.Match.{
  broadcast_roster, start_room, start_rooms, start_all_rooms, check_global_end, kill_room,
  close_room, is_running, roster_of,
}
use corestack_50005_htt.Tetris.Hub.Daemon.{
  Event, connects, enter, says, hangs_up, handle_hub_msg, step, run, eliminate_player, add_player,
  fill_up,
}
use corestack_50005_htt.Tetris.Hub.Ending.{check_global_end_lem, living, winner}
use corestack_50005_htt.Tetris.Hub.Silence.{
  IsSilent, Names, IsSilent-Names, Calm, Ends, Calm->>=, Ends->>=, Calm-if, Ends-if,
  send_each-IsSilent, to_all_used-Names, route-IsSilent, fan_out-IsSilent, map-IsSilent,
}

broadcast_roster-Calm : (m : Master) → Calm m (broadcast_roster m)
unfolding broadcast_roster
broadcast_roster-Calm m =
    (refl, send_each-IsSilent is_running (hub_roster (roster_of m.players)) m.rooms tt)

start_room-Calm : (m : Master) (slot : ℕ) → Calm m (start_room m slot)
unfolding start_room
start_room-Calm m slot =
    let room = room_at m slot in
    let t = record (put_room m slot (record room { started = true })) { any_room_started = true } in
    let out = sends room.hub_fd (hub_start (room.redirected % 2 ^ 32)) ∷ [] in
    Calm-if m (not room.used || room.started || ltb room.joined 1) (m, [])
      ((t, out) >>= broadcast_roster) (refl, tt)
      (Calm->>= m (t, out) broadcast_roster (refl, (tt, tt)) (broadcast_roster-Calm t))

start_rooms-Calm : (n i : ℕ) (m : Master) → Calm m (start_rooms n i m)
unfolding start_rooms
start_rooms-Calm zero i m = (refl, tt)
start_rooms-Calm (suc n) i m =
    Calm->>= m (start_room m i) (start_rooms n (i + 1)) (start_room-Calm m i)
      (start_rooms-Calm n (i + 1) (start_room m i).0)

check_global_end-Ends : (m : Master) → Ends m (check_global_end m)
check_global_end-Ends m = elim (check_global_end_lem m) [
  | inl (_, e) ↦ rw e (inl (refl, tt))
  | inr (was, _, e) ↦
      let w = winner (living m.players) in rw e (inr (was, refl, (w, to_all_used-Names w m.rooms)))
]

mourn-Ends :
    (m : Master) (players : List PlayerRec)
    → Ends m ((record m { players = players }, []) >>= broadcast_roster >>= check_global_end)
mourn-Ends m players =
    let t : Master = record m { players = players } in
    Ends->>= m ((t, []) >>= broadcast_roster) check_global_end
      (Calm->>= m (t, []) broadcast_roster (refl, tt) (broadcast_roster-Calm t))
      (check_global_end-Ends ((t, []) >>= broadcast_roster).0)

close_room-Ends : (m : Master) (slot : ℕ) → Ends m (close_room m slot)
unfolding close_room
close_room-Ends m slot =
    let room = room_at m slot in
    let closed = put_room m slot (record room { used = false }) in
    let out = closes_hub room.hub_fd ∷ map closes_client room.pending_fds in
    let (players, changed) = kill_room slot m.players in
    let mourning =
      (record closed { players = players }, []) >>= broadcast_roster >>= check_global_end in
    let quiet : Ends closed (closed, []) = inl (refl, tt) in
    Ends->>= m (closed, out)
      (λ t. if m.match_ended then (t, []) else if changed then mourning else (t, []))
      (refl, (tt, map-IsSilent closes_client room.pending_fds (λ fd. tt)))
      (Ends-if closed m.match_ended (closed, []) (if changed then mourning else (closed, [])) quiet
        (Ends-if closed changed mourning (closed, []) (mourn-Ends closed players) quiet))

spawn_into-Calm :
    (m : Master) (slot hub : Option ℕ) → let d = spawn_into m slot hub in Calm m (d.1, d.2)
unfolding spawn_into
spawn_into-Calm m none hub = (refl, tt)
spawn_into-Calm m (some slot) none = (refl, tt)
spawn_into-Calm m (some slot) (some fd) = (refl, (tt, tt))

found_or_spawn-Calm :
    (m : Master) (found hub : Option ℕ) → let d = found_or_spawn m found hub in Calm m (d.1, d.2)
unfolding found_or_spawn spawn_room
found_or_spawn-Calm m none hub = spawn_into-Calm m (first_room (λ r. not r.used) m.rooms 0) hub
found_or_spawn-Calm m (some slot) hub = (refl, tt)

deal-Calm : (m : Master) (found : Option ℕ) (client_fd : ℕ) → Calm m (deal m found client_fd)
unfolding deal
deal-Calm m none client_fd = (refl, (tt, tt))
deal-Calm m (some slot) client_fd = elim (Bool-cases (room_at m slot).ready) [
  | inl e ↦ rw e (refl, (tt, tt))
  | inr e ↦ elim (Bool-cases (ltb (length (room_at m slot).pending_fds) max_lobby_size)) [
    | inl fits ↦ rw (e, fits) (refl, tt)
    | inr full ↦ rw (e, full) (refl, (tt, tt))
  ]
]

accept_client-Calm : (m : Master) (client hub : Option ℕ) → Calm m (accept_client m client hub)
unfolding accept_client filling_room
accept_client-Calm m none hub = (refl, tt)
accept_client-Calm m (some client_fd) hub =
    let d = found_or_spawn m (first_room (is_filling m) m.rooms 0) hub in
    Calm->>= m (d.1, d.2) (λ t. deal t d.0 client_fd)
      (found_or_spawn-Calm m (first_room (is_filling m) m.rooms 0) hub)
      (deal-Calm d.1 d.0 client_fd)

fill_up-Calm : (m : Master) → Calm m (fill_up m)
unfolding fill_up start_all_rooms
fill_up-Calm m =
    Calm-if m (ltb (length m.players) (m.room_size * max_rooms)) (m, []) (start_all_rooms m)
      (refl, tt) (start_rooms-Calm max_rooms 0 m)

handle_hub_msg-Ends : (m : Master) (slot : ℕ) (msg : HubMsg) → Ends m (handle_hub_msg m slot msg)
unfolding handle_hub_msg add_player
handle_hub_msg-Ends m slot hub_ready =
    let room = room_at m slot in
    inl (refl, map-IsSilent (λ fd. redirects fd room.port) room.pending_fds (λ fd. tt))
handle_hub_msg-Ends m slot (hub_joined id) =
    let t = add_player m slot id in
    inl (
      Calm->>= m ((t, []) >>= broadcast_roster) fill_up
        (Calm->>= m (t, []) broadcast_roster (refl, tt) (broadcast_roster-Calm t))
        (fill_up-Calm ((t, []) >>= broadcast_roster).0))
handle_hub_msg-Ends m slot (hub_attack attack) = inl (refl, route-IsSilent m.rooms attack m.players)
handle_hub_msg-Ends m slot (hub_eliminated id) = mourn-Ends m (eliminate_player id m.players)
handle_hub_msg-Ends m slot (hub_feed attack) = inl (refl, fan_out-IsSilent m.rooms 0 slot attack)
handle_hub_msg-Ends m slot (hub_start n) = inl (refl, tt)
handle_hub_msg-Ends m slot (hub_garbage attack) = inl (refl, tt)
handle_hub_msg-Ends m slot (hub_roster roster) = inl (refl, tt)
handle_hub_msg-Ends m slot (hub_gameover id) = inl (refl, tt)

step-Ends : (m : Master) (e : Event) → Ends m (step m e)
unfolding step start_all_rooms
step-Ends m (connects client hub) = inl (accept_client-Calm m client hub)
step-Ends m enter = inl (start_rooms-Calm max_rooms 0 m)
step-Ends m (says slot msg) =
    Ends-if m (room_at m slot).used (handle_hub_msg m slot msg) (m, [])
      (handle_hub_msg-Ends m slot msg) (inl (refl, tt))
step-Ends m (hangs_up slot) =
    Ends-if m (room_at m slot).used (close_room m slot) (m, []) (close_room-Ends m slot)
      (inl (refl, tt))

-- Once the end of the match is announced, no room is told of an end again, whatever happens.
pub run_after_end :
    (events : List Event) (m : Master)
    → m.match_ended ≡ true
    → All IsSilent (run events m).1 × ((run events m).0.match_ended ≡ true)
unfolding run
run_after_end [] m h = (tt, h)
run_after_end (e ∷ events) m h = elim (step-Ends m e) [
  | inl (same, quiet) ↦
      let (later, ended) = run_after_end events (step m e).0 (same ∙ h) in
      (All-append IsSilent (step m e).1 (run events (step m e).0).1 quiet later, ended)
  | inr (was, _, _) ↦ cc
]

-- Over every sequence of events, from every state of the master, there is one winner that all messages on
-- the end of the match name.
pub run_one_winner : (events : List Event) (m : Master) → (w : ℕ) × All (Names w) (run events m).1
unfolding run
run_one_winner [] m = (0, tt)
run_one_winner (e ∷ events) m =
    let t = (step m e).0 in
    elim (step-Ends m e) [
      | inl (same, quiet) ↦
          let (w, later) = run_one_winner events t in
          (
            w,
            All-append (Names w) (step m e).1 (run events t).1 (IsSilent-Names w (step m e).1 quiet)
                later,
          )
      | inr (was, now, (w, told)) ↦
          let later = IsSilent-Names w (run events t).1 (run_after_end events t now).0 in
          (w, All-append (Names w) (step m e).1 (run events t).1 told later)
    ]
