-- ===== src/Tetris/Crossing/Tests.antt =====
-- Player 1 of room 0 attacks player 3 of room 1.
use corestack_50005_htt.Prelude.{
  ℕ, zero, suc, ◌+◌, ◌<◌, ◌≡◌, ◌≢◌, length, map, refl, true, false, [], ◌∷◌, some, none, arith, min,
}
use corestack_50005_htt.Tetris.Session.{
  PlayerSlot, zero_slot, GameSession, init_session, init_slots, aim_slots, new_slot, with_target,
  first_other, find_player, find_from, slot_at,
}
use corestack_50005_htt.Tetris.Session.Reach.{Play-Ok, begin}
use corestack_50005_htt.Tetris.Engine.{start_game, zero_state}
use corestack_50005_htt.Tetris.Bag.{spawn_new_piece, refill_bag}
use corestack_50005_htt.Tetris.Room.{HubAttack, HubRoster, resolve_victim, alive_others}
use corestack_50005_htt.Tetris.Hub.State.{
  Room, PlayerRec, Master, room_at, zero_room, hub_garbage, hub_attack, hub_feed,
}
use corestack_50005_htt.Tetris.Hub.Daemon.{run, says}
use corestack_50005_htt.Tetris.Room.Worker.{Worker, route_slot, drain_hub, reports, feeds}
use corestack_50005_htt.Tetris.Crossing.{attack_lands, outgoing_attack, consumed, messages_of}
use corestack_50005_htt.Tetris.Crossing.Fanout.{messages_to}
use corestack_50005_htt.Tetris.State.{target_random}

abbrev running_room : ℕ → Room
running_room fd = record zero_room {
  used = true;
  started = true;
  hub_fd = fd;
  joined = 1;
  redirected = 1;
}

abbrev target : PlayerRec
target = record { id = 3; room = 1; alive = true }

abbrev two_rooms : Master
two_rooms = record {
  rooms = running_room 9 ∷ running_room 10 ∷ [];
  players = record { id = 1; room = 0; alive = true } ∷ target ∷ [];
  room_seq = 2;
  room_size = 2;
  any_room_started = true;
  match_ended = false;
}

abbrev four_lines : HubAttack
four_lines = record { attacker_id = 1; victim_id = 3; lines = 4 }

abbrev attacker : PlayerSlot
attacker = record zero_slot {
  player_id = 1;
  active = true;
  state = record zero_state { outgoing_garbage = 4; target_mode = target_random };
}

abbrev near : GameSession
near = record {
  players = attacker ∷ [];
  count = 1;
  roster = record { ids = 1 ∷ []; eliminated = false ∷ []; count = 1 };
}

abbrev everyone : HubRoster
everyone = record { count = 2; ids = 1 ∷ 3 ∷ []; alive = true ∷ true ∷ [] }

near_attack : outgoing_attack everyone 0 near (λ k. k) ≡ four_lines
unfolding resolve_victim alive_others
near_attack = refl

near_away : find_player (consumed near 0) 3 ≡ none
unfolding find_player find_from
near_away = refl

own_hub :
    (j : ℕ)
    → j < length two_rooms.rooms
    → j ≢ 1
    → (room_at two_rooms j).hub_fd ≢ (room_at two_rooms 1).hub_fd
own_hub zero lt ne = omega arith
own_hub (suc zero) lt ne = absurd (ne refl)
own_hub (suc (suc j)) lt ne = absurd (omega arith)

abbrev far : Worker
far = record {
  session = (init_session (3 ∷ []) 1 (λ k. k)).0;
  global = record { count = 0; ids = []; alive = [] };
  match_over = false;
  winner_id = 0;
}

far_found : find_player far.session 3 ≡ some 0
unfolding find_player find_from init_session init_slots aim_slots new_slot with_target first_other
far_found = refl

far_playing : (slot_at far.session 0).state.game_over ≡ 0
unfolding init_session init_slots aim_slots new_slot with_target first_other start_game
    spawn_new_piece refill_bag
far_playing = refl

attack_lands_example :
    let (routed, out, _) = route_slot everyone 0 near (λ k. k) in
    let (m', sent) = run (map (λ msg. says 0 msg) (messages_of out)) two_rooms in
    let (w', shown) = drain_hub (messages_to 10 sent) far in
    let hurt = slot_at w'.session 0 in
    (routed ≡ consumed near 0)
    × (out
        ≡ reports (hub_attack four_lines) ∷ feeds four_lines ∷ reports (hub_feed four_lines) ∷ [])
    × (m' ≡ two_rooms)
    × (messages_to 10 sent ≡ hub_garbage four_lines ∷ hub_feed four_lines ∷ [])
    × (hurt.state.pending_garbage ≡ min 20 ((slot_at far.session 0).state.pending_garbage + 4))
    × (hurt.state.last_attacker_id ≡ 1)
    × (hurt.dirty ≡ true)
    × (shown ≡ feeds four_lines ∷ feeds four_lines ∷ [])
attack_lands_example =
    attack_lands everyone near 0 0 0 (λ k. k) four_lines two_rooms
      (record { id = 1; room = 0; alive = true } ∷ []) [] target far near_attack (omega arith)
      (omega arith) near_away (omega arith) (omega arith) refl refl (ground arith, tt) (refl, refl)
      refl (omega arith) own_hub (Play-Ok (begin (3 ∷ []) 1 (λ k. k) (omega arith))) far_found
      far_playing
