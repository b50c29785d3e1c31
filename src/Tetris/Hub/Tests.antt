-- ===== src/Tetris/Hub/Tests.antt =====
-- A master with rooms for two players: a client that waits for its room, and a match of two rooms.
use corestack_50005_htt.Prelude.{
  ℕ, ◌+◌, ◌≡◌, refl, true, false, List, [], ◌∷◌, some, none, All, arith, ◌⊎◌, length,
}
use corestack_50005_htt.Tetris.Room.{HubAttack}
use corestack_50005_htt.Tetris.Hub.State.{
  Room, Master, zero_room, fresh_master, hub_ready, hub_joined, hub_eliminated, hub_gameover,
}
use corestack_50005_htt.Tetris.Hub.Dealing.{
  accept_client, deal, filling_room, found_or_spawn, spawn_room, spawn_into, first_room,
}
use corestack_50005_htt.Tetris.Hub.Match.{check_global_end}
use corestack_50005_htt.Tetris.Hub.Daemon.{
  Event, connects, enter, says, hangs_up, handle_hub_msg, run, step,
}
use corestack_50005_htt.Tetris.Hub.Balance.{settled, parked, arrivals}
use corestack_50005_htt.Tetris.Hub.Parked.{run_settles}
use corestack_50005_htt.Tetris.Hub.Ok.{MasterOk, fresh_master-Ok}
use corestack_50005_htt.Tetris.Hub.Sound.{run-Ok}
use corestack_50005_htt.Tetris.Hub.Ending.{Over, living, winner, to_all_used, check_global_end_lem}
use corestack_50005_htt.Tetris.Hub.Silence.{Names, IsSilent}
use corestack_50005_htt.Tetris.Hub.Announcement.{run_after_end, run_one_winner}

abbrev arrival : List Event
arrival = connects (some 50) (some 9) ∷ says 0 hub_ready ∷ connects (some 51) none ∷ []

abbrev match : List Event
match =
    connects (some 50) (some 9)
    ∷ says 0 hub_ready
    ∷ says 0 (hub_joined 1)
    ∷ says 0 (hub_joined 2)
    ∷ enter
    ∷ says 0 (hub_eliminated 1)
    ∷ hangs_up 0
    ∷ []

abbrev running_room : ℕ → Room
running_room fd = record zero_room {
  used = true;
  started = true;
  hub_fd = fd;
  joined = 1;
  redirected = 1;
}

-- Player 1 in room 0 has lost, player 3 in room 1 lives.
abbrev two_rooms : Master
two_rooms = record {
  rooms = running_room 9 ∷ running_room 10 ∷ [];
  players =
      record { id = 1; room = 0; alive = false } ∷ record { id = 3; room = 1; alive = true } ∷ [];
  room_seq = 2;
  room_size = 2;
  any_room_started = true;
  match_ended = false;
}

abbrev attack : HubAttack
attack = record { attacker_id = 1; victim_id = 3; lines = 4 }

-- The client 50 waits in room 0 until its port is bound, and is redirected; 51 is redirected at once.
arrival_runs :
    (settled 50 (run arrival (fresh_master 2)).1 ≡ 1)
    × (settled 51 (run arrival (fresh_master 2)).1 ≡ 1)
unfolding run step accept_client filling_room found_or_spawn spawn_room spawn_into first_room deal
    handle_hub_msg
arrival_runs = (refl, refl)

run_settles_example :
    settled 50 (run arrival (fresh_master 2)).1 + parked 50 (run arrival (fresh_master 2)).0.rooms
    ≡ arrivals 50 arrival + parked 50 (fresh_master 2).rooms
run_settles_example = run_settles 50 arrival (fresh_master 2)

run-Ok_example : MasterOk (run match (fresh_master 2)).0
run-Ok_example = run-Ok match (fresh_master 2) (fresh_master-Ok 2 (omega arith) (omega arith))

check_global_end_lem_example :
    (((two_rooms.match_ended ≡ true)
        ⊎ (length two_rooms.players ≡ 0)
        ⊎ (¬ (Over two_rooms.players)))
      × (check_global_end two_rooms ≡ (two_rooms, [])))
    ⊎ ((two_rooms.match_ended ≡ false)
        × Over two_rooms.players
        × (check_global_end two_rooms ≡ (
          record two_rooms { match_ended = true },
          to_all_used (hub_gameover (winner (living two_rooms.players))) two_rooms.rooms,
        )))
check_global_end_lem_example = check_global_end_lem two_rooms

abbrev ended : Master
ended = record two_rooms { match_ended = true }

run_after_end_example :
    All IsSilent (run (says 1 (hub_eliminated 3) ∷ hangs_up 0 ∷ []) ended).1
    × ((run (says 1 (hub_eliminated 3) ∷ hangs_up 0 ∷ []) ended).0.match_ended ≡ true)
run_after_end_example = run_after_end (says 1 (hub_eliminated 3) ∷ hangs_up 0 ∷ []) ended refl

run_one_winner_example : (w : ℕ) × All (Names w) (run match (fresh_master 2)).1
run_one_winner_example = run_one_winner match (fresh_master 2)
