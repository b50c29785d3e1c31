-- ===== src/Tetris/Hub/State.antt =====
-- hub.h and the static variables of tetrisd/main.c.
use corestack_50005_htt.Prelude.{ℕ, Bool, false}
use corestack_50005_htt.Prelude.{List, [], ◌++◌, get_or}
use corestack_50005_htt.Prelude.{set, replicate}
use corestack_50005_htt.Tetris.Room.{HubAttack, HubRoster}

abbrev pub max_rooms : ℕ
max_rooms = 32

abbrev pub room_port_base : ℕ
room_port_base = 6710

-- `HubMsg`: its type with the member of the union that belongs to it.
pub data HubMsg : Type 0 where
  hub_ready : HubMsg
  hub_joined : ℕ → HubMsg
  hub_attack : HubAttack → HubMsg
  hub_eliminated : ℕ → HubMsg
  hub_feed : HubAttack → HubMsg
  hub_start : ℕ → HubMsg
  hub_garbage : HubAttack → HubMsg
  hub_roster : HubRoster → HubMsg
  hub_gameover : ℕ → HubMsg

-- `pending_fds` is the part of the array before `pending_count`.
pub record Room : Type 0 where
  pub used : Bool
  pub ready : Bool
  pub started : Bool
  pub hub_fd : ℕ
  pub port : ℕ
  pub redirected : ℕ
  pub joined : ℕ
  pub pending_fds : List ℕ

pub record PlayerRec : Type 0 where
  pub id : ℕ
  pub room : ℕ
  pub alive : Bool

-- The static variables. `players` is the part of the array before `player_count`.
pub record Master : Type 0 where
  pub rooms : List Room
  pub players : List PlayerRec
  pub room_seq : ℕ
  pub room_size : ℕ
  pub any_room_started : Bool
  pub match_ended : Bool

-- What the master does to the outside: a message on a hub, the start of a worker with its port, its
-- first id and its slot, a client that is sent on to a port and closed, a closed client, a closed hub.
pub data Effect : Type 0 where
  sends : ℕ → HubMsg → Effect
  forks : ℕ → ℕ → ℕ → Effect
  redirects : ℕ → ℕ → Effect
  closes_client : ℕ → Effect
  closes_hub : ℕ → Effect

-- A step and what it does to the outside, and two of them in a row.
abbrev pub Done : Type 0
Done = Master × List Effect

infixl 5 ◌>>=◌
abbrev pub ◌>>=◌ : Done → (Master → Done) → Done
(m, out) >>= f = ((f m).0, out ++ (f m).1)

abbrev pub zero_room : Room
zero_room = record {
  used = false;
  ready = false;
  started = false;
  hub_fd = 0;
  port = 0;
  redirected = 0;
  joined = 0;
  pending_fds = [];
}

-- The variables before `main` reads TETRISD_ROOM_SIZE, which gives `room_size`.
abbrev pub fresh_master : ℕ → Master
fresh_master room_size = record {
  rooms = replicate max_rooms zero_room;
  players = [];
  room_seq = 0;
  room_size = room_size;
  any_room_started = false;
  match_ended = false;
}

abbrev pub room_at : Master → ℕ → Room
room_at m slot = get_or m.rooms slot zero_room

abbrev pub put_room : Master → ℕ → Room → Master
put_room m slot room = record m { rooms = set m.rooms slot room }
