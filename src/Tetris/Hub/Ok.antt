-- ===== src/Tetris/Hub/Ok.antt =====
-- What holds of the master between two events.
use corestack_50005_htt.Prelude.{ℕ, ◌+◌, ◌<◌, ◌≤◌, ◌≡◌, refl, ap, true, not, arith}
use corestack_50005_htt.Prelude.{if◌then◌else◌, [], ◌∷◌, ◌++◌, length, Option, none, some}
use corestack_50005_htt.Prelude.{ltb, ◌∙◌}
use corestack_50005_htt.Prelude.{
  All, All-set, All-get_or, All-replicate, length-set, length-append, length-replicate,
  get_or-set_self, if_both,
}
use corestack_50005_htt.Tetris.Session.{max_lobby_size}
use corestack_50005_htt.Tetris.Hub.State.{Room, Master, Effect, Done, zero_room, room_at}
use corestack_50005_htt.Tetris.Hub.State.{redirects, closes_client, put_room}
use corestack_50005_htt.Tetris.Hub.State.{PlayerRec, max_rooms}
use corestack_50005_htt.Tetris.Hub.Dealing.{
  first_room, spawn_into, spawn_room, is_filling, new_room,
}
use corestack_50005_htt.Tetris.Hub.Dealing.{found_or_spawn, deal}
use corestack_50005_htt.Tetris.Room.{hub_max_players}
use corestack_50005_htt.Tetris.Hub.State.{fresh_master}
use corestack_50005_htt.Tetris.Hub.Rooms.{first_room_lem}

-- A room has no more parked clients than clients that were dealt into it, and those are at most the room's
-- size. Once its port is bound nobody is parked, and it starts with somebody in it.
pub record RoomOk (room_size : ℕ) (r : Room) : Type 0 where
  pub dealt : length r.pending_fds ≤ r.redirected
  pub fits : r.redirected ≤ room_size
  pub flushed : r.ready ≡ true → length r.pending_fds ≡ 0
  pub occupied : r.started ≡ true → 1 ≤ r.joined

abbrev pub InTable : PlayerRec → Type 0
InTable p = p.room < max_rooms

pub record MasterOk (m : Master) : Type 0 where
  pub table : length m.rooms ≡ max_rooms
  pub rooms : All (RoomOk m.room_size) m.rooms
  pub capacity : length m.players ≤ hub_max_players
  pub places : All InTable m.players
  pub positive : 1 ≤ m.room_size
  pub lobby : m.room_size ≤ max_lobby_size

zero_room-Ok : (n : ℕ) → RoomOk n zero_room
zero_room-Ok n = record {
  dealt = omega arith;
  fits = omega arith;
  flushed = λ e. refl;
  occupied = λ e. cc;
}

pub fresh_master-Ok :
    (room_size : ℕ) → 1 ≤ room_size → room_size ≤ max_lobby_size → MasterOk (fresh_master room_size)
fresh_master-Ok n h k = record {
  table = length-replicate max_rooms zero_room;
  rooms = All-replicate (RoomOk n) max_rooms zero_room (zero_room-Ok n);
  capacity = omega arith;
  places = tt;
  positive = h;
  lobby = k;
}

pub room_at-Ok : (m : Master) (slot : ℕ) → MasterOk m → RoomOk m.room_size (room_at m slot)
room_at-Ok m slot o =
    All-get_or (RoomOk m.room_size) m.rooms slot zero_room (zero_room-Ok m.room_size) o.rooms

pub put_room-Ok :
    (m : Master) (slot : ℕ) (r : Room)
    → MasterOk m
    → RoomOk m.room_size r
    → MasterOk (put_room m slot r)
put_room-Ok m slot r o h = record {
  table = length-set m.rooms slot r ∙ o.table;
  rooms = All-set (RoomOk m.room_size) m.rooms slot r h o.rooms;
  capacity = o.capacity;
  places = o.places;
  positive = o.positive;
  lobby = o.lobby;
}

-- The slot of a room that takes one more client.
abbrev pub HasPlace : Master → ℕ → Type 0
HasPlace m slot = (room_at m slot).redirected < m.room_size

pub spawn_into-Ok :
    (m : Master) (found hub : Option ℕ)
    → first_room (λ r. not r.used) m.rooms 0 ≡ found
    → MasterOk m
    → let d = spawn_into m found hub in
      MasterOk d.1 × ((slot : ℕ) → d.0 ≡ some slot → HasPlace d.1 slot)
unfolding spawn_into
spawn_into-Ok m none hub e o = (o, λ slot h. cc)
spawn_into-Ok m (some s) none e o = (o, λ slot h. cc)
spawn_into-Ok m (some s) (some fd) e o =
    let (k, at, inside, free) = first_room_lem (λ r. not r.used) m.rooms 0 s e in
    let fresh : RoomOk m.room_size (new_room s fd) = record {
      dealt = omega arith;
      fits = omega arith;
      flushed = λ h. refl;
      occupied = λ h. cc;
    } in
    let t = put_room-Ok m s (new_room s fd) o fresh in
    (
      record {
        table = t.table;
        rooms = t.rooms;
        capacity = t.capacity;
        places = t.places;
        positive = t.positive;
        lobby = t.lobby;
      },
      λ slot h.
          let same : s ≡ slot = ground (arith, h) in
          let empty : (room_at (put_room m s (new_room s fd)) s).redirected ≡ 0 =
            ap (λ r. r.redirected)
              (get_or-set_self m.rooms s (new_room s fd) zero_room (omega arith)) in
          rw (← same) (omega (arith, o.positive)),
    )

pub found_or_spawn-Ok :
    (m : Master) (found hub : Option ℕ)
    → first_room (is_filling m) m.rooms 0 ≡ found
    → MasterOk m
    → let d = found_or_spawn m found hub in
      MasterOk d.1 × ((slot : ℕ) → d.0 ≡ some slot → HasPlace d.1 slot)
unfolding found_or_spawn spawn_room
found_or_spawn-Ok m none hub e o =
    spawn_into-Ok m (first_room (λ r. not r.used) m.rooms 0) hub refl o
found_or_spawn-Ok m (some s) hub e o =
    let (k, at, inside, test) = first_room_lem (is_filling m) m.rooms 0 s e in
    (o, λ slot h. let same : slot ≡ k = ground (arith, h) in rw same (ground arith))

-- What becomes of a client for which there is a room: it is not refused.
abbrev pub IsKept : Effect → Type 0
IsKept (closes_client fd) = ⊥
IsKept effect = Unit

pub deal-Ok :
    (m : Master) (slot client_fd : ℕ)
    → HasPlace m slot
    → MasterOk m
    → MasterOk (deal m (some slot) client_fd).0 × All IsKept (deal m (some slot) client_fd).1
unfolding deal
deal-Ok m slot client_fd place o =
    let room = room_at m slot in
    let old = room_at-Ok m slot o in
    let counted = record room { redirected = room.redirected + 1 } in
    let added = record counted { pending_fds = room.pending_fds ++ client_fd ∷ [] } in
    let Good = λ (d : Done). MasterOk d.0 × All IsKept d.1 in
    let tight = ltb (length room.pending_fds) max_lobby_size in
    if_both Good room.ready (put_room m slot counted, redirects client_fd room.port ∷ [])
      (if tight then (put_room m slot added, []) else (m, closes_client client_fd ∷ []))
      (λ _. (
        put_room-Ok m slot counted o (record {
          dealt = omega (arith, old.dealt);
          fits = omega arith;
          flushed = old.flushed;
          occupied = old.occupied;
        }),
        (tt, tt),
      ))
      (λ e.
        if_both Good tight (put_room m slot added, []) (m, closes_client client_fd ∷ [])
          (λ _. (
            put_room-Ok m slot added o (record {
              dealt = omega (arith, old.dealt, length-append room.pending_fds (client_fd ∷ []));
              fits = omega arith;
              flushed = λ h. cc;
              occupied = old.occupied;
            }),
            tt,
          ))
          (λ full. absurd (ground (arith, old.dealt, old.fits, o.lobby, full))))
