-- ===== src/Tetris/Hub/Dealing.antt =====
-- tetrisd/main.c: how a client that connects is dealt into a room.
use corestack_50005_htt.Prelude.{ℕ, ◌+◌, ◌*◌, ◌%◌, ◌^◌, Bool, true, not, ◌&&◌}
use corestack_50005_htt.Prelude.{if◌then◌else◌, List, [], ◌∷◌, ◌++◌, length, ltb}
use corestack_50005_htt.Prelude.{Option, none, some}
use corestack_50005_htt.Tetris.Session.{max_lobby_size}
use corestack_50005_htt.Tetris.Hub.State.{room_port_base}
use corestack_50005_htt.Tetris.Hub.State.{
  Room, Master, Effect, forks, redirects, closes_client, Done, ◌>>=◌, zero_room, room_at, put_room,
}

-- The loops that look for a slot.
unfoldable pub first_room : (Room → Bool) → List Room → ℕ → Option ℕ
first_room test [] i = none
first_room test (r ∷ rooms) i =
    let rest = first_room test rooms (i + 1) in if test r then some i else rest

abbrev pub new_room : ℕ → ℕ → Room
new_room slot fd = record zero_room {
  used = true;
  hub_fd = fd;
  port = (room_port_base + slot) % 2 ^ 16;
}

unfoldable pub spawn_into : Master → Option ℕ → Option ℕ → Option ℕ × Master × List Effect
spawn_into m none hub = (none, m, [])
spawn_into m (some slot) none = (none, m, [])
spawn_into m (some slot) (some fd) = (
  some slot,
  record (put_room m slot (new_room slot fd)) { room_seq = (m.room_seq + 1) % 2 ^ 32 },
  forks ((room_port_base + slot) % 2 ^ 16) ((1 + m.room_seq * max_lobby_size) % 2 ^ 32) slot ∷ [],
)

-- `hub` is the master's end of the socket pair, or `none` where `socketpair` or `fork` fails.
unfoldable pub spawn_room : Master → Option ℕ → Option ℕ × Master × List Effect
spawn_room m hub = spawn_into m (first_room (λ r. not r.used) m.rooms 0) hub

abbrev pub is_filling : Master → Room → Bool
is_filling m r = r.used && not r.started && ltb r.redirected m.room_size

unfoldable pub found_or_spawn : Master → Option ℕ → Option ℕ → Option ℕ × Master × List Effect
found_or_spawn m (some slot) hub = (some slot, m, [])
found_or_spawn m none hub = spawn_room m hub

unfoldable pub filling_room : Master → Option ℕ → Option ℕ × Master × List Effect
filling_room m hub = found_or_spawn m (first_room (is_filling m) m.rooms 0) hub

-- The part of `accept_client` behind the call of `filling_room`.
unfoldable pub deal : Master → Option ℕ → ℕ → Done
deal m none client_fd = (m, closes_client client_fd ∷ [])
deal m (some slot) client_fd =
    let room = room_at m slot in
    let counted = record room { redirected = room.redirected + 1 } in
    let parked = record counted { pending_fds = room.pending_fds ++ client_fd ∷ [] } in
    if room.ready
    then (put_room m slot counted, redirects client_fd room.port ∷ [])
    else if ltb (length room.pending_fds) max_lobby_size
    then (put_room m slot parked, [])
    else (m, closes_client client_fd ∷ [])

-- The client is what `accept` returns, `none` for a failure.
unfoldable pub accept_client : Master → Option ℕ → Option ℕ → Done
accept_client m none hub = (m, [])
accept_client m (some client_fd) hub =
    let (slot, m', out) = filling_room m hub in (m', out) >>= λ t. deal t slot client_fd
