-- ===== src/Tetris/Hub/Rooms.antt =====
-- The table of rooms: the search for a slot, and a change of one room.
use corestack_50005_htt.Prelude.{ℕ, suc, zero, ◌+◌, ◌<◌, ◌≡◌, refl, ap, Bool, true, arith}
use corestack_50005_htt.Prelude.{List, [], ◌∷◌, get_or, length, Option, none, some}
use corestack_50005_htt.Prelude.{Bool-cases, inl, inr, not, get_or-set_self}
use corestack_50005_htt.Tetris.Hub.State.{Room, Master, zero_room, room_at}
use corestack_50005_htt.Tetris.Hub.Dealing.{
  first_room, found_or_spawn, spawn_room, spawn_into, is_filling, new_room,
}

pub first_room_lem :
    (test : Room → Bool) (rooms : List Room) (i j : ℕ)
    → first_room test rooms i ≡ some j
    → (k : ℕ) × (j ≡ i + k) × (k < length rooms) × (test (get_or rooms k zero_room) ≡ true)
unfolding first_room
first_room_lem test [] i j e = absurd (ground (arith, e))
first_room_lem test (r ∷ rooms) i j e = elim (Bool-cases (test r)) [
  | inl here ↦ (0, ground arith, omega arith, here)
  | inr later ↦
      let (k, at, inside, found) = first_room_lem test rooms (i + 1) j (ground arith) in
      (suc k, omega arith, omega arith, found)
]

-- Only the rooms of the table are in use.
pub used_inside :
    (rooms : List Room) (i : ℕ) → (get_or rooms i zero_room).used ≡ true → i < length rooms
used_inside [] i e = cc
used_inside (r ∷ rooms) zero e = omega arith
used_inside (r ∷ rooms) (suc i) e = omega (arith, used_inside rooms i e)

-- The slot that a client is dealt into is one of a room in use.
pub spawn_into_used :
    (m : Master) (found hub : Option ℕ) (slot : ℕ)
    → first_room (λ r. not r.used) m.rooms 0 ≡ found
    → (spawn_into m found hub).0 ≡ some slot
    → (room_at (spawn_into m found hub).1 slot).used ≡ true
unfolding spawn_into
spawn_into_used m none hub slot e h = cc
spawn_into_used m (some s) none slot e h = cc
spawn_into_used m (some s) (some fd) slot e h =
    let (k, at, inside, free) = first_room_lem (λ r. not r.used) m.rooms 0 s e in
    let same : s ≡ slot = ground (arith, h) in
    rw (← same)
      (ap (λ r. r.used) (get_or-set_self m.rooms s (new_room s fd) zero_room (omega arith)))

pub found_or_spawn_used :
    (m : Master) (found hub : Option ℕ) (slot : ℕ)
    → first_room (is_filling m) m.rooms 0 ≡ found
    → (found_or_spawn m found hub).0 ≡ some slot
    → (room_at (found_or_spawn m found hub).1 slot).used ≡ true
unfolding found_or_spawn spawn_room
found_or_spawn_used m none hub slot e h =
    spawn_into_used m (first_room (λ r. not r.used) m.rooms 0) hub slot refl h
found_or_spawn_used m (some s) hub slot e h =
    let (k, at, inside, test) = first_room_lem (is_filling m) m.rooms 0 s e in
    let same : slot ≡ k = ground (arith, h) in rw same (ground arith)
