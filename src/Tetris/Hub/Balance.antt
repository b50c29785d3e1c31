-- ===== src/Tetris/Hub/Balance.antt =====
-- Where a client socket can be: accepted, parked, closed.
use corestack_50005_htt.Prelude.{ℕ, suc, zero, ◌+◌, ◌<◌, ◌≡◌, refl, ap, Bool, true, arith}
use corestack_50005_htt.Prelude.{if◌then◌else◌, List, [], ◌∷◌, ◌++◌, get_or, length, some}
use corestack_50005_htt.Prelude.{set, map, count, ◌==◌}
use corestack_50005_htt.Tetris.Room.{HubAttack}
use corestack_50005_htt.Tetris.Hub.State.{Room, Master, Effect, HubMsg, Done, ◌>>=◌, zero_room}
use corestack_50005_htt.Tetris.Hub.State.{redirects, closes_client}
use corestack_50005_htt.Tetris.Hub.State.{PlayerRec}
use corestack_50005_htt.Tetris.Hub.Match.{send_each}
use corestack_50005_htt.Tetris.Hub.Daemon.{Event, connects, route, fan_out}
use corestack_50005_htt.Tetris.Hub.Rooms.{used_inside}

-- How often a socket is parked in a room in use.
abbrev pub held : ℕ → Room → ℕ
held v r = if r.used then count v r.pending_fds else 0

abbrev pub parked : ℕ → List Room → ℕ
parked v [] = 0
parked v (r ∷ rooms) = held v r + parked v rooms

-- How often it is closed, on its own or behind a redirect.
abbrev pub settles : ℕ → Effect → ℕ
settles v (redirects fd port) = if fd == v then 1 else 0
settles v (closes_client fd) = if fd == v then 1 else 0
settles v effect = 0

abbrev pub settled : ℕ → List Effect → ℕ
settled v [] = 0
settled v (e ∷ out) = settles v e + settled v out

-- How often it is accepted.
abbrev pub arrives : ℕ → Event → ℕ
arrives v (connects (some fd) hub) = if fd == v then 1 else 0
arrives v event = 0

abbrev pub arrivals : ℕ → List Event → ℕ
arrivals v [] = 0
arrivals v (e ∷ events) = arrives v e + arrivals v events

settled-append : (v : ℕ) (a b : List Effect) → settled v (a ++ b) ≡ settled v a + settled v b
settled-append v [] b = omega arith
settled-append v (e ∷ a) b = omega (arith, settled-append v a b)

pub settled-redirects :
    (v : ℕ) (fds : List ℕ) (port : ℕ) → settled v (map (λ fd. redirects fd port) fds) ≡ count v fds
settled-redirects v [] port = refl
settled-redirects v (fd ∷ fds) port =
    ap (λ n. (if fd == v then 1 else 0) + n) (settled-redirects v fds port)

pub settled-closes : (v : ℕ) (fds : List ℕ) → settled v (map closes_client fds) ≡ count v fds
settled-closes v [] = refl
settled-closes v (fd ∷ fds) = ap (λ n. (if fd == v then 1 else 0) + n) (settled-closes v fds)

pub settled-send_each :
    (v : ℕ) (test : Room → Bool) (msg : HubMsg) (rooms : List Room)
    → settled v (send_each test msg rooms) ≡ 0
unfolding send_each
settled-send_each v test msg [] = refl
settled-send_each v test msg (r ∷ rooms) = ground (arith, settled-send_each v test msg rooms)

pub settled-route :
    (v : ℕ) (rooms : List Room) (attack : HubAttack) (players : List PlayerRec)
    → settled v (route rooms attack players) ≡ 0
unfolding route
settled-route v rooms attack [] = refl
settled-route v rooms attack (p ∷ players) = ground (arith, settled-route v rooms attack players)

pub settled-fan_out :
    (v : ℕ) (rooms : List Room) (i slot : ℕ) (feed : HubMsg)
    → settled v (fan_out rooms i slot feed) ≡ 0
unfolding fan_out
settled-fan_out v [] i slot feed = refl
settled-fan_out v (r ∷ rooms) i slot feed =
    ground (arith, settled-fan_out v rooms (i + 1) slot feed)

pub parked-set :
    (v : ℕ) (rooms : List Room) (i : ℕ) (r : Room)
    → i < length rooms
    → parked v (set rooms i r) + held v (get_or rooms i zero_room) ≡ parked v rooms + held v r
parked-set v [] i r h = absurd (omega arith)
parked-set v (x ∷ rooms) zero r h = omega arith
parked-set v (x ∷ rooms) (suc i) r h = omega (arith, parked-set v rooms i r (omega arith))

pub parked-set_used :
    (v : ℕ) (rooms : List Room) (i : ℕ) (r : Room)
    → (get_or rooms i zero_room).used ≡ true
    → parked v (set rooms i r) + count v (get_or rooms i zero_room).pending_fds
      ≡ parked v rooms + held v r
parked-set_used v rooms i r e = rw e at (parked-set v rooms i r (used_inside rooms i e))

-- What a step accounts for: `n` more sockets are closed or parked than before.
abbrev pub Balance : ℕ → ℕ → Master → Done → Type 0
Balance v n m d = settled v d.1 + parked v d.0.rooms ≡ n + parked v m.rooms

pub Balance->>= :
    (v n k : ℕ) (m : Master) (d : Done) (f : Master → Done)
    → Balance v n m d
    → Balance v k d.0 (f d.0)
    → Balance v (n + k) m (d >>= f)
Balance->>= v n k m d f h g = omega (arith, settled-append v d.1 (f d.0).1)
