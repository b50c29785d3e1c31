-- ===== src/Tetris/Crossing/Fanout.antt =====
-- The messages of the master that reach one hub.
use corestack_50005_htt.Prelude.{
  ℕ, zero, suc, ◌+◌, ◌<◌, ◌≡◌, ◌≢◌, refl, true, false, not, ◌&&◌, ◌==◌, arith,
}
use corestack_50005_htt.Prelude.{if◌then◌else◌, if_both, List, [], ◌∷◌, get_or, length, ==_refl}
use corestack_50005_htt.Tetris.Hub.State.{
  Room, Effect, HubMsg, sends, forks, redirects, closes_client, closes_hub, zero_room,
}
use corestack_50005_htt.Tetris.Hub.Daemon.{fan_out}

-- What is written to the hub `fd`, in its order.
unfoldable pub messages_to : ℕ → List Effect → List HubMsg
messages_to fd [] = []
messages_to fd (sends hub msg ∷ out) =
    let rest = messages_to fd out in if hub == fd then msg ∷ rest else rest
messages_to fd (forks a b c ∷ out) = messages_to fd out
messages_to fd (redirects a b ∷ out) = messages_to fd out
messages_to fd (closes_client a ∷ out) = messages_to fd out
messages_to fd (closes_hub a ∷ out) = messages_to fd out

-- Rooms with other hubs.
abbrev pub Elsewhere : ℕ → List Room → Type 0
Elsewhere fd rooms = (j : ℕ) → j < length rooms → (get_or rooms j zero_room).hub_fd ≢ fd

messages_to-Elsewhere :
    (fd : ℕ) (rooms : List Room) (i slot : ℕ) (msg : HubMsg)
    → Elsewhere fd rooms
    → messages_to fd (fan_out rooms i slot msg) ≡ []
unfolding messages_to fan_out
messages_to-Elsewhere fd [] i slot msg h = refl
messages_to-Elsewhere fd (r ∷ rooms) i slot msg h =
    let rest = fan_out rooms (i + 1) slot msg in
    let none = messages_to-Elsewhere fd rooms (i + 1) slot msg (λ j lt. h (suc j) (omega arith)) in
    let other : (r.hub_fd == fd) ≡ false = ground (arith, h 0 (omega arith)) in
    if_both (λ (out : List Effect). messages_to fd out ≡ [])
      (not (i == slot) && r.used && r.started) (sends r.hub_fd msg ∷ rest) rest (λ _. rw other none)
      (λ _. none)

-- A room in use that has started, behind another slot than the sender's and with a hub of its own, is
-- told once.
pub messages_to-fan_out :
    (rooms : List Room) (k i slot : ℕ) (msg : HubMsg)
    → ((get_or rooms k zero_room).used && (get_or rooms k zero_room).started) ≡ true
    → i + k ≢ slot
    → ((j : ℕ)
        → j < length rooms
        → j ≢ k
        → (get_or rooms j zero_room).hub_fd ≢ (get_or rooms k zero_room).hub_fd)
    → messages_to (get_or rooms k zero_room).hub_fd (fan_out rooms i slot msg) ≡ msg ∷ []
unfolding messages_to fan_out
messages_to-fan_out [] k i slot msg running away alone = cc
messages_to-fan_out (r ∷ rooms) zero i slot msg running away alone =
    let none =
      messages_to-Elsewhere r.hub_fd rooms (i + 1) slot msg
        (λ j lt. alone (suc j) (omega arith) (omega arith)) in
    let test : (not (i == slot) && r.used && r.started) ≡ true = ground arith in
    rw (test, ==_refl r.hub_fd, none) refl
messages_to-fan_out (r ∷ rooms) (suc k) i slot msg running away alone =
    let fd = (get_or rooms k zero_room).hub_fd in
    let rest = fan_out rooms (i + 1) slot msg in
    let told =
      messages_to-fan_out rooms k (i + 1) slot msg running (omega arith)
        (λ j lt ne. alone (suc j) (omega arith) (omega arith)) in
    let other : (r.hub_fd == fd) ≡ false = ground (arith, alone 0 (omega arith) (omega arith)) in
    if_both (λ (out : List Effect). messages_to fd out ≡ msg ∷ [])
      (not (i == slot) && r.used && r.started) (sends r.hub_fd msg ∷ rest) rest (λ _. rw other told)
      (λ _. told)
