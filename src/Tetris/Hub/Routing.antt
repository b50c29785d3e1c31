-- ===== src/Tetris/Hub/Routing.antt =====
-- Where the attacks go that a worker reports.
use corestack_50005_htt.Prelude.{ℕ, ◌+◌, ◌<◌, ◌≡◌, refl, ap, true, false, not, arith}
use corestack_50005_htt.Prelude.{if◌then◌else◌, List, [], ◌∷◌, ◌++◌, get_or, length}
use corestack_50005_htt.Prelude.{◌==◌, Bool-cases, inl, inr, ◌∙◌, ◌||◌}
use corestack_50005_htt.Prelude.{==→≡, ==_refl, append-nil, All, sym, if_both, ◌&&◌}
use corestack_50005_htt.Tetris.Room.{HubAttack}
use corestack_50005_htt.Tetris.Hub.State.{Room, Master, Effect, HubMsg, zero_room, room_at}
use corestack_50005_htt.Tetris.Hub.State.{sends}
use corestack_50005_htt.Tetris.Hub.State.{hub_attack, hub_feed, hub_garbage, PlayerRec}
use corestack_50005_htt.Tetris.Hub.Daemon.{route, fan_out, handle_hub_msg}

-- A player that garbage for the id can go to.
abbrev pub IsTarget : ℕ → PlayerRec → Type 0
IsTarget id p = (p.id ≡ id) × (p.alive ≡ true)

-- The message on the hub of a room that is in use and has started.
abbrev pub to_running : HubMsg → Room → List Effect
to_running msg r = if r.used && r.started then sends r.hub_fd msg ∷ [] else []

skipped : (p : PlayerRec) (id : ℕ) → ¬ (IsTarget id p) → (not (p.id == id) || not p.alive) ≡ true
skipped p id h = elim (Bool-cases p.alive) [
  | inl lives ↦ elim (Bool-cases (p.id == id)) [
    | inl same ↦ absurd (h (==→≡ p.id id same, lives))
    | inr other ↦ rw (lives, other) refl
  ]
  | inr dead ↦ rw dead (ground arith)
]

route-skip :
    (rooms : List Room) (attack : HubAttack) (front players : List PlayerRec)
    → All (λ p. ¬ (IsTarget attack.victim_id p)) front
    → route rooms attack (front ++ players) ≡ route rooms attack players
unfolding route
route-skip rooms attack [] players h = refl
route-skip rooms attack (p ∷ front) players h =
    rw (skipped p attack.victim_id h.0) (route-skip rooms attack front players h.1)

route-hit :
    (rooms : List Room) (attack : HubAttack) (victim : PlayerRec) (players : List PlayerRec)
    → IsTarget attack.victim_id victim
    → route rooms attack (victim ∷ players)
      ≡ to_running (hub_garbage attack) (get_or rooms victim.room zero_room)
unfolding route
route-hit rooms attack victim players (same, lives) =
    let test : (not (victim.id == attack.victim_id) || not victim.alive) ≡ false =
      rw (same, lives, ==_refl attack.victim_id) refl in
    rw test refl

-- An attack goes, as garbage, to the room of the first living player with the victim's id, if that room is
-- in use and has started, and nowhere else; the master stays as it is.
pub handle_attack_lem :
    (m : Master) (slot : ℕ) (attack : HubAttack) (before after : List PlayerRec)
    (victim : PlayerRec)
    → m.players ≡ before ++ victim ∷ after
    → All (λ p. ¬ (IsTarget attack.victim_id p)) before
    → IsTarget attack.victim_id victim
    → handle_hub_msg m slot (hub_attack attack)
      ≡ (m, to_running (hub_garbage attack) (room_at m victim.room))
unfolding handle_hub_msg
handle_attack_lem m slot attack before after victim e skip hit =
    ap (λ out. (m, out))
      (ap (route m.rooms attack) e
        ∙ route-skip m.rooms attack before (victim ∷ after) skip
        ∙ route-hit m.rooms attack victim after hit)

-- An attack on an id without a living player goes nowhere.
pub handle_attack_lost :
    (m : Master) (slot : ℕ) (attack : HubAttack)
    → All (λ p. ¬ (IsTarget attack.victim_id p)) m.players
    → handle_hub_msg m slot (hub_attack attack) ≡ (m, [])
unfolding handle_hub_msg route
handle_attack_lost m slot attack h =
    ap (λ out. (m, out))
      (ap (route m.rooms attack) (sym (append-nil m.players))
        ∙ route-skip m.rooms attack m.players [] h)

-- The message on the hub of each room that is in use and has started, in the order of the slots.
abbrev pub to_all_running : HubMsg → List Room → List Effect
to_all_running msg [] = []
to_all_running msg (r ∷ rooms) = to_running msg r ++ to_all_running msg rooms

fan_out-others :
    (rooms : List Room) (i slot : ℕ) (msg : HubMsg)
    → slot < i
    → fan_out rooms i slot msg ≡ to_all_running msg rooms
unfolding fan_out
fan_out-others [] i slot msg h = refl
fan_out-others (r ∷ rooms) i slot msg h =
    let other : (i == slot) ≡ false = ground arith in
    rw (other, fan_out-others rooms (i + 1) slot msg (omega arith))
      (if_both (λ (out : List Effect). out ≡ to_running msg r ++ to_all_running msg rooms)
        (r.used && r.started) (sends r.hub_fd msg ∷ to_all_running msg rooms)
        (to_all_running msg rooms) (λ e. rw e refl) (λ e. rw e refl))

fan_out_lem :
    (before after : List Room) (sender : Room) (i slot : ℕ) (msg : HubMsg)
    → slot ≡ i + length before
    → fan_out (before ++ sender ∷ after) i slot msg
      ≡ to_all_running msg before ++ to_all_running msg after
unfolding fan_out
fan_out_lem [] after sender i slot msg h =
    let here : (i == slot) ≡ true = ground arith in
    rw here (fan_out-others after (i + 1) slot msg (omega arith))
fan_out_lem (r ∷ before) after sender i slot msg h =
    let other : (i == slot) ≡ false = ground arith in
    let rest = to_all_running msg before ++ to_all_running msg after in
    rw (other, fan_out_lem before after sender (i + 1) slot msg (omega arith))
      (if_both
        (λ (out : List Effect).
          out ≡ (to_running msg r ++ to_all_running msg before) ++ to_all_running msg after)
        (r.used && r.started) (sends r.hub_fd msg ∷ rest) rest (λ e. rw e refl) (λ e. rw e refl))

-- An attack that a worker reports for the kill feeds is passed on to each other room that is in use and has
-- started, once and in the order of the slots, and not back to the room it comes from.
pub handle_feed_lem :
    (m : Master) (attack : HubAttack) (before after : List Room) (sender : Room)
    → m.rooms ≡ before ++ sender ∷ after
    → handle_hub_msg m (length before) (hub_feed attack)
      ≡ (m, to_all_running (hub_feed attack) before ++ to_all_running (hub_feed attack) after)
unfolding handle_hub_msg
handle_feed_lem m attack before after sender e =
    ap (λ out. (m, out))
      (ap (λ rooms. fan_out rooms 0 (length before) (hub_feed attack)) e
        ∙ fan_out_lem before after sender 0 (length before) (hub_feed attack) (omega arith))
