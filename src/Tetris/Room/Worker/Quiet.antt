-- ===== src/Tetris/Room/Worker/Quiet.antt =====
-- The phases of a tick that report no elimination.
use corestack_50005_htt.Prelude.{ℕ, zero, suc, ◌+◌, ◌≡◌, refl, not, ◌&&◌}
use corestack_50005_htt.Prelude.{if_both, List, [], ◌∷◌, Draws, ◌==◌, arith}
use corestack_50005_htt.Prelude.{Bool-cases, inl, inr}
use corestack_50005_htt.Prelude.{Option, none, some, ltb}
use corestack_50005_htt.Tetris.Session.{GameSession, slot_at, put_slot, find_player}
use corestack_50005_htt.Tetris.Protocol.{StatePayload}
use corestack_50005_htt.Tetris.Hub.State.{
  HubMsg, hub_ready, hub_joined, hub_attack, hub_eliminated, hub_feed, hub_start, hub_garbage,
  hub_roster, hub_gameover,
}
use corestack_50005_htt.Tetris.Room.{HubAttack, HubRoster, resolve_victim, hit}
use corestack_50005_htt.Tetris.Room.Worker.{
  RoomEffect, reports, feeds, Worker, drain_hub, route_slot, route_garbage, push_slot, push_states,
  deliver, feed_found, handle_hub, keepalive_ticks,
}
use corestack_50005_htt.Tetris.Room.Worker.Reports.{told, told-append}

-- The other phases report no elimination.
told-deliver :
    (id : ℕ) (session : GameSession) (i : ℕ) (attack : HubAttack) (found : Option ℕ)
    → told id (deliver session i attack found).1 ≡ 0
unfolding deliver
told-deliver id session i attack none =
    if_both (λ (o : GameSession × List RoomEffect). told id o.1 ≡ 0)
      (not (attack.victim_id == 0) && not (attack.victim_id == attack.attacker_id))
      (session, reports (hub_attack attack) ∷ feeds attack ∷ reports (hub_feed attack) ∷ [])
      (session, []) (λ _. refl) (λ _. refl)
told-deliver id session i attack (some v) =
    if_both (λ (o : GameSession × List RoomEffect). told id o.1 ≡ 0)
      (not (v == i) && (slot_at session v).state.game_over == 0)
      (
        put_slot session v (hit attack (slot_at session v)),
        feeds attack ∷ reports (hub_feed attack) ∷ [],
      )
      (session, []) (λ _. refl) (λ _. refl)

told-route_slot :
    (id : ℕ) (global : HubRoster) (i : ℕ) (session : GameSession) (d : Draws)
    → told id (route_slot global i session d).1 ≡ 0
unfolding route_slot
told-route_slot id global i session d =
    let attacker = slot_at session i in
    let spent = record attacker { state = record attacker.state { outgoing_garbage = 0 } } in
    let consumed = put_slot session i spent in
    let (victim_id, d') = resolve_victim consumed spent global d in
    let attack : HubAttack = record {
      attacker_id = attacker.player_id;
      victim_id = victim_id;
      lines = attacker.state.outgoing_garbage;
    } in
    let (routed, out) = deliver consumed i attack (find_player consumed victim_id) in
    if_both (λ (o : GameSession × List RoomEffect × Draws). told id o.1 ≡ 0)
      (attacker.state.outgoing_garbage == 0) (session, [], d) (routed, out, d') (λ _. refl)
      (λ _. told-deliver id consumed i attack (find_player consumed victim_id))

pub told-route_garbage :
    (id : ℕ) (global : HubRoster) (n i : ℕ) (session : GameSession) (d : Draws)
    → told id (route_garbage global n i session d).1 ≡ 0
unfolding route_garbage
told-route_garbage id global zero i session d = refl
told-route_garbage id global (suc n) i session d =
    let (session', out, d') = route_slot global i session d in
    omega (
      arith,
      told-append id out (route_garbage global n (i + 1) session' d').1,
      told-route_slot id global i session d,
      told-route_garbage id global n (i + 1) session' d',
    )

pub told-push_states :
    (id : ℕ) (blank : StatePayload) (n i : ℕ) (session : GameSession)
    → told id (push_states blank n i session).1 ≡ 0
unfolding push_states push_slot
told-push_states id blank zero i session = refl
told-push_states id blank (suc n) i session =
    let slot = slot_at session i in
    let (pushed, out) = push_slot blank slot in
    let quiet : told id out ≡ 0 =
      elim (Bool-cases (not slot.dirty && ltb slot.idle_ticks keepalive_ticks)) [
        | inl e ↦ rw e refl
        | inr e ↦ rw e refl
      ] in
    let rest = push_states blank n (i + 1) (put_slot session i pushed) in
    omega (
      arith,
      told-append id out rest.1,
      quiet,
      told-push_states id blank n (i + 1) (put_slot session i pushed),
    )

told-feed_found :
    (id : ℕ) (session : GameSession) (attack : HubAttack) (found : Option ℕ)
    → told id (feed_found session attack found) ≡ 0
unfolding feed_found
told-feed_found id session attack none = refl
told-feed_found id session attack (some i) =
    if_both (λ (out : List RoomEffect). told id out ≡ 0)
      (not ((slot_at session i).state.game_over == 0)) [] (feeds attack ∷ []) (λ _. refl)
      (λ _. refl)

told-handle_hub : (id : ℕ) (msg : HubMsg) (w : Worker) → told id (handle_hub msg w).1 ≡ 0
unfolding handle_hub
told-handle_hub id (hub_garbage attack) w =
    told-feed_found id w.session attack (find_player w.session attack.victim_id)
told-handle_hub id (hub_feed attack) w = refl
told-handle_hub id (hub_roster roster) w = refl
told-handle_hub id (hub_gameover winner) w = refl
told-handle_hub id hub_ready w = refl
told-handle_hub id (hub_joined player) w = refl
told-handle_hub id (hub_attack attack) w = refl
told-handle_hub id (hub_eliminated player) w = refl
told-handle_hub id (hub_start n) w = refl

pub told-drain_hub : (id : ℕ) (msgs : List HubMsg) (w : Worker) → told id (drain_hub msgs w).1 ≡ 0
unfolding drain_hub
told-drain_hub id [] w = refl
told-drain_hub id (msg ∷ msgs) w =
    let (w', out) = handle_hub msg w in
    omega (
      arith,
      told-append id out (drain_hub msgs w').1,
      told-handle_hub id msg w,
      told-drain_hub id msgs w',
    )
