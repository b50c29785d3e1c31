-- ===== src/Tetris/Crossing.antt =====
-- An attack on a player of another room: the worker of the attacker, the master, and the worker of the victim.
pub mod Fanout
mod Tests
use package.corestack_50005_htt.Prelude.Int.{to_int, pos}
use package.corestack_50005_htt.Prelude.{
  ℕ, ◌+◌, ◌^◌, ◌%◌, ◌≤◌, ◌<◌, ◌≡◌, ◌≢◌, refl, ap, sym, ◌∙◌, Bool, true, false, not, ◌&&◌,
}
use package.corestack_50005_htt.Prelude.{
  if◌then◌else◌, List, [], ◌∷◌, ◌++◌, Option, none, some, ◌==◌, arith, ltb,
}
use package.corestack_50005_htt.Prelude.{All, min, get_or-set_self, length, map, Draws}
use package.corestack_50005_htt.Tetris.State.{GameState, board_height}
use package.corestack_50005_htt.Tetris.Garbage.{queue_garbage}
use package.corestack_50005_htt.Tetris.Session.{
  PlayerSlot, GameSession, slot_at, put_slot, find_player, zero_slot,
}
use package.corestack_50005_htt.Tetris.Session.Ok.{SessionOk}
use package.corestack_50005_htt.Tetris.Session.Reach.{find_player_lem}
use package.corestack_50005_htt.Tetris.Room.{
  HubAttack, HubRoster, hit, hit_found, apply_remote_garbage, resolve_victim,
}
use package.corestack_50005_htt.Tetris.Hub.State.{
  Master, PlayerRec, HubMsg, sends, hub_attack, hub_garbage, hub_feed, room_at,
}
use package.corestack_50005_htt.Tetris.Hub.Daemon.{handle_hub_msg, run, step, says, fan_out}
use package.corestack_50005_htt.Tetris.Crossing.Fanout.{messages_to, messages_to-fan_out}
use package.corestack_50005_htt.Prelude.{append-nil, ==_refl, subst}
use package.corestack_50005_htt.Tetris.Hub.State.{Effect}
use package.corestack_50005_htt.Tetris.Hub.Daemon.{Event}
use package.corestack_50005_htt.Tetris.Hub.Routing.{IsTarget, to_running, handle_attack_lem}
use package.corestack_50005_htt.Tetris.Room.Worker.{
  Worker, RoomEffect, route_slot, deliver, handle_hub, drain_hub, feed_found, reports, feeds,
  pushes,
}

queue_lines :
    (s : GameState) (lines : ℕ)
    → 0 < lines
    → lines < 2 ^ 31
    → s.pending_garbage ≤ board_height
    → (queue_garbage s (to_int lines)).pending_garbage
      ≡ min board_height (s.pending_garbage + lines)
unfolding queue_garbage
queue_lines s lines h k o = ground arith

-- What `route_slot` sends of the attacker in slot `i`: the slot and the session once its garbage is consumed,
-- and the attack on the victim that is chosen.
abbrev pub spent_slot : PlayerSlot → PlayerSlot
spent_slot attacker = record attacker { state = record attacker.state { outgoing_garbage = 0 } }

abbrev pub consumed : GameSession → ℕ → GameSession
consumed session i = put_slot session i (spent_slot (slot_at session i))

abbrev pub outgoing_attack : HubRoster → ℕ → GameSession → Draws → HubAttack
outgoing_attack global i session d = record {
  attacker_id = (slot_at session i).player_id;
  victim_id = (resolve_victim (consumed session i) (spent_slot (slot_at session i)) global d).0;
  lines = (slot_at session i).state.outgoing_garbage;
}

-- The messages of a worker to the master, in their order.
unfoldable pub messages_of : List RoomEffect → List HubMsg
messages_of [] = []
messages_of (reports msg ∷ out) = msg ∷ messages_of out
messages_of (feeds attack ∷ out) = messages_of out
messages_of (pushes id payload ∷ out) = messages_of out

-- The worker of the attacker, in whose room the victim is not, reports the attack.
route_far :
    (global : HubRoster) (i : ℕ) (session : GameSession) (d : Draws)
    → let attack = outgoing_attack global i session d in
      0 < attack.lines
      → find_player (consumed session i) attack.victim_id ≡ none
      → attack.victim_id ≢ 0
      → attack.victim_id ≢ attack.attacker_id
      → ((route_slot global i session d).0 ≡ consumed session i)
        × ((route_slot global i session d).1
            ≡ reports (hub_attack attack) ∷ feeds attack ∷ reports (hub_feed attack) ∷ [])
unfolding route_slot deliver
route_far global i session d some_line away h k =
    let attack = outgoing_attack global i session d in
    let test : (not (attack.victim_id == 0) && not (attack.victim_id == attack.attacker_id))
        ≡ true =
      ground arith in
    let spends : ((slot_at session i).state.outgoing_garbage == 0) ≡ false = ground arith in
    rw (spends, away, test) (refl, refl)

-- The worker of the victim queues the lines.
garbage_lands :
    (w : Worker) (attack : HubAttack) (v : ℕ)
    → SessionOk w.session
    → find_player w.session attack.victim_id ≡ some v
    → (slot_at w.session v).state.game_over ≡ 0
    → (slot_at (handle_hub (hub_garbage attack) w).0.session v ≡ hit attack (slot_at w.session v))
      × ((handle_hub (hub_garbage attack) w).1 ≡ feeds attack ∷ [])
unfolding handle_hub apply_remote_garbage hit_found feed_found
garbage_lands w attack v o found playing =
    let inside = (find_player_lem w.session attack.victim_id v found).in_use in
    rw (found, playing)
      (
        get_or-set_self w.session.players v (hit attack (slot_at w.session v)) zero_slot
            (omega (arith, o.counted, o.sound.places)),
        refl,
      )

step-says :
    (m : Master) (slot : ℕ) (msg : HubMsg)
    → (room_at m slot).used ≡ true
    → step m (says slot msg) ≡ handle_hub_msg m slot msg
unfolding step
step-says m slot msg used = rw used refl

-- Two events that leave the master as it is.
run_two :
    (m : Master) (a b : Event) (one two : List Effect)
    → step m a ≡ (m, one)
    → step m b ≡ (m, two)
    → run (a ∷ b ∷ []) m ≡ (m, one ++ (two ++ []))
unfolding run
run_two m a b one two p q = rw (p, q) refl

-- The master passes the attack on to the hub of the victim's room, as garbage and for the kill feed.
relayed :
    (m : Master) (slot : ℕ) (attack : HubAttack) (before after : List PlayerRec)
    (victim : PlayerRec)
    → (room_at m slot).used ≡ true
    → m.players ≡ before ++ victim ∷ after
    → All (λ p. ¬ (IsTarget attack.victim_id p)) before
    → IsTarget attack.victim_id victim
    → ((room_at m victim.room).used && (room_at m victim.room).started) ≡ true
    → victim.room ≢ slot
    → ((j : ℕ)
        → j < length m.rooms
        → j ≢ victim.room
        → (room_at m j).hub_fd ≢ (room_at m victim.room).hub_fd)
    → let (m', sent) = run (says slot (hub_attack attack) ∷ says slot (hub_feed attack) ∷ []) m in
      (m' ≡ m)
      × (messages_to (room_at m victim.room).hub_fd sent
          ≡ hub_garbage attack ∷ hub_feed attack ∷ [])
unfolding messages_to handle_hub_msg
relayed m slot attack before after victim used split skip hit' running away alone =
    let fd = (room_at m victim.room).hub_fd in
    let out = fan_out m.rooms 0 slot (hub_feed attack) in
    let heard =
      run_two m (says slot (hub_attack attack)) (says slot (hub_feed attack))
        (sends fd (hub_garbage attack) ∷ []) out
        (step-says m slot (hub_attack attack) used
          ∙ handle_attack_lem m slot attack before after victim split skip hit'
          ∙ ap (λ sent. (m, sent)) (rw running refl))
        (step-says m slot (hub_feed attack) used) in
    let two : messages_to fd out ≡ hub_feed attack ∷ [] =
      messages_to-fan_out m.rooms victim.room 0 slot (hub_feed attack) running (omega arith)
        alone in
    rw (heard, append-nil out, ==_refl fd, two) (refl, refl)

-- The worker that hears of it twice queues the lines once and shows the attack two times.
drain_hub-both :
    (attack : HubAttack) (w : Worker)
    → drain_hub (hub_garbage attack ∷ hub_feed attack ∷ []) w ≡ (
      (handle_hub (hub_garbage attack) w).0,
      (handle_hub (hub_garbage attack) w).1 ++ feeds attack ∷ [],
    )
unfolding drain_hub handle_hub
drain_hub-both attack w = refl

-- A player of one room attacks a player of another with a number of lines below 2^31: the victim that is chosen is
-- not in the attacker's room, and the master, which hears of it from a room in use, knows it as the first living
-- player of that id, in another room that is in use, has started and has a hub of its own. The worker of the
-- attacker consumes the garbage, reports the attack twice, once to be routed and once for the kill feeds, and
-- shows it in its own. The master stays as it is, and the victim's room hears of the attack twice, as garbage and
-- for the kill feed. There, where the player is still in the game, the lines are added to the pending
-- garbage up to 20, the attacker is noted, the state is marked to be sent, and the attack is shown two times.
pub attack_lands :
    (global : HubRoster) (session : GameSession) (i slot v : ℕ) (d : Draws) (attack : HubAttack)
    (m : Master) (before after : List PlayerRec) (victim : PlayerRec) (w : Worker)
    → outgoing_attack global i session d ≡ attack
    → 0 < attack.lines
    → attack.lines < 2 ^ 31
    → find_player (consumed session i) attack.victim_id ≡ none
    → attack.victim_id ≢ 0
    → attack.victim_id ≢ attack.attacker_id
    → (room_at m slot).used ≡ true
    → m.players ≡ before ++ victim ∷ after
    → All (λ p. ¬ (IsTarget attack.victim_id p)) before
    → IsTarget attack.victim_id victim
    → ((room_at m victim.room).used && (room_at m victim.room).started) ≡ true
    → victim.room ≢ slot
    → ((j : ℕ)
        → j < length m.rooms
        → j ≢ victim.room
        → (room_at m j).hub_fd ≢ (room_at m victim.room).hub_fd)
    → SessionOk w.session
    → find_player w.session attack.victim_id ≡ some v
    → (slot_at w.session v).state.game_over ≡ 0
    → let (routed, out, _) = route_slot global i session d in
      let (m', sent) = run (map (λ msg. says slot msg) (messages_of out)) m in
      let (w', shown) = drain_hub (messages_to (room_at m victim.room).hub_fd sent) w in
      let hurt = slot_at w'.session v in
      (routed ≡ consumed session i)
      × (out ≡ reports (hub_attack attack) ∷ feeds attack ∷ reports (hub_feed attack) ∷ [])
      × (m' ≡ m)
      × (messages_to (room_at m victim.room).hub_fd sent
          ≡ hub_garbage attack ∷ hub_feed attack ∷ [])
      × (hurt.state.pending_garbage
          ≡ min board_height ((slot_at w.session v).state.pending_garbage + attack.lines))
      × (hurt.state.last_attacker_id ≡ attack.attacker_id)
      × (hurt.dirty ≡ true)
      × (shown ≡ feeds attack ∷ feeds attack ∷ [])
unfolding hit messages_of
attack_lands global session i slot v d attack m before after victim w same some_line word away one
      two used split skip hit' running apart alone o found playing =
    let (landed, shown) = garbage_lands w attack v o found playing in
    let inside = (find_player_lem w.session attack.victim_id v found).in_use in
    let (spends, tells) =
      subst
        (λ a.
          0 < a.lines
          → find_player (consumed session i) a.victim_id ≡ none
          → a.victim_id ≢ 0
          → a.victim_id ≢ a.attacker_id
          → ((route_slot global i session d).0 ≡ consumed session i)
            × ((route_slot global i session d).1
                ≡ reports (hub_attack a) ∷ feeds a ∷ reports (hub_feed a) ∷ []))
        same (route_far global i session d) some_line away one two in
    let (kept, heard) =
      relayed m slot attack before after victim used split skip hit' running apart alone in
    rw (tells, kept, heard, drain_hub-both attack w, landed, shown)
      (
        spends,
        refl,
        refl,
        refl,
        queue_lines (slot_at w.session v).state attack.lines some_line word
            (o.sound.games v inside).pending_ok,
        refl,
        refl,
        refl,
      )
