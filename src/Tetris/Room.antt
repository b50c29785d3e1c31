-- ===== src/Tetris/Room.antt =====
-- The attacks of tetrisd/room.c between players. What goes to sockets and to the log is left out.
pub mod Ok
pub mod Worker
use package.corestack_50005_htt.Prelude.Int.{to_int}
use package.corestack_50005_htt.Prelude.{
  ℕ, zero, suc, ◌+◌, ◌%◌, ◌^◌, min, Bool, true, false, not, ◌&&◌, ◌==◌,
}
use package.corestack_50005_htt.Prelude.{if◌then◌else◌, List, [], ◌∷◌, get_or, length, ltb}
use package.corestack_50005_htt.Prelude.{Option, none, some, Draws, rand}
use package.corestack_50005_htt.Tetris.State.{GameState, target_random, target_ko}
use package.corestack_50005_htt.Tetris.Garbage.{queue_garbage}
use package.corestack_50005_htt.Tetris.Targeting.{resolve_target_id}
use package.corestack_50005_htt.Tetris.Session.{
  PlayerSlot, GameSession, slot_at, put_slot, find_player,
}
use package.corestack_50005_htt.Tetris.Session.{max_lobby_size}

abbrev pub hub_max_players : ℕ
hub_max_players = 64

pub record HubAttack : Type 0 where
  pub attacker_id : ℕ
  pub victim_id : ℕ
  pub lines : ℕ

pub record HubRoster : Type 0 where
  pub count : ℕ
  pub ids : List ℕ
  pub alive : List Bool

-- What `apply_remote_garbage` does to the slot of a victim that is still in the game.
unfoldable pub hit : HubAttack → PlayerSlot → PlayerSlot
hit attack victim = record victim {
  state = record (queue_garbage victim.state (to_int attack.lines)) {
    last_attacker_id = attack.attacker_id;
  };
  dirty = true;
}

unfoldable pub hit_found : GameSession → HubAttack → Option ℕ → GameSession
hit_found session attack none = session
hit_found session attack (some i) =
    if not ((slot_at session i).state.game_over == 0)
    then session
    else put_slot session i (hit attack (slot_at session i))

unfoldable pub apply_remote_garbage : GameSession → HubAttack → GameSession
apply_remote_garbage session attack =
    hit_found session attack (find_player session attack.victim_id)

-- The candidates of the random mode, from the index `i` with `n` left.
unfoldable pub alive_others : HubRoster → ℕ → ℕ → ℕ → List ℕ
alive_others global player_id zero i = []
alive_others global player_id (suc n) i =
    let rest = alive_others global player_id n (i + 1) in
    if not (get_or global.ids i 0 == player_id) && get_or global.alive i false
    then get_or global.ids i 0 ∷ rest
    else rest

-- The loop of the retaliation mode.
pub alive_in : HubRoster → ℕ → ℕ → ℕ → Bool
alive_in global id zero i = false
alive_in global id (suc n) i =
    let rest = alive_in global id n (i + 1) in
    if get_or global.ids i 0 == id && get_or global.alive i false then true else rest

unfoldable pub resolve_victim : GameSession → PlayerSlot → HubRoster → Draws → ℕ × Draws
resolve_victim session attacker global d =
    let s = attacker.state in
    let rounds = min global.count hub_max_players in
    let candidates = alive_others global attacker.player_id rounds 0 in
    if ltb 0 global.count && s.target_mode == target_random && ltb 0 (length candidates)
    then (get_or candidates ((rand d).0 % 2 ^ 32 % length candidates) 0, (rand d).1)
    else if ltb 0 global.count
        && s.target_mode == target_ko
        && not (s.last_attacker_id == 0)
        && not (s.last_attacker_id == attacker.player_id)
        && alive_in global s.last_attacker_id rounds 0
    then (s.last_attacker_id, d)
    else resolve_target_id s session.roster d
