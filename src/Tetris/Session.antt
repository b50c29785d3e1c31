-- ===== src/Tetris/Session.antt =====
-- tetrisd/game.c: the session of a room, with one slot for each player. A pointer to a slot is its
-- index in `players`, and NULL is `none`. As for the rules, `srand` has no effect on the model.
pub mod Ok
pub mod Reach
mod Tests
pub mod Frame
pub mod Same
use package.corestack_50005_htt.Prelude.{ℕ, zero, suc, ◌+◌, min, Bool, true, false, not, ◌&&◌, ◌||◌}
use package.corestack_50005_htt.Prelude.{◌==◌, if◌then◌else◌, List, [], ◌∷◌, get_or, set, replicate}
use package.corestack_50005_htt.Prelude.{Option, none, some, Draws}
use package.corestack_50005_htt.Tetris.State.{GameState}
use package.corestack_50005_htt.Tetris.Move.{move_left, move_right, soft_drop, hard_drop}
use package.corestack_50005_htt.Tetris.Move.{rotate_current_piece, rotate_counter_clockwise}
use package.corestack_50005_htt.Tetris.Engine.{start_game, zero_state, tick_game, update_timers}
use package.corestack_50005_htt.Tetris.Engine.{hold_piece}
use package.corestack_50005_htt.Tetris.Targeting.{Roster, cycle_target_mode, cycle_manual_target}

abbrev pub max_lobby_size : ℕ
max_lobby_size = 2

pub record PlayerSlot : Type 0 where
  pub state : GameState
  pub player_id : ℕ
  pub active : Bool
  pub dirty : Bool
  pub elim_reported : Bool
  pub idle_ticks : ℕ

pub record GameSession : Type 0 where
  pub players : List PlayerSlot
  pub count : ℕ
  pub roster : Roster

-- `PlayerAction`; a received number without a name takes the branch of `action_none`.
pub data PlayerAction : Type 0 where
  action_none : PlayerAction
  action_move_left : PlayerAction
  action_move_right : PlayerAction
  action_rotate_cw : PlayerAction
  action_rotate_ccw : PlayerAction
  action_soft_drop : PlayerAction
  action_hard_drop : PlayerAction
  action_hold : PlayerAction
  action_cycle_target_mode : PlayerAction
  action_cycle_target : PlayerAction
  action_quit : PlayerAction

-- A slot and a session after `memset(..., 0, ...)`.
abbrev pub zero_slot : PlayerSlot
zero_slot = record {
  state = zero_state;
  player_id = 0;
  active = false;
  dirty = false;
  elim_reported = false;
  idle_ticks = 0;
}

abbrev pub zero_session : GameSession
zero_session = record {
  players = replicate max_lobby_size zero_slot;
  count = 0;
  roster = record {
    ids = replicate max_lobby_size 0;
    eliminated = replicate max_lobby_size false;
    count = 0;
  };
}

-- `session->players[i]`
abbrev pub slot_at : GameSession → ℕ → PlayerSlot
slot_at session i = get_or session.players i zero_slot

abbrev pub put_slot : GameSession → ℕ → PlayerSlot → GameSession
put_slot session i slot = record session { players = set session.players i slot }

-- A slot of `init_session`, before its target is known.
unfoldable pub new_slot : ℕ → GameState → PlayerSlot
new_slot id s = record {
  state = record s { player_id = id; target_player_id = 0; last_attacker_id = 0 };
  player_id = id;
  active = true;
  dirty = true;
  elim_reported = false;
  idle_ticks = 0;
}

-- The first loop of `init_session`, from the slot `i` on, with `n` of them left.
unfoldable pub init_slots : List ℕ → ℕ → ℕ → GameSession → Draws → GameSession × Draws
init_slots client_ids zero i session d = (session, d)
init_slots client_ids (suc n) i session d =
    let id = get_or client_ids i 0 in
    let (s, d') = start_game d in
    init_slots client_ids n (i + 1)
      (record (put_slot session i (new_slot id s)) {
        roster = record session.roster {
          ids = set session.roster.ids i id;
          eliminated = set session.roster.eliminated i false;
        };
      })
      d'

-- The inner search of the second loop: the first id of the roster that is not the player's.
unfoldable pub first_other : Roster → ℕ → ℕ → ℕ → Option ℕ
first_other r id zero j = none
first_other r id (suc n) j =
    let rest = first_other r id n (j + 1) in
    if not (get_or r.ids j 0 == id) then some (get_or r.ids j 0) else rest

unfoldable pub with_target : PlayerSlot → Option ℕ → PlayerSlot
with_target slot none = slot
with_target slot (some id) = record slot { state = record slot.state { target_player_id = id } }

-- The second loop.
unfoldable pub aim_slots : ℕ → ℕ → GameSession → GameSession
aim_slots zero i session = session
aim_slots (suc n) i session =
    let slot = slot_at session i in
    aim_slots n (i + 1) (
      put_slot session i
        (with_target slot (first_other session.roster slot.player_id session.roster.count 0)))

-- `init_session`; the session that is overwritten plays no part.
unfoldable pub init_session : List ℕ → ℕ → Draws → GameSession × Draws
init_session client_ids lobby_size d =
    let sized = record zero_session {
      count = lobby_size;
      roster = record zero_session.roster { count = lobby_size };
    } in
    let (filled, d') = init_slots client_ids (min lobby_size max_lobby_size) 0 sized d in
    (aim_slots filled.count 0 filled, d')

-- The loop of `find_player`, from the slot `i` on.
unfoldable pub find_from : GameSession → ℕ → ℕ → ℕ → Option ℕ
find_from session player_id zero i = none
find_from session player_id (suc n) i =
    let rest = find_from session player_id n (i + 1) in
    if (slot_at session i).active && (slot_at session i).player_id == player_id
    then some i
    else rest

unfoldable pub find_player : GameSession → ℕ → Option ℕ
find_player session player_id = find_from session player_id session.count 0

-- The loop that marks a player as eliminated, from the index `i` on.
pub eliminate_from : List ℕ → ℕ → ℕ → ℕ → List Bool → List Bool
eliminate_from ids player_id zero i marks = marks
eliminate_from ids player_id (suc n) i marks =
    eliminate_from ids player_id n (i + 1)
      (if get_or ids i 0 == player_id then set marks i true else marks)

pub eliminate : Roster → ℕ → Roster
eliminate r player_id = record r {
  eliminated = eliminate_from r.ids player_id r.count 0 r.eliminated;
}

-- `if (move(state)) state->lock_timer = 0`
pub reset_if : GameState × Bool → GameState
reset_if (s, done) = if done then record s { lock_timer = 0 } else s

-- What the `switch` of `apply_action` does to the state.
pub act : Roster → PlayerAction → GameState → Draws → GameState × Draws
act roster action_none s d = (s, d)
act roster action_move_left s d = (reset_if (move_left s), d)
act roster action_move_right s d = (reset_if (move_right s), d)
act roster action_rotate_cw s d = (record (rotate_current_piece s) { lock_timer = 0 }, d)
act roster action_rotate_ccw s d = (record (rotate_counter_clockwise s) { lock_timer = 0 }, d)
act roster action_soft_drop s d = (reset_if (soft_drop s), d)
act roster action_hard_drop s d =
    let (dropped, _) = hard_drop s in
    let (t, _, d') = tick_game dropped d in (record t { gravity_timer = 0; lock_timer = 0 }, d')
act roster action_hold s d =
    let (t, d') = hold_piece s d in
    if not s.has_held then (record t { gravity_timer = 0 }, d') else (s, d)
act roster action_cycle_target_mode s d = (cycle_target_mode s, d)
act roster action_cycle_target s d = (cycle_manual_target s roster, d)
act roster action_quit s d = (record s { game_over = 1 }, d)

-- What it does to the slot around the state and to the roster, the mark `dirty` included.
pub settle : PlayerAction → PlayerSlot → GameState → PlayerSlot
settle action_none slot s = slot
settle action_quit slot s = record slot { state = s; active = false; dirty = true }
settle action slot s = record slot { state = s; dirty = true }

pub roster_after : PlayerAction → PlayerSlot → Roster → Roster
roster_after action_quit slot r = eliminate r slot.player_id
roster_after action slot r = r

-- The guard `!slot->active || slot->state.game_over`.
pub is_out : PlayerSlot → Bool
is_out slot = not slot.active || not (slot.state.game_over == 0)

pub apply_action : GameSession → Option ℕ → PlayerAction → Draws → GameSession × Draws
apply_action session none action d = (session, d)
apply_action session (some i) action d =
    let slot = slot_at session i in
    let (s, d') = act session.roster action slot.state d in
    if is_out slot then (session, d) else (
      record (put_slot session i (settle action slot s)) {
        roster = roster_after action slot session.roster;
      },
      d',
    )

-- The body of the loop of `tick_session`.
pub tick_slot : GameSession → ℕ → Draws → GameSession × Draws
tick_slot session i d =
    let slot = slot_at session i in
    let (s, changed, d') = update_timers slot.state d in
    let over = not (s.game_over == 0) in
    if is_out slot then (session, d) else (
      record (put_slot session i
          (record slot { state = s; dirty = slot.dirty || changed || over })) {
            roster = if over then eliminate session.roster slot.player_id else session.roster;
          },
      d',
    )

pub tick_slots : ℕ → ℕ → GameSession → Draws → GameSession × Draws
tick_slots zero i session d = (session, d)
tick_slots (suc n) i session d = let (t, d') = tick_slot session i d in tick_slots n (i + 1) t d'

pub tick_session : GameSession → Draws → GameSession × Draws
tick_session session d = tick_slots session.count 0 session d

-- The loop of `count_alive_players`, from the slot `i` on.
pub alive_from : GameSession → ℕ → ℕ → ℕ
alive_from session zero i = 0
alive_from session (suc n) i =
    (if (slot_at session i).active && (slot_at session i).state.game_over == 0 then 1 else 0)
    + alive_from session n (i + 1)

pub count_alive_players : GameSession → ℕ
count_alive_players session = alive_from session session.count 0
