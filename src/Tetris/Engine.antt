-- ===== src/Tetris/Engine.antt =====
-- libtetrisbrain/engine.c, hold.c and `start_game` of state.c: one turn of a player's game. The
-- functions that draw pieces or garbage take the draws of `rand()` and return those that are left.
pub mod Ok
pub mod Steps
pub mod Supply
pub mod Turn
pub mod Landing
pub mod Timers
use package.corestack_50005_htt.Prelude.{ℕ, zero, suc, ◌+◌, ◌-◌, ◌*◌, ◌^◌, Bool, true, false, not}
use package.corestack_50005_htt.Prelude.{◌&&◌, ◌||◌, ◌==◌, ltb, leb, if◌then◌else◌, List, [], ◌∷◌}
use package.corestack_50005_htt.Prelude.{replicate, Draws, copy_into}
use package.corestack_50005_htt.Prelude.Int.{
  to_int, ℤ, pos, negsuc, pos_part, neg_part, ◌+ℤ◌, ltb_ℤ,
}
use package.corestack_50005_htt.Tetris.State.{GameState, Piece, board_width, board_height, cell_at}
use package.corestack_50005_htt.Tetris.Board.{lock_piece, clear_lines, empty_row}
use package.corestack_50005_htt.Tetris.Bag.{shuffle_array, kinds, spawn_x, spawn_y, spawn_new_piece}
use package.corestack_50005_htt.Tetris.Garbage.{add_garbage, calculate_garbage}
use package.corestack_50005_htt.Tetris.Move.{piece_fits, moved}

abbrev pub gravity_threshold_start : ℕ
gravity_threshold_start = 50

abbrev pub lock_threshold_start : ℕ
lock_threshold_start = 50

-- `corner_offsets`
abbrev pub corner_offsets : List (ℤ × ℤ)
corner_offsets = (negsuc 0, negsuc 0) ∷ (pos 1, negsuc 0) ∷ (negsuc 0, pos 1) ∷ (pos 1, pos 1) ∷ []

-- Whether the place (check_x, check_y) is off the board or holds a tile.
pub corner_blocked : GameState → ℤ → ℤ → Bool
corner_blocked s check_x check_y =
    if ltb_ℤ check_x (pos 0)
      || not (ltb_ℤ check_x (pos board_width))
      || not (ltb_ℤ check_y (pos board_height))
      || ltb_ℤ check_y (pos 0)
    then true
    else not (cell_at s.board (pos_part check_y) (pos_part check_x) == 0)

pub blocked_corners : GameState → List (ℤ × ℤ) → ℕ
blocked_corners s [] = 0
blocked_corners s ((dx, dy) ∷ rest) =
    let check_x = s.current.x +ℤ pos 1 +ℤ dx in
    let check_y = s.current.y +ℤ pos 1 +ℤ dy in
    (if corner_blocked s check_x check_y then 1 else 0) + blocked_corners s rest

pub check_t_spin : GameState → Bool
check_t_spin s =
    if not (s.current.type == 3) || not s.last_action_rotation
    then false
    else leb 3 (blocked_corners s corner_offsets)

-- The damage of a turn cancels pending garbage, and the rest is sent: the new pending and outgoing
-- garbage. `owed` is `(int)pending_garbage`.
pub cancel_garbage : GameState → ℕ → GameState
cancel_garbage s damage =
    let owed = to_int s.pending_garbage in
    if ltb 0 damage && ltb 0 s.pending_garbage
    then if not (ltb_ℤ (pos damage) owed)
      then record s {
        pending_garbage = 0;
        outgoing_garbage = damage + neg_part owed - pos_part owed;
      }
      else record s { pending_garbage = s.pending_garbage - damage; outgoing_garbage = 0 }
    else record s { outgoing_garbage = damage }

-- Pending garbage rises in a turn that cleared no line.
pub take_garbage : GameState → ℕ → Draws → GameState × Draws
take_garbage s cleared d =
    if cleared == 0 && ltb 0 s.pending_garbage
    then (let (t, d') = add_garbage s (to_int s.pending_garbage) d in
        (record t { pending_garbage = 0 }, d'))
    else (s, d)

-- The new piece, and the game over where it has no room.
pub next_piece : GameState → Draws → GameState × Draws
next_piece s d =
    let (t, d') = spawn_new_piece s d in
    if piece_fits t t.current.x t.current.y then (t, d') else (record t { game_over = 1 }, d')

-- The part of `tick_game` for a piece that has landed on the board: the new state, the lines
-- cleared, and the draws left.
pub land : GameState → Draws → GameState × ℕ × Draws
land s d =
    let tspin = check_t_spin s in
    let spun = if tspin then record s { t_spins = s.t_spins + 1 } else s in
    let locked = lock_piece spun in
    let placed = record locked { pieces_placed = locked.pieces_placed + 1 } in
    let (swept, cleared) = clear_lines placed in
    let counted = if cleared == 4 then record swept { tetrises = swept.tetrises + 1 } else swept in
    let (charged, damage) = calculate_garbage counted cleared tspin in
    let (risen, d') = take_garbage (cancel_garbage charged damage) cleared d in
    let (t, d'') = next_piece risen d' in (t, cleared, d'')

pub tick_game : GameState → Draws → GameState × ℕ × Draws
tick_game s d =
    if piece_fits s s.current.x (s.current.y +ℤ pos 1)
    then (moved s s.current.x (s.current.y +ℤ pos 1), 0, d)
    else if ltb_ℤ s.current.y (pos 0)
    then (record s { game_over = 1 }, 0, d)
    else land s d

-- `GRAVITY_THRESHOLD_START - (level - 1) * 5`, at least 5: where the difference of C is negative,
-- here it is 0, and both give 5.
pub current_gravity : ℕ → ℕ
current_gravity level = let g = gravity_threshold_start + 5 - level * 5 in if ltb g 5 then 5 else g

-- The branch of `update_timers` for a piece that rests, and for one that can fall.
pub lock_timer_tick : GameState → Draws → GameState × Bool × Draws
lock_timer_tick s d =
    let waiting = record s { lock_timer = s.lock_timer + 1 } in
    let (t, _, d') = tick_game waiting d in
    if leb lock_threshold_start (s.lock_timer + 1)
    then (record t { lock_timer = 0; gravity_timer = 0 }, true, d')
    else (waiting, false, d)

pub gravity_timer_tick : GameState → Draws → GameState × Bool × Draws
gravity_timer_tick s d =
    let falling = record s { lock_timer = 0; gravity_timer = s.gravity_timer + 1 } in
    let (t, _, d') = tick_game falling d in
    if leb (current_gravity s.level) (s.gravity_timer + 1)
    then (record t { gravity_timer = 0 }, true, d')
    else (falling, false, d)

pub update_timers : GameState → Draws → GameState × Bool × Draws
update_timers s d =
    if not (piece_fits s s.current.x (s.current.y +ℤ pos 1))
    then lock_timer_tick s d
    else gravity_timer_tick s d

-- `hold_piece`
pub hold_piece : GameState → Draws → GameState × Draws
hold_piece s d =
    if s.has_held
    then (s, d)
    else if s.held_type == 0
    then (let (t, d') = spawn_new_piece (record s { held_type = s.current.type }) d in
        (record t { has_held = true }, d'))
    else (
      record s {
        current = record { type = s.held_type; rot = 0; x = spawn_x; y = spawn_y };
        held_type = s.current.type;
        has_held = true;
      },
      d,
    )

-- The state of `memset(state, 0, sizeof(GameState))`.
abbrev pub zero_piece : Piece
zero_piece = record { type = 0; rot = 0; x = pos 0; y = pos 0 }

abbrev pub zero_state : GameState
zero_state = record {
  board = replicate board_height empty_row;
  current = zero_piece;
  next = zero_piece;
  target_mode = 0;
  player_id = 0;
  target_player_id = 0;
  gravity_timer = 0;
  lock_timer = 0;
  held_type = 0;
  has_held = false;
  bag = replicate 14 0;
  bag_index = 0;
  pieces_placed = 0;
  tetrises = 0;
  t_spins = 0;
  last_action_rotation = false;
  pending_garbage = 0;
  outgoing_garbage = 0;
  last_attacker_id = 0;
  score = 0;
  lines_cleared = 0;
  combo = pos 0;
  b2b = false;
  level = 0;
  game_over = 0;
  winner_id = 0;
}

-- `start_game`, with the draws after `srand`.
unfoldable pub start_game : Draws → GameState × Draws
start_game d =
    let (bag1, d1) = shuffle_array kinds 7 d in
    let (bag2, d2) = shuffle_array kinds 7 d1 in
    let bag = copy_into 0 7 0 7 bag2 (copy_into 0 7 0 0 bag1 (replicate 14 0)) in
    spawn_new_piece (record zero_state { combo = negsuc 0; level = 1; bag = bag; bag_index = 0 }) d2
