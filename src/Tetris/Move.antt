-- ===== src/Tetris/Move.antt =====
-- libtetrisbrain/movement.c, and the rotation of a piece with its wall kicks in board_control.c.
-- A function of C that returns a value and changes `*state` returns the new state and the value.
pub mod Kicks
pub mod Drop
use package.corestack_50005_htt.Prelude.{ℕ, zero, suc, ◌+◌, ◌%◌, Bool, true, false, ◌==◌}
use package.corestack_50005_htt.Prelude.{if◌then◌else◌, List, [], ◌∷◌, get_or}
use package.corestack_50005_htt.Prelude.Int.{ℤ, pos, negsuc, neg_part, ◌+ℤ◌}
use package.corestack_50005_htt.Tetris.State.{GameState, Piece, board_height}
use package.corestack_50005_htt.Tetris.Piece.{get_transition_index}
use package.corestack_50005_htt.Tetris.Board.{is_valid_pos}

-- The state with its piece at another place.
abbrev pub moved : GameState → ℤ → ℤ → GameState
moved s x y = record s {
  current = record { type = s.current.type; rot = s.current.rot; x = x; y = y };
}

-- `is_valid_pos` of the current piece, in its rotation, at (x, y).
abbrev pub piece_fits : GameState → ℤ → ℤ → Bool
piece_fits s x y = is_valid_pos s s.current.type s.current.rot x y

pub move_left : GameState → GameState × Bool
move_left s =
    let x = s.current.x +ℤ negsuc 0 in
    if piece_fits s x s.current.y
    then (record (moved s x s.current.y) { last_action_rotation = false }, true)
    else (s, false)

pub move_right : GameState → GameState × Bool
move_right s =
    let x = s.current.x +ℤ pos 1 in
    if piece_fits s x s.current.y
    then (record (moved s x s.current.y) { last_action_rotation = false }, true)
    else (s, false)

pub soft_drop : GameState → GameState × Bool
soft_drop s =
    let y = s.current.y +ℤ pos 1 in
    if piece_fits s s.current.x y
    then (record (moved s s.current.x y) { last_action_rotation = false }, true)
    else (s, false)

-- The loop of `hard_drop`, on fuel, with the rows fallen so far.
unfoldable pub drop_loop : ℕ → GameState → ℕ → GameState × ℕ
drop_loop zero s rows = (s, rows)
drop_loop (suc fuel) s rows =
    let y = s.current.y +ℤ pos 1 in
    let next = drop_loop fuel (moved s s.current.x y) (rows + 1) in
    if piece_fits s s.current.x y then next else (s, rows)

-- `hard_drop`. A piece falls at most from its height above row 0 to the floor.
unfoldable pub hard_drop : GameState → GameState × ℕ
hard_drop s = drop_loop (neg_part s.current.y + board_height + 1) s 0

-- `KICKS_JLSTZ[8][5][2]`, pairs of an x and a y offset.
abbrev pub kicks_jlstz : List (List (ℤ × ℤ))
kicks_jlstz =
    ((pos 0, pos 0)
      ∷ (negsuc 0, pos 0)
      ∷ (negsuc 0, negsuc 0)
      ∷ (pos 0, pos 2)
      ∷ (negsuc 0, pos 2)
      ∷ [])
    ∷ ((pos 0, pos 0)
        ∷ (pos 1, pos 0)
        ∷ (pos 1, pos 1)
        ∷ (pos 0, negsuc 1)
        ∷ (pos 1, negsuc 1)
        ∷ [])
    ∷ ((pos 0, pos 0)
        ∷ (pos 1, pos 0)
        ∷ (pos 1, pos 1)
        ∷ (pos 0, negsuc 1)
        ∷ (pos 1, negsuc 1)
        ∷ [])
    ∷ ((pos 0, pos 0)
        ∷ (negsuc 0, pos 0)
        ∷ (negsuc 0, negsuc 0)
        ∷ (pos 0, pos 2)
        ∷ (negsuc 0, pos 2)
        ∷ [])
    ∷ ((pos 0, pos 0) ∷ (pos 1, pos 0) ∷ (pos 1, negsuc 0) ∷ (pos 0, pos 2) ∷ (pos 1, pos 2) ∷ [])
    ∷ ((pos 0, pos 0)
        ∷ (negsuc 0, pos 0)
        ∷ (negsuc 0, pos 1)
        ∷ (pos 0, negsuc 1)
        ∷ (negsuc 0, negsuc 1)
        ∷ [])
    ∷ ((pos 0, pos 0)
        ∷ (negsuc 0, pos 0)
        ∷ (negsuc 0, pos 1)
        ∷ (pos 0, negsuc 1)
        ∷ (negsuc 0, negsuc 1)
        ∷ [])
    ∷ ((pos 0, pos 0) ∷ (pos 1, pos 0) ∷ (pos 1, negsuc 0) ∷ (pos 0, pos 2) ∷ (pos 1, pos 2) ∷ [])
    ∷ []

-- `KICKS_I[8][5][2]`
abbrev pub kicks_i : List (List (ℤ × ℤ))
kicks_i =
    ((pos 0, pos 0)
      ∷ (negsuc 1, pos 0)
      ∷ (pos 1, pos 0)
      ∷ (negsuc 1, pos 1)
      ∷ (pos 1, negsuc 1)
      ∷ [])
    ∷ ((pos 0, pos 0)
        ∷ (pos 2, pos 0)
        ∷ (negsuc 0, pos 0)
        ∷ (pos 2, negsuc 0)
        ∷ (negsuc 0, pos 2)
        ∷ [])
    ∷ ((pos 0, pos 0)
        ∷ (negsuc 0, pos 0)
        ∷ (pos 2, pos 0)
        ∷ (negsuc 0, negsuc 1)
        ∷ (pos 2, pos 1)
        ∷ [])
    ∷ ((pos 0, pos 0)
        ∷ (pos 1, pos 0)
        ∷ (negsuc 1, pos 0)
        ∷ (pos 1, pos 2)
        ∷ (negsuc 1, negsuc 0)
        ∷ [])
    ∷ ((pos 0, pos 0)
        ∷ (pos 2, pos 0)
        ∷ (negsuc 0, pos 0)
        ∷ (pos 2, negsuc 0)
        ∷ (negsuc 0, pos 2)
        ∷ [])
    ∷ ((pos 0, pos 0)
        ∷ (negsuc 1, pos 0)
        ∷ (pos 1, pos 0)
        ∷ (negsuc 1, pos 1)
        ∷ (pos 1, negsuc 1)
        ∷ [])
    ∷ ((pos 0, pos 0)
        ∷ (pos 1, pos 0)
        ∷ (negsuc 1, pos 0)
        ∷ (pos 1, pos 2)
        ∷ (negsuc 1, negsuc 0)
        ∷ [])
    ∷ ((pos 0, pos 0)
        ∷ (negsuc 0, pos 0)
        ∷ (pos 2, pos 0)
        ∷ (negsuc 0, negsuc 1)
        ∷ (pos 2, pos 1)
        ∷ [])
    ∷ []

-- The five offsets of the I, the O and the other pieces, for a transition.
pub kick_offsets : ℕ → ℕ → List (ℤ × ℤ)
kick_offsets type trans_index =
    if type == 1
    then get_or kicks_i trans_index []
    else if type == 2
    then (pos 0, pos 0) ∷ (pos 0, pos 0) ∷ (pos 0, pos 0) ∷ (pos 0, pos 0) ∷ (pos 0, pos 0) ∷ []
    else get_or kicks_jlstz trans_index []

-- The loop of `test_rotate` over the offsets that are left.
pub try_kicks : GameState → ℕ → List (ℤ × ℤ) → GameState × Bool
try_kicks s next_rot [] = (s, false)
try_kicks s next_rot ((offset_x, offset_y) ∷ rest) =
    let nx = s.current.x +ℤ offset_x in
    let ny = s.current.y +ℤ offset_y in
    if is_valid_pos s s.current.type next_rot nx ny
    then (
      record s {
        current = record { type = s.current.type; rot = next_rot; x = nx; y = ny };
        last_action_rotation = true;
      },
      true,
    )
    else try_kicks s next_rot rest

pub test_rotate : GameState → ℕ → GameState × Bool
test_rotate s next_rot =
    try_kicks s next_rot (kick_offsets s.current.type (get_transition_index s.current.rot next_rot))

pub rotate_current_piece : GameState → GameState
rotate_current_piece s = (test_rotate s ((s.current.rot + 1) % 4)).0

pub rotate_counter_clockwise : GameState → GameState
rotate_counter_clockwise s = (test_rotate s ((s.current.rot + 3) % 4)).0
