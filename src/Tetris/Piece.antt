-- ===== src/Tetris/Piece.antt =====
-- The tetrominoes and the rotation arithmetic of libtetrisbrain/board_control.c.
pub mod Rotation
use package.corestack_50005_htt.Prelude.{ℕ, zero, suc, ◌+◌, ◌-◌, ◌*◌, Bool, not, ◌&&◌, ◌==◌}
use package.corestack_50005_htt.Prelude.{if◌then◌else◌, List, [], ◌∷◌, get_or}

-- `TETROMINOES[7][16]`
abbrev pub tetrominoes : List (List ℕ)
tetrominoes =
    (0 ∷ 0 ∷ 0 ∷ 0 ∷ 1 ∷ 1 ∷ 1 ∷ 1 ∷ 0 ∷ 0 ∷ 0 ∷ 0 ∷ 0 ∷ 0 ∷ 0 ∷ 0 ∷ [])
    ∷ (0 ∷ 0 ∷ 0 ∷ 0 ∷ 0 ∷ 1 ∷ 1 ∷ 0 ∷ 0 ∷ 1 ∷ 1 ∷ 0 ∷ 0 ∷ 0 ∷ 0 ∷ 0 ∷ [])
    ∷ (0 ∷ 0 ∷ 0 ∷ 0 ∷ 0 ∷ 1 ∷ 0 ∷ 0 ∷ 1 ∷ 1 ∷ 1 ∷ 0 ∷ 0 ∷ 0 ∷ 0 ∷ 0 ∷ [])
    ∷ (0 ∷ 0 ∷ 0 ∷ 0 ∷ 0 ∷ 0 ∷ 1 ∷ 1 ∷ 0 ∷ 1 ∷ 1 ∷ 0 ∷ 0 ∷ 0 ∷ 0 ∷ 0 ∷ [])
    ∷ (0 ∷ 0 ∷ 0 ∷ 0 ∷ 1 ∷ 1 ∷ 0 ∷ 0 ∷ 0 ∷ 1 ∷ 1 ∷ 0 ∷ 0 ∷ 0 ∷ 0 ∷ 0 ∷ [])
    ∷ (0 ∷ 0 ∷ 0 ∷ 0 ∷ 0 ∷ 0 ∷ 0 ∷ 1 ∷ 0 ∷ 1 ∷ 1 ∷ 1 ∷ 0 ∷ 0 ∷ 0 ∷ 0 ∷ [])
    ∷ (0 ∷ 0 ∷ 0 ∷ 0 ∷ 1 ∷ 0 ∷ 0 ∷ 0 ∷ 1 ∷ 1 ∷ 1 ∷ 0 ∷ 0 ∷ 0 ∷ 0 ∷ 0 ∷ [])
    ∷ []

-- `TETROMINOES[type - 1]`. The C array has no row for type 0 or above 7; here such a row is empty.
pub shape_row : ℕ → List ℕ
shape_row zero = []
shape_row (suc i) = get_or tetrominoes i []

-- `get_rotation_index`, for 0 <= x, y <= 3, where no difference is negative.
pub get_rotation_index : ℕ → ℕ → ℕ → ℕ
get_rotation_index x y rot =
    if rot == 0
    then x + y * 4
    else if rot == 1
    then 12 + y - x * 4
    else if rot == 2
    then 15 - y * 4 - x
    else if rot == 3
    then 3 - y + x * 4
    else 0

-- The test `TETROMINOES[shape_index][cell_index] != 0`.
unfoldable pub solid : ℕ → ℕ → ℕ → ℕ → Bool
unfolding shape_row get_rotation_index
solid type rot px py = not (get_or (shape_row type) (get_rotation_index px py rot) 0 == 0)

-- `get_transition_index`
unfoldable pub get_transition_index : ℕ → ℕ → ℕ
get_transition_index current_rot next_rot =
    if current_rot == 0 && next_rot == 1
    then 0
    else if current_rot == 1 && next_rot == 0
    then 1
    else if current_rot == 1 && next_rot == 2
    then 2
    else if current_rot == 2 && next_rot == 1
    then 3
    else if current_rot == 2 && next_rot == 3
    then 4
    else if current_rot == 3 && next_rot == 2
    then 5
    else if current_rot == 3 && next_rot == 0
    then 6
    else if current_rot == 0 && next_rot == 3
    then 7
    else 0

-- The positions (px, py) of `for (px < 4) for (py < 4)`, in the order of the loops.
abbrev pub box : List (ℕ × ℕ)
box =
    (0, 0)
    ∷ (0, 1)
    ∷ (0, 2)
    ∷ (0, 3)
    ∷ (1, 0)
    ∷ (1, 1)
    ∷ (1, 2)
    ∷ (1, 3)
    ∷ (2, 0)
    ∷ (2, 1)
    ∷ (2, 2)
    ∷ (2, 3)
    ∷ (3, 0)
    ∷ (3, 1)
    ∷ (3, 2)
    ∷ (3, 3)
    ∷ []
