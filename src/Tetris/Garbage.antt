-- ===== src/Tetris/Garbage.antt =====
-- libtetrisbrain/garbage.c: garbage rows, the queue of pending garbage, and the attack table.
pub mod Rise
pub mod Attack
use package.corestack_50005_htt.Prelude.{ℕ, zero, suc, ◌+◌, ◌-◌, ◌*◌, ◌%◌, ◌^◌, Bool, true, false}
use package.corestack_50005_htt.Prelude.{◌&&◌, ◌||◌, ◌==◌, ltb, if◌then◌else◌, List, [], ◌∷◌, not}
use package.corestack_50005_htt.Prelude.{get_or, set, copy_ahead, Draws, rand}
use package.corestack_50005_htt.Prelude.Int.{ℤ, pos, negsuc, pos_part, ◌+ℤ◌, ltb_ℤ}
use package.corestack_50005_htt.Tetris.State.{board_width, board_height, Row, Board, GameState}

-- The loop over one garbage row: a gap in the column `hole`, tile 8 elsewhere; `n` columns left.
pub garbage_row : ℕ → ℕ → ℕ → Row
garbage_row zero x hole = []
garbage_row (suc n) x hole = (if x == hole then 0 else 8) ∷ garbage_row n (x + 1) hole

-- The second loop of `add_garbage`: one draw and one row for each row left, from row `y` down.
pub fill_garbage : ℕ → ℕ → Board → Draws → Board × Draws
fill_garbage zero y b d = (b, d)
fill_garbage (suc n) y b d =
    let (r, d') = rand d in
    fill_garbage n (y + 1) (set b y (garbage_row board_width 0 (r % board_width))) d'

-- `add_garbage`, where `lines` is an `int`.
unfoldable pub add_garbage : GameState → ℤ → Draws → GameState × Draws
add_garbage s lines d =
    if not (ltb_ℤ (pos 0) lines)
    then (s, d)
    else let n = if ltb board_height (pos_part lines) then board_height else pos_part lines in
      let risen = copy_ahead [] (board_height - n) 0 n s.board in
      let (b, d') = fill_garbage n (board_height - n) risen d in (record s { board = b }, d')

-- `queue_garbage` on a state that is there; the sum is a `uint32_t`.
unfoldable pub queue_garbage : GameState → ℤ → GameState
queue_garbage s lines =
    if not (ltb_ℤ (pos 0) lines)
    then s
    else let pending = (s.pending_garbage + pos_part lines) % 2 ^ 32 in
      record s { pending_garbage = if ltb board_height pending then board_height else pending }

-- `COMBO_TABLE`
abbrev pub combo_table : List ℕ
combo_table = 0 ∷ 0 ∷ 1 ∷ 1 ∷ 2 ∷ 2 ∷ 3 ∷ 3 ∷ 4 ∷ 4 ∷ 4 ∷ 5 ∷ []

pub base_garbage : ℕ → Bool → ℕ
base_garbage lines_cleared is_t_spin =
    if is_t_spin
    then (if ltb 0 lines_cleared then lines_cleared * 2 else 0)
    else if lines_cleared == 2
    then 1
    else if lines_cleared == 3
    then 3
    else if lines_cleared == 4
    then 4
    else 0

pub combo_bonus : ℤ → ℕ
combo_bonus combo =
    if ltb_ℤ (pos 0) combo
    then (if ltb_ℤ combo (pos 12) then get_or combo_table (pos_part combo) 0 else 5)
    else 0

-- `calculate_garbage`: the new state and the damage.
unfoldable pub calculate_garbage : GameState → ℕ → Bool → GameState × ℕ
calculate_garbage s lines_cleared is_t_spin =
    if lines_cleared == 0
    then (record s { combo = negsuc 0 }, 0)
    else let combo = s.combo +ℤ pos 1 in
      let is_difficult_clear = is_t_spin || lines_cleared == 4 in
      let base = base_garbage lines_cleared is_t_spin in
      let bonus = if is_difficult_clear && s.b2b then 1 else 0 in
      (record s { combo = combo; b2b = is_difficult_clear }, base + bonus + combo_bonus combo)
