-- ===== src/Tetris/Bag.antt =====
-- libtetrisbrain/bag.c: the 7-bag. Each function takes the draws of `rand()` that are to come, and
-- returns those that it leaves.
pub mod Fair
use package.corestack_50005_htt.Prelude.{ℕ, zero, suc, ◌+◌, ◌-◌, ◌/◌, ◌%◌, Bool, false, leb}
use package.corestack_50005_htt.Prelude.{if◌then◌else◌, List, [], ◌∷◌, get_or, set, Draws, rand}
use package.corestack_50005_htt.Prelude.{copy_ahead, copy_into}
use package.corestack_50005_htt.Prelude.Int.{ℤ, pos, negsuc}
use package.corestack_50005_htt.Tetris.State.{GameState, Piece, board_width}

-- `temp = array[i]; array[i] = array[j]; array[j] = temp`
abbrev pub swap : List ℕ → ℕ → ℕ → List ℕ
swap array i j = set (set array i (get_or array j 0)) j (get_or array i 0)

-- The loop of `shuffle_array`, from the index `i` down to 1.
pub shuffle_from : ℕ → List ℕ → Draws → List ℕ × Draws
shuffle_from zero array d = (array, d)
shuffle_from (suc i) array d =
    let (r, d') = rand d in let j = r % (suc i + 1) in shuffle_from i (swap array (suc i) j) d'

pub shuffle_array : List ℕ → ℕ → Draws → List ℕ × Draws
shuffle_array array size d = shuffle_from (size - 1) array d

-- `{1, 2, 3, 4, 5, 6, 7}`
abbrev pub kinds : List ℕ
kinds = 1 ∷ 2 ∷ 3 ∷ 4 ∷ 5 ∷ 6 ∷ 7 ∷ []

unfoldable pub refill_bag : GameState → Draws → GameState × Draws
refill_bag s d =
    let (new_bag, d') = shuffle_array kinds 7 d in
    (record s { bag = copy_into 0 7 0 7 new_bag (copy_ahead 0 7 0 7 s.bag); bag_index = 0 }, d')

-- (BOARD_WIDTH / 2) - 2, and -2.
abbrev pub spawn_x : ℤ
spawn_x = pos (board_width / 2 - 2)

abbrev pub spawn_y : ℤ
spawn_y = negsuc 1

unfoldable pub spawn_new_piece : GameState → Draws → GameState × Draws
spawn_new_piece s d =
    let kind = get_or s.bag s.bag_index 0 in
    let drawn = record s { bag_index = s.bag_index + 1 } in
    let (topped, d') = if leb 7 (s.bag_index + 1) then refill_bag drawn d else (drawn, d) in
    (
      record topped {
        current = record { type = kind; rot = 0; x = spawn_x; y = spawn_y };
        has_held = false;
      },
      d',
    )
