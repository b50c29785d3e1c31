-- ===== src/Tetris/Garbage/Rise.antt =====
-- `add_garbage` and `queue_garbage` against their meaning.
use corestack_50005_htt.Prelude.{
  ℕ, zero, suc, ◌+◌, ◌-◌, ◌*◌, ◌%◌, ◌≤◌, ◌<◌, ◌≡◌, refl, ap, ◌∙◌, min,
}
use corestack_50005_htt.Prelude.{true, [], ◌∷◌, ◌++◌, length, drop, arith, append_assoc}
use corestack_50005_htt.Prelude.{Draws, copy_ahead, copy_ahead_lem, length-append, length-drop}
use corestack_50005_htt.Prelude.{set_next, if◌then◌else◌}
use corestack_50005_htt.Prelude.{All, All-append, All-drop, ltb, Bool-cases, inl, inr, ◌^◌}
use corestack_50005_htt.Prelude.Int.{ℤ, pos, negsuc, ltb_ℤ}
use corestack_50005_htt.Tetris.State.{board_width, board_height, Board, GameState}
use corestack_50005_htt.Tetris.Garbage.{garbage_row, fill_garbage, add_garbage, queue_garbage}
use corestack_50005_htt.Tetris.Board.Wf.{IsRow, IsBoard, IsCell, filled, filled_row}

-- The garbage rows that the next `n` draws give, from the top down.
abbrev pub garbage_rows : ℕ → Draws → Board
garbage_rows zero d = []
garbage_rows (suc n) d =
    garbage_row board_width 0 (d 0 % board_width) ∷ garbage_rows n (λ k. d (suc k))

fill_garbage_lem :
    (n y : ℕ) (p q : Board) (d : Draws)
    → length p ≡ y
    → length q ≡ n
    → (fill_garbage n y (p ++ q) d).0 ≡ p ++ garbage_rows n d
unfolding fill_garbage
fill_garbage_lem zero y p [] d hp hq = refl
fill_garbage_lem zero y p (r ∷ q) d hp hq = absurd (omega arith)
fill_garbage_lem (suc n) y p [] d hp hq = absurd (omega arith)
fill_garbage_lem (suc n) y p (r ∷ q) d hp hq =
    let row = garbage_row board_width 0 (d 0 % board_width) in
    ap (λ u. (fill_garbage n (y + 1) u (λ k. d (suc k))).0) (set_next [] p r row q y (omega arith))
    ∙ fill_garbage_lem n (y + 1) (p ++ row ∷ []) q (λ k. d (suc k))
        (omega (arith, length-append p (row ∷ []))) (omega arith)
    ∙ append_assoc p (row ∷ []) (garbage_rows n (λ k. d (suc k)))

-- The two loops for `suc off` lines, no more than the board is high.
rise_lem :
    (off : ℕ) (b : Board) (d : Draws)
    → length b ≡ board_height
    → suc off ≤ board_height
    → (fill_garbage
        (suc off)
        (board_height - suc off)
        (copy_ahead [] (board_height - suc off) 0 (suc off) b)
        d).0
      ≡ drop (suc off) b ++ garbage_rows (suc off) d
rise_lem off b d h le =
    rw (copy_ahead_lem [] (board_height - suc off) 0 off [] b refl (omega arith)) (
      fill_garbage_lem (suc off) (board_height - suc off) (drop (suc off) b)
        (drop (board_height - suc off) b) d (omega (arith, length-drop (suc off) b))
        (omega (arith, length-drop (board_height - suc off) b)))

-- For a positive number of lines, capped at the height of the board, `add_garbage` drops that many
-- rows at the top, moves the others up in their order and puts the garbage rows of the next draws
-- under them.
pub add_garbage_lem :
    (s : GameState) (lines : ℕ) (d : Draws)
    → length s.board ≡ board_height
    → 1 ≤ lines
    → (add_garbage s (pos lines) d).0.board
      ≡ drop (min lines board_height) s.board ++ garbage_rows (min lines board_height) d
unfolding add_garbage
add_garbage_lem s zero d h h1 = absurd (omega arith)
add_garbage_lem s (suc off) d h h1 =
    let test : ltb_ℤ (pos 0) (pos (suc off)) ≡ true = ground arith in
    elim (Bool-cases (ltb board_height (suc off))) [
      | inl e ↦
          let cap : min (suc off) board_height ≡ board_height = ground arith in
          rw (test, e, cap) (rise_lem 19 s.board d h (omega arith))
      | inr e ↦
          let cap : min (suc off) board_height ≡ suc off = ground arith in
          rw (test, e, cap) (rise_lem off s.board d h (ground arith))
    ]

add_garbage-zero : (s : GameState) (d : Draws) → add_garbage s (pos 0) d ≡ (s, d)
unfolding add_garbage
add_garbage-zero s d = refl

-- No lines or a negative number: nothing changes and nothing is drawn.
pub add_garbage-none : (s : GameState) (n : ℕ) (d : Draws) → add_garbage s (negsuc n) d ≡ (s, d)
unfolding add_garbage
add_garbage-none s n d = ground arith

garbage_row_lem :
    (n x hole : ℕ)
    → (length (garbage_row n x hole) ≡ n)
      × All IsCell (garbage_row n x hole)
      × (filled_row (garbage_row n x hole)
            + (if ltb hole x then 0 else if ltb hole (x + n) then 1 else 0)
          ≡ n)
unfolding garbage_row
garbage_row_lem zero x hole = (refl, tt, ground arith)
garbage_row_lem (suc n) x hole =
    let (len, cells, tiles) = garbage_row_lem n (x + 1) hole in
    (ap suc len, (ground arith, cells), ground arith)

All-garbage_rows : (n : ℕ) (d : Draws) → All IsRow (garbage_rows n d)
All-garbage_rows zero d = tt
All-garbage_rows (suc n) d =
    let (len, cells, _) = garbage_row_lem board_width 0 (d 0 % board_width) in
    ((len, cells), All-garbage_rows n (λ k. d (suc k)))

length-garbage_rows : (n : ℕ) (d : Draws) → length (garbage_rows n d) ≡ n
length-garbage_rows zero d = refl
length-garbage_rows (suc n) d = ap suc (length-garbage_rows n (λ k. d (suc k)))

-- Each garbage row has nine tiles.
pub filled-garbage_rows : (n : ℕ) (d : Draws) → filled (garbage_rows n d) ≡ 9 * n
filled-garbage_rows zero d = refl
filled-garbage_rows (suc n) d =
    let (_, _, tiles) = garbage_row_lem board_width 0 (d 0 % board_width) in
    ground (arith, filled-garbage_rows n (λ k. d (suc k)))

-- `add_garbage` keeps the shape of the board, for every number of lines and every draw.
pub add_garbage-IsBoard :
    (s : GameState) (lines : ℤ) (d : Draws)
    → IsBoard s.board
    → IsBoard (add_garbage s lines d).0.board
add_garbage-IsBoard s (negsuc n) d w = rw (add_garbage-none s n d) w
add_garbage-IsBoard s (pos zero) d w = rw (add_garbage-zero s d) w
add_garbage-IsBoard s (pos (suc k)) d w =
    let n = min (suc k) board_height in
    rw (add_garbage_lem s (suc k) d w.height (omega arith)) (record {
      height = omega (
        arith,
        length-append (drop n s.board) (garbage_rows n d),
        length-drop n s.board,
        length-garbage_rows n d,
        w.height,
      );
      rows =
          All-append IsRow (drop n s.board) (garbage_rows n d) (All-drop IsRow n s.board w.rows)
            (All-garbage_rows n d);
    })

-- `queue_garbage` keeps the pending garbage within the height of the board, never lowers it, and
-- below that cap adds the lines exactly, for a `uint32_t` that cannot wrap.
pub queue_garbage_lem :
    (s : GameState) (lines : ℕ)
    → s.pending_garbage ≤ board_height
    → lines < 2 ^ 31
    → (queue_garbage s (pos lines)).pending_garbage ≡ min (s.pending_garbage + lines) board_height
unfolding queue_garbage
queue_garbage_lem s lines h hl = ground arith
