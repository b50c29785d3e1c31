-- ===== src/Tetris/Board/Clear.antt =====
-- `clear_lines` against its meaning: the full rows are taken out, the others fall in their order,
-- and as many empty rows come in at the top.
use corestack_50005_htt.Prelude.{
  ℕ, zero, suc, ◌+◌, ◌*◌, ◌/◌, ◌≤◌, ◌<◌, ◌≡◌, refl, ap, ap₂, subst, ◌∙◌,
}
use native.Mathlib.Nat.{zero-add}
use corestack_50005_htt.Prelude.{true, false, Bool-cases, inl, inr, ltb, if◌then◌else◌, arith}
use corestack_50005_htt.Prelude.{[], ◌∷◌, ◌++◌, length, get_or, set, replicate, append_assoc}
use corestack_50005_htt.Prelude.{get_or-append_mid, set-append_next}
use corestack_50005_htt.Prelude.{replicate_shift, snoc_view, append-nil}
use corestack_50005_htt.Tetris.State.{Row, Board, GameState, board_height}
use corestack_50005_htt.Tetris.Board.{is_full, empty_row, shift_rows, clear_loop, clear_lines}

-- The number of full rows, and the rows that are not full.
abbrev pub full_count : Board → ℕ
full_count [] = 0
full_count (r ∷ b) = (if is_full r then 1 else 0) + full_count b

abbrev pub keep : Board → Board
keep [] = []
keep (r ∷ b) = if is_full r then keep b else r ∷ keep b

full_count-append : (a b : Board) → full_count (a ++ b) ≡ full_count a + full_count b
full_count-append [] b = omega arith
full_count-append (r ∷ a) b = omega (arith, full_count-append a b)

keep-append : (a b : Board) → keep (a ++ b) ≡ keep a ++ keep b
keep-append [] b = refl
keep-append (r ∷ a) b = elim (Bool-cases (is_full r)) [
  | inl e ↦ rw e (keep-append a b)
  | inr e ↦ rw e (ap (λ l. r ∷ l) (keep-append a b))
]

-- The copying loop and the reset of row 0 take one row out and put `e` on top.
shift_rows_lem :
    (n : ℕ) (t : Board) (r e : Row) (d : Board)
    → length t ≡ n
    → set (shift_rows n (t ++ r ∷ d)) 0 e ≡ e ∷ t ++ d
unfolding shift_rows
shift_rows_lem zero [] r e d h = refl
shift_rows_lem zero (a ∷ t) r e d h = absurd (omega arith)
shift_rows_lem (suc m) t r e d h =
    let (t', a, split, len) = snoc_view m t h in
    let up : get_or (t' ++ a ∷ r ∷ d) m [] ≡ a = rw (← len) (get_or-append_mid t' a (r ∷ d) []) in
    let down : set (t' ++ a ∷ r ∷ d) (suc m) a ≡ t' ++ a ∷ a ∷ d =
      rw (← len) (set-append_next t' a r a d) in
    rw (split, append_assoc t' (a ∷ []) (r ∷ d), append_assoc t' (a ∷ []) d, up, down)
      (shift_rows_lem m t' a e (a ∷ d) len)

clear_loop-full :
    (fuel y : ℕ) (b : Board) (lines : ℕ)
    → is_full (get_or b y []) ≡ true
    → clear_loop (suc fuel) (suc y) b lines
      ≡ clear_loop fuel (suc y) (set (shift_rows y b) 0 empty_row) (lines + 1)
unfolding clear_loop
clear_loop-full fuel y b lines e = rw e

clear_loop-skip :
    (fuel y : ℕ) (b : Board) (lines : ℕ)
    → is_full (get_or b y []) ≡ false
    → clear_loop (suc fuel) (suc y) b lines ≡ clear_loop fuel y b lines
unfolding clear_loop
clear_loop-skip fuel y b lines e = rw e

-- What the loop has done when it reaches row 0, from a board whose upper part is `t`.
abbrev Cleared : Board → Board → ℕ → Board × ℕ
Cleared t d lines = (replicate (full_count t) empty_row ++ (keep t ++ d), lines + full_count t)

Cleared-counts :
    (b : Board) (k k' m m' : ℕ)
    → k ≡ k'
    → m ≡ m'
    → ◌≡◌ {A = Board × ℕ} (replicate k empty_row ++ b, m) (replicate k' empty_row ++ b, m')
Cleared-counts b k k' m m' p q = rw (p, q)

is_full-empty_row : is_full empty_row ≡ false
unfolding is_full
is_full-empty_row = refl

Cleared-full :
    (t d : Board) (r : Row) (lines : ℕ)
    → is_full r ≡ true
    → Cleared (empty_row ∷ t) d (lines + 1) ≡ Cleared (t ++ r ∷ []) d lines
Cleared-full t d r lines e =
    rw
      (
        is_full-empty_row,
        full_count-append t (r ∷ []),
        keep-append t (r ∷ []),
        e,
        append-nil (keep t),
        replicate_shift,
      )
      (Cleared-counts (keep t ++ d) (suc (0 + full_count t)) (full_count t + 1)
        (lines + 1 + (0 + full_count t)) (lines + (full_count t + 1)) (omega arith) (omega arith))

Cleared-skip :
    (t d : Board) (r : Row) (lines : ℕ)
    → is_full r ≡ false
    → Cleared t (r ∷ d) lines ≡ Cleared (t ++ r ∷ []) d lines
Cleared-skip t d r lines e =
    rw (full_count-append t (r ∷ []), keep-append t (r ∷ []), e, append_assoc (keep t) (r ∷ []) d)
      (Cleared-counts (keep t ++ r ∷ d) (full_count t) (full_count t + 0) (lines + full_count t)
        (lines + (full_count t + 0)) (omega arith) (omega arith))

clear_loop_lem :
    (fuel n : ℕ) (t d : Board) (lines : ℕ)
    → length t ≡ n
    → n + full_count t < fuel
    → clear_loop fuel n (t ++ d) lines ≡ Cleared t d lines
unfolding clear_loop
clear_loop_lem zero n t d lines h f = absurd (omega arith)
clear_loop_lem (suc fuel) zero [] d lines h f = ap (λ k. (d, k)) (omega arith)
clear_loop_lem (suc fuel) zero (r ∷ t) d lines h f = absurd (omega arith)
clear_loop_lem (suc fuel) (suc y) t d lines h f =
    let (t', r, split, len) = snoc_view y t h in
    let row : get_or (t' ++ r ∷ d) y [] ≡ r = rw (← len) (get_or-append_mid t' r d []) in
    let count : full_count t ≡ full_count t' + full_count (r ∷ []) =
      rw split (full_count-append t' (r ∷ [])) in
    rw (split, append_assoc t' (r ∷ []) d)
      (elim (Bool-cases (is_full r)) [
        | inl e ↦
            clear_loop-full fuel y (t' ++ r ∷ d) lines (rw row e)
            ∙ rw (shift_rows_lem y t' r empty_row d len) (
                clear_loop_lem fuel (suc y) (empty_row ∷ t') d (lines + 1) (omega arith)
                  (ground (arith, is_full-empty_row)))
            ∙ Cleared-full t' d r lines e
        | inr e ↦
            clear_loop-skip fuel y (t' ++ r ∷ d) lines (rw row e)
            ∙ clear_loop_lem fuel y t' (r ∷ d) lines len (ground arith)
            ∙ Cleared-skip t' d r lines e
      ])

full_count-le-length : (b : Board) → full_count b ≤ length b
full_count-le-length [] = omega arith
full_count-le-length (r ∷ b) = ground (arith, full_count-le-length b)

-- The fuel of `clear_lines` is enough.
clear_loop_run :
    (b : Board)
    → length b ≡ board_height
    → clear_loop (2 * board_height + 1) board_height b 0
      ≡ (replicate (full_count b) empty_row ++ keep b, full_count b)
clear_loop_run b h =
    subst (λ u. clear_loop 41 20 u 0 ≡ (replicate (full_count b) empty_row ++ keep b, full_count b))
      (append-nil b)
      (clear_loop_lem 41 20 b [] 0 h (omega (arith, full_count-le-length b))
        ∙ ap₂ {B = ℕ} {C = Board × ℕ} (λ u k. (replicate (full_count b) empty_row ++ u, k))
            (append-nil (keep b)) (zero-add (full_count b)))

-- On a board of the right height `clear_lines` leaves the rows that are not full, in their order,
-- under as many empty rows as there were full ones, and returns the number of full rows; for that
-- number above 0 it adds it to the line count, 100 for each to the score, and sets the level to a
-- tenth of the new line count plus one; for 0 it changes none of the three.
pub clear_lines_lem :
    (s : GameState)
    → length s.board ≡ board_height
    → let (s', lines) = clear_lines s in
      (lines ≡ full_count s.board)
      × (s'.board ≡ replicate (full_count s.board) empty_row ++ keep s.board)
      × (s'.lines_cleared ≡ s.lines_cleared + lines)
      × (s'.score ≡ s.score + lines * 100)
      × (s'.level ≡ (if ltb 0 lines then s'.lines_cleared / 10 + 1 else s.level))
unfolding clear_lines
clear_lines_lem s h = ground (arith, clear_loop_run s.board h)

-- `clear_lines` changes the board, the line count, the score and the level.
pub clear_frame :
    (s : GameState)
    → let s' = (clear_lines s).0 in
      s' ≡ record s {
        board = s'.board;
        lines_cleared = s'.lines_cleared;
        score = s'.score;
        level = s'.level;
      }
unfolding clear_lines
clear_frame s =
    elim (Bool-cases (ltb 0 (clear_loop (2 * board_height + 1) board_height s.board 0).1)) [
      | inl e ↦ rw e refl
      | inr e ↦ rw e refl
    ]
