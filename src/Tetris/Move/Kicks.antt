-- ===== src/Tetris/Move/Kicks.antt =====
-- Moves and rotations: what they change, and that they change nothing unless the piece fits.
use corestack_50005_htt.Prelude.{All, take}
use corestack_50005_htt.Prelude.{ℕ, suc, ◌+◌, ◌%◌, ◌≤◌, ◌<◌, ◌≡◌, refl, ◌∙◌, ◌⊎◌, inl, inr}
use corestack_50005_htt.Prelude.{Bool, true, false, Bool-cases, if◌then◌else◌, List, [], ◌∷◌, arith}
use corestack_50005_htt.Prelude.{length, get_or, every_below, every_below_lem, ◌&&◌, sym}
use mathlib.Core.Bool.{false≢true}
use corestack_50005_htt.Prelude.Int.{ℤ, pos, negsuc, ◌+ℤ◌, eqb_ℤ, eq_of_parts}
use corestack_50005_htt.Tetris.State.{GameState}
use corestack_50005_htt.Tetris.Piece.{get_transition_index}
use corestack_50005_htt.Tetris.Board.{is_valid_pos}
use corestack_50005_htt.Tetris.Board.Fits.{Fits, is_valid_pos_iff}
use corestack_50005_htt.Tetris.Move.{moved, piece_fits, move_left, move_right, soft_drop}
use corestack_50005_htt.Tetris.Move.{kick_offsets, try_kicks, test_rotate}
use corestack_50005_htt.Tetris.Move.{rotate_current_piece, rotate_counter_clockwise}

-- `out` is the state `s` with its piece, of the same type, at a place where it fits.
pub record Replaces (s out : GameState) (rot : ℕ) (x y : ℤ) (spun : Bool) : Type 0 where
  pub fits : Fits s.board s.current.type rot x y
  pub result : out ≡ record s {
    current = record { type = s.current.type; rot = rot; x = x; y = y };
    last_action_rotation = spun;
  }

-- The piece goes to (x, y) if it fits there, and nothing changes if it does not.
abbrev pub Moves : GameState → ℤ → ℤ → GameState × Bool → Type 0
Moves s x y (t, done) =
    (done ≡ true) × Replaces s t s.current.rot x y false
    ⊎ (done ≡ false) × (t ≡ s) × ¬ Fits s.board s.current.type s.current.rot x y

move_if :
    (s : GameState) (x y : ℤ)
    → Moves s x y (
        if piece_fits s x y
        then (record (moved s x y) { last_action_rotation = false }, true)
        else (s, false))
move_if s x y =
    let iff = is_valid_pos_iff s s.current.type s.current.rot x y in
    elim (Bool-cases (piece_fits s x y)) [
      | inl e ↦ rw e (inl (refl, record { fits = iff.0 e; result = refl }))
      | inr e ↦ rw e (inr (refl, refl, λ f. false≢true (sym e ∙ iff.1 f)))
    ]

-- `move_left`, `move_right` and `soft_drop` take the piece one column to the left, one to the right
-- and one row down where it fits there, and say so; else they change nothing.
pub moves_lem :
    (s : GameState)
    → Moves s (s.current.x +ℤ negsuc 0) s.current.y (move_left s)
      × Moves s (s.current.x +ℤ pos 1) s.current.y (move_right s)
      × Moves s s.current.x (s.current.y +ℤ pos 1) (soft_drop s)
unfolding move_left move_right soft_drop
moves_lem s = (
  move_if s (s.current.x +ℤ negsuc 0) s.current.y,
  move_if s (s.current.x +ℤ pos 1) s.current.y,
  move_if s s.current.x (s.current.y +ℤ pos 1),
)

-- Whether the piece, in the state `next_rot`, fits under an offset.
abbrev pub kicked : GameState → ℕ → ℤ × ℤ → Bool
kicked s next_rot c =
    is_valid_pos s s.current.type next_rot (s.current.x +ℤ c.0) (s.current.y +ℤ c.1)

-- The first offset under which the piece fits is taken; if there is none, nothing changes.
abbrev pub Rotates : GameState → ℕ → List (ℤ × ℤ) → GameState × Bool → Type 0
Rotates s next_rot l (t, done) =
    ((k : ℕ) × (k < length l)
      × (done ≡ true)
      × Replaces s t next_rot (s.current.x +ℤ (get_or l k (pos 0, pos 0)).0)
          (s.current.y +ℤ (get_or l k (pos 0, pos 0)).1) true
      × All (λ c. kicked s next_rot c ≡ false) (take k l))
    ⊎ (done ≡ false) × (t ≡ s) × All (λ c. kicked s next_rot c ≡ false) l

-- An offset that fails before a list of others.
Rotates-cons :
    (s : GameState) (next_rot : ℕ) (c : ℤ × ℤ) (l : List (ℤ × ℤ)) (out : GameState × Bool)
    → kicked s next_rot c ≡ false
    → Rotates s next_rot l out
    → Rotates s next_rot (c ∷ l) out
Rotates-cons s next_rot c l out e (inl (k, lt, done, r, before)) =
    inl (suc k, omega arith, done, r, (e, before))
Rotates-cons s next_rot c l out e (inr (done, same, none_fits)) = inr (done, same, (e, none_fits))

try_kicks-skip :
    (s : GameState) (next_rot : ℕ) (c : ℤ × ℤ) (l : List (ℤ × ℤ))
    → kicked s next_rot c ≡ false
    → try_kicks s next_rot (c ∷ l) ≡ try_kicks s next_rot l
unfolding try_kicks
try_kicks-skip s next_rot c l e = rw e

try_kicks_lem :
    (s : GameState) (next_rot : ℕ) (l : List (ℤ × ℤ))
    → Rotates s next_rot l (try_kicks s next_rot l)
unfolding try_kicks
try_kicks_lem s next_rot [] = inr (refl, refl, tt)
try_kicks_lem s next_rot (c ∷ l) = elim (Bool-cases (kicked s next_rot c)) [
  | inl e ↦ rw e (
      inl (
        0,
        omega arith,
        refl,
        record { fits = (is_valid_pos_iff s s.current.type next_rot _ _).0 e; result = refl },
        tt,
      ))
  | inr e ↦
      rw (try_kicks-skip s next_rot c l e)
        (Rotates-cons s next_rot c l (try_kicks s next_rot l) e (try_kicks_lem s next_rot l))
]

-- `test_rotate` puts the piece in the new rotation state under the first of the five kicks of its
-- type and transition with which it fits, or changes nothing where there is none; so do the two
-- rotations, to the state one step further and three steps further.
pub rotates_lem :
    (s : GameState) (next_rot : ℕ)
    → let kicks = λ (r : ℕ). kick_offsets s.current.type (get_transition_index s.current.rot r) in
      let cw = (s.current.rot + 1) % 4 in
      let ccw = (s.current.rot + 3) % 4 in
      Rotates s next_rot (kicks next_rot) (test_rotate s next_rot)
      × Rotates s cw (kicks cw) (rotate_current_piece s, (test_rotate s cw).1)
      × Rotates s ccw (kicks ccw) (rotate_counter_clockwise s, (test_rotate s ccw).1)
unfolding test_rotate rotate_current_piece rotate_counter_clockwise
rotates_lem s next_rot = (try_kicks_lem s next_rot _, try_kicks_lem s _ _, try_kicks_lem s _ _)

-- The table entry of the rotation from `rot` to `to`, at the test `i`.
abbrev pub kick : ℕ → ℕ → ℕ → ℕ → ℤ × ℤ
kick type rot to i = get_or (kick_offsets type (get_transition_index rot to)) i (pos 0, pos 1)

cancels : ℤ × ℤ → ℤ × ℤ → Bool
cancels (dx, dy) (ex, ey) = eqb_ℤ (dx +ℤ ex) (pos 0) && eqb_ℤ (dy +ℤ ey) (pos 0)

eqb_pair : (a b : ℤ) → (eqb_ℤ a (pos 0) && eqb_ℤ b (pos 0)) ≡ true → (a ≡ pos 0) × (b ≡ pos 0)
eqb_pair a b h = (eq_of_parts a (pos 0) (ground arith), eq_of_parts b (pos 0) (ground arith))

-- Whether the kicks of a type from a rotation state, and those back, cancel each other.
abbrev kicks_cancel : ℕ → ℕ → Bool
kicks_cancel type rot =
    every_below (λ i. cancels (kick type rot ((rot + 1) % 4) i) (kick type ((rot + 1) % 4) rot i)) 5

kick_table : every_below (λ type. every_below (kicks_cancel type) 4) 8 ≡ true
unfolding every_below cancels kick_offsets get_transition_index ◌+ℤ◌
kick_table = refl

-- For each type and rotation state, each of the five kicks of the clockwise rotation is undone by the
-- kick at the same place of the rotation back.
pub kick_inverse :
    (type rot i : ℕ)
    → type ≤ 7
    → rot < 4
    → i < 5
    → let (dx, dy) = kick type rot ((rot + 1) % 4) i in
      let (ex, ey) = kick type ((rot + 1) % 4) rot i in (dx +ℤ ex ≡ pos 0) × (dy +ℤ ey ≡ pos 0)
unfolding cancels
kick_inverse type rot i ht hr hi =
    let both : kicks_cancel type rot ≡ true =
      every_below_lem (kicks_cancel type) 4 rot hr
        (every_below_lem (λ t. every_below (kicks_cancel t) 4) 8 type (omega arith) kick_table) in
    eqb_pair _ _ (
      every_below_lem
        (λ k. cancels (kick type rot ((rot + 1) % 4) k) (kick type ((rot + 1) % 4) rot k)) 5 i hi
        both)
