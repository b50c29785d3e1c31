-- ===== src/Tetris/Move/Drop.antt =====
-- `hard_drop` ends, and takes the piece down to the first place below which it does not fit.
use corestack_50005_htt.Prelude.{ℕ, zero, suc, ◌+◌, ◌≤◌, ◌<◌, ◌≡◌, refl, subst, true}
use corestack_50005_htt.Prelude.{false, Bool-cases, inl, inr, arith}
use corestack_50005_htt.Prelude.Int.{ℤ, pos, neg_part, pos_part, ◌+ℤ◌, ◌<ℤ◌, +ℤ_parts, eq_of_parts}
use corestack_50005_htt.Tetris.State.{GameState, board_height}
use corestack_50005_htt.Tetris.Board.{is_valid_pos}
use corestack_50005_htt.Tetris.Board.Fits.{is_valid_pos_iff, Fits-above_floor}
use corestack_50005_htt.Tetris.Move.{moved, piece_fits, drop_loop, hard_drop}

-- The result of a fall from `s`: the rows, the place, no room below it, and room on the way.
pub record Falls (s : GameState) (rows : ℕ) (out : GameState × ℕ) : Type 0 where
  pub fallen : ℕ
  pub count : out.1 ≡ rows + fallen
  pub place : out.0 ≡ moved s s.current.x (s.current.y +ℤ pos fallen)
  pub stop : piece_fits s s.current.x (s.current.y +ℤ pos fallen +ℤ pos 1) ≡ false
  pub way : (j : ℕ) → 1 ≤ j → j ≤ fallen → piece_fits s s.current.x (s.current.y +ℤ pos j) ≡ true

+ℤ-pos_zero : (y : ℤ) → y +ℤ pos 0 ≡ y
+ℤ-pos_zero y = eq_of_parts _ _ (omega (arith, +ℤ_parts y (pos 0)))

+ℤ-pos_pos : (y : ℤ) (a b c : ℕ) → a + b ≡ c → y +ℤ pos a +ℤ pos b ≡ y +ℤ pos c
+ℤ-pos_pos y a b c h =
    eq_of_parts _ _
      (omega (arith, +ℤ_parts y (pos a), +ℤ_parts (y +ℤ pos a) (pos b), +ℤ_parts y (pos c)))

-- Nothing fits with the top of its box at the floor or below.
below_floor :
    (s : GameState) (y : ℤ)
    → 1 ≤ s.current.type
    → s.current.type ≤ 7
    → s.current.rot < 4
    → piece_fits s s.current.x y ≡ true
    → y <ℤ pos board_height
below_floor s y h1 h7 hr e =
    Fits-above_floor s.board s.current.type s.current.rot s.current.x y h1 h7 hr
      ((is_valid_pos_iff s s.current.type s.current.rot s.current.x y).0 e)

-- No fall at all.
Falls-none :
    (s : GameState) (rows : ℕ)
    → piece_fits s s.current.x (s.current.y +ℤ pos 1) ≡ false
    → Falls s rows (s, rows)
Falls-none s rows e = record {
  fallen = 0;
  count = omega arith;
  place = rw (+ℤ-pos_zero s.current.y) refl;
  stop = rw (+ℤ-pos_zero s.current.y) e;
  way = λ j h1 h0. absurd (omega arith);
}

-- One row, and then the fall from there.
Falls-next :
    (s : GameState) (rows : ℕ) (out : GameState × ℕ)
    → piece_fits s s.current.x (s.current.y +ℤ pos 1) ≡ true
    → Falls (moved s s.current.x (s.current.y +ℤ pos 1)) (rows + 1) out
    → Falls s rows out
unfolding is_valid_pos
Falls-next s rows out e f =
    let step = +ℤ-pos_pos s.current.y 1 f.fallen (suc f.fallen) (omega arith) in
    record {
      fallen = suc f.fallen;
      count = omega (arith, f.count);
      place = subst (λ y. out.0 ≡ moved s s.current.x y) step f.place;
      stop = subst (λ y. piece_fits s s.current.x (y +ℤ pos 1) ≡ false) step f.stop;
      way = way;
    }
  where
    way :
        (j : ℕ) → 1 ≤ j → j ≤ suc f.fallen → piece_fits s s.current.x (s.current.y +ℤ pos j) ≡ true
    way zero h1 h = absurd (omega arith)
    way (suc zero) h1 h = e
    way (suc (suc j)) h1 h =
        subst (λ y. piece_fits s s.current.x y ≡ true)
          (+ℤ-pos_pos s.current.y 1 (suc j) (suc (suc j)) (omega arith))
          (f.way (suc j) (omega arith) (omega arith))

drop_loop_lem :
    (fuel : ℕ) (s : GameState) (rows : ℕ)
    → 1 ≤ s.current.type
    → s.current.type ≤ 7
    → s.current.rot < 4
    → neg_part s.current.y + board_height < fuel + pos_part s.current.y
    → Falls s rows (drop_loop fuel s rows)
unfolding drop_loop
drop_loop_lem zero s rows h1 h7 hr m =
    elim (Bool-cases (piece_fits s s.current.x (s.current.y +ℤ pos 1))) [
      | inl e ↦ absurd (
          omega
            (arith, below_floor s (s.current.y +ℤ pos 1) h1 h7 hr e, +ℤ_parts s.current.y (pos 1)))
      | inr e ↦ Falls-none s rows e
    ]
drop_loop_lem (suc fuel) s rows h1 h7 hr m =
    elim (Bool-cases (piece_fits s s.current.x (s.current.y +ℤ pos 1))) [
      | inl e ↦ rw e (
          Falls-next s rows _ e (
            drop_loop_lem fuel (moved s s.current.x (s.current.y +ℤ pos 1)) (rows + 1) h1 h7 hr
              (omega (arith, +ℤ_parts s.current.y (pos 1)))))
      | inr e ↦ rw e (Falls-none s rows e)
    ]

hard_drop-Falls :
    (s : GameState)
    → 1 ≤ s.current.type
    → s.current.type ≤ 7
    → s.current.rot < 4
    → Falls s 0 (hard_drop s)
unfolding hard_drop
hard_drop-Falls s h1 h7 hr =
    drop_loop_lem (neg_part s.current.y + board_height + 1) s 0 h1 h7 hr (omega arith)

-- For each of the seven pieces `hard_drop` ends: it lowers the piece by the number of rows that it
-- returns, changes nothing else, and stops where the piece does not fit one row lower.
pub hard_drop_lem :
    (s : GameState)
    → 1 ≤ s.current.type
    → s.current.type ≤ 7
    → s.current.rot < 4
    → let (s', rows) = hard_drop s in
      (s' ≡ moved s s.current.x (s.current.y +ℤ pos rows))
      × (piece_fits s s.current.x (s.current.y +ℤ pos rows +ℤ pos 1) ≡ false)
hard_drop_lem s h1 h7 hr =
    let f = hard_drop-Falls s h1 h7 hr in
    let rows : (hard_drop s).1 ≡ f.fallen = omega (arith, f.count) in rw rows (f.place, f.stop)

-- One of the seven pieces fits at every row that `hard_drop` passes, the last included.
pub hard_drop_way :
    (s : GameState) (j : ℕ)
    → 1 ≤ s.current.type
    → s.current.type ≤ 7
    → s.current.rot < 4
    → 1 ≤ j
    → j ≤ (hard_drop s).1
    → piece_fits s s.current.x (s.current.y +ℤ pos j) ≡ true
unfolding is_valid_pos
hard_drop_way s j h1 h7 hr h l =
    let f = hard_drop-Falls s h1 h7 hr in f.way j h (omega (arith, f.count))
