-- ===== src/Tetris/Board/Fits.antt =====
-- `is_valid_pos` against its meaning.
use corestack_50005_htt.Prelude.{ℕ, ◌<◌, ◌≤◌, ◌≡◌, refl, ◌↔◌, true, false, List, [], ◌∷◌, arith}
use corestack_50005_htt.Prelude.{All, Bool-cases, inl, inr}
use corestack_50005_htt.Prelude.Int.{ℤ, pos, pos_part, ◌+ℤ◌, ◌≤ℤ◌, ◌<ℤ◌, +ℤ_parts}
use corestack_50005_htt.Tetris.State.{Board, GameState, board_width, board_height, cell_at}
use corestack_50005_htt.Tetris.Piece.{solid, box}
use corestack_50005_htt.Tetris.Piece.Rotation.{box-All, All-box, solid-elim, count_solid-box}
use corestack_50005_htt.Tetris.Board.{cell_fits, cells_fit, is_valid_pos}

-- The solid cells of a piece at (x, y) lie between the side walls and above the floor, and those
-- that are not above the top of the board lie on empty cells.
abbrev pub FitsAt : Board → ℕ → ℕ → ℤ → ℤ → ℕ × ℕ → Type 0
FitsAt b type rot x y (px, py) =
    solid type rot px py ≡ true
    → (pos 0 ≤ℤ x +ℤ pos px)
      × (x +ℤ pos px <ℤ pos board_width)
      × (y +ℤ pos py <ℤ pos board_height)
      × (pos 0 ≤ℤ y +ℤ pos py → cell_at b (pos_part (y +ℤ pos py)) (pos_part (x +ℤ pos px)) ≡ 0)

pub record Fits (b : Board) (type rot : ℕ) (x y : ℤ) : Type 0 where
  pub at : (px py : ℕ) → px < 4 → py < 4 → FitsAt b type rot x y (px, py)

module _ (b : Board) (type rot : ℕ) (x y : ℤ) where
  cell_fits_sound : (c : ℕ × ℕ) → cell_fits b type rot x y c ≡ true → FitsAt b type rot x y c
  unfolding cell_fits
  cell_fits_sound (px, py) h s = ground arith

  cell_fits_complete : (c : ℕ × ℕ) → FitsAt b type rot x y c → cell_fits b type rot x y c ≡ true
  unfolding cell_fits
  cell_fits_complete (px, py) h = ground arith

  cells_fit_sound :
      (cs : List (ℕ × ℕ)) → cells_fit b type rot x y cs ≡ true → All (FitsAt b type rot x y) cs
  unfolding cells_fit
  cells_fit_sound [] h = tt
  cells_fit_sound (c ∷ cs) h = elim (Bool-cases (cell_fits b type rot x y c)) [
    | inl e ↦ (cell_fits_sound c e, cells_fit_sound cs (rw e at h))
    | inr e ↦ let bad : false ≡ true = rw e at h in cc
  ]

  cells_fit_complete :
      (cs : List (ℕ × ℕ)) → All (FitsAt b type rot x y) cs → cells_fit b type rot x y cs ≡ true
  unfolding cells_fit
  cells_fit_complete [] h = refl
  cells_fit_complete (c ∷ cs) h = rw (cell_fits_complete c h.0) (cells_fit_complete cs h.1)

-- `is_valid_pos` returns true exactly when the piece fits.
pub is_valid_pos_iff :
    (s : GameState) (type rot : ℕ) (x y : ℤ)
    → (is_valid_pos s type rot x y ≡ true) ↔ Fits s.board type rot x y
unfolding is_valid_pos
is_valid_pos_iff s type rot x y = (
  λ h. record {
    at = box-All (FitsAt s.board type rot x y) (cells_fit_sound s.board type rot x y box h);
  },
  λ f. cells_fit_complete s.board type rot x y box (All-box (FitsAt s.board type rot x y) f.at),
)

-- A piece that fits has the top of its box above the floor.
pub Fits-above_floor :
    (b : Board) (type rot : ℕ) (x y : ℤ)
    → 1 ≤ type
    → type ≤ 7
    → rot < 4
    → Fits b type rot x y
    → y <ℤ pos board_height
Fits-above_floor b type rot x y h1 h7 hr f =
    solid-elim (y <ℤ pos board_height) type rot box
      (omega (arith, count_solid-box type rot h1 h7 hr))
      (All-box (λ c. solid type rot c.0 c.1 ≡ true → y <ℤ pos board_height)
        λ px py hx hy sol. omega (arith, (f.at px py hx hy sol).2, +ℤ_parts y (pos py)))
