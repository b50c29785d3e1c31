-- ===== src/Tetris/Piece/Rotation.antt =====
-- What the rotation arithmetic of board_control.c means on the 4x4 box.
use corestack_50005_htt.Prelude.{ℕ, zero, suc, ◌+◌, ◌-◌, ◌%◌, ◌≤◌, ◌<◌, ◌≡◌, refl, true}
use corestack_50005_htt.Prelude.{List, [], ◌∷◌, arith, All, if◌then◌else◌}
use corestack_50005_htt.Prelude.{
  Bool, Bool-cases, inl, inr, every_below, every_below_lem, ◌==◌, ==→≡,
}
use corestack_50005_htt.Tetris.Piece.{get_rotation_index, box, solid}

-- Every index that the loops over the box compute lies in the 16 cells of a shape.
pub get_rotation_index-lt : (x y rot : ℕ) → x < 4 → y < 4 → get_rotation_index x y rot < 16
unfolding get_rotation_index
get_rotation_index-lt x y rot hx hy = ground arith

-- One step of the rotation state turns the box a quarter clockwise: the cell of the new state at
-- (x, y) is the cell of the old state at (y, 3 - x).
pub rotation_quarter_turn :
    (x y rot : ℕ)
    → x < 4
    → y < 4
    → rot < 4
    → get_rotation_index x y ((rot + 1) % 4) ≡ get_rotation_index y (3 - x) rot
unfolding get_rotation_index
rotation_quarter_turn x y rot hx hy hr = ground arith

-- In each rotation state different positions of the box read different cells of the shape.
pub rotation_index_inj :
    (x y x' y' rot : ℕ)
    → x < 4
    → y < 4
    → x' < 4
    → y' < 4
    → rot < 4
    → get_rotation_index x y rot ≡ get_rotation_index x' y' rot
    → (x ≡ x') × (y ≡ y')
unfolding get_rotation_index
rotation_index_inj x y x' y' rot hx hy hx' hy' hr e = ground arith

-- A property of all positions of the box holds of each pair below 4.
module _ {κ} (P : ℕ × ℕ → Type κ) where
  pub box-All : All P box → (px py : ℕ) → px < 4 → py < 4 → P (px, py)
  box-All h zero zero hx hy = h.0
  box-All h zero (suc zero) hx hy = h.1.0
  box-All h zero (suc (suc zero)) hx hy = h.1.1.0
  box-All h zero (suc (suc (suc zero))) hx hy = h.1.1.1.0
  box-All h (suc zero) zero hx hy = h.1.1.1.1.0
  box-All h (suc zero) (suc zero) hx hy = h.1.1.1.1.1.0
  box-All h (suc zero) (suc (suc zero)) hx hy = h.1.1.1.1.1.1.0
  box-All h (suc zero) (suc (suc (suc zero))) hx hy = h.1.1.1.1.1.1.1.0
  box-All h (suc (suc zero)) zero hx hy = h.1.1.1.1.1.1.1.1.0
  box-All h (suc (suc zero)) (suc zero) hx hy = h.1.1.1.1.1.1.1.1.1.0
  box-All h (suc (suc zero)) (suc (suc zero)) hx hy = h.1.1.1.1.1.1.1.1.1.1.0
  box-All h (suc (suc zero)) (suc (suc (suc zero))) hx hy = h.1.1.1.1.1.1.1.1.1.1.1.0
  box-All h (suc (suc (suc zero))) zero hx hy = h.1.1.1.1.1.1.1.1.1.1.1.1.0
  box-All h (suc (suc (suc zero))) (suc zero) hx hy = h.1.1.1.1.1.1.1.1.1.1.1.1.1.0
  box-All h (suc (suc (suc zero))) (suc (suc zero)) hx hy = h.1.1.1.1.1.1.1.1.1.1.1.1.1.1.0
  box-All h (suc (suc (suc zero))) (suc (suc (suc zero))) hx hy = h.1.1.1.1.1.1.1.1.1.1.1.1.1.1.1.0
  box-All h px py hx hy = absurd (omega arith)

  pub All-box : ((px py : ℕ) → px < 4 → py < 4 → P (px, py)) → All P box
  All-box f = (
    f 0 0 (omega arith) (omega arith),
    (
      f 0 1 (omega arith) (omega arith),
      (
        f 0 2 (omega arith) (omega arith),
        (
          f 0 3 (omega arith) (omega arith),
          (
            f 1 0 (omega arith) (omega arith),
            (
              f 1 1 (omega arith) (omega arith),
              (
                f 1 2 (omega arith) (omega arith),
                (
                  f 1 3 (omega arith) (omega arith),
                  (
                    f 2 0 (omega arith) (omega arith),
                    (
                      f 2 1 (omega arith) (omega arith),
                      (
                        f 2 2 (omega arith) (omega arith),
                        (
                          f 2 3 (omega arith) (omega arith),
                          (
                            f 3 0 (omega arith) (omega arith),
                            (
                              f 3 1 (omega arith) (omega arith),
                              (
                                f 3 2 (omega arith) (omega arith),
                                (f 3 3 (omega arith) (omega arith), tt),
                              ),
                            ),
                          ),
                        ),
                      ),
                    ),
                  ),
                ),
              ),
            ),
          ),
        ),
      ),
    ),
  )

-- How many of the listed positions are solid.
unfoldable pub count_solid : ℕ → ℕ → List (ℕ × ℕ) → ℕ
count_solid type rot [] = 0
count_solid type rot ((px, py) ∷ cs) =
    (if solid type rot px py then 1 else 0) + count_solid type rot cs

-- Whether a shape, by its place in the table, has four solid cells in each rotation state.
abbrev four_solid : ℕ → Bool
four_solid i = every_below (λ rot. count_solid (suc i) rot box == 4) 4

solid_table : every_below four_solid 7 ≡ true
unfolding every_below count_solid solid
solid_table = refl

-- Each of the seven shapes has four solid cells, in each of its rotation states.
pub count_solid-box : (type rot : ℕ) → 1 ≤ type → type ≤ 7 → rot < 4 → count_solid type rot box ≡ 4
count_solid-box zero rot h1 h7 hr = absurd (omega arith)
count_solid-box (suc i) rot h1 h7 hr = ==→≡ _ 4 (
    every_below_lem (λ rot. count_solid (suc i) rot box == 4) 4 rot hr
      (every_below_lem four_solid 7 i (omega arith) solid_table))

-- What follows from each solid position follows, where one of them is solid.
pub solid-elim {κ} :
    (P : Type κ) (type rot : ℕ) (cs : List (ℕ × ℕ))
    → 1 ≤ count_solid type rot cs
    → All (λ c. solid type rot c.0 c.1 ≡ true → P) cs
    → P
unfolding count_solid
solid-elim P type rot [] h f = absurd (omega arith)
solid-elim P type rot ((px, py) ∷ cs) h f = elim (Bool-cases (solid type rot px py)) [
  | inl e ↦ f.0 e
  | inr e ↦
      let rest : 1 ≤ count_solid type rot cs = ground arith in solid-elim P type rot cs rest f.1
]
