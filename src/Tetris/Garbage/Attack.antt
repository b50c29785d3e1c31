-- ===== src/Tetris/Garbage/Attack.antt =====
-- The attack table of `calculate_garbage`.
use corestack_50005_htt.Prelude.{ℕ, ◌≤◌, ◌≡◌, refl, Bool, true}
use corestack_50005_htt.Prelude.{Bool-cases, inl, inr, if◌then◌else◌, arith, ◌==◌, ltb, leb}
use corestack_50005_htt.Prelude.{◌/◌, ==→≡, ltb→lt, every_below, every_below_lem}
use corestack_50005_htt.Prelude.Int.{ℤ, pos, negsuc, ◌+ℤ◌, ◌≤ℤ◌, +ℤ_parts}
use corestack_50005_htt.Tetris.State.{GameState}
use corestack_50005_htt.Tetris.Garbage.{combo_bonus, base_garbage, calculate_garbage}

-- The bonus in closed form: half the combo, but 4 at ten and 5 from eleven on.
abbrev bonus : ℕ → ℕ
bonus n = if leb 11 n then 5 else if n == 10 then 4 else n / 2

combo_bonus_table : every_below (λ n. combo_bonus (pos n) == bonus n) 12 ≡ true
unfolding every_below combo_bonus
combo_bonus_table = refl

combo_bonus-pos : (n : ℕ) → combo_bonus (pos n) ≡ bonus n
unfolding combo_bonus
combo_bonus-pos n = elim (Bool-cases (ltb n 12)) [
  | inl e ↦
      ==→≡ _ _ (
        every_below_lem (λ k. combo_bonus (pos k) == bonus k) 12 n (ltb→lt n 12 e)
          combo_bonus_table)
  | inr e ↦ ground arith
]

combo_bonus-negsuc : (n : ℕ) → combo_bonus (negsuc n) ≡ 0
unfolding combo_bonus
combo_bonus-negsuc n = ground arith

-- A longer combo never has a smaller bonus, and no bonus is above 5.
pub combo_bonus_mono : (a b : ℤ) → a ≤ℤ b → (combo_bonus a ≤ combo_bonus b) × (combo_bonus b ≤ 5)
combo_bonus_mono (pos a) (pos b) h = ground (arith, combo_bonus-pos a, combo_bonus-pos b)
combo_bonus_mono (pos a) (negsuc b) h = absurd (omega arith)
combo_bonus_mono (negsuc a) (pos b) h = ground (arith, combo_bonus-negsuc a, combo_bonus-pos b)
combo_bonus_mono (negsuc a) (negsuc b) h = omega (arith, combo_bonus-negsuc a, combo_bonus-negsuc b)

-- With the same lines, spin and back-to-back flag a longer combo never does less damage; for at most
-- four lines the damage is at most 14, and it is 0 for none.
pub calculate_garbage_mono :
    (s t : GameState) (lines : ℕ) (spin : Bool)
    → s.b2b ≡ t.b2b
    → s.combo ≤ℤ t.combo
    → lines ≤ 4
    → let a = (calculate_garbage s lines spin).1 in
      let b = (calculate_garbage t lines spin).1 in (a ≤ b) × (b ≤ (if lines == 0 then 0 else 14))
unfolding calculate_garbage base_garbage
calculate_garbage_mono s t lines spin e h l =
    let order : s.combo +ℤ pos 1 ≤ℤ t.combo +ℤ pos 1 =
      omega (arith, +ℤ_parts s.combo (pos 1), +ℤ_parts t.combo (pos 1)) in
    ground (arith, combo_bonus_mono (s.combo +ℤ pos 1) (t.combo +ℤ pos 1) order)
