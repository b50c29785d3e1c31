-- ===== src/Tetris/Targeting/Cycle.antt =====
-- `cycle_manual_target` of targeting.c finds a living opponent whenever there is one.
use mathlib.Core.Bool.{false≢true}
use native.Mathlib.Decide.{ℕ_discrete}
use native.Mathlib.Nat.{mod-eq_of_lt, mod-lt, add-mod_right}
use corestack_50005_htt.Prelude.{ℕ, zero, suc, ◌+◌, ◌-◌, ◌%◌, ◌≤◌, ◌<◌, ◌≡◌, refl, sym, ap, ◌∙◌}
use corestack_50005_htt.Prelude.{inl, inr, true, false, Bool-cases, leb, ltb, ◌==◌}
use corestack_50005_htt.Prelude.{arith, get_or, Option, none, some}
use corestack_50005_htt.Tetris.State.{GameState}
use corestack_50005_htt.Tetris.Targeting.{cycle_target_mode}
use corestack_50005_htt.Tetris.Targeting.{
  Roster, living_opponent, find_index, index_sum, cycle_loop,
}
use corestack_50005_htt.Tetris.Targeting.{cycle_manual_target}
use corestack_50005_htt.Tetris.Targeting.Choice.{Living}

-- Some index of the roster, or none.
abbrev InRange : Roster → Option ℕ → Type 0
InRange r none = Unit
InRange r (some i) = i < r.count

find_index-InRange : (r : Roster) (id n i : ℕ) → i + n ≤ r.count → InRange r (find_index r id n i)
unfolding find_index
find_index-InRange r id zero i h = tt
find_index-InRange r id (suc n) i h = elim (Bool-cases (get_or r.ids i 0 == id)) [
  | inl e ↦ rw e (omega arith)
  | inr e ↦ rw e (find_index-InRange r id n (i + 1) (omega arith))
]

module _ (a : GameState) (r : Roster) (current : Option ℕ) where
  -- The index that a step looks at.
  abbrev index_at : ℕ → ℕ
  index_at step = index_sum current step r.count % r.count

  cycle_loop_lem :
      (n step k : ℕ)
      → 1 ≤ r.count
      → step ≤ k
      → k < step + n
      → living_opponent a r (index_at k) ≡ true
      → Living a r (cycle_loop a r current n step).target_player_id
  unfolding cycle_loop
  cycle_loop_lem zero step k h le lt e = absurd (omega arith)
  cycle_loop_lem (suc n) step k h le lt e =
      elim (Bool-cases (living_opponent a r (index_at step))) [
        | inl f ↦ rw f (record {
          place = index_at step;
          on_roster = mod-lt (index_sum current step r.count) (omega arith);
          named = refl;
          alive = f;
        })
        | inr f ↦ elim (ℕ_discrete step k) [
          | yes p ↦ absurd (false≢true (sym f ∙ ap (λ j. living_opponent a r (index_at j)) p ∙ e))
          | no ne ↦ rw f (cycle_loop_lem n (step + 1) k h (omega arith) (omega arith) e)
        ]
      ]

-- Each index of the roster is met by a step, from 1 to the number of players.
index_met :
    (r : Roster) (current : Option ℕ) (i : ℕ)
    → InRange r current
    → i < r.count
    → (k : ℕ) × (1 ≤ k) × (k < 1 + r.count) × (index_sum current k r.count % r.count ≡ i)
unfolding index_sum
index_met r none i h lt = (
  i + 1,
  omega arith,
  omega arith,
  ap (λ j. j % r.count) (omega arith) ∙ add-mod_right i r.count ∙ mod-eq_of_lt lt,
)
index_met r (some c) i h lt = elim (Bool-cases (ltb c i)) [
  | inl e ↦
      let after : c < i = ground arith in
      (
        i - c,
        omega arith,
        omega arith,
        ap (λ j. j % r.count) (omega arith) ∙ add-mod_right i r.count ∙ mod-eq_of_lt lt,
      )
  | inr e ↦
      let before : i ≤ c = ground arith in
      (
        i + r.count - c,
        omega arith,
        omega arith,
        ap (λ j. j % r.count) (omega arith)
            ∙ add-mod_right (i + r.count) r.count
            ∙ add-mod_right i r.count
            ∙ mod-eq_of_lt lt,
      )
]

-- With at least two players on the roster, one of them a living opponent, `cycle_manual_target`
-- locks on a living opponent.
pub cycle_manual_target_lem :
    (a : GameState) (r : Roster) (i : ℕ)
    → 2 ≤ r.count
    → i < r.count
    → living_opponent a r i ≡ true
    → Living a r (cycle_manual_target a r).target_player_id
unfolding cycle_manual_target
cycle_manual_target_lem a r i h lt e =
    let current = find_index r a.target_player_id r.count 0 in
    let many : leb r.count 1 ≡ false = ground arith in
    let (k, low, high, at) =
      index_met r current i (find_index-InRange r a.target_player_id r.count 0 (omega arith)) lt in
    rw many (
      cycle_loop_lem a r current r.count 1 k (omega arith) low high
        (ap (λ j. living_opponent a r j) at ∙ e))

cycle_loop_frame :
    (a : GameState) (r : Roster) (current : Option ℕ) (n step : ℕ)
    → let b = cycle_loop a r current n step in
      b ≡ record a { target_player_id = b.target_player_id }
unfolding cycle_loop
cycle_loop_frame a r current zero step = refl
cycle_loop_frame a r current (suc n) step =
    elim (Bool-cases (living_opponent a r (index_sum current step r.count % r.count))) [
      | inl e ↦ rw e refl
      | inr e ↦ rw e (cycle_loop_frame a r current n (step + 1))
    ]

-- Both functions change the choice of the target alone.
pub cycle_manual_target_frame :
    (a : GameState) (r : Roster)
    → let b = cycle_manual_target a r in b ≡ record a { target_player_id = b.target_player_id }
unfolding cycle_manual_target
cycle_manual_target_frame a r = elim (Bool-cases (leb r.count 1)) [
  | inl e ↦ rw e refl
  | inr e ↦ rw e (cycle_loop_frame a r (find_index r a.target_player_id r.count 0) r.count 1)
]

pub cycle_target_mode_frame :
    (a : GameState) → let b = cycle_target_mode a in b ≡ record a { target_mode = b.target_mode }
unfolding cycle_target_mode
cycle_target_mode_frame a = refl
