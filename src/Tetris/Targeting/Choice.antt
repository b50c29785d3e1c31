-- ===== src/Tetris/Targeting/Choice.antt =====
-- Whom targeting.c chooses: the locked target or a living opponent.
use corestack_50005_htt.Prelude.{ℕ, zero, suc, ◌+◌, ◌%◌, ◌≤◌, ◌<◌, ◌≡◌, refl, sym, ap, ◌∙◌}
use mathlib.Core.Bool.{false≢true}
use corestack_50005_htt.Prelude.{◌≢◌, ◌⊎◌, inl, inr, Bool, true, false, not, ◌&&◌, Bool-cases, ◌==◌}
use corestack_50005_htt.Prelude.{if◌then◌else◌, arith, List, ◌∷◌, length, get_or, Draws}
use corestack_50005_htt.Tetris.State.{GameState, target_random, target_ko}
use corestack_50005_htt.Tetris.Targeting.{Roster, living_opponent}
use corestack_50005_htt.Tetris.Targeting.{candidates_from, still_in, pick}
use corestack_50005_htt.Tetris.Targeting.{resolve_target_id}

-- The id of a player on the roster, other than the attacker and not eliminated.
pub record Living (a : GameState) (r : Roster) (id : ℕ) : Type 0 where
  pub place : ℕ
  pub on_roster : place < r.count
  pub named : get_or r.ids place 0 ≡ id
  pub alive : living_opponent a r place ≡ true

pick-none :
    (candidates : List ℕ) (locked : ℕ) (d : Draws)
    → length candidates ≡ 0
    → (pick candidates locked d).0 ≡ locked
unfolding pick
pick-none candidates locked d e = ground arith

pick-some :
    (candidates : List ℕ) (locked : ℕ) (d : Draws)
    → 1 ≤ length candidates
    → (pick candidates locked d).0 ≡ get_or candidates (d 0 % length candidates) 0
unfolding pick
pick-some candidates locked d h = ground arith

module _ (a : GameState) (r : Roster) where
  cons-Living :
      (x : ℕ) (xs : List ℕ)
      → Living a r x
      → ((k : ℕ) → k < length xs → Living a r (get_or xs k 0))
      → (k : ℕ) → k < suc (length xs)
      → Living a r (get_or (x ∷ xs) k 0)
  cons-Living x xs head rest zero lt = head
  cons-Living x xs head rest (suc k) lt = rest k (omega arith)

  candidates-Living :
      (n i : ℕ)
      → i + n ≤ r.count
      → (k : ℕ) → k < length (candidates_from a r n i)
      → Living a r (get_or (candidates_from a r n i) k 0)
  unfolding candidates_from
  candidates-Living zero i h k lt = absurd (omega arith)
  candidates-Living (suc n) i h k lt = elim (Bool-cases (living_opponent a r i)) [
    | inl e ↦
        let here : Living a r (get_or r.ids i 0) = record {
          place = i;
          on_roster = omega arith;
          named = refl;
          alive = e;
        } in
        rw e (
          cons-Living (get_or r.ids i 0) (candidates_from a r n (i + 1)) here
            (candidates-Living n (i + 1) (omega arith)) k (rw e at lt))
    | inr e ↦ rw e (candidates-Living n (i + 1) (omega arith) k (rw e at lt))
  ]

  candidates-some :
      (n i j : ℕ)
      → i ≤ j
      → j < i + n
      → living_opponent a r j ≡ true
      → 1 ≤ length (candidates_from a r n i)
  unfolding candidates_from
  candidates-some zero i j h lt e = absurd (omega arith)
  candidates-some (suc n) i j h lt e = elim (Bool-cases (living_opponent a r i)) [
    | inl f ↦ rw f (omega arith)
    | inr f ↦
        let apart : i ≢ j = λ p. false≢true (sym f ∙ ap (living_opponent a r) p ∙ e) in
        rw f (candidates-some n (i + 1) j (omega arith) (omega arith) e)
  ]

  still_in-Living :
      (id n i : ℕ)
      → i + n ≤ r.count
      → (id == a.player_id) ≡ false
      → still_in r id n i ≡ true
      → Living a r id
  unfolding still_in
  still_in-Living id zero i h ne e = cc
  still_in-Living id (suc n) i h ne e =
      elim (Bool-cases (get_or r.ids i 0 == id && not (get_or r.eliminated i false))) [
        | inl f ↦ record {
          place = i;
          on_roster = omega arith;
          named = ground arith;
          alive = ground arith;
        }
        | inr f ↦ still_in-Living id n (i + 1) (omega arith) ne (rw f at e)
      ]

random_lem :
    (a : GameState) (r : Roster) (d : Draws) (n : ℕ)
    → length (candidates_from a r r.count 0) ≡ n
    → ((pick (candidates_from a r r.count 0) a.target_player_id d).0 ≡ a.target_player_id)
      ⊎ Living a r (pick (candidates_from a r r.count 0) a.target_player_id d).0
random_lem a r d zero e = inl (pick-none _ _ d e)
random_lem a r d (suc n) e = inr (
    rw (pick-some (candidates_from a r r.count 0) a.target_player_id d (omega arith))
      (candidates-Living a r r.count 0 (omega arith) _ (omega arith)))

-- The test of the retaliation mode.
abbrev can_retaliate : GameState → Roster → Bool
can_retaliate a r =
    not (a.last_attacker_id == 0)
    && not (a.last_attacker_id == a.player_id)
    && still_in r a.last_attacker_id r.count 0

can_retaliate-Living :
    (a : GameState) (r : Roster) → can_retaliate a r ≡ true → Living a r a.last_attacker_id
can_retaliate-Living a r f =
    let other : (a.last_attacker_id == a.player_id) ≡ false = ground arith in
    let there : still_in r a.last_attacker_id r.count 0 ≡ true = ground arith in
    still_in-Living a r a.last_attacker_id r.count 0 (omega arith) other there

-- In each mode the choice is the locked target or a living opponent on the roster.
pub resolve_target_id_lem :
    (a : GameState) (r : Roster) (d : Draws)
    → ((resolve_target_id a r d).0 ≡ a.target_player_id) ⊎ Living a r (resolve_target_id a r d).0
unfolding resolve_target_id
resolve_target_id_lem a r d = elim (Bool-cases (a.target_mode == target_random)) [
  | inl e ↦ rw e (random_lem a r d (length (candidates_from a r r.count 0)) refl)
  | inr e ↦ elim (Bool-cases (a.target_mode == target_ko)) [
    | inl f ↦ elim (Bool-cases (can_retaliate a r)) [
      | inl g ↦ rw (e, f, g) (inr (can_retaliate-Living a r g))
      | inr g ↦ rw (e, f, g) (inl refl)
    ]
    | inr f ↦ rw (e, f) (inl refl)
  ]
]

-- In the retaliation mode the choice is the last attacker where that player is a living opponent,
-- whose id is not 0, and the locked target if not.
pub resolve_retaliation :
    (a : GameState) (r : Roster) (d : Draws)
    → a.target_mode ≡ target_ko
    → (resolve_target_id a r d).0
      ≡ (if can_retaliate a r then a.last_attacker_id else a.target_player_id)
unfolding resolve_target_id
resolve_retaliation a r d m =
    let e : (a.target_mode == target_random) ≡ false = ground arith in
    let f : (a.target_mode == target_ko) ≡ true = ground arith in
    elim (Bool-cases (can_retaliate a r)) [ inl g ↦ rw (e, f, g) refl | inr g ↦ rw (e, f, g) refl ]

-- In the random mode the choice is a living opponent whenever the roster has one.
pub resolve_random :
    (a : GameState) (r : Roster) (d : Draws) (i : ℕ)
    → a.target_mode ≡ target_random
    → i < r.count
    → living_opponent a r i ≡ true
    → Living a r (resolve_target_id a r d).0
unfolding resolve_target_id
resolve_random a r d i m lt e =
    let some_one = candidates-some a r r.count 0 i (omega arith) (omega arith) e in
    let mode : (a.target_mode == target_random) ≡ true = ground arith in
    rw (mode, pick-some (candidates_from a r r.count 0) a.target_player_id d some_one)
      (candidates-Living a r r.count 0 (omega arith) (d 0 % length (candidates_from a r r.count 0))
        (omega arith))
