-- ===== src/Tetris/Targeting.antt =====
-- libtetrisbrain/targeting.c: whom a player attacks.
pub mod Choice
pub mod Cycle
use package.corestack_50005_htt.Prelude.{ℕ, zero, suc, ◌+◌, ◌-◌, ◌%◌, leb, ◌==◌, if◌then◌else◌}
use package.corestack_50005_htt.Prelude.{
  Bool, true, false, not, ◌&&◌, List, [], ◌∷◌, get_or, length,
}
use package.corestack_50005_htt.Prelude.{Option, none, some, Draws, rand}
use package.corestack_50005_htt.Tetris.State.{
  GameState, target_random, target_ko, target_mode_count,
}

-- `Roster`
pub record Roster : Type 0 where
  pub ids : List ℕ
  pub eliminated : List Bool
  pub count : ℕ

pub cycle_target_mode : GameState → GameState
cycle_target_mode player = record player {
  target_mode = (player.target_mode + 1) % target_mode_count;
}

-- `roster->ids[i] != player_id && !roster->eliminated[i]`
abbrev pub living_opponent : GameState → Roster → ℕ → Bool
living_opponent attacker r i =
    not (get_or r.ids i 0 == attacker.player_id) && not (get_or r.eliminated i false)

-- The loop that finds the index of an id, from `i` with `n` indices left; `none` stands for -1.
pub find_index : Roster → ℕ → ℕ → ℕ → Option ℕ
find_index r id zero i = none
find_index r id (suc n) i =
    let rest = find_index r id n (i + 1) in if get_or r.ids i 0 == id then some i else rest

-- `current_index + step + roster->count`, for a step of at least 1.
pub index_sum : Option ℕ → ℕ → ℕ → ℕ
index_sum none step count = step - 1 + count
index_sum (some i) step count = i + step + count

-- The loop over the steps, with `n` of them left.
pub cycle_loop : GameState → Roster → Option ℕ → ℕ → ℕ → GameState
cycle_loop attacker r current zero step = attacker
cycle_loop attacker r current (suc n) step =
    let index = index_sum current step r.count % r.count in
    let rest = cycle_loop attacker r current n (step + 1) in
    if living_opponent attacker r index
    then record attacker { target_player_id = get_or r.ids index 0 }
    else rest

pub cycle_manual_target : GameState → Roster → GameState
cycle_manual_target attacker r =
    if leb r.count 1
    then attacker
    else cycle_loop attacker r (find_index r attacker.target_player_id r.count 0) r.count 1

-- The candidates of the random mode, from index `i` with `n` indices left.
pub candidates_from : GameState → Roster → ℕ → ℕ → List ℕ
candidates_from attacker r zero i = []
candidates_from attacker r (suc n) i =
    let rest = candidates_from attacker r n (i + 1) in
    if living_opponent attacker r i then get_or r.ids i 0 ∷ rest else rest

-- The loop of the retaliation mode: whether an id is on the roster and not eliminated.
pub still_in : Roster → ℕ → ℕ → ℕ → Bool
still_in r id zero i = false
still_in r id (suc n) i =
    let rest = still_in r id n (i + 1) in
    if get_or r.ids i 0 == id && not (get_or r.eliminated i false) then true else rest

-- A random candidate, or the locked target where there is none.
pub pick : List ℕ → ℕ → Draws → ℕ × Draws
pick candidates locked d =
    if length candidates == 0
    then (locked, d)
    else (get_or candidates ((rand d).0 % length candidates) 0, (rand d).1)

pub resolve_target_id : GameState → Roster → Draws → ℕ × Draws
resolve_target_id attacker r d =
    if attacker.target_mode == target_random
    then pick (candidates_from attacker r r.count 0) attacker.target_player_id d
    else if attacker.target_mode == target_ko
    then (if not (attacker.last_attacker_id == 0)
          && not (attacker.last_attacker_id == attacker.player_id)
          && still_in r attacker.last_attacker_id r.count 0
        then (attacker.last_attacker_id, d)
        else (attacker.target_player_id, d))
    else (attacker.target_player_id, d)
