-- ===== src/Bomb/Bombs/Tests.antt =====
-- A map of four by four tiles with two bombs, and times that are numbers.
use corestack_50005_htt.Prelude.{ℕ, ◌-◌, ◌<◌, ◌≡◌, refl, arith, Bool, true}
use corestack_50005_htt.Prelude.{◌==◌, [], ◌∷◌, replicate}
use corestack_50005_htt.Prelude.Int.{negsuc}
use corestack_50005_htt.Bomb.Arena.{empty_tile, breakable, bomb_tile, wall}
use corestack_50005_htt.Bomb.Bombs.{BombInfo, Arena, InventoryStock, tick_bomb, tick_bombs_from}
use corestack_50005_htt.Bomb.Bombs.{trigger_explosion}
use corestack_50005_htt.Bomb.Bombs.Spread.{KeepsWalls, trigger_explosion_lem}
use corestack_50005_htt.Bomb.Bombs.Ticks.{bomb_at, tick_bomb_lem, tick_bombs_from_lem}

abbrev sub : ℕ → ℕ → ℕ
sub a b = a - b

abbrev expired : ℕ → Bool
expired t = t == 0

abbrev first : BombInfo ℕ
first = record { x = 1; y = 1; spread = 2; timer = 1 }

abbrev second : BombInfo ℕ
second = record { x = 2; y = 2; spread = 1; timer = 9 }

abbrev arena : Arena ℕ
arena = record {
  map =
      (wall ∷ wall ∷ wall ∷ wall ∷ [])
      ∷ (wall ∷ bomb_tile ∷ breakable ∷ wall ∷ [])
      ∷ (wall ∷ empty_tile ∷ bomb_tile ∷ wall ∷ [])
      ∷ (wall ∷ wall ∷ wall ∷ wall ∷ [])
      ∷ [];
  map_size = 4;
  powerups_to_spawn = replicate 4 (replicate 4 empty_tile);
  bombs_queue = record { items = first ∷ second ∷ []; front = negsuc 0; rear = 2 };
  explodes_queue = record { items = []; front = negsuc 0; rear = 0 };
  exploded = [];
  draws = λ n. n;
}

-- The fuse of the bomb at (1, 1) is up, and the explosion is reported at (2, 2).
tick_bomb_lem_example :
    (after : Arena ℕ) × (tick_bomb sub expired 5 1 first 0 arena ≡ (after, true))
    × (after.bombs_queue.rear ≡ 1)
    × (1 < 2 → bomb_at sub expired after first 0 ≡ second)
    × (after.exploded ≡ (2, 2) ∷ [])
tick_bomb_lem_example = tick_bomb_lem sub expired 5 1 first 0 arena (omega arith) (omega arith) refl

tick_bombs_from_lem_example :
    tick_bombs_from sub expired 5 1 first 10 0 arena
    ≡ tick_bombs_from sub expired 5 1 first 2 0 arena
tick_bombs_from_lem_example =
    tick_bombs_from_lem sub expired 5 1 first 2 10 0 arena (omega arith) (omega arith)

trigger_explosion_lem_example :
    KeepsWalls arena.map (trigger_explosion 5 first arena).map
    × ((trigger_explosion 5 first arena).bombs_queue ≡ arena.bombs_queue)
    × ((trigger_explosion 5 first arena).exploded ≡ (1, 1) ∷ [])
trigger_explosion_lem_example = trigger_explosion_lem 5 first arena

abbrev stock : InventoryStock ℕ
stock = record { remaining_bombs = 1; num_bombs = 2; num_fires = 3; bomb_replenish_timer = 1 }
