-- ===== src/Bomb/Bombs/Placing.antt =====
-- Placing a bomb.
use mathlib.Core.Bool.{true≢false}
use corestack_50005_htt.Prelude.{ℕ, ◌+◌, ◌≡◌, refl, arith, true, false, not, ◌&&◌, ◌==◌}
use corestack_50005_htt.Prelude.{Bool-cases, ==→≡, ◌⊎◌, inl, inr}
use corestack_50005_htt.Corestack.Queue.{enqueue}
use corestack_50005_htt.Bomb.Arena.{
  TileType, tile_at, put_tile, is_empty, is_player, is_wall, empty_tile,
}
use corestack_50005_htt.Bomb.Arena.{
  player_tile, bomb_tile, explosion_tile, powerup_fire, powerup_bomb,
}
use corestack_50005_htt.Bomb.Arena.{breakable, wall}
use corestack_50005_htt.Bomb.Bombs.{Arena, InventoryStock, place_bomb, consume_bomb, queue_size}
use corestack_50005_htt.Bomb.Bombs.Spread.{KeepsWalls, put_tile-wall}

free-wall : (t : TileType) → (not (is_empty t) && not (is_player t)) ≡ false → is_wall t ≡ false
free-wall empty_tile e = refl
free-wall player_tile e = refl
free-wall bomb_tile e = refl
free-wall explosion_tile e = refl
free-wall powerup_fire e = refl
free-wall powerup_bomb e = refl
free-wall breakable e = refl
free-wall wall e = absurd (true≢false e)

-- A bomb is refused, and nothing changes, just when the tile is neither empty nor a player's or the stock
-- is used up; otherwise the stock loses one bomb, and the map keeps its walls.
pub place_bomb_lem :
    {Time : Type 0} (bomb_timer replenish_time : Time) (x y : ℕ) (stock : InventoryStock Time)
    (a : Arena Time)
    → ((place_bomb bomb_timer replenish_time x y stock a ≡ (false, stock, a))
        × (((not (is_empty (tile_at a.map x y)) && not (is_player (tile_at a.map x y))) ≡ true)
            ⊎ (stock.remaining_bombs ≡ 0)))
      ⊎ ((left : InventoryStock Time) × (after : Arena Time) × (place_bomb bomb_timer replenish_time
              x y stock a
            ≡ (true, left, after))
          × (left.remaining_bombs + 1 ≡ stock.remaining_bombs)
          × KeepsWalls a.map after.map)
unfolding place_bomb consume_bomb
place_bomb_lem {Time = Time} bomb_timer replenish_time x y stock a =
    let tile = tile_at a.map x y in
    let after : Arena Time = record a {
      map = put_tile a.map x y bomb_tile;
      bombs_queue =
          (enqueue queue_size a.bombs_queue
            (record { x = x; y = y; spread = stock.num_fires; timer = bomb_timer })).0;
    } in
    elim (Bool-cases (not (is_empty tile) && not (is_player tile))) [
      | inl taken ↦ inl (rw taken refl, inl taken)
      | inr free ↦ elim (Bool-cases (stock.remaining_bombs == 0)) [
        | inl none_left ↦
            inl (rw (free, none_left) refl, inr (==→≡ stock.remaining_bombs 0 none_left))
        | inr some_left ↦ inr (
          consume_bomb replenish_time stock,
          after,
          rw (free, some_left) refl,
          ground arith,
          λ p q h. put_tile-wall a.map x y p q bomb_tile (free-wall tile free) h,
        )
      ]
    ]
