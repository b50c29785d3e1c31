-- ===== src/Bomb/Bombs.antt =====
-- libbombbrain/bomb_control.c and inventory.c: placing bombs, their fuses, and the explosions. A `float`
-- timer is an element of `Time`, with its subtraction, its test for 0 or less, and the two lifetimes.
pub mod Spread
pub mod Ticks
pub mod Placing
mod Tests
use package.corestack_50005_htt.Prelude.{
  ℕ, zero, suc, ◌+◌, ◌-◌, ◌*◌, Bool, true, false, not, ◌&&◌, ◌||◌,
}
use package.corestack_50005_htt.Prelude.{
  ltb, leb, ◌==◌, if◌then◌else◌, List, [], ◌∷◌, ◌++◌, get_or, set, Draws,
}
use package.corestack_50005_htt.Prelude.Int.{ℤ, pos, pos_part, ◌+ℤ◌}
use package.corestack_50005_htt.Corestack.Queue.{Queue, empty, enqueue}
use package.corestack_50005_htt.Bomb.Arena.{
  Grid, tile_at, put_tile, is_wall, is_breakable, is_empty, is_player,
}
use package.corestack_50005_htt.Bomb.Arena.{
  bomb_tile, explosion_tile, empty_tile, randomise_powerup,
}
use package.corestack_50005_htt.Bomb.Arena.{spawn_pending_powerups}

pub record BombInfo (Time : Type 0) : Type 0 where
  pub x : ℕ
  pub y : ℕ
  pub spread : ℕ
  pub timer : Time

-- `spread_positions_size` is the length of the positions.
pub record ExplosionInfo (Time : Type 0) : Type 0 where
  pub x : ℕ
  pub y : ℕ
  pub spread_amt : List ℕ
  pub spread_positions : List (ℕ × ℕ)
  pub timer : Time

pub record InventoryStock (Time : Type 0) : Type 0 where
  pub remaining_bombs : ℕ
  pub num_bombs : ℕ
  pub num_fires : ℕ
  pub bomb_replenish_timer : Time

-- The global variables that the functions share, and the draws of `rand()` that are to come.
-- `exploded` holds the positions of the EVENT_BOMB_EXPLODED events, the latest first.
pub record Arena (Time : Type 0) : Type 0 where
  pub map : Grid
  pub map_size : ℕ
  pub powerups_to_spawn : Grid
  pub bombs_queue : Queue (BombInfo Time)
  pub explodes_queue : Queue (ExplosionInfo Time)
  pub exploded : List (ℕ × ℕ)
  pub draws : Draws

abbrev pub queue_size : ℕ
queue_size = 500

-- The four directions of an explosion: the index in `spread_amt`, the tile at a distance, and whether
-- this tile lies at the border of the map. `y - i <= 0` is a comparison of `int`s.
pub data Direction : Type 0 where
  up : Direction
  down : Direction
  left : Direction
  right : Direction

abbrev pub slot : Direction → ℕ
slot up = 0
slot down = 1
slot left = 2
slot right = 3

abbrev pub ahead : Direction → ℕ → ℕ → ℕ → ℕ × ℕ
ahead up x y i = (x, y - i)
ahead down x y i = (x, y + i)
ahead left x y i = (x - i, y)
ahead right x y i = (x + i, y)

abbrev pub at_border : Direction → ℕ → ℕ → ℕ → ℕ → Bool
at_border up size x y i = leb y i
at_border down size x y i = leb size (y + i)
at_border left size x y i = leb x i
at_border right size x y i = leb size (x + i)

module _ {Time : Type 0} where
  unfoldable pub handle_spread :
      ℕ → ℕ → ExplosionInfo Time → Arena Time → ExplosionInfo Time × Arena Time
  handle_spread x y explosion a =
      let (powerups, draws) =
        if is_breakable (tile_at a.map x y)
        then randomise_powerup a.powerups_to_spawn x y a.draws
        else (a.powerups_to_spawn, a.draws) in
      (
        record explosion { spread_positions = explosion.spread_positions ++ (x, y) ∷ [] },
        record a {
          map = put_tile a.map x y explosion_tile;
          powerups_to_spawn = powerups;
          draws = draws;
        },
      )

  -- The loop of a direction from the centre (x, y), at the distance `i` with `n` more to come.
  unfoldable pub spread_from :
      Direction → ℕ → ℕ → ℕ → ℕ → ExplosionInfo Time → Arena Time → ExplosionInfo Time × Arena Time
  spread_from dir x y zero i explosion a = (explosion, a)
  spread_from dir x y (suc n) i explosion a =
      let (tx, ty) = ahead dir x y i in
      if at_border dir a.map_size x y i || is_wall (tile_at a.map tx ty)
      then (explosion, a)
      else (let (next, after) =
            handle_spread tx ty
              (record explosion { spread_amt = set explosion.spread_amt (slot dir) i }) a in
          spread_from dir x y n (i + 1) next after)

  unfoldable pub spread_all :
      BombInfo Time → ExplosionInfo Time → Arena Time → ExplosionInfo Time × Arena Time
  spread_all bomb explosion a =
      let (e1, a1) = spread_from up bomb.x bomb.y bomb.spread 1 explosion a in
      let (e2, a2) = spread_from down bomb.x bomb.y bomb.spread 1 e1 a1 in
      let (e3, a3) = spread_from left bomb.x bomb.y bomb.spread 1 e2 a2 in
      spread_from right bomb.x bomb.y bomb.spread 1 e3 a3

  abbrev pub new_explosion : Time → BombInfo Time → ExplosionInfo Time
  new_explosion lifetime bomb = record {
    x = bomb.x;
    y = bomb.y;
    spread_amt = 0 ∷ 0 ∷ 0 ∷ 0 ∷ [];
    spread_positions = [];
    timer = lifetime;
  }

  unfoldable pub trigger_explosion : Time → BombInfo Time → Arena Time → Arena Time
  trigger_explosion lifetime bomb a =
      let (explosion, after) =
        spread_all bomb (new_explosion lifetime bomb)
          (record a { exploded = (bomb.x, bomb.y) ∷ a.exploded }) in
      record after { explodes_queue = (enqueue queue_size after.explodes_queue explosion).0 }

  unfoldable pub consume_bomb : Time → InventoryStock Time → InventoryStock Time
  consume_bomb replenish_time stock = record stock {
    remaining_bombs = stock.remaining_bombs - 1;
    bomb_replenish_timer = replenish_time;
  }

  -- The three components are the result, the stock and the arena.
  unfoldable pub place_bomb :
      Time
      → Time
      → ℕ
      → ℕ
      → InventoryStock Time
      → Arena Time
      → Bool × InventoryStock Time × Arena Time
  place_bomb bomb_timer replenish_time x y stock a =
      let tile = tile_at a.map x y in
      if not (is_empty tile) && not (is_player tile)
      then (false, stock, a)
      else if stock.remaining_bombs == 0
      then (false, stock, a)
      else (
        true,
        consume_bomb replenish_time stock,
        record a {
          map = put_tile a.map x y bomb_tile;
          bombs_queue =
              (enqueue queue_size a.bombs_queue
                (record { x = x; y = y; spread = stock.num_fires; timer = bomb_timer })).0;
        },
      )

module _ {Time : Type 0} (sub : Time → Time → Time) (expired : Time → Bool) where
  unfoldable pub inventory_update : Time → InventoryStock Time → Time → InventoryStock Time
  inventory_update replenish_time stock delta =
      let timer = sub stock.bomb_replenish_timer delta in
      if leb stock.num_bombs stock.remaining_bombs
      then stock
      else if expired timer
      then record stock {
        remaining_bombs = stock.remaining_bombs + 1;
        bomb_replenish_timer = replenish_time;
      }
      else record stock { bomb_replenish_timer = timer }

  -- The round of `tick_bombs` for the index `i`: the arena, and whether a bomb was removed there. The
  -- pointer `bomb` keeps its place in the array, so what is triggered is the bomb that stands there after
  -- the last one was moved to it.
  unfoldable pub tick_bomb : Time → Time → BombInfo Time → ℕ → Arena Time → Arena Time × Bool
  tick_bomb lifetime delta d i a =
      let old = get_or a.bombs_queue.items i d in
      let bomb = record old { timer = sub old.timer delta } in
      let ticked = set a.bombs_queue.items i bomb in
      if expired bomb.timer
      then (let rear = a.bombs_queue.rear - 1 in
          let moved = set ticked i (get_or ticked rear d) in
          (
            trigger_explosion lifetime (get_or moved i d) (record a {
              map = put_tile a.map bomb.x bomb.y empty_tile;
              bombs_queue = record a.bombs_queue { items = moved; rear = rear };
            }),
            true,
          ))
      else (record a { bombs_queue = record a.bombs_queue { items = ticked } }, false)

  -- The loop, on fuel: each round brings the index and the rear of the queue closer by one.
  unfoldable pub tick_bombs_from : Time → Time → BombInfo Time → ℕ → ℕ → Arena Time → Arena Time
  tick_bombs_from lifetime delta d zero i a = a
  tick_bombs_from lifetime delta d (suc fuel) i a =
      if ltb i a.bombs_queue.rear
      then (let (after, removed) = tick_bomb lifetime delta d i a in
          tick_bombs_from lifetime delta d fuel (if removed then i else i + 1) after)
      else a

  unfoldable pub tick_bombs : Time → Time → BombInfo Time → Arena Time → Arena Time
  tick_bombs lifetime delta d a =
      if empty queue_size a.bombs_queue
      then a
      else tick_bombs_from lifetime delta d a.bombs_queue.rear
          (pos_part (a.bombs_queue.front +ℤ pos 1)) a

  -- The tiles that an explosion has spread to become empty.
  abbrev pub clear_tiles : List (ℕ × ℕ) → Grid → Grid
  clear_tiles [] map = map
  clear_tiles ((x, y) ∷ positions) map = clear_tiles positions (put_tile map x y empty_tile)

  -- The round of `tick_explosions` for the index `i`.
  unfoldable pub tick_explosion : Time → ExplosionInfo Time → ℕ → Arena Time → Arena Time × Bool
  tick_explosion delta d i a =
      let old = get_or a.explodes_queue.items i d in
      let explosion = record old { timer = sub old.timer delta } in
      let ticked = set a.explodes_queue.items i explosion in
      if expired explosion.timer
      then (let rear = a.explodes_queue.rear - 1 in
          let cleared =
            clear_tiles explosion.spread_positions
              (put_tile a.map explosion.x explosion.y empty_tile) in
          let (map, powerups) =
            spawn_pending_powerups explosion.spread_positions cleared a.powerups_to_spawn in
          (
            record a {
              map = map;
              powerups_to_spawn = powerups;
              explodes_queue = record a.explodes_queue {
                items =
                    set ticked i
                      (get_or (set ticked i (record explosion { spread_positions = [] })) rear d);
                rear = rear;
              };
            },
            true,
          ))
      else (record a { explodes_queue = record a.explodes_queue { items = ticked } }, false)

  unfoldable pub tick_explosions_from : Time → ExplosionInfo Time → ℕ → ℕ → Arena Time → Arena Time
  tick_explosions_from delta d zero i a = a
  tick_explosions_from delta d (suc fuel) i a =
      if ltb i a.explodes_queue.rear
      then (let (after, removed) = tick_explosion delta d i a in
          tick_explosions_from delta d fuel (if removed then i else i + 1) after)
      else a

  unfoldable pub tick_explosions : Time → ExplosionInfo Time → Arena Time → Arena Time
  tick_explosions delta d a =
      if empty queue_size a.explodes_queue
      then a
      else tick_explosions_from delta d a.explodes_queue.rear
          (pos_part (a.explodes_queue.front +ℤ pos 1)) a
