-- ===== src/Bomb/Arena.antt =====
-- libbombbrain/map.h, with `tile_is_solid` of map.c, and powerup_control.c: the tiles of the shared map
-- and the power-ups that wait for the end of an explosion. The positions of tiles are `float`s in C that
-- hold whole numbers.
use package.corestack_50005_htt.Prelude.{ℕ, ◌%◌, Bool, true, false, ◌||◌, ltb, ◌==◌, if◌then◌else◌}
use package.corestack_50005_htt.Prelude.{List, [], ◌∷◌, get_or, set, replicate, Draws, rand}

pub data TileType : Type 0 where
  empty_tile : TileType
  player_tile : TileType
  bomb_tile : TileType
  explosion_tile : TileType
  powerup_fire : TileType
  powerup_bomb : TileType
  breakable : TileType
  wall : TileType

abbrev pub is_wall : TileType → Bool
is_wall wall = true
is_wall _ = false

abbrev pub is_breakable : TileType → Bool
is_breakable breakable = true
is_breakable _ = false

abbrev pub is_empty : TileType → Bool
is_empty empty_tile = true
is_empty _ = false

abbrev pub is_player : TileType → Bool
is_player player_tile = true
is_player _ = false

-- `map[x][y]` and a write to it. The map is read inside its size.
abbrev pub Grid : Type 0
Grid = List (List TileType)

abbrev pub tile_at : Grid → ℕ → ℕ → TileType
tile_at grid x y = get_or (get_or grid x []) y empty_tile

abbrev pub put_tile : Grid → ℕ → ℕ → TileType → Grid
put_tile grid x y tile = set grid x (set (get_or grid x []) y tile)

pub tile_is_solid : Grid → ℕ → ℕ → Bool
tile_is_solid map x y = is_wall (tile_at map x y) || is_breakable (tile_at map x y)

abbrev pub powerup_chance : ℕ
powerup_chance = 50

-- `powerup_init`, for a map of that size.
abbrev pub powerup_init : ℕ → Grid
powerup_init map_size = replicate map_size (replicate map_size empty_tile)

pub randomise_powerup : Grid → ℕ → ℕ → Draws → Grid × Draws
randomise_powerup powerups x y d =
    let (rng, d') = rand d in
    if ltb powerup_chance (rng % 100)
    then (powerups, d')
    else (let (kind, d'') = rand d' in
        (put_tile powerups x y (if kind % 2 == 0 then powerup_fire else powerup_bomb), d''))

-- `spawn_pending_powerups`, over the positions that an explosion has spread to: the map and the
-- power-ups that still wait.
unfoldable pub spawn_pending_powerups : List (ℕ × ℕ) → Grid → Grid → Grid × Grid
spawn_pending_powerups [] map powerups = (map, powerups)
spawn_pending_powerups ((x, y) ∷ positions) map powerups =
    let waiting = tile_at powerups x y in
    if is_empty waiting
    then spawn_pending_powerups positions map powerups
    else spawn_pending_powerups positions (put_tile map x y waiting)
        (put_tile powerups x y empty_tile)
