-- ===== src/Bomb/Bombs/Spread.antt =====
-- What an explosion does to the map.
use corestack_50005_htt.Prelude.{ℕ, zero, suc, ◌+◌, ◌*◌, ◌≤◌, ◌≡◌, refl, sym, ap, ◌∙◌, arith}
use corestack_50005_htt.Prelude.{List, [], ◌∷◌, length, length-append, get_or, set, get_or-set_ne}
use corestack_50005_htt.Prelude.{true, false, ◌||◌, Bool-cases, or_false, ◌⊎◌, inl, inr}
use mathlib.Core.Bool.{true≢false}
use native.Mathlib.Decide.{ℕ_discrete}
use corestack_50005_htt.Bomb.Arena.{
  Grid, TileType, tile_at, put_tile, is_wall, explosion_tile, empty_tile,
}
use corestack_50005_htt.Bomb.Bombs.{
  BombInfo, ExplosionInfo, Arena, Direction, up, down, left, right, ahead, at_border, slot,
}
use corestack_50005_htt.Bomb.Bombs.{
  handle_spread, spread_from, spread_all, trigger_explosion, new_explosion,
}

-- A write in the range is read back, and one outside changes nothing.
set-cases {ℓ} :
    {A : Type ℓ} (xs : List A) (i : ℕ) (v d : A) → (set xs i v ≡ xs) ⊎ (get_or (set xs i v) i d ≡ v)
set-cases [] i v d = inl refl
set-cases (x ∷ xs) zero v d = inr refl
set-cases (x ∷ xs) (suc i) v d = elim (set-cases xs i v d) [
  | inl same ↦ inl (ap (λ l. x ∷ l) same)
  | inr new ↦ inr new
]

set-wall :
    (row : List TileType) (y b : ℕ) (t : TileType)
    → is_wall (get_or row y empty_tile) ≡ false
    → is_wall (get_or row b empty_tile) ≡ true
    → is_wall (get_or (set row y t) b empty_tile) ≡ true
set-wall row y b t free h = elim (ℕ_discrete y b) [
  | yes e ↦ absurd (true≢false (sym h ∙ ap (λ k. is_wall (get_or row k empty_tile)) (sym e) ∙ free))
  | no apart ↦ ap is_wall (get_or-set_ne row t empty_tile apart) ∙ h
]

-- A tile that is not a wall is written, so a wall stays one.
pub put_tile-wall :
    (g : Grid) (x y a b : ℕ) (t : TileType)
    → is_wall (tile_at g x y) ≡ false
    → is_wall (tile_at g a b) ≡ true
    → is_wall (tile_at (put_tile g x y t) a b) ≡ true
put_tile-wall g x y a b t free h =
    let row = set (get_or g x []) y t in
    elim (ℕ_discrete x a) [
      | no apart ↦ ap (λ r. is_wall (get_or r b empty_tile)) (get_or-set_ne g row [] apart) ∙ h
      | yes e ↦ elim (set-cases g x row []) [
        | inl same ↦ ap (λ l. is_wall (tile_at l a b)) same ∙ h
        | inr new ↦
            let here : get_or (set g x row) a [] ≡ row =
              ap (λ k. get_or (set g x row) k []) (sym e) ∙ new in
            ap (λ r. is_wall (get_or r b empty_tile)) here
            ∙ set-wall (get_or g x []) y b t free (ap (λ k. is_wall (tile_at g k b)) e ∙ h)
      ]
    ]

-- The walls of `g` are walls of `h`.
abbrev pub KeepsWalls : Grid → Grid → Type 0
KeepsWalls g h = (a b : ℕ) → is_wall (tile_at g a b) ≡ true → is_wall (tile_at h a b) ≡ true

module _ {Time : Type 0} where
  -- The walls and the queues stay; at most `n` positions are added.
  abbrev pub Spreads :
      ℕ → ExplosionInfo Time → Arena Time → ExplosionInfo Time × Arena Time → Type 0
  Spreads n e a r =
      KeepsWalls a.map r.1.map
      × (length r.0.spread_positions ≤ length e.spread_positions + n)
      × (r.1.bombs_queue ≡ a.bombs_queue)
      × (r.1.exploded ≡ a.exploded)

  spread_from_lem :
      (dir : Direction) (x y n i : ℕ) (e : ExplosionInfo Time) (a : Arena Time)
      → Spreads n e a (spread_from dir x y n i e a)
  unfolding spread_from handle_spread
  spread_from_lem dir x y zero i e a = (λ p q h. h, omega arith, refl, refl)
  spread_from_lem dir x y (suc n) i e a =
      let tx = (ahead dir x y i).0 in
      let ty = (ahead dir x y i).1 in
      let marked = record e { spread_amt = set e.spread_amt (slot dir) i } in
      let (next, after) = handle_spread tx ty marked a in
      elim (Bool-cases (at_border dir a.map_size x y i || is_wall (tile_at a.map tx ty))) [
        | inl stop ↦ rw stop (λ p q h. h, omega arith, refl, refl)
        | inr go ↦
            let free =
              (or_false (at_border dir a.map_size x y i) (is_wall (tile_at a.map tx ty)) go).1 in
            let (walls, many, queue, log) = spread_from_lem dir x y n (i + 1) next after in
            rw go (
              λ p q h. walls p q (put_tile-wall a.map tx ty p q explosion_tile free h),
              omega (arith, many, length-append e.spread_positions ((tx, ty) ∷ [])),
              queue,
              log,
            )
      ]

  Spreads-then :
      (m n : ℕ) (e : ExplosionInfo Time) (a : Arena Time) (p r : ExplosionInfo Time × Arena Time)
      → Spreads m e a p
      → Spreads n p.0 p.1 r
      → Spreads (m + n) e a r
  Spreads-then m n e a p r (walls, many, queue, log) (walls', many', queue', log') =
      (λ u v h. walls' u v (walls u v h), omega (arith, many, many'), queue' ∙ queue, log' ∙ log)

  spread_all_lem :
      (bomb : BombInfo Time) (e : ExplosionInfo Time) (a : Arena Time)
      → Spreads (bomb.spread + bomb.spread + bomb.spread + bomb.spread) e a (spread_all bomb e a)
  unfolding spread_all
  spread_all_lem bomb e a =
      let n = bomb.spread in
      let r1 = spread_from up bomb.x bomb.y n 1 e a in
      let r2 = spread_from down bomb.x bomb.y n 1 r1.0 r1.1 in
      let r3 = spread_from left bomb.x bomb.y n 1 r2.0 r2.1 in
      let r4 = spread_from right bomb.x bomb.y n 1 r3.0 r3.1 in
      Spreads-then (n + n + n) n e a r3 r4
        (Spreads-then (n + n) n e a r2 r3
          (Spreads-then n n e a r1 r2 (spread_from_lem up bomb.x bomb.y n 1 e a)
            (spread_from_lem down bomb.x bomb.y n 1 r1.0 r1.1))
          (spread_from_lem left bomb.x bomb.y n 1 r2.0 r2.1))
        (spread_from_lem right bomb.x bomb.y n 1 r3.0 r3.1)

  -- The explosion that is queued for a bomb has at most four times the reach of the bomb as positions,
  -- for which its array is allocated.
  pub length-spread_positions :
      (lifetime : Time) (bomb : BombInfo Time) (a : Arena Time)
      → length (spread_all bomb (new_explosion lifetime bomb) a).0.spread_positions
        ≤ 4 * bomb.spread
  length-spread_positions lifetime bomb a =
      let (_, many, _, _) = spread_all_lem bomb (new_explosion lifetime bomb) a in
      omega (arith, many)

  -- An explosion breaks no wall, leaves the bombs alone, and reports the position of its bomb.
  pub trigger_explosion_lem :
      (lifetime : Time) (bomb : BombInfo Time) (a : Arena Time)
      → KeepsWalls a.map (trigger_explosion lifetime bomb a).map
        × ((trigger_explosion lifetime bomb a).bombs_queue ≡ a.bombs_queue)
        × ((trigger_explosion lifetime bomb a).exploded ≡ (bomb.x, bomb.y) ∷ a.exploded)
  unfolding trigger_explosion
  trigger_explosion_lem lifetime bomb a =
      let logged = record a { exploded = (bomb.x, bomb.y) ∷ a.exploded } in
      let (walls, _, queue, log) = spread_all_lem bomb (new_explosion lifetime bomb) logged in
      (walls, queue, log)
