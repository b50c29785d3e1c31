-- ===== src/Bomb/Bombs/Ticks.antt =====
-- The fuses of the bombs, and the stock of a player.
use corestack_50005_htt.Prelude.{ℕ, zero, suc, ◌+◌, ◌-◌, ◌≤◌, ◌<◌, ◌≡◌, refl, sym, ap, ◌∙◌, arith}
use corestack_50005_htt.Prelude.{
  ◌∷◌, length, length-set, get_or, set, get_or-set_self, get_or-set_ne,
}
use corestack_50005_htt.Prelude.{
  Bool, true, false, ltb, leb, if◌then◌else◌, Bool-cases, ltb→lt, inl, inr,
}
use native.Mathlib.Decide.{ℕ_discrete}
use corestack_50005_htt.Bomb.Arena.{put_tile, empty_tile}
use corestack_50005_htt.Bomb.Bombs.{
  BombInfo, Arena, InventoryStock, tick_bomb, tick_bombs_from, trigger_explosion,
}
use corestack_50005_htt.Bomb.Bombs.{inventory_update}
use corestack_50005_htt.Bomb.Bombs.Spread.{trigger_explosion_lem}

-- A round brings the index and the rear closer.
closer :
    (removed : Bool) (rear i fuel after : ℕ)
    → after ≡ (if removed then rear - 1 else rear)
    → i < rear
    → rear ≤ i + suc fuel
    → after ≤ (if removed then i else i + 1) + fuel
closer true rear i fuel after e h enough = omega arith
closer false rear i fuel after e h enough = omega arith

module _ {Time : Type 0} (sub : Time → Time → Time) (expired : Time → Bool) where
  -- The bomb at an index of the queue.
  abbrev pub bomb_at : Arena Time → BombInfo Time → ℕ → BombInfo Time
  bomb_at a d i = get_or a.bombs_queue.items i d

  abbrev pub TimeIsUp : Time → BombInfo Time → Type 0
  TimeIsUp delta bomb = expired (sub bomb.timer delta) ≡ true

  -- A bomb whose time is up leaves the queue, and the last bomb takes its place. The explosion is reported
  -- at the position of that last bomb, which is the bomb itself only where it stands last.
  pub tick_bomb_lem :
      (lifetime delta : Time) (d : BombInfo Time) (i : ℕ) (a : Arena Time)
      → i < a.bombs_queue.rear
      → a.bombs_queue.rear ≤ length a.bombs_queue.items
      → TimeIsUp delta (bomb_at a d i)
      → (after : Arena Time) × (tick_bomb sub expired lifetime delta d i a ≡ (after, true))
        × (after.bombs_queue.rear ≡ a.bombs_queue.rear - 1)
        × (i + 1 < a.bombs_queue.rear → bomb_at after d i ≡ bomb_at a d (a.bombs_queue.rear - 1))
        × (after.exploded
            ≡ ((bomb_at a d (a.bombs_queue.rear - 1)).x, (bomb_at a d (a.bombs_queue.rear - 1)).y)
              ∷ a.exploded)
  unfolding tick_bomb
  tick_bomb_lem lifetime delta d i a inside fits up =
      let old = bomb_at a d i in
      let bomb = record old { timer = sub old.timer delta } in
      let last = a.bombs_queue.rear - 1 in
      let ticked = set a.bombs_queue.items i bomb in
      let moved = set ticked i (get_or ticked last d) in
      let here : get_or moved i d ≡ get_or ticked last d =
        get_or-set_self ticked i (get_or ticked last d) d
          (omega (arith, length-set a.bombs_queue.items i bomb)) in
      let start = record a {
        map = put_tile a.map bomb.x bomb.y empty_tile;
        bombs_queue = record a.bombs_queue { items = moved; rear = last };
      } in
      let after = trigger_explosion lifetime (get_or moved i d) start in
      let (_, queue, log) = trigger_explosion_lem lifetime (get_or moved i d) start in
      let kept : i + 1 < a.bombs_queue.rear → get_or ticked last d ≡ bomb_at a d last =
        λ early. get_or-set_ne a.bombs_queue.items bomb d (λ e. absurd (omega arith)) in
      let place : ((get_or ticked last d).x, (get_or ticked last d).y)
          ≡ ((bomb_at a d last).x, (bomb_at a d last).y) =
        elim (ℕ_discrete i last) [
          | yes e ↦
              ap (λ b. (b.x, b.y))
                (ap (λ k. get_or ticked k d) (sym e)
                  ∙ get_or-set_self a.bombs_queue.items i bomb d (omega arith))
              ∙ ap (λ k. ((bomb_at a d k).x, (bomb_at a d k).y)) e
          | no apart ↦ ap (λ b. (b.x, b.y)) (get_or-set_ne a.bombs_queue.items bomb d apart)
        ] in
      (
        after,
        rw up refl,
        ap (λ q. q.rear) queue,
        λ early. ap (λ q. get_or q.items i d) queue ∙ here ∙ kept early,
        log ∙ ap (λ b. (b.x, b.y) ∷ a.exploded) here ∙ ap (λ p. p ∷ a.exploded) place,
      )

  tick_bomb_rear :
      (lifetime delta : Time) (d : BombInfo Time) (i : ℕ) (a : Arena Time)
      → (tick_bomb sub expired lifetime delta d i a).0.bombs_queue.rear ≡ (
          if (tick_bomb sub expired lifetime delta d i a).1
          then a.bombs_queue.rear - 1
          else a.bombs_queue.rear)
  unfolding tick_bomb
  tick_bomb_rear lifetime delta d i a =
      let old = bomb_at a d i in
      let bomb = record old { timer = sub old.timer delta } in
      let last = a.bombs_queue.rear - 1 in
      let ticked = set a.bombs_queue.items i bomb in
      let moved = set ticked i (get_or ticked last d) in
      let start = record a {
        map = put_tile a.map bomb.x bomb.y empty_tile;
        bombs_queue = record a.bombs_queue { items = moved; rear = last };
      } in
      let (_, queue, _) = trigger_explosion_lem lifetime (get_or moved i d) start in
      elim (Bool-cases (expired bomb.timer)) [
        | inl up ↦ rw up (ap (λ q. q.rear) queue)
        | inr burning ↦ rw burning refl
      ]

  tick_bombs_past :
      (lifetime delta : Time) (d : BombInfo Time) (fuel i : ℕ) (a : Arena Time)
      → a.bombs_queue.rear ≤ i
      → tick_bombs_from sub expired lifetime delta d fuel i a ≡ a
  unfolding tick_bombs_from
  tick_bombs_past lifetime delta d zero i a h = refl
  tick_bombs_past lifetime delta d (suc fuel) i a h =
      let stop : ltb i a.bombs_queue.rear ≡ false = ground arith in rw stop refl

  -- The loop over the bombs ends: a round for each bomb from the index on is enough, and more rounds
  -- change nothing.
  pub tick_bombs_from_lem :
      (lifetime delta : Time) (d : BombInfo Time) (fuel more i : ℕ) (a : Arena Time)
      → a.bombs_queue.rear ≤ i + fuel
      → fuel ≤ more
      → tick_bombs_from sub expired lifetime delta d more i a
        ≡ tick_bombs_from sub expired lifetime delta d fuel i a
  unfolding tick_bombs_from
  tick_bombs_from_lem lifetime delta d zero more i a enough h =
      tick_bombs_past lifetime delta d more i a (omega arith)
  tick_bombs_from_lem lifetime delta d (suc fuel) zero i a enough h = absurd (omega arith)
  tick_bombs_from_lem lifetime delta d (suc fuel) (suc more) i a enough h =
      let (after, removed) = tick_bomb sub expired lifetime delta d i a in
      let rear = tick_bomb_rear lifetime delta d i a in
      let next = if removed then i else i + 1 in
      elim (Bool-cases (ltb i a.bombs_queue.rear)) [
        | inl go ↦ rw go (
            tick_bombs_from_lem lifetime delta d fuel more next after
              (closer removed a.bombs_queue.rear i fuel after.bombs_queue.rear rear
                (ltb→lt i a.bombs_queue.rear go) enough)
              (omega arith))
        | inr stop ↦ rw stop refl
      ]

  -- A stock of at most its bombs.
  abbrev pub IsStock : InventoryStock Time → Type 0
  IsStock s = s.remaining_bombs ≤ s.num_bombs

  -- The stock stays within its bounds when it is replenished, gains one bomb at most, and nothing once it
  -- is full.
  pub inventory_update-IsStock :
      (replenish_time delta : Time) (s : InventoryStock Time)
      → IsStock s
      → IsStock (inventory_update sub expired replenish_time s delta)
        × (s.remaining_bombs
            ≤ (inventory_update sub expired replenish_time s delta).remaining_bombs)
        × ((inventory_update sub expired replenish_time s delta).remaining_bombs
            ≤ s.remaining_bombs + 1)
        × ((inventory_update sub expired replenish_time s delta).num_bombs ≡ s.num_bombs)
  unfolding inventory_update
  inventory_update-IsStock replenish_time delta s h =
      let timer = sub s.bomb_replenish_timer delta in
      elim (Bool-cases (leb s.num_bombs s.remaining_bombs)) [
        | inl full ↦ rw full (h, omega arith, omega arith, refl)
        | inr short ↦
            let below : s.remaining_bombs < s.num_bombs = ground arith in
            elim (Bool-cases (expired timer)) [
              | inl due ↦ rw (short, due) (omega arith, omega arith, omega arith, refl)
              | inr early ↦ rw (short, early) (h, omega arith, omega arith, refl)
            ]
      ]
