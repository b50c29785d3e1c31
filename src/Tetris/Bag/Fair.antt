-- ===== src/Tetris/Bag/Fair.antt =====
-- The 7-bag of bag.c deals fairly, whatever `rand()` returns.
use corestack_50005_htt.Prelude.{
  ℕ, zero, suc, ◌+◌, ◌-◌, ◌%◌, ◌≤◌, ◌<◌, ◌≡◌, refl, ap, ap₂, subst, ◌∙◌,
}
use native.Mathlib.Numerals.{add-one}
use corestack_50005_htt.Prelude.{true, false, List, [], ◌∷◌, ◌++◌, length, get_or, set, arith}
use corestack_50005_htt.Prelude.{All, Draws, count, count-swap, count-get_or, length-set}
use corestack_50005_htt.Prelude.{take, drop, append-nil, drop-append, length-append}
use corestack_50005_htt.Prelude.{copy_ahead, copy_into, copy_ahead_lem, copy_into_lem, leb}
use corestack_50005_htt.Prelude.{Bool-cases, inl, inr, drop-cons_get, take-all}
use corestack_50005_htt.Tetris.State.{GameState}
use corestack_50005_htt.Tetris.Bag.{
  spawn_x, spawn_y, swap, shuffle_from, shuffle_array, kinds, refill_bag, spawn_new_piece,
}

shuffle_from_lem :
    (i : ℕ) (array : List ℕ) (d : Draws)
    → i < length array
    → (length (shuffle_from i array d).0 ≡ length array)
      × ((v : ℕ) → count v (shuffle_from i array d).0 ≡ count v array)
unfolding shuffle_from
shuffle_from_lem zero array d h = (refl, λ v. refl)
shuffle_from_lem (suc i) array d h =
    let j = d 0 % (suc i + 1) in
    let size : length (swap array (suc i) j) ≡ length array =
      length-set (set array (suc i) (get_or array j 0)) j (get_or array (suc i) 0)
      ∙ length-set array (suc i) (get_or array j 0) in
    let (len, counts) = shuffle_from_lem i (swap array (suc i) j) (λ n. d (suc n)) (omega arith) in
    (len ∙ size, λ v. counts v ∙ count-swap v array (suc i) j h (omega arith))

-- `shuffle_array` of a whole array of at least one element leaves its length and how often each
-- number stands in it, for all values of `rand()`.
pub shuffle_array_lem :
    (array : List ℕ) (d : Draws)
    → 1 ≤ length array
    → (length (shuffle_array array (length array) d).0 ≡ length array)
      × ((v : ℕ) → count v (shuffle_array array (length array) d).0 ≡ count v array)
unfolding shuffle_array
shuffle_array_lem array d h = shuffle_from_lem (length array - 1) array d (omega arith)

-- Seven numbers, each of 1 to 7 once.
pub record IsDeal (l : List ℕ) : Type 0 where
  pub size : length l ≡ 7
  pub each : (v : ℕ) → count v l ≡ count v kinds

-- The two halves of `bag`, each one deal, and the index in the first.
pub record IsBag (bag : List ℕ) (bag_index : ℕ) : Type 0 where
  pub first : List ℕ
  pub second : List ℕ
  pub halves : bag ≡ first ++ second
  pub first_deal : IsDeal first
  pub second_deal : IsDeal second
  pub index : bag_index < 7

pub shuffle-IsDeal : (d : Draws) → IsDeal (shuffle_array kinds 7 d).0
shuffle-IsDeal d =
    let (len, counts) = shuffle_array_lem kinds d (omega arith) in
    record { size = len; each = counts }

-- `refill_bag` moves the second half of the bag to the front and puts a shuffled deal behind it.
pub refill_bag_lem :
    (s : GameState) (d : Draws) (first second : List ℕ)
    → length first ≡ 7
    → length second ≡ 7
    → s.bag ≡ first ++ second
    → (refill_bag s d).0.bag ≡ second ++ (shuffle_array kinds 7 d).0
unfolding refill_bag
refill_bag_lem s d first second hf hs e =
    let new = (shuffle_array kinds 7 d).0 in
    let rest : drop 7 (first ++ second) ≡ second = rw (← hf) (drop-append first second) in
    let down : copy_ahead 0 7 0 7 (first ++ second) ≡ second ++ (second ++ []) =
      copy_ahead_lem 0 7 0 6 [] (first ++ second) refl (omega (arith, length-append first second))
      ∙ rw (rest, append-nil second) in
    let up : copy_into 0 7 0 7 new (second ++ (second ++ [])) ≡ second ++ (new ++ []) =
      copy_into_lem 0 7 0 7 second second [] [] new (omega arith) hs refl (shuffle-IsDeal d).size in
    rw (e, down, up, append-nil new)

-- The kinds are 1 to 7.
IsDeal-range : {l : List ℕ} (i : ℕ) → IsDeal l → i < 7 → (1 ≤ get_or l i 0) × (get_or l i 0 ≤ 7)
IsDeal-range {l} i h lt = ground (arith, h.each (get_or l i 0), count-get_or l i, h.size)

get_or-first :
    (first second : List ℕ) (i : ℕ)
    → i < length first
    → get_or (first ++ second) i 0 ≡ get_or first i 0
get_or-first [] second i h = absurd (omega arith)
get_or-first (x ∷ first) second zero h = refl
get_or-first (x ∷ first) second (suc i) h = get_or-first first second i (omega arith)

-- The two branches of `spawn_new_piece`.
spawn-draw :
    (s : GameState) (d : Draws)
    → leb 7 (s.bag_index + 1) ≡ false
    → spawn_new_piece s d ≡ (
      record s {
        bag_index = s.bag_index + 1;
        current = record { type = get_or s.bag s.bag_index 0; rot = 0; x = spawn_x; y = spawn_y };
        has_held = false;
      },
      d,
    )
unfolding spawn_new_piece
spawn-draw s d e = rw e

spawn-refill :
    (s : GameState) (d : Draws)
    → leb 7 (s.bag_index + 1) ≡ true
    → spawn_new_piece s d ≡ (
        let (t, d') = refill_bag (record s { bag_index = s.bag_index + 1 }) d in
        (
          record t {
            current = record {
              type = get_or s.bag s.bag_index 0;
              rot = 0;
              x = spawn_x;
              y = spawn_y;
            };
            has_held = false;
          },
          d',
        ))
unfolding spawn_new_piece
spawn-refill s d e = rw e

bag_index-refill : (s : GameState) (d : Draws) → (refill_bag s d).0.bag_index ≡ 0
unfolding refill_bag
bag_index-refill s d = refl

-- Where the bag is two whole deals, the next piece is the kind at the index of the first, 1 to 7,
-- and `spawn_new_piece` leaves a bag of two whole deals.
pub spawn-IsBag :
    (s : GameState) (d : Draws) (b : IsBag s.bag s.bag_index)
    → let s' = (spawn_new_piece s d).0 in
      IsBag s'.bag s'.bag_index
      × (s'.current.type ≡ get_or b.first s.bag_index 0)
      × (1 ≤ s'.current.type)
      × (s'.current.type ≤ 7)
spawn-IsBag s d b =
    let kind : get_or s.bag s.bag_index 0 ≡ get_or b.first s.bag_index 0 =
      rw (b.halves)
        (get_or-first b.first b.second s.bag_index (omega (arith, b.index, b.first_deal.size))) in
    let range = IsDeal-range s.bag_index b.first_deal b.index in
    elim (Bool-cases (leb 7 (s.bag_index + 1))) [
      | inl e ↦
          let t = record s { bag_index = s.bag_index + 1 } in
          rw (spawn-refill s d e) (
            record {
              first = b.second;
              second = (shuffle_array kinds 7 d).0;
              halves =
                  refill_bag_lem t d b.first b.second b.first_deal.size b.second_deal.size b.halves;
              first_deal = b.second_deal;
              second_deal = shuffle-IsDeal d;
              index = omega (arith, bag_index-refill t d);
            },
            kind,
            rw kind range.0,
            rw kind range.1,
          )
      | inr e ↦ rw (spawn-draw s d e) (
        record {
          first = b.first;
          second = b.second;
          halves = b.halves;
          first_deal = b.first_deal;
          second_deal = b.second_deal;
          index = ground arith;
        },
        kind,
        rw kind range.0,
        rw kind range.1,
      )
    ]

-- The kinds of the next `n` pieces that are drawn from the bag, and the state behind them; the draws before
-- each piece are arbitrary, since other code calls `rand()` in between.
unfoldable pub deal : ℕ → GameState → (ℕ → Draws) → List ℕ
deal zero s ds = []
deal (suc n) s ds =
    (spawn_new_piece s (ds 0)).0.current.type
    ∷ deal n (spawn_new_piece s (ds 0)).0 (λ k. ds (suc k))

unfoldable pub spawns : ℕ → GameState → (ℕ → Draws) → GameState
spawns zero s ds = s
spawns (suc n) s ds = spawns n (spawn_new_piece s (ds 0)).0 (λ k. ds (suc k))

deal_lem :
    (n : ℕ) (s : GameState) (ds : ℕ → Draws) (b : IsBag s.bag s.bag_index)
    → s.bag_index + n ≤ 7
    → deal n s ds ≡ take n (drop s.bag_index b.first)
unfolding deal
deal_lem zero s ds b h = refl
deal_lem (suc zero) s ds b h =
    rw (drop-cons_get 0 s.bag_index b.first (omega (arith, b.first_deal.size)))
      (ap (λ k. k ∷ []) (spawn-IsBag s (ds 0) b).1)
deal_lem (suc (suc n)) s ds b h =
    let e : leb 7 (s.bag_index + 1) ≡ false = ground arith in
    let kind : get_or s.bag s.bag_index 0 ≡ get_or b.first s.bag_index 0 =
      rw (b.halves)
        (get_or-first b.first b.second s.bag_index (omega (arith, b.first_deal.size))) in
    let b' : IsBag s.bag (s.bag_index + 1) = record {
      first = b.first;
      second = b.second;
      halves = b.halves;
      first_deal = b.first_deal;
      second_deal = b.second_deal;
      index = omega arith;
    } in
    let drawn = record s {
      bag_index = s.bag_index + 1;
      current = record { type = get_or s.bag s.bag_index 0; rot = 0; x = spawn_x; y = spawn_y };
      has_held = false;
    } in
    let later = λ (k : ℕ). ds (suc k) in
    rw
      (
        drop-cons_get 0 s.bag_index b.first (omega (arith, b.first_deal.size)),
        spawn-draw s (ds 0) e,
      )
      (ap₂ ◌∷◌ kind (
        subst (λ k. deal (suc n) drawn later ≡ take (suc n) (drop k b.first)) (add-one s.bag_index)
          (deal_lem (suc n) drawn later b' (omega arith))))

-- A bag of two whole deals, at the start of the first.
abbrev pub Fresh : GameState → Type 0
Fresh s = IsBag s.bag s.bag_index × (s.bag_index ≡ 0)

-- Once the first deal is used up, the bag is fresh again.
spawns-Fresh :
    (n : ℕ) (s : GameState) (ds : ℕ → Draws)
    → IsBag s.bag s.bag_index
    → s.bag_index + suc n ≡ 7
    → Fresh (spawns (suc n) s ds)
unfolding spawns
spawns-Fresh zero s ds b h =
    let e : leb 7 (s.bag_index + 1) ≡ true = ground arith in
    let back : (spawn_new_piece s (ds 0)).0.bag_index ≡ 0 =
      ap (λ o. o.0.bag_index) (spawn-refill s (ds 0) e)
      ∙ bag_index-refill (record s { bag_index = s.bag_index + 1 }) (ds 0) in
    ((spawn-IsBag s (ds 0) b).0, back)
spawns-Fresh (suc n) s ds b h =
    let e : leb 7 (s.bag_index + 1) ≡ false = ground arith in
    let next : (spawn_new_piece s (ds 0)).0.bag_index ≡ s.bag_index + 1 =
      ap (λ o. o.0.bag_index) (spawn-draw s (ds 0) e) in
    spawns-Fresh n (spawn_new_piece s (ds 0)).0 (λ k. ds (suc k)) (spawn-IsBag s (ds 0) b).0
      (omega arith)

-- From a fresh bag seven pieces are a deal, and the bag is fresh again.
pub deal-Fresh :
    (s : GameState) (ds : ℕ → Draws) → Fresh s → IsDeal (deal 7 s ds) × Fresh (spawns 7 s ds)
deal-Fresh s ds (b, z) =
    let seven : deal 7 s ds ≡ b.first =
      deal_lem 7 s ds b (omega arith) ∙ rw z (take-all 7 b.first b.first_deal.size) in
    (rw seven (b.first_deal), spawns-Fresh 6 s ds b (omega arith))

-- The pieces in rounds of seven.
unfoldable pub rounds : ℕ → GameState → (ℕ → ℕ → Draws) → List (List ℕ)
rounds zero s ds = []
rounds (suc n) s ds = deal 7 s (ds 0) ∷ rounds n (spawns 7 s (ds 0)) (λ r. ds (suc r))

pub rounds-IsDeal :
    (n : ℕ) (s : GameState) (ds : ℕ → ℕ → Draws) → Fresh s → All IsDeal (rounds n s ds)
unfolding rounds
rounds-IsDeal zero s ds f = tt
rounds-IsDeal (suc n) s ds f =
    let (one, next) = deal-Fresh s (ds 0) f in
    (one, rounds-IsDeal n (spawns 7 s (ds 0)) (λ r. ds (suc r)) next)

-- `spawn_new_piece` changes the piece, the flag of the hold and the bag, and nothing else.
pub spawn_frame :
    (s : GameState) (d : Draws)
    → let s' = (spawn_new_piece s d).0 in
      s' ≡ record s {
        current = record { type = s'.current.type; rot = 0; x = spawn_x; y = spawn_y };
        has_held = false;
        bag = s'.bag;
        bag_index = s'.bag_index;
      }
unfolding refill_bag
spawn_frame s d = elim (Bool-cases (leb 7 (s.bag_index + 1))) [
  | inl e ↦ rw (spawn-refill s d e) refl
  | inr e ↦ rw (spawn-draw s d e) refl
]
