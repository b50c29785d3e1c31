-- ===== src/Tetris/Hub/Ending.antt =====
-- How the match of all rooms ends: the winner, and that there is one announcement.
use corestack_50005_htt.Prelude.{ℕ, suc, ◌+◌, ◌<◌, ◌≤◌, ◌≡◌, refl, true, false, arith}
use corestack_50005_htt.Prelude.{if◌then◌else◌, List, [], ◌∷◌, get_or, length}
use corestack_50005_htt.Prelude.{◌==◌, ltb, Bool-cases, inl, inr, ◌⊎◌}
use corestack_50005_htt.Tetris.Hub.State.{Room, Master, Effect, HubMsg}
use corestack_50005_htt.Tetris.Hub.State.{sends}
use corestack_50005_htt.Tetris.Hub.State.{hub_gameover, PlayerRec}
use corestack_50005_htt.Tetris.Hub.Match.{send_each, check_global_end, count_alive, is_over}

-- The ids of the living players, in their order.
abbrev pub living : List PlayerRec → List ℕ
living [] = []
living (p ∷ players) = let rest = living players in if p.alive then p.id ∷ rest else rest

-- The message on the hub of each room in use, in the order of the slots.
abbrev pub to_all_used : HubMsg → List Room → List Effect
to_all_used msg [] = []
to_all_used msg (r ∷ rooms) =
    let rest = to_all_used msg rooms in if r.used then sends r.hub_fd msg ∷ rest else rest

send_each-used :
    (msg : HubMsg) (rooms : List Room) → send_each (λ r. r.used) msg rooms ≡ to_all_used msg rooms
unfolding send_each
send_each-used msg [] = refl
send_each-used msg (r ∷ rooms) = rw (send_each-used msg rooms)

count_alive_lem :
    (players : List PlayerRec) (alive last : ℕ)
    → ((count_alive players alive last).0 ≡ alive + length (living players))
      × (length (living players) ≡ 0 → (count_alive players alive last).1 ≡ last)
      × (length (living players) ≡ 1
          → (count_alive players alive last).1 ≡ get_or (living players) 0 0)
unfolding count_alive
count_alive_lem [] alive last = (omega arith, λ e. refl, λ e. absurd (omega arith))
count_alive_lem (p ∷ players) alive last = elim (Bool-cases p.alive) [
  | inl e ↦
      let (n, at_end, before) = count_alive_lem players (alive + 1) p.id in
      rw e (
        omega arith,
        λ (h : suc (length (living players)) ≡ 0). absurd (omega arith),
        λ (h : suc (length (living players)) ≡ 1). at_end (omega arith),
      )
  | inr e ↦ rw e (count_alive_lem players alive last)
]

-- The one player that lives, and 0 for none.
abbrev pub winner : List ℕ → ℕ
winner [] = 0
winner (id ∷ []) = id
winner (id ∷ id' ∷ ids) = 0

-- With two players or more the match is over when at most one lives, with one player when he does not.
abbrev pub Over : List PlayerRec → Type 0
Over players =
    ((2 ≤ length players) × (length (living players) ≤ 1))
    ⊎ ((length players ≡ 1) × (length (living players) ≡ 0))

is_over_lem :
    (n k : ℕ)
    → 0 < n
    → (((2 ≤ n) × (k ≤ 1)) ⊎ ((n ≡ 1) × (k ≡ 0))) × (is_over n k ≡ true)
      ⊎ (¬ (((2 ≤ n) × (k ≤ 1)) ⊎ ((n ≡ 1) × (k ≡ 0)))) × (is_over n k ≡ false)
is_over_lem n k h = elim (Bool-cases (ltb 1 n)) [
  | inl many ↦ elim (Bool-cases (ltb k 2)) [
    | inl few ↦ inl (inl (ground arith, ground arith), ground arith)
    | inr more ↦ inr (λ o. ground arith, ground arith)
  ]
  | inr one ↦ elim (Bool-cases (k == 0)) [
    | inl none_left ↦ inl (inr (ground arith, ground arith), ground arith)
    | inr one_left ↦ inr (λ o. ground arith, ground arith)
  ]
]

winner_lem :
    (ids : List ℕ) (last : ℕ)
    → (length ids ≡ 1 → last ≡ get_or ids 0 0)
    → (if length ids == 1 then last else 0) ≡ winner ids
winner_lem [] last h = refl
winner_lem (id ∷ []) last h = h refl
winner_lem (id ∷ id' ∷ ids) last h = ground arith

-- Either the end of the match was announced before, or there is no player, or the match is not over, and
-- nothing happens. Or it is over, and each room in use, and no other, is told once who has won: the one
-- player that lives, or 0 where none does.
pub check_global_end_lem :
    (m : Master)
    → (((m.match_ended ≡ true) ⊎ (length m.players ≡ 0) ⊎ (¬ (Over m.players)))
        × (check_global_end m ≡ (m, [])))
      ⊎ ((m.match_ended ≡ false)
          × Over m.players
          × (check_global_end m ≡ (
            record m { match_ended = true },
            to_all_used (hub_gameover (winner (living m.players))) m.rooms,
          )))
unfolding check_global_end
check_global_end_lem m = elim (Bool-cases m.match_ended) [
  | inl ended ↦ inl (inl ended, rw ended refl)
  | inr open_still ↦ elim (Bool-cases (length m.players == 0)) [
    | inl empty ↦ inl (inr (inl (ground arith)), rw (open_still, empty) refl)
    | inr some_player ↦
        let (number, _, last) = count_alive_lem m.players 0 0 in
        let total : (count_alive m.players 0 0).0 ≡ length (living m.players) = omega arith in
        elim (is_over_lem (length m.players) (length (living m.players)) (ground arith)) [
          | inl (over, test) ↦ inr (
            open_still,
            over,
            rw (open_still, some_player, total, test)
                (rw
                  (
                    winner_lem (living m.players) (count_alive m.players 0 0).1 last,
                    send_each-used (hub_gameover (winner (living m.players))) m.rooms,
                  )
                  refl),
          )
          | inr (going_on, test) ↦
              inl (inr (inr going_on), rw (open_still, some_player, total, test) refl)
        ]
  ]
]
