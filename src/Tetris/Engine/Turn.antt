-- ===== src/Tetris/Engine/Turn.antt =====
-- What one landed piece does to the board, the garbage and the counters.
use corestack_50005_htt.Prelude.Int.{to_int}
use corestack_50005_htt.Prelude.{ℕ, ◌+◌, ◌-◌, ◌^◌, ◌<◌, ◌≡◌, refl, sym, ap, ◌∙◌}
use corestack_50005_htt.Prelude.{subst, Bool, Bool-cases, inl, inr, if◌then◌else◌, arith}
use corestack_50005_htt.Prelude.{ltb, ◌==◌, Draws, ◌&&◌}
use corestack_50005_htt.Prelude.Int.{ℤ, pos, negsuc, ◌+ℤ◌}
use corestack_50005_htt.Tetris.State.{GameState}
use corestack_50005_htt.Tetris.Board.{lock_piece, clear_lines}
use corestack_50005_htt.Tetris.Board.Clear.{clear_frame}
use corestack_50005_htt.Tetris.Bag.{spawn_new_piece}
use corestack_50005_htt.Tetris.Bag.Fair.{spawn_frame}
use corestack_50005_htt.Tetris.Garbage.{calculate_garbage}
use corestack_50005_htt.Tetris.Move.{piece_fits}
use corestack_50005_htt.Tetris.Engine.{cancel_garbage, take_garbage, next_piece, land}
use corestack_50005_htt.Tetris.Engine.{check_t_spin}
use corestack_50005_htt.Tetris.Engine.Ok.{cancel_garbage_lem, add_garbage_frame}

pub next_piece_frame :
    (s : GameState) (d : Draws)
    → let s' = (next_piece s d).0 in
      s' ≡ record s {
        current = s'.current;
        has_held = s'.has_held;
        bag = s'.bag;
        bag_index = s'.bag_index;
        game_over = s'.game_over;
      }
unfolding next_piece
next_piece_frame s d =
    let t = (spawn_new_piece s d).0 in
    elim (Bool-cases (piece_fits t t.current.x t.current.y)) [
      | inl e ↦ rw e (
          subst
            (λ u. u ≡ record s {
              current = u.current;
              has_held = u.has_held;
              bag = u.bag;
              bag_index = u.bag_index;
              game_over = u.game_over;
            })
            (sym (spawn_frame s d)) refl)
      | inr e ↦ rw e (
          subst
            (λ u.
              ◌≡◌ {A = GameState} (record u { game_over = 1 })
                (record s {
                  current = u.current;
                  has_held = u.has_held;
                  bag = u.bag;
                  bag_index = u.bag_index;
                  game_over = 1;
                }))
            (sym (spawn_frame s d)) refl)
    ]

take_garbage_frame :
    (s : GameState) (cleared : ℕ) (d : Draws)
    → let s' = (take_garbage s cleared d).0 in
      s' ≡ record s { board = s'.board; pending_garbage = s'.pending_garbage }
unfolding take_garbage
take_garbage_frame s cleared d = elim (Bool-cases (cleared == 0 && ltb 0 s.pending_garbage)) [
  | inl e ↦ rw e (
      ap (λ (u : GameState). record u { pending_garbage = 0 })
        (add_garbage_frame s (to_int s.pending_garbage) d))
  | inr e ↦ rw e refl
]

pub calculate_garbage_frame :
    (s : GameState) (n : ℕ) (t : Bool)
    → let s' = (calculate_garbage s n t).0 in s' ≡ record s { combo = s'.combo; b2b = s'.b2b }
unfolding calculate_garbage
calculate_garbage_frame s n t = elim (Bool-cases (n == 0)) [ inl e ↦ rw e refl | inr e ↦ rw e refl ]

-- The damage of a turn depends on the combo and the back-to-back flag alone.
calculate_garbage-same :
    (s t : GameState) (n : ℕ) (spin : Bool)
    → s.combo ≡ t.combo
    → s.b2b ≡ t.b2b
    → (calculate_garbage s n spin).1 ≡ (calculate_garbage t n spin).1
unfolding calculate_garbage
calculate_garbage-same s t n spin p q = elim (Bool-cases (n == 0)) [
  | inl e ↦ rw e refl
  | inr e ↦ rw (e, p, q) refl
]

-- The parts of the state through the steps of a landing, up to the cleared board.
abbrev pub spun_state : GameState → GameState
spun_state s = if check_t_spin s then record s { t_spins = s.t_spins + 1 } else s

abbrev pub placed_state : GameState → GameState
placed_state s = record (lock_piece (spun_state s)) {
  pieces_placed = (lock_piece (spun_state s)).pieces_placed + 1;
}

abbrev pub counted_state : GameState → GameState
counted_state s =
    let swept = (clear_lines (placed_state s)).0 in
    if (clear_lines (placed_state s)).1 == 4
    then record swept { tetrises = swept.tetrises + 1 }
    else swept

-- What the first steps leave of the state before them.
pub record Counted (s : GameState) : Type 0 where
  pub pending : (counted_state s).pending_garbage ≡ s.pending_garbage
  pub combo : (counted_state s).combo ≡ s.combo
  pub b2b : (counted_state s).b2b ≡ s.b2b
  pub pieces : (counted_state s).pieces_placed ≡ s.pieces_placed + 1
  pub spins : (counted_state s).t_spins ≡ s.t_spins + (if check_t_spin s then 1 else 0)
  pub fours :
      (counted_state s).tetrises
      ≡ s.tetrises + (if (clear_lines (placed_state s)).1 == 4 then 1 else 0)
  pub cleared_board : (counted_state s).board ≡ (clear_lines (placed_state s)).0.board

pub Counted-all : (s : GameState) → Counted s
unfolding lock_piece
Counted-all s =
    let frame = clear_frame (placed_state s) in
    record {
      pending = ground (arith, ap (λ (u : GameState). u.pending_garbage) frame);
      combo = ground (arith, ap (λ (u : GameState). u.combo) frame);
      b2b = ground (arith, ap (λ (u : GameState). u.b2b) frame);
      pieces = ground (arith, ap (λ (u : GameState). u.pieces_placed) frame);
      spins = ground (arith, ap (λ (u : GameState). u.t_spins) frame);
      fours = ground (arith, ap (λ (u : GameState). u.tetrises) frame);
      cleared_board = ground arith;
    }

-- The state of a turn before garbage, the garbage cancelled, and the garbage risen.
abbrev pub damage_of : GameState → ℕ
damage_of s =
    (calculate_garbage (counted_state s) (clear_lines (placed_state s)).1 (check_t_spin s)).1

abbrev pub charged_state : GameState → GameState
charged_state s =
    (calculate_garbage (counted_state s) (clear_lines (placed_state s)).1 (check_t_spin s)).0

abbrev pub cancelled_state : GameState → GameState
cancelled_state s = cancel_garbage (charged_state s) (damage_of s)

abbrev pub risen_state : GameState → Draws → GameState × Draws
risen_state s d = take_garbage (cancelled_state s) (clear_lines (placed_state s)).1 d

pending-take :
    (s : GameState) (cleared : ℕ) (d : Draws)
    → (take_garbage s cleared d).0.pending_garbage ≡ (if cleared == 0 then 0 else s.pending_garbage)
unfolding take_garbage
pending-take s cleared d = ground arith

combo-calculate :
    (s : GameState) (n : ℕ) (t : Bool)
    → (calculate_garbage s n t).0.combo ≡ (if n == 0 then negsuc 0 else s.combo +ℤ pos 1)
unfolding calculate_garbage
combo-calculate s n t = ground arith

-- A landed piece, where the pending garbage is below 2^31: the damage of its lines cancels pending garbage, and what is left of the damage is
-- sent; what is left of the pending garbage waits if lines were cleared, and is used up if not; the
-- combo grows by one with lines and falls to -1 without; and the pieces, the T-spins and the
-- four-line clears are counted.
pub land_lem :
    (s : GameState) (d : Draws)
    → s.pending_garbage < 2 ^ 31
    → let (t, cleared, _) = land s d in
      let damage = (calculate_garbage s cleared (check_t_spin s)).1 in
      (t.outgoing_garbage ≡ damage - s.pending_garbage)
      × (t.pending_garbage ≡ (if cleared == 0 then 0 else s.pending_garbage - damage))
      × (t.combo ≡ (if cleared == 0 then negsuc 0 else s.combo +ℤ pos 1))
      × (t.pieces_placed ≡ s.pieces_placed + 1)
      × (t.t_spins ≡ s.t_spins + (if check_t_spin s then 1 else 0))
      × (t.tetrises ≡ s.tetrises + (if cleared == 4 then 1 else 0))
unfolding land
land_lem s d small =
    let n = (clear_lines (placed_state s)).1 in
    let c = Counted-all s in
    let charge = calculate_garbage_frame (counted_state s) n (check_t_spin s) in
    let due : (charged_state s).pending_garbage ≡ s.pending_garbage =
      ap (λ (u : GameState). u.pending_garbage) charge ∙ c.pending in
    let (less, out, cancel) =
      cancel_garbage_lem (charged_state s) (damage_of s) (omega (arith, due, small)) in
    let take = take_garbage_frame (cancelled_state s) n d in
    let last = next_piece_frame (risen_state s d).0 (risen_state s d).1 in
    let same = calculate_garbage-same (counted_state s) s n (check_t_spin s) c.combo c.b2b in
    (
      ap (λ (u : GameState). u.outgoing_garbage) last
          ∙ ap (λ (u : GameState). u.outgoing_garbage) take
          ∙ omega (arith, out, same, due),
      ap (λ (u : GameState). u.pending_garbage) last
          ∙ pending-take (cancelled_state s) n d
          ∙ ground (arith, less, same, due),
      ap (λ (u : GameState). u.combo) last
          ∙ ap (λ (u : GameState). u.combo) take
          ∙ ap (λ (u : GameState). u.combo) cancel
          ∙ combo-calculate (counted_state s) n (check_t_spin s)
          ∙ ap (λ (z : ℤ). if n == 0 then negsuc 0 else z +ℤ pos 1) c.combo,
      ap (λ (u : GameState). u.pieces_placed) last
          ∙ ap (λ (u : GameState). u.pieces_placed) take
          ∙ ap (λ (u : GameState). u.pieces_placed) cancel
          ∙ ap (λ (u : GameState). u.pieces_placed) charge
          ∙ c.pieces,
      ap (λ (u : GameState). u.t_spins) last
          ∙ ap (λ (u : GameState). u.t_spins) take
          ∙ ap (λ (u : GameState). u.t_spins) cancel
          ∙ ap (λ (u : GameState). u.t_spins) charge
          ∙ c.spins,
      ap (λ (u : GameState). u.tetrises) last
          ∙ ap (λ (u : GameState). u.tetrises) take
          ∙ ap (λ (u : GameState). u.tetrises) cancel
          ∙ ap (λ (u : GameState). u.tetrises) charge
          ∙ c.fours,
    )
