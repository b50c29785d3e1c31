-- ===== src/Tetris/Session/Same.antt =====
-- What actions and ticks leave alone: the players' ids and the marks of their reports.
use corestack_50005_htt.Prelude.{ℕ, zero, suc, ◌+◌, ◌≡◌, refl, ◌∙◌, not, ◌||◌}
use corestack_50005_htt.Prelude.{
  if◌then◌else◌, if_both, List, [], ◌∷◌, Option, none, some, Draws, ◌==◌,
}
use corestack_50005_htt.Prelude.{get_or, set, length, length-set}
use corestack_50005_htt.Tetris.State.{GameState}
use corestack_50005_htt.Tetris.Engine.{update_timers}
use corestack_50005_htt.Tetris.Session.{PlayerSlot, GameSession, PlayerAction, slot_at, put_slot}
use corestack_50005_htt.Tetris.Session.{
  act, settle, is_out, apply_action, tick_slot, tick_slots, tick_session, zero_slot, eliminate,
  roster_after, action_none, action_quit,
}

-- The slots of the two sessions hold the same players with the same marks.
pub record Same (s t : GameSession) : Type 0 where
  pub count : t.count ≡ s.count
  pub places : length t.players ≡ length s.players
  pub marks : (j : ℕ) → (slot_at t j).elim_reported ≡ (slot_at s j).elim_reported
  pub ids : (j : ℕ) → (slot_at t j).player_id ≡ (slot_at s j).player_id

pub Same-refl : (s : GameSession) → Same s s
Same-refl s = record { count = refl; places = refl; marks = λ j. refl; ids = λ j. refl }

pub Same-trans : {s t u : GameSession} → Same s t → Same t u → Same s u
Same-trans a b = record {
  count = b.count ∙ a.count;
  places = b.places ∙ a.places;
  marks = λ j. b.marks j ∙ a.marks j;
  ids = λ j. b.ids j ∙ a.ids j;
}

-- A value that has in common with the one in its place what `f` reads.
pub get_or-set_like {ℓ κ} :
    {A : Type ℓ} {B : Type κ} (f : A → B) (xs : List A) (i j : ℕ) (v d : A)
    → f v ≡ f (get_or xs i d)
    → f (get_or (set xs i v) j d) ≡ f (get_or xs j d)
get_or-set_like f [] i j v d e = refl
get_or-set_like f (x ∷ xs) zero zero v d e = e
get_or-set_like f (x ∷ xs) zero (suc j) v d e = refl
get_or-set_like f (x ∷ xs) (suc i) zero v d e = refl
get_or-set_like f (x ∷ xs) (suc i) (suc j) v d e = get_or-set_like f xs i j v d e

pub put_slot-Same :
    (s : GameSession) (i : ℕ) (slot : PlayerSlot)
    → slot.elim_reported ≡ (slot_at s i).elim_reported
    → slot.player_id ≡ (slot_at s i).player_id
    → Same s (put_slot s i slot)
put_slot-Same s i slot marked named = record {
  count = refl;
  places = length-set s.players i slot;
  marks = λ j.
      get_or-set_like (λ (p : PlayerSlot). p.elim_reported) s.players i j slot zero_slot marked;
  ids = λ j. get_or-set_like (λ (p : PlayerSlot). p.player_id) s.players i j slot zero_slot named;
}

settle_lem :
    (action : PlayerAction) (slot : PlayerSlot) (s : GameState)
    → ((settle action slot s).elim_reported ≡ slot.elim_reported)
      × ((settle action slot s).player_id ≡ slot.player_id)
unfolding settle
settle_lem action_none slot s = (refl, refl)
settle_lem action_quit slot s = (refl, refl)
settle_lem action slot s = (refl, refl)

pub apply_action-Same :
    (session : GameSession) (found : Option ℕ) (action : PlayerAction) (d : Draws)
    → Same session (apply_action session found action d).0
unfolding apply_action
apply_action-Same session none action d = Same-refl session
apply_action-Same session (some i) action d =
    let slot = slot_at session i in
    let (s, d') = act session.roster action slot.state d in
    let (marked, named) = settle_lem action slot s in
    let put = put_slot-Same session i (settle action slot s) marked named in
    if_both (λ (o : GameSession × Draws). Same session o.0) (is_out slot) (session, d)
      (
        record (put_slot session i (settle action slot s)) {
          roster = roster_after action slot session.roster;
        },
        d',
      )
      (λ _. Same-refl session)
      (λ _. record { count = refl; places = put.places; marks = put.marks; ids = put.ids })

tick_slot-Same :
    (session : GameSession) (i : ℕ) (d : Draws) → Same session (tick_slot session i d).0
unfolding tick_slot
tick_slot-Same session i d =
    let slot = slot_at session i in
    let (s, changed, d') = update_timers slot.state d in
    let over = not (s.game_over == 0) in
    let ticked = record slot { state = s; dirty = slot.dirty || changed || over } in
    let put = put_slot-Same session i ticked refl refl in
    if_both (λ (o : GameSession × Draws). Same session o.0) (is_out slot) (session, d)
      (
        record (put_slot session i ticked) {
          roster = if over then eliminate session.roster slot.player_id else session.roster;
        },
        d',
      )
      (λ _. Same-refl session)
      (λ _. record { count = refl; places = put.places; marks = put.marks; ids = put.ids })

tick_slots-Same :
    (n i : ℕ) (session : GameSession) (d : Draws) → Same session (tick_slots n i session d).0
unfolding tick_slots
tick_slots-Same zero i session d = Same-refl session
tick_slots-Same (suc n) i session d =
    let (t, d') = tick_slot session i d in
    Same-trans (tick_slot-Same session i d) (tick_slots-Same n (i + 1) t d')

pub tick_session-Same :
    (session : GameSession) (d : Draws) → Same session (tick_session session d).0
unfolding tick_session
tick_session-Same session d = tick_slots-Same session.count 0 session d
