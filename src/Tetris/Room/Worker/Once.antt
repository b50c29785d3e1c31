-- ===== src/Tetris/Room/Worker/Once.antt =====
-- Over a whole match the reports of eliminations are the marks on the slots.
use corestack_50005_htt.Prelude.{ℕ, zero, suc, ◌+◌, ◌≤◌, ◌<◌, ◌≡◌, ◌≢◌, refl, ap, sym, ◌∙◌, ◌||◌}
use corestack_50005_htt.Prelude.{if_both, List, [], ◌∷◌, ◌++◌, Draws, ◌==◌, arith}
use corestack_50005_htt.Prelude.{length, Bool-cases, inl, inr, ==→≡}
use corestack_50005_htt.Tetris.Session.{GameSession, slot_at, tick_session}
use corestack_50005_htt.Tetris.Session.Same.{Same, Same-trans, tick_session-Same}
use corestack_50005_htt.Tetris.Protocol.{StatePayload}
use corestack_50005_htt.Tetris.Room.Worker.Frame.{
  drain_requests-Same, drain_hub-Same, route_garbage-Same, push_states-Same,
}
use corestack_50005_htt.Tetris.Room.Worker.Reports.{
  told, told-append, marked, mark_of, marked-Same, report_eliminations_lem,
  report_eliminations_frame, report_eliminations_ids,
}
use corestack_50005_htt.Tetris.Room.Worker.{
  RoomEffect, Worker, Inbox, drain_requests, drain_hub, report_eliminations, route_garbage,
  push_states, advance, tick_worker, run_worker, max_msgs_per_tick,
}
use corestack_50005_htt.Tetris.Room.Worker.Quiet.{
  told-route_garbage, told-push_states, told-drain_hub,
}

-- The effects report the player as often as slots of the player are marked between the two sessions.
record Tally (id : ℕ) (s : GameSession) (out : List RoomEffect) (t : GameSession) : Type 0 where
  balance : told id out + marked id s s.count 0 ≡ marked id t t.count 0
  count : t.count ≡ s.count
  places : length t.players ≡ length s.players
  ids : (j : ℕ) → (slot_at t j).player_id ≡ (slot_at s j).player_id

Tally-trans :
    {id : ℕ} {s t u : GameSession} {out later : List RoomEffect}
    → Tally id s out t
    → Tally id t later u
    → Tally id s (out ++ later) u
Tally-trans {id} {out = out} {later = later} a b = record {
  balance = omega (arith, told-append id out later, a.balance, b.balance);
  count = b.count ∙ a.count;
  places = b.places ∙ a.places;
  ids = λ j. b.ids j ∙ a.ids j;
}

Same-Tally :
    (id : ℕ) {s t : GameSession} (out : List RoomEffect)
    → told id out ≡ 0
    → Same s t
    → Tally id s out t
Same-Tally id {s} {t} out quiet same = record {
  balance =
      ap (λ n. n + marked id s s.count 0) quiet
      ∙ omega arith
      ∙ sym (marked-Same id s.count 0 same)
      ∙ ap (λ n. marked id t n 0) (sym same.count);
  count = same.count;
  places = same.places;
  ids = same.ids;
}

report-Tally :
    (id : ℕ) (s : GameSession)
    → s.count ≤ length s.players
    → let o = report_eliminations s.count 0 s in Tally id s o.1 o.0
report-Tally id s h =
    let t = (report_eliminations s.count 0 s).0 in
    let (counted, places) = report_eliminations_frame s.count 0 s in
    record {
      balance =
          report_eliminations_lem id s.count 0 s (omega arith)
          ∙ ap (λ n. marked id t n 0) (sym counted);
      count = counted;
      places = places;
      ids = report_eliminations_ids s.count 0 s;
    }

advance-Tally :
    (id : ℕ) (blank : StatePayload) (w : Worker) (d : Draws)
    → w.session.count ≤ length w.session.players
    → let o = advance blank w d in Tally id w.session o.1 o.0.session
unfolding advance
advance-Tally id blank w d h =
    let (ticked, d1) = tick_session w.session d in
    let (reported, news) = report_eliminations ticked.count 0 ticked in
    let (routed, hits, d2) = route_garbage w.global reported.count 0 reported d1 in
    let (pushed, shown) = push_states blank routed.count 0 routed in
    let same = tick_session-Same w.session d in
    let first : Tally id w.session [] ticked = Same-Tally id [] refl same in
    let second : Tally id ticked news reported =
      report-Tally id ticked (omega (arith, same.count, same.places)) in
    let third : Tally id reported hits routed =
      Same-Tally id hits (told-route_garbage id w.global reported.count 0 reported d1)
        (route_garbage-Same w.global reported.count 0 reported d1) in
    let fourth : Tally id routed shown pushed =
      Same-Tally id shown (told-push_states id blank routed.count 0 routed)
        (push_states-Same blank routed.count 0 routed) in
    Tally-trans first (Tally-trans second (Tally-trans third fourth))

tick_worker-Tally :
    (id : ℕ) (blank : StatePayload) (inbox : Inbox) (w : Worker) (d : Draws)
    → w.session.count ≤ length w.session.players
    → let o = tick_worker blank inbox w d in Tally id w.session o.1 o.0.session
unfolding tick_worker
tick_worker-Tally id blank inbox w d h =
    let (acted, d1) = drain_requests max_msgs_per_tick inbox.requests w.session d in
    let start : Worker = record w { session = acted } in
    let (heard, out) = drain_hub inbox.msgs start in
    let stopped : Worker = record heard { match_over = heard.match_over || inbox.gone } in
    let (after, later, d2) = advance blank stopped d1 in
    let same =
      Same-trans (drain_requests-Same max_msgs_per_tick inbox.requests w.session d)
        (drain_hub-Same inbox.msgs start) in
    let first : Tally id w.session out heard.session =
      Same-Tally id out (told-drain_hub id inbox.msgs start) same in
    if_both (λ (o : Worker × List RoomEffect × Draws). Tally id w.session o.1 o.0.session)
      stopped.match_over (stopped, out, d1) (after, out ++ later, d2) (λ _. first)
      (λ _.
        Tally-trans first
          (advance-Tally id blank stopped d1 (omega (arith, same.count, same.places))))

run_worker-Tally :
    (id : ℕ) (blank : StatePayload) (inboxes : List Inbox) (w : Worker) (d : Draws)
    → w.session.count ≤ length w.session.players
    → let o = run_worker blank inboxes w d in Tally id w.session o.1 o.0.session
unfolding run_worker
run_worker-Tally id blank [] w d h = record {
  balance = omega arith;
  count = refl;
  places = refl;
  ids = λ j. refl;
}
run_worker-Tally id blank (inbox ∷ inboxes) w d h =
    let (w', out, d') = tick_worker blank inbox w d in
    let (w'', later, d'') = run_worker blank inboxes w' d' in
    let first = tick_worker-Tally id blank inbox w d h in
    if_both (λ (o : Worker × List RoomEffect × Draws). Tally id w.session o.1 o.0.session)
      w.match_over (w, [], d) (w'', out ++ later, d'')
      (λ _. record { balance = omega arith; count = refl; places = refl; ids = λ j. refl })
      (λ _.
        Tally-trans first
          (run_worker-Tally id blank inboxes w' d' (omega (arith, first.count, first.places))))

-- No two slots in use are of one player.
abbrev pub Distinct : GameSession → Type 0
Distinct s =
    (i j : ℕ)
    → i < s.count
    → j < s.count
    → (slot_at s i).player_id ≡ (slot_at s j).player_id
    → i ≡ j

marked_none :
    (id : ℕ) (s : GameSession) (n i : ℕ)
    → ((j : ℕ) → i ≤ j → j < i + n → (slot_at s j).player_id ≢ id)
    → marked id s n i ≡ 0
unfolding marked
marked_none id s zero i h = refl
marked_none id s (suc n) i h =
    let other = h i (omega arith) (omega arith) in
    let bit : mark_of id (slot_at s i) ≡ 0 = ground arith in
    omega (arith, marked_none id s n (i + 1) (λ j a b. h j (omega arith) (omega arith)))

marked-le_one :
    (id : ℕ) (s : GameSession) (n i : ℕ)
    → ((j k : ℕ)
        → j < i + n
        → k < i + n
        → (slot_at s j).player_id ≡ (slot_at s k).player_id
        → j ≡ k)
    → marked id s n i ≤ 1
unfolding marked
marked-le_one id s zero i h = omega arith
marked-le_one id s (suc n) i h = elim (Bool-cases ((slot_at s i).player_id == id)) [
  | inl same ↦
      let here : (slot_at s i).player_id ≡ id = ==→≡ (slot_at s i).player_id id same in
      let rest =
        marked_none id s n (i + 1)
          (λ j a b e. absurd (omega (arith, h i j (omega arith) (omega arith) (here ∙ sym e)))) in
      let bit : mark_of id (slot_at s i) ≤ 1 = ground arith in omega arith
  | inr other ↦
      let bit : mark_of id (slot_at s i) ≡ 0 = ground (arith, other) in
      omega (arith, marked-le_one id s n (i + 1) (λ j k a b. h j k (omega arith) (omega arith)))
]

-- Over a whole match of a room whose players have different ids, whatever the clients and the master send, the
-- reports of a player's elimination, together with the mark that the slot had at the start, are the mark that
-- it has at the end; so the master is told at most once.
pub eliminated_once :
    (id : ℕ) (blank : StatePayload) (inboxes : List Inbox) (w : Worker) (d : Draws)
    → w.session.count ≤ length w.session.players
    → Distinct w.session
    → let o = run_worker blank inboxes w d in
      let end = o.0.session in
      (told id o.1 + marked id w.session w.session.count 0 ≡ marked id end end.count 0)
      × (told id o.1 ≤ 1)
eliminated_once id blank inboxes w d h distinct =
    let t = run_worker-Tally id blank inboxes w d h in
    let s = (run_worker blank inboxes w d).0.session in
    let few = marked-le_one id s s.count 0 (λ j k a b e.
      distinct j k (omega (arith, t.count)) (omega (arith, t.count))
        (sym (t.ids j) ∙ e ∙ t.ids k)) in
    (t.balance, omega (arith, t.balance))
