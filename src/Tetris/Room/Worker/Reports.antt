-- ===== src/Tetris/Room/Worker/Reports.antt =====
-- The master is told of each elimination, and told once.
use corestack_50005_htt.Prelude.{
  ℕ, zero, suc, ◌+◌, ◌≤◌, ◌<◌, ◌≡◌, ◌≢◌, refl, ap, ◌∙◌, true, false, not, ◌&&◌,
}
use corestack_50005_htt.Prelude.{if◌then◌else◌, if_both, List, [], ◌∷◌, ◌++◌, ◌==◌, arith}
use corestack_50005_htt.Prelude.{length, length-set, get_or-set_self, get_or-set_ne}
use corestack_50005_htt.Tetris.Session.{PlayerSlot, GameSession, slot_at, put_slot, zero_slot}
use corestack_50005_htt.Tetris.Session.Same.{Same, get_or-set_like}
use corestack_50005_htt.Tetris.Hub.State.{HubMsg, hub_eliminated}
use corestack_50005_htt.Tetris.Room.Worker.{RoomEffect, reports, is_lost, report_eliminations}

-- How often the master is told that the player is out.
abbrev pub names_out : ℕ → HubMsg → ℕ
names_out id (hub_eliminated lost) = if lost == id then 1 else 0
names_out id msg = 0

abbrev pub tells : ℕ → RoomEffect → ℕ
tells id (reports msg) = names_out id msg
tells id effect = 0

abbrev pub told : ℕ → List RoomEffect → ℕ
told id [] = 0
told id (e ∷ out) = tells id e + told id out

-- The slots of the player that carry the mark, from the slot `i` on, of `n`.
abbrev pub mark_of : ℕ → PlayerSlot → ℕ
mark_of id slot = if slot.elim_reported && slot.player_id == id then 1 else 0

unfoldable pub marked : ℕ → GameSession → ℕ → ℕ → ℕ
marked id session zero i = 0
marked id session (suc n) i = mark_of id (slot_at session i) + marked id session n (i + 1)

pub told-append : (id : ℕ) (a b : List RoomEffect) → told id (a ++ b) ≡ told id a + told id b
told-append id [] b = omega arith
told-append id (e ∷ a) b = omega (arith, told-append id a b)

marked-like :
    (id : ℕ) (s t : GameSession) (n i : ℕ)
    → ((j : ℕ) → i ≤ j → (slot_at t j).elim_reported ≡ (slot_at s j).elim_reported)
    → ((j : ℕ) → i ≤ j → (slot_at t j).player_id ≡ (slot_at s j).player_id)
    → marked id t n i ≡ marked id s n i
unfolding marked
marked-like id s t zero i h k = refl
marked-like id s t (suc n) i h k =
    rw
      (
        h i (omega arith),
        k i (omega arith),
        marked-like id s t n (i + 1) (λ j lt. h j (omega arith)) (λ j lt. k j (omega arith)),
      )
      refl

pub marked-Same :
    (id : ℕ) {s t : GameSession} (n i : ℕ) → Same s t → marked id t n i ≡ marked id s n i
marked-Same id {s} {t} n i same = marked-like id s t n i (λ j _. same.marks j) (λ j _. same.ids j)

-- The loop leaves the slots in front of it alone.
report_before :
    (n i j : ℕ) (session : GameSession)
    → j < i
    → slot_at (report_eliminations n i session).0 j ≡ slot_at session j
unfolding report_eliminations
report_before zero i j session h = refl
report_before (suc n) i j session h =
    let slot = slot_at session i in
    let other : i ≢ j = λ e. absurd (omega arith) in
    let put = put_slot session i (record slot { elim_reported = true }) in
    if_both (λ (o : GameSession × List RoomEffect). slot_at o.0 j ≡ slot_at session j)
      (is_lost slot && not slot.elim_reported)
      (
        (report_eliminations n (i + 1) put).0,
        reports (hub_eliminated slot.player_id) ∷ (report_eliminations n (i + 1) put).1,
      )
      (report_eliminations n (i + 1) session)
      (λ _.
        report_before n (i + 1) j put (omega arith)
        ∙ get_or-set_ne session.players (record slot { elim_reported = true }) zero_slot other)
      (λ _. report_before n (i + 1) j session (omega arith))

-- The reports of the loop are the marks that it adds.
pub report_eliminations_lem :
    (id n i : ℕ) (session : GameSession)
    → i + n ≤ length session.players
    → told id (report_eliminations n i session).1 + marked id session n i
      ≡ marked id (report_eliminations n i session).0 n i
unfolding report_eliminations marked
report_eliminations_lem id zero i session h = refl
report_eliminations_lem id (suc n) i session h =
    let slot = slot_at session i in
    let out = record slot { elim_reported = true } in
    let put = put_slot session i out in
    let (left, quiet) = report_eliminations n (i + 1) session in
    let (noted, news) = report_eliminations n (i + 1) put in
    if_both
      (λ (o : GameSession × List RoomEffect).
        told id o.1 + (mark_of id slot + marked id session n (i + 1))
        ≡ mark_of id (slot_at o.0 i) + marked id o.0 n (i + 1))
      (is_lost slot && not slot.elim_reported)
      (noted, reports (hub_eliminated slot.player_id) ∷ news) (left, quiet)
      (λ e.
        let here : slot_at noted i ≡ out =
          report_before n (i + 1) i put (omega arith)
          ∙ get_or-set_self session.players i out zero_slot (omega arith) in
        let later =
          marked-like id session put n (i + 1)
            (λ j lt.
              ap (λ (p : PlayerSlot). p.elim_reported)
                (get_or-set_ne session.players out zero_slot (λ (q : i ≡ j). absurd (omega arith))))
            (λ j lt.
              ap (λ (p : PlayerSlot). p.player_id)
                (get_or-set_ne session.players out zero_slot
                  (λ (q : i ≡ j). absurd (omega arith)))) in
        let rest =
          report_eliminations_lem id n (i + 1) put
            (omega (arith, length-set session.players i out)) in
        let unmarked : slot.elim_reported ≡ false = ground arith in
        let before : mark_of id slot ≡ 0 = rw unmarked refl in rw here (omega arith))
      (λ _.
        let here : slot_at left i ≡ slot = report_before n (i + 1) i session (omega arith) in
        let rest = report_eliminations_lem id n (i + 1) session (omega arith) in
        rw here (omega arith))

pub report_eliminations_frame :
    (n i : ℕ) (session : GameSession)
    → let t = (report_eliminations n i session).0 in
      (t.count ≡ session.count) × (length t.players ≡ length session.players)
unfolding report_eliminations
report_eliminations_frame zero i session = (refl, refl)
report_eliminations_frame (suc n) i session =
    let slot = slot_at session i in
    let out = record slot { elim_reported = true } in
    let put = put_slot session i out in
    let (left, quiet) = report_eliminations n (i + 1) session in
    let (noted, news) = report_eliminations n (i + 1) put in
    let (counted, places) = report_eliminations_frame n (i + 1) put in
    if_both
      (λ (o : GameSession × List RoomEffect).
        (o.0.count ≡ session.count) × (length o.0.players ≡ length session.players))
      (is_lost slot && not slot.elim_reported)
      (noted, reports (hub_eliminated slot.player_id) ∷ news) (left, quiet)
      (λ _. (counted, places ∙ length-set session.players i out))
      (λ _. report_eliminations_frame n (i + 1) session)

pub report_eliminations_ids :
    (n i : ℕ) (session : GameSession) (j : ℕ)
    → (slot_at (report_eliminations n i session).0 j).player_id ≡ (slot_at session j).player_id
unfolding report_eliminations
report_eliminations_ids zero i session j = refl
report_eliminations_ids (suc n) i session j =
    let slot = slot_at session i in
    let out = record slot { elim_reported = true } in
    let put = put_slot session i out in
    let (left, quiet) = report_eliminations n (i + 1) session in
    let (noted, news) = report_eliminations n (i + 1) put in
    if_both
      (λ (o : GameSession × List RoomEffect).
        (slot_at o.0 j).player_id ≡ (slot_at session j).player_id)
      (is_lost slot && not slot.elim_reported)
      (noted, reports (hub_eliminated slot.player_id) ∷ news) (left, quiet)
      (λ _.
        report_eliminations_ids n (i + 1) put j
        ∙ get_or-set_like (λ (p : PlayerSlot). p.player_id) session.players i j out zero_slot refl)
      (λ _. report_eliminations_ids n (i + 1) session j)
