-- ===== src/Tetris/Hub/Silence.antt =====
-- Which effects tell a room of the end of the match.
use corestack_50005_htt.Prelude.{ℕ, ◌+◌, ◌≡◌, refl, Bool, true, false, not}
use corestack_50005_htt.Prelude.{if◌then◌else◌, List, [], ◌∷◌, get_or}
use corestack_50005_htt.Prelude.{map, ◌==◌, Bool-cases, inl, inr, ◌∙◌, ◌||◌, ◌⊎◌, ◌&&◌}
use corestack_50005_htt.Prelude.{All, All-append, sym, if_both}
use corestack_50005_htt.Tetris.Room.{HubAttack}
use corestack_50005_htt.Tetris.Hub.State.{Room, Master, Effect, HubMsg, Done, ◌>>=◌, zero_room}
use corestack_50005_htt.Tetris.Hub.State.{sends, forks, redirects, closes_client, closes_hub}
use corestack_50005_htt.Tetris.Hub.State.{
  hub_ready, hub_joined, hub_attack, hub_eliminated, hub_feed, hub_start, hub_garbage, hub_roster,
  hub_gameover, PlayerRec,
}
use corestack_50005_htt.Tetris.Hub.Match.{send_each}
use corestack_50005_htt.Tetris.Hub.Daemon.{route, fan_out}
use corestack_50005_htt.Tetris.Hub.Ending.{to_all_used}

-- An effect that tells nobody of the end of the match, and one that names no other winner.
abbrev pub IsSilentMsg : HubMsg → Type 0
IsSilentMsg (hub_gameover id) = ⊥
IsSilentMsg msg = Unit

abbrev pub IsSilent : Effect → Type 0
IsSilent (sends fd msg) = IsSilentMsg msg
IsSilent effect = Unit

abbrev pub NamesMsg : ℕ → HubMsg → Type 0
NamesMsg winner_id (hub_gameover id) = id ≡ winner_id
NamesMsg winner_id msg = Unit

abbrev pub Names : ℕ → Effect → Type 0
Names winner_id (sends fd msg) = NamesMsg winner_id msg
Names winner_id effect = Unit

IsSilentMsg-NamesMsg : (w : ℕ) (msg : HubMsg) → IsSilentMsg msg → NamesMsg w msg
IsSilentMsg-NamesMsg w hub_ready h = tt
IsSilentMsg-NamesMsg w (hub_joined id) h = tt
IsSilentMsg-NamesMsg w (hub_attack attack) h = tt
IsSilentMsg-NamesMsg w (hub_eliminated id) h = tt
IsSilentMsg-NamesMsg w (hub_feed attack) h = tt
IsSilentMsg-NamesMsg w (hub_start n) h = tt
IsSilentMsg-NamesMsg w (hub_garbage attack) h = tt
IsSilentMsg-NamesMsg w (hub_roster roster) h = tt
IsSilentMsg-NamesMsg w (hub_gameover id) h = absurd h

pub IsSilent-Names : (w : ℕ) (out : List Effect) → All IsSilent out → All (Names w) out
IsSilent-Names w [] h = tt
IsSilent-Names w (sends fd msg ∷ out) h = (IsSilentMsg-NamesMsg w msg h.0, IsSilent-Names w out h.1)
IsSilent-Names w (forks a b c ∷ out) h = (tt, IsSilent-Names w out h.1)
IsSilent-Names w (redirects a b ∷ out) h = (tt, IsSilent-Names w out h.1)
IsSilent-Names w (closes_client a ∷ out) h = (tt, IsSilent-Names w out h.1)
IsSilent-Names w (closes_hub a ∷ out) h = (tt, IsSilent-Names w out h.1)

-- A step that does not end the match, and one that may.
abbrev pub Calm : Master → Done → Type 0
Calm m d = (d.0.match_ended ≡ m.match_ended) × All IsSilent d.1

abbrev pub Ends : Master → Done → Type 0
Ends m d =
    Calm m d ⊎ ((m.match_ended ≡ false) × (d.0.match_ended ≡ true) × ((w : ℕ) × All (Names w) d.1))

pub Calm->>= :
    (m : Master) (d : Done) (f : Master → Done) → Calm m d → Calm d.0 (f d.0) → Calm m (d >>= f)
Calm->>= m d f (e, h) (e', h') = (e' ∙ e, All-append IsSilent d.1 (f d.0).1 h h')

pub Ends->>= :
    (m : Master) (d : Done) (f : Master → Done) → Calm m d → Ends d.0 (f d.0) → Ends m (d >>= f)
Ends->>= m d f (e, h) (inl (e', h')) = inl (e' ∙ e, All-append IsSilent d.1 (f d.0).1 h h')
Ends->>= m d f (e, h) (inr (was, now, (w, told))) =
    inr (sym e ∙ was, now, (w, All-append (Names w) d.1 (f d.0).1 (IsSilent-Names w d.1 h) told))

pub Calm-if :
    (m : Master) (b : Bool) (x y : Done) → Calm m x → Calm m y → Calm m (if b then x else y)
Calm-if m b x y h k = if_both (Calm m) b x y (λ _. h) (λ _. k)

pub Ends-if :
    (m : Master) (b : Bool) (x y : Done) → Ends m x → Ends m y → Ends m (if b then x else y)
Ends-if m b x y h k = if_both (Ends m) b x y (λ _. h) (λ _. k)

pub send_each-IsSilent :
    (test : Room → Bool) (msg : HubMsg) (rooms : List Room)
    → IsSilentMsg msg
    → All IsSilent (send_each test msg rooms)
unfolding send_each
send_each-IsSilent test msg [] h = tt
send_each-IsSilent test msg (r ∷ rooms) h = elim (Bool-cases (test r)) [
  | inl e ↦ rw e (h, send_each-IsSilent test msg rooms h)
  | inr e ↦ rw e (send_each-IsSilent test msg rooms h)
]

pub to_all_used-Names :
    (w : ℕ) (rooms : List Room) → All (Names w) (to_all_used (hub_gameover w) rooms)
to_all_used-Names w [] = tt
to_all_used-Names w (r ∷ rooms) = elim (Bool-cases r.used) [
  | inl e ↦ rw e (refl, to_all_used-Names w rooms)
  | inr e ↦ rw e (to_all_used-Names w rooms)
]

pub route-IsSilent :
    (rooms : List Room) (attack : HubAttack) (players : List PlayerRec)
    → All IsSilent (route rooms attack players)
unfolding route
route-IsSilent rooms attack [] = tt
route-IsSilent rooms attack (p ∷ players) =
    let target = get_or rooms p.room zero_room in
    elim (Bool-cases (not (p.id == attack.victim_id) || not p.alive)) [
      | inl e ↦ rw e (route-IsSilent rooms attack players)
      | inr e ↦ rw e (elim (Bool-cases (target.used && target.started)) [
        | inl running ↦ rw running (tt, tt)
        | inr idle ↦ rw idle tt
      ])
    ]

pub fan_out-IsSilent :
    (rooms : List Room) (i slot : ℕ) (attack : HubAttack)
    → All IsSilent (fan_out rooms i slot (hub_feed attack))
unfolding fan_out
fan_out-IsSilent [] i slot attack = tt
fan_out-IsSilent (r ∷ rooms) i slot attack =
    elim (Bool-cases (not (i == slot) && r.used && r.started)) [
      | inl e ↦ rw e (tt, fan_out-IsSilent rooms (i + 1) slot attack)
      | inr e ↦ rw e (fan_out-IsSilent rooms (i + 1) slot attack)
    ]

pub map-IsSilent :
    (f : ℕ → Effect) (fds : List ℕ) → ((fd : ℕ) → IsSilent (f fd)) → All IsSilent (map f fds)
map-IsSilent f [] h = tt
map-IsSilent f (fd ∷ fds) h = (h fd, map-IsSilent f fds h)
