-- ===== src/Tetris/Room/Worker/Lobby.antt =====
-- tetrisd/room.c: the lobby of a room, in front of its tick loop.
use corestack_50005_htt.Prelude.{ℕ, zero, suc, ◌+◌, ◌-◌, ◌≡◌, refl, ap, ◌∙◌, Bool, true, ◌&&◌, ◌||◌}
use corestack_50005_htt.Prelude.{
  if◌then◌else◌, List, [], ◌∷◌, ◌++◌, map, get_or, length, leb, ltb, arith,
}
use corestack_50005_htt.Prelude.{length-append, get_or-append_mid}
use corestack_50005_htt.Prelude.{append_assoc}
use corestack_50005_htt.Tetris.Hub.State.{
  HubMsg, hub_ready, hub_joined, hub_attack, hub_eliminated, hub_feed, hub_start, hub_garbage,
  hub_roster, hub_gameover,
}
use corestack_50005_htt.Tetris.Room.{HubRoster}
use corestack_50005_htt.Tetris.Room.Worker.{RoomEffect, reports}

abbrev pub start_grace_seconds : ℕ
start_grace_seconds = 3

-- The local variables of the lobby loop.
pub record Lobby : Type 0 where
  pub reported : ℕ
  pub expected : ℕ
  pub start_ordered : Bool
  pub order_time : ℕ
  pub global : HubRoster

-- The loop that reports arrivals, with `n` of them left.
pub report_joined : ℕ → ℕ → List ℕ → List RoomEffect
report_joined zero reported client_ids = []
report_joined (suc n) reported client_ids =
    reports (hub_joined (get_or client_ids reported 0)) ∷ report_joined n (reported + 1) client_ids

-- The loop over the messages of the master; `now` is what `time` returns.
pub hear_lobby : ℕ → List HubMsg → Lobby → Lobby
hear_lobby now [] lobby = lobby
hear_lobby now (hub_start n ∷ msgs) lobby =
    hear_lobby now msgs (record lobby { start_ordered = true; expected = n; order_time = now })
hear_lobby now (hub_roster roster ∷ msgs) lobby =
    hear_lobby now msgs (record lobby { global = roster })
hear_lobby now (msg ∷ msgs) lobby = hear_lobby now msgs lobby

-- How a round of the loop ends: with the next round, with the exit of the worker, with the match.
pub data Verdict : Type 0 where
  waits : Verdict
  exits : Verdict
  starts : Verdict

-- One round of the loop, where the clients are `client_ids`, the master has sent `msgs` and is perhaps gone, and
-- `now` and `later` are the times at the messages and at the test.
pub lobby_round : List ℕ → List HubMsg → Bool → ℕ → ℕ → Lobby → Lobby × Verdict × List RoomEffect
lobby_round client_ids msgs gone now later lobby =
    let lobby_size = length client_ids in
    let told = report_joined (lobby_size - lobby.reported) lobby.reported client_ids in
    let known = if ltb lobby.reported lobby_size then lobby_size else lobby.reported in
    let heard = hear_lobby now msgs (record lobby { reported = known }) in
    let ready =
      heard.start_ordered
      && (leb heard.expected lobby_size || leb start_grace_seconds (later - heard.order_time)) in
    (heard, (if gone then exits else if ready then starts else waits), told)

report_joined_lem :
    (known new : List ℕ)
    → report_joined (length new) (length known) (known ++ new)
      ≡ map (λ id. reports (hub_joined id)) new
unfolding report_joined
report_joined_lem known [] = refl
report_joined_lem known (id ∷ new) =
    let read : get_or (known ++ id ∷ new) (length known) 0 ≡ id =
      get_or-append_mid known id new 0 in
    let rest : report_joined (length new) (length known + 1) (known ++ id ∷ new)
        ≡ map (λ id. reports (hub_joined id)) new =
      rw (← append_assoc known (id ∷ []) new) (
        ap (λ n. report_joined (length new) n ((known ++ id ∷ []) ++ new))
          (omega (arith, length-append known (id ∷ [])))
        ∙ report_joined_lem (known ++ id ∷ []) new) in
    rw (read, rest) refl

hear_lobby-reported :
    (now : ℕ) (msgs : List HubMsg) (lobby : Lobby)
    → (hear_lobby now msgs lobby).reported ≡ lobby.reported
unfolding hear_lobby
hear_lobby-reported now [] lobby = refl
hear_lobby-reported now (hub_start n ∷ msgs) lobby =
    hear_lobby-reported now msgs
      (record lobby { start_ordered = true; expected = n; order_time = now })
hear_lobby-reported now (hub_roster roster ∷ msgs) lobby =
    hear_lobby-reported now msgs (record lobby { global = roster })
hear_lobby-reported now (hub_ready ∷ msgs) lobby = hear_lobby-reported now msgs lobby
hear_lobby-reported now (hub_joined id ∷ msgs) lobby = hear_lobby-reported now msgs lobby
hear_lobby-reported now (hub_attack a ∷ msgs) lobby = hear_lobby-reported now msgs lobby
hear_lobby-reported now (hub_eliminated id ∷ msgs) lobby = hear_lobby-reported now msgs lobby
hear_lobby-reported now (hub_feed a ∷ msgs) lobby = hear_lobby-reported now msgs lobby
hear_lobby-reported now (hub_garbage a ∷ msgs) lobby = hear_lobby-reported now msgs lobby
hear_lobby-reported now (hub_gameover id ∷ msgs) lobby = hear_lobby-reported now msgs lobby

-- A round of a lobby that has reported the clients it knew reports exactly the new ones, each once and in their
-- order, and knows all of them after it, whatever the master sends.
pub lobby_round_lem :
    (known new : List ℕ) (msgs : List HubMsg) (gone : Bool) (now later : ℕ) (lobby : Lobby)
    → lobby.reported ≡ length known
    → ((lobby_round (known ++ new) msgs gone now later lobby).2
        ≡ map (λ id. reports (hub_joined id)) new)
      × ((lobby_round (known ++ new) msgs gone now later lobby).0.reported ≡ length (known ++ new))
unfolding lobby_round
lobby_round_lem known new msgs gone now later lobby e =
    let size = length-append known new in
    let start : Lobby = record lobby {
      reported =
          if ltb lobby.reported (length (known ++ new))
          then length (known ++ new)
          else lobby.reported;
    } in
    (
      ap (λ n. report_joined (length (known ++ new) - n) n (known ++ new)) e
          ∙ ap (λ n. report_joined n (length known) (known ++ new)) (omega arith)
          ∙ report_joined_lem known new,
      hear_lobby-reported now msgs start ∙ ground (arith, size),
    )
