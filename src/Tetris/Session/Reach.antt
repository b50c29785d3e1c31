-- ===== src/Tetris/Session/Reach.antt =====
-- The sessions that a room reaches from `init_session`.
use corestack_50005_htt.Prelude.{ℕ, zero, suc, ◌+◌, ◌≤◌, ◌<◌, ◌≡◌, refl, subst, min}
use corestack_50005_htt.Prelude.{true, Bool-cases, inl, inr, arith}
use corestack_50005_htt.Prelude.{List, get_or, Option, none, some, Draws, ◌&&◌, ◌==◌}
use corestack_50005_htt.Tetris.Engine.{start_game}
use corestack_50005_htt.Tetris.Engine.Ok.{GameOk}
use corestack_50005_htt.Tetris.Engine.Steps.{start_game-Ok}
use corestack_50005_htt.Tetris.Session.{PlayerSlot, GameSession, PlayerAction, slot_at, put_slot}
use corestack_50005_htt.Tetris.Session.{apply_action, tick_session, init_session}
use corestack_50005_htt.Tetris.Session.{init_slots, aim_slots, with_target, first_other, new_slot}
use corestack_50005_htt.Tetris.Session.{find_player, find_from, max_lobby_size, zero_session}
use corestack_50005_htt.Tetris.Session.Ok.{GamesOk, SessionOk, put_slot-Ok, put_next-Ok}
use corestack_50005_htt.Tetris.Session.Ok.{apply_action-Ok, tick_slots-Ok}

-- A slot in use that is active and the player's.
pub record Found (session : GameSession) (player_id i : ℕ) : Type 0 where
  pub in_use : i < session.count
  pub is_active : (slot_at session i).active ≡ true
  pub is_player : (slot_at session i).player_id ≡ player_id

find_from_lem :
    (session : GameSession) (player_id n i j : ℕ)
    → i + n ≤ session.count
    → find_from session player_id n i ≡ some j
    → Found session player_id j
unfolding find_from
find_from_lem session player_id zero i j h e = cc
find_from_lem session player_id (suc n) i j h e =
    elim (Bool-cases ((slot_at session i).active && (slot_at session i).player_id == player_id)) [
      | inl f ↦
          let same : some i ≡ some j = rw f at e in
          let here : i ≡ j = cc in
          subst (Found session player_id) here
            (record { in_use = omega arith; is_active = ground arith; is_player = ground arith })
      | inr f ↦ find_from_lem session player_id n (i + 1) j (omega arith) (rw f at e)
    ]

-- The slot that `find_player` returns is in use, active, and belongs to the player asked for.
pub find_player_lem :
    (session : GameSession) (player_id j : ℕ)
    → find_player session player_id ≡ some j
    → Found session player_id j
unfolding find_player
find_player_lem session player_id j e =
    find_from_lem session player_id session.count 0 j (omega arith) e

with_target-Ok :
    (slot : PlayerSlot) (o : Option ℕ) → GameOk slot.state → GameOk (with_target slot o).state
unfolding with_target
with_target-Ok slot none h = h
with_target-Ok slot (some id) h = h

init_slots-Ok :
    (client_ids : List ℕ) (n i : ℕ) (session : GameSession) (d : Draws)
    → i + n ≤ max_lobby_size
    → GamesOk session i
    → let out = (init_slots client_ids n i session d).0 in
      GamesOk out (i + n) × (out.count ≡ session.count)
unfolding init_slots new_slot
init_slots-Ok client_ids zero i session d h w = (subst (GamesOk session) (omega arith) w, refl)
init_slots-Ok client_ids (suc n) i session d h w =
    let slot = new_slot (get_or client_ids i 0) (start_game d).0 in
    let put = put_next-Ok session i slot (omega arith) w (start_game-Ok d) in
    let (out, same) =
      init_slots-Ok client_ids n (i + 1) _ (start_game d).1 (omega arith)
        (record { places = put.places; games = put.games }) in
    (subst (GamesOk _) (omega arith) out, same)

aim_slots-Ok :
    (n i : ℕ) (session : GameSession)
    → SessionOk session
    → i + n ≤ session.count
    → SessionOk (aim_slots n i session)
unfolding aim_slots
aim_slots-Ok zero i session w h = w
aim_slots-Ok (suc n) i session w h =
    let slot = slot_at session i in
    let other = first_other session.roster slot.player_id session.roster.count 0 in
    aim_slots-Ok n (i + 1) (put_slot session i (with_target slot other))
      (record {
        counted = w.counted;
        sound =
            put_slot-Ok session session.count i (with_target slot other) w.counted w.sound
              (with_target-Ok slot other (w.sound.games i (omega arith)));
      })
      (omega arith)

-- What a room does to its session: an action of a client by its id, and a tick.
pub data Play : GameSession → Type 0 where
  begin :
      (client_ids : List ℕ) (lobby_size : ℕ) (d : Draws)
      → lobby_size ≤ max_lobby_size
      → Play (init_session client_ids lobby_size d).0
  acted :
      {session : GameSession} (player_id : ℕ) (action : PlayerAction) (d : Draws)
      → Play session
      → Play (apply_action session (find_player session player_id) action d).0
  ticked : {session : GameSession} (d : Draws) → Play session → Play (tick_session session d).0

init_session-Ok :
    (client_ids : List ℕ) (lobby_size : ℕ) (d : Draws)
    → lobby_size ≤ max_lobby_size
    → SessionOk (init_session client_ids lobby_size d).0
unfolding init_session
init_session-Ok client_ids lobby_size d h =
    let sized = record zero_session {
      count = lobby_size;
      roster = record zero_session.roster { count = lobby_size };
    } in
    let (games, same) =
      init_slots-Ok client_ids (min lobby_size max_lobby_size) 0 sized d (omega arith)
        (record { places = refl; games = λ i lt. absurd (omega arith) }) in
    let out = (init_slots client_ids (min lobby_size max_lobby_size) 0 sized d).0 in
    aim_slots-Ok out.count 0 out
      (record { counted = omega arith; sound = subst (GamesOk out) (omega arith) games })
      (omega arith)

-- What `find_player` gives to `apply_action`.
pub acted-Ok :
    (session : GameSession) (player_id : ℕ) (action : PlayerAction) (d : Draws) (found : Option ℕ)
    → find_player session player_id ≡ found
    → SessionOk session
    → SessionOk (apply_action session found action d).0
unfolding apply_action
acted-Ok session player_id action d none e w = w
acted-Ok session player_id action d (some i) e w =
    apply_action-Ok session i action d w (find_player_lem session player_id i e).in_use

-- In every session that a room reaches from `init_session` for at most two clients, by actions of
-- any clients and by ticks and for all values of `rand()`, the number of players is at most two and
-- the game of each of them is sound: its board, its bag, its piece, its garbage, its score and its
-- level satisfy the invariant of a single game.
pub Play-Ok : {session : GameSession} → Play session → SessionOk session
unfolding tick_session
Play-Ok (begin client_ids lobby_size d h) = init_session-Ok client_ids lobby_size d h
Play-Ok (acted {session} player_id action d p) =
    acted-Ok session player_id action d (find_player session player_id) refl (Play-Ok p)
Play-Ok (ticked {session} d p) = tick_slots-Ok session.count 0 session d (Play-Ok p) (omega arith)
