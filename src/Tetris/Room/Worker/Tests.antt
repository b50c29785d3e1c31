-- ===== src/Tetris/Room/Worker/Tests.antt =====
-- A room of two players in which one quits.
use corestack_50005_htt.Prelude.{
  ◌+◌, ◌≡◌, ◌≤◌, refl, true, false, [], ◌∷◌, some, none, arith, suc, zero,
}
use corestack_50005_htt.Tetris.Session.{init_session, action_quit, zero_slot}
use corestack_50005_htt.Tetris.Session.Ok.{SessionOk}
use corestack_50005_htt.Tetris.Session.Reach.{Play-Ok, begin}
use corestack_50005_htt.Tetris.Protocol.{StatePayload}
use corestack_50005_htt.Corestack.Htttp.{req_action}
use corestack_50005_htt.Tetris.Room.{HubRoster}
use corestack_50005_htt.Tetris.Room.Worker.{Worker, Inbox, run_worker}
use corestack_50005_htt.Tetris.Room.Worker.Tick.{run_worker-Ok}
use corestack_50005_htt.Tetris.Room.Worker.Reports.{told, marked}
use corestack_50005_htt.Tetris.Room.Worker.Once.{Distinct, eliminated_once}
use corestack_50005_htt.Prelude.Int.{pos}

abbrev blank : StatePayload
blank = record {
  board = [];
  current_type = 0;
  current_rot = 0;
  current_x = pos 0;
  current_y = pos 0;
  next_type = 0;
  preview = [];
  held_type = 0;
  has_held = 0;
  player_id = 0;
  score = 0;
  level = 0;
  lines_cleared = 0;
  combo = pos 0;
  b2b = 0;
  t_spins = 0;
  tetrises = 0;
  pending_garbage = 0;
  target_player_id = 0;
  target_mode = 0;
  game_over = 0;
  winner_id = 0;
}

abbrev quits : Inbox
quits = record { requests = some (req_action, 7, action_quit) ∷ none ∷ []; msgs = []; gone = false }

abbrev nobody : HubRoster
nobody = record { count = 0; ids = []; alive = [] }

abbrev started : Worker
started = record {
  session = (init_session (7 ∷ 9 ∷ []) 2 (λ k. k)).0;
  global = nobody;
  match_over = false;
  winner_id = 0;
}

run_worker-Ok_example : SessionOk (run_worker blank (quits ∷ quits ∷ []) started (λ k. k)).0.session
run_worker-Ok_example =
    run_worker-Ok blank (quits ∷ quits ∷ []) started (λ k. k)
      (Play-Ok (begin (7 ∷ 9 ∷ []) 2 (λ k. k) (omega arith)))

-- The slots of players 7 and 9, and no more.
abbrev seated : Worker
seated = record started {
  session = record {
    players =
        record zero_slot { player_id = 7; active = true }
        ∷ record zero_slot { player_id = 9; active = true }
        ∷ [];
    count = 2;
    roster = record { ids = 7 ∷ 9 ∷ []; eliminated = false ∷ false ∷ []; count = 2 };
  };
}

seated-Distinct : Distinct seated.session
seated-Distinct zero zero a b e = refl
seated-Distinct zero (suc zero) a b e = absurd (omega arith)
seated-Distinct (suc zero) zero a b e = absurd (omega arith)
seated-Distinct (suc zero) (suc zero) a b e = refl
seated-Distinct (suc (suc i)) j a b e = absurd (omega arith)
seated-Distinct zero (suc (suc j)) a b e = absurd (omega arith)
seated-Distinct (suc zero) (suc (suc j)) a b e = absurd (omega arith)

eliminated_once_example :
    let o = run_worker blank (quits ∷ quits ∷ []) seated (λ k. k) in
    let end = o.0.session in
    (told 7 o.1 + marked 7 seated.session 2 0 ≡ marked 7 end end.count 0) × (told 7 o.1 ≤ 1)
eliminated_once_example =
    eliminated_once 7 blank (quits ∷ quits ∷ []) seated (λ k. k) (omega arith) seated-Distinct
