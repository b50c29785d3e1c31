-- ===== src/Tetris/Session/Tests.antt =====
-- A lobby of two on which the theorems about the session are applied.
use corestack_50005_htt.Prelude.{arith}
use corestack_50005_htt.Prelude.{[], ◌∷◌, Draws}
use corestack_50005_htt.Tetris.Session.{GameSession}
use corestack_50005_htt.Tetris.Session.{apply_action, tick_session, init_session, find_player}
use corestack_50005_htt.Tetris.Session.{action_hard_drop}
use corestack_50005_htt.Tetris.Session.Ok.{SessionOk}
use corestack_50005_htt.Tetris.Session.Reach.{begin, acted, ticked, Play-Ok}

abbrev steady : Draws
steady k = 3

abbrev lobby : GameSession
lobby = (init_session (7 ∷ 9 ∷ []) 2 steady).0

abbrev after_drop : GameSession
after_drop = (apply_action lobby (find_player lobby 9) action_hard_drop steady).0

Play-Ok_example : SessionOk (tick_session after_drop steady).0
Play-Ok_example =
    Play-Ok
      (ticked steady (acted 9 action_hard_drop steady (begin (7 ∷ 9 ∷ []) 2 steady (omega arith))))
