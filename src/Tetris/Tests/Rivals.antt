-- ===== src/Tetris/Tests/Rivals.antt =====
-- The kill feed and the choice of a target.
use corestack_50005_htt.Prelude.{ℕ, ◌-◌, ◌≡◌, refl, true, false, inr}
use corestack_50005_htt.Prelude.{[], ◌∷◌, ◌++◌, arith}
use corestack_50005_htt.Prelude.{◌⊎◌}
use corestack_50005_htt.Tetris.State.{GameState}
use corestack_50005_htt.Tetris.Killfeed.{Entry, Killfeed, no_entry, add_kill_feed, draw_kill_feed}
use corestack_50005_htt.Tetris.Killfeed.Recent.{IsFeed, last_four, add_kill_feed_lem}
use corestack_50005_htt.Tetris.Targeting.{Roster, resolve_target_id, cycle_manual_target}
use corestack_50005_htt.Tetris.Targeting.Cycle.{cycle_manual_target_lem}
use corestack_50005_htt.Tetris.Targeting.Choice.{Living, resolve_target_id_lem}
use corestack_50005_htt.Tetris.Tests.{no_luck, demo}

-- A feed of two attacks, the buffer not yet full.
abbrev two_attacks : Killfeed
two_attacks = record {
  feed = attack 1 ∷ attack 2 ∷ no_entry ∷ no_entry ∷ [];
  feed_head = 2;
  feed_count = 2;
}
  where
    attack : ℕ → Entry
    attack n = record { source_player = n; target_player = 3; lines = 4 }

add_kill_feed_lem_example :
    IsFeed (add_kill_feed two_attacks no_entry)
    × (draw_kill_feed (add_kill_feed two_attacks no_entry) ≡ (
      last_four ((draw_kill_feed two_attacks).0 ++ no_entry ∷ []),
      4 - (add_kill_feed two_attacks no_entry).feed_count,
    ))
add_kill_feed_lem_example =
    add_kill_feed_lem two_attacks no_entry
      (record { places = refl; head = omega arith; counted = omega arith; filling = inr refl })

-- Three players, the second of them eliminated.
abbrev three : Roster
three = record { ids = 1 ∷ 2 ∷ 3 ∷ []; eliminated = false ∷ true ∷ false ∷ []; count = 3 }

abbrev attacker : GameState
attacker = record demo { player_id = 1; target_mode = 1; last_attacker_id = 3 }

resolve_target_id_lem_example :
    ((resolve_target_id attacker three no_luck).0 ≡ 0)
    ⊎ Living attacker three (resolve_target_id attacker three no_luck).0
resolve_target_id_lem_example = resolve_target_id_lem attacker three no_luck

cycle_manual_target_lem_example :
    Living attacker three (cycle_manual_target attacker three).target_player_id
cycle_manual_target_lem_example =
    cycle_manual_target_lem attacker three 2 (omega arith) (omega arith) refl
