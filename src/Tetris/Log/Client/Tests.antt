-- ===== src/Tetris/Log/Client/Tests.antt =====
-- A client that logs three messages, of which one is sent, one is refused and one waits.
use corestack_50005_htt.Prelude.{
  ℕ, zero, suc, ◌+◌, ◌≡◌, refl, ap, arith, Bool, true, false, List, [], ◌∷◌, length,
}
use corestack_50005_htt.Prelude.{replicate, length-replicate}
use corestack_50005_htt.Prelude.Int.{negsuc}
use corestack_50005_htt.Corestack.Htttp.{bytes}
use corestack_50005_htt.Corestack.Queue.Fifo.{init_lem}
use corestack_50005_htt.Tetris.Log.{Moment, log_level_info}
use corestack_50005_htt.Tetris.Log.Client.{LogClient, log_queue_size, zero_record, log_client_init}
use corestack_50005_htt.Tetris.Log.Client.Ledger.{ClientOk, kept_count, waiting}
use corestack_50005_htt.Tetris.Log.Client.Uses.{
  Use, logs, drains, use_all, logged, logged_bytes, use_all_lem,
}
use mathlib.Core.List.{Sublist, ◌++◌}

abbrev now : Moment
now = record { tv_sec = 1700000000; tv_nsec = 250000000; pid = 77 }

abbrev opened : LogClient
opened = log_client_init true (bytes "tetrisd")

abbrev answers : ℕ → Bool
answers zero = false
answers (suc n) = true

abbrev uses : List Use
uses =
    logs now 0 log_level_info (bytes "Room 1")
    ∷ logs now 1 log_level_info (bytes "Room 2")
    ∷ drains 2 answers
    ∷ logs now 2 log_level_info (bytes "Room 3")
    ∷ []

opened_lem : ClientOk opened × (kept_count opened [] ≡ 0)
unfolding log_client_init
opened_lem =
    let (ok, nothing) =
      init_lem log_queue_size
        (record { items = replicate log_queue_size zero_record; front = negsuc 0; rear = 0 })
        (length-replicate log_queue_size zero_record) in
    (ok, omega (arith, ap length nothing))

use_all_lem_example :
    ClientOk (use_all uses opened).0
    × ((use_all uses opened).0.sock ≡ true)
    × (kept_count (use_all uses opened).0 (use_all uses opened).1
        ≡ logged uses + kept_count opened [])
    × Sublist
        ((use_all uses opened).1 ++ waiting (use_all uses opened).0)
        (waiting opened ++ logged_bytes opened.source uses)
unfolding log_client_init
use_all_lem_example = use_all_lem uses opened refl opened_lem.0 (omega (arith, opened_lem.1))
