-- ===== src/Tetris/Log/Client.antt =====
-- libtetrislog/logclient.c with its header: the records that wait for the log daemon. The socket is open or not,
-- and what `sendto` answers is a sequence of successes and failures; the warning on stderr and the address of the
-- daemon are left out.
pub mod Ledger
pub mod Uses
mod Tests
use package.corestack_50005_htt.Prelude.{
  ℕ, zero, suc, ◌+◌, ◌%◌, ◌^◌, Bool, true, false, not, if◌then◌else◌,
}
use package.corestack_50005_htt.Prelude.{List, [], ◌∷◌, Option, none, some, replicate}
use package.corestack_50005_htt.Prelude.Int.{negsuc}
use package.corestack_50005_htt.Corestack.Queue.{Queue, init, enqueue, dequeue, peek}
use package.corestack_50005_htt.Corestack.Hypertext.{c_string}
use package.corestack_50005_htt.Tetris.Log.{
  LogRecord, LogLevel, Moment, build_log_record, pack_log_record, copy_fixed, log_source_length,
  log_msg_length,
}

abbrev pub log_queue_size : ℕ
log_queue_size = 256

-- `sock` is whether it is not negative. `source` is the array, with its zero byte.
pub record LogClient : Type 0 where
  pub sock : Bool
  pub source : List ℕ
  pub queue : Queue LogRecord
  pub dropped_queue_full : ℕ
  pub daemon_unreachable_warned : Bool

abbrev pub zero_record : LogRecord
zero_record = record {
  time_sec = 0;
  time_msec = 0;
  level = 0;
  pid = 0;
  seq = 0;
  source = replicate log_source_length 0;
  message = replicate log_msg_length 0;
}

-- `log_client_init` where `socket` succeeds or fails.
unfoldable pub log_client_init : Bool → List ℕ → LogClient
log_client_init opened source_name = record {
  sock = opened;
  source = copy_fixed (replicate log_source_length 0) (some source_name) log_source_length;
  queue =
      init log_queue_size
        (record { items = replicate log_queue_size zero_record; front = negsuc 0; rear = 0 });
  dropped_queue_full = 0;
  daemon_unreachable_warned = false;
}

-- The client, and the next value of `next_seq`.
unfoldable pub log_client_push : LogClient → Moment → ℕ → LogLevel → List ℕ → LogClient × ℕ
log_client_push client now next_seq level message =
    let (r, seq) =
      build_log_record now next_seq level (some (c_string client.source)) (some message) in
    let (queue, done) = enqueue log_queue_size client.queue r in
    if not client.sock
    then (client, next_seq)
    else if not done
    then (record client { dropped_queue_full = (client.dropped_queue_full + 1) % 2 ^ 32 }, seq)
    else (record client { queue = queue }, seq)

-- What the answer of `sendto` changes.
unfoldable pub note_answer : Bool → LogClient → LogClient
note_answer true client = record client { daemon_unreachable_warned = false }
note_answer false client = record client {
  daemon_unreachable_warned = true;
  dropped_queue_full = (client.dropped_queue_full + 1) % 2 ^ 32;
}

-- The loop of `log_client_drain`, with `n` rounds left: the client, and the datagrams that were sent.
unfoldable pub drain_records : ℕ → (ℕ → Bool) → LogClient → LogClient × List (List ℕ)
drain_records zero answers client = (client, [])
drain_records (suc n) answers client = elim (peek log_queue_size zero_record client.queue) [
  | none ↦ (client, [])
  | some r ↦
      let noted = note_answer (answers 0) client in
      let left = record noted { queue = (dequeue log_queue_size client.queue).0 } in
      let (after, sent) = drain_records n (λ k. answers (suc k)) left in
      (after, if answers 0 then pack_log_record r ∷ sent else sent)
]

unfoldable pub log_client_drain : LogClient → ℕ → (ℕ → Bool) → LogClient × List (List ℕ)
log_client_drain client max_records answers =
    if not client.sock then (client, []) else drain_records max_records answers client

abbrev log_client_get_dropped_count : LogClient → ℕ
log_client_get_dropped_count client = client.dropped_queue_full

abbrev log_client_close : LogClient → LogClient
log_client_close client = record client { sock = false }
