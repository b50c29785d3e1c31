-- ===== src/Tetris/Log/Client/Uses.antt =====
-- Every log record is sent, waits, or is counted as dropped.
use mathlib.Core.List.{Sublist}
use mathlib.Core.List.Sublist
use corestack_50005_htt.Prelude.{ℕ, ◌+◌, ◌<◌, ◌^◌, ◌≡◌, sym, subst, Bool, true, arith}
use corestack_50005_htt.Prelude.{List, [], ◌∷◌, ◌++◌, some, length-append, append_assoc, append-nil}
use corestack_50005_htt.Corestack.Hypertext.{c_string}
use corestack_50005_htt.Tetris.Log.{LogLevel, Moment, build_log_record, pack_log_record}
use corestack_50005_htt.Tetris.Log.Client.{LogClient, log_client_push, log_client_drain}
use corestack_50005_htt.Tetris.Log.Client.Ledger.{
  ClientOk, kept_count, waiting, log_client_push_lem, log_client_drain_lem,
}

-- What the game servers do with their log client: they log a message, or drain the queue.
pub data Use : Type 0 where
  logs : Moment → ℕ → LogLevel → List ℕ → Use
  drains : ℕ → (ℕ → Bool) → Use

unfoldable pub use_client : Use → LogClient → LogClient × List (List ℕ)
use_client (logs now next_seq level message) client =
    ((log_client_push client now next_seq level message).0, [])
use_client (drains max_records answers) client = log_client_drain client max_records answers

unfoldable pub use_all : List Use → LogClient → LogClient × List (List ℕ)
use_all [] client = (client, [])
use_all (u ∷ uses) client =
    let (client', sent) = use_client u client in
    let (client'', later) = use_all uses client' in (client'', sent ++ later)

abbrev pub logged : List Use → ℕ
logged [] = 0
logged (logs now next_seq level message ∷ uses) = 1 + logged uses
logged (drains max_records answers ∷ uses) = logged uses

-- The datagrams of the records that are logged by a client of that name, in their order.
unfoldable pub logged_bytes : List ℕ → List Use → List (List ℕ)
logged_bytes source [] = []
logged_bytes source (logs now next_seq level message ∷ uses) =
    pack_log_record (build_log_record now next_seq level (some (c_string source)) (some message)).0
    ∷ logged_bytes source uses
logged_bytes source (drains max_records answers ∷ uses) = logged_bytes source uses

-- A log in front of other uses, and a drain.
order-logs :
    (out left old later : List (List ℕ)) (x : List ℕ)
    → Sublist out (left ++ later)
    → Sublist left (old ++ x ∷ [])
    → Sublist out (old ++ x ∷ later)
order-logs out left old later x rest push =
    subst (Sublist out) (append_assoc old (x ∷ []) later)
      (Sublist.trans rest (Sublist.append push (Sublist.refl later)))

order-drains :
    (sent more end left old later : List (List ℕ))
    → Sublist (more ++ end) (left ++ later)
    → Sublist (sent ++ left) old
    → Sublist ((sent ++ more) ++ end) (old ++ later)
order-drains sent more end left old later rest drain =
    subst (λ l. Sublist l (old ++ later)) (sym (append_assoc sent more end))
      (Sublist.trans
        (subst (Sublist (sent ++ (more ++ end))) (sym (append_assoc sent left later))
          (Sublist.append (Sublist.refl sent) rest))
        (Sublist.append drain (Sublist.refl later)))

-- A client whose socket is open and whose queue is sound keeps these. After any uses, what was sent and behind it
-- what waits are, in their order, the records that waited before and those of the logged messages, with their
-- bytes, but for some that were dropped; and as many as these are counted as dropped, while the counter does
-- not wrap around.
pub use_all_lem :
    (uses : List Use) (client : LogClient)
    → client.sock ≡ true
    → ClientOk client
    → kept_count client [] + logged uses < 2 ^ 32
    → let (t, sent) = use_all uses client in
      ClientOk t
      × (t.sock ≡ true)
      × (kept_count t sent ≡ logged uses + kept_count client [])
      × Sublist (sent ++ waiting t) (waiting client ++ logged_bytes client.source uses)
unfolding use_all use_client logged_bytes
use_all_lem [] client open_sock w h = (
  w,
  open_sock,
  omega arith,
  subst (Sublist (waiting client)) (sym (append-nil (waiting client)))
      (Sublist.refl (waiting client)),
)
use_all_lem (logs now next_seq level message ∷ uses) client open_sock w h =
    let t = (log_client_push client now next_seq level message).0 in
    let (ok, still, more, named, push) =
      log_client_push_lem client now next_seq level message open_sock w (omega arith) in
    let (ok', still', all, rest) = use_all_lem uses t still ok (omega arith) in
    let end = use_all uses t in
    (
      ok',
      still',
      omega arith,
      order-logs (end.1 ++ waiting end.0) (waiting t) (waiting client)
          (logged_bytes client.source uses)
          (pack_log_record
            (build_log_record now next_seq level (some (c_string client.source)) (some message)).0)
          (subst
            (λ source. Sublist (end.1 ++ waiting end.0) (waiting t ++ logged_bytes source uses))
            named rest)
          push,
    )
use_all_lem (drains n answers ∷ uses) client open_sock w h =
    let (t, sent) = log_client_drain client n answers in
    let (ok, still, same, named, drain) =
      log_client_drain_lem client n answers open_sock w (omega arith) in
    let (ok', still', all, rest) = use_all_lem uses t still ok (omega arith) in
    let end = use_all uses t in
    let joined = length-append sent end.1 in
    (
      ok',
      still',
      omega arith,
      order-drains sent end.1 (waiting end.0) (waiting t) (waiting client)
          (logged_bytes client.source uses)
          (subst
            (λ source. Sublist (end.1 ++ waiting end.0) (waiting t ++ logged_bytes source uses))
            named rest)
          drain,
    )
