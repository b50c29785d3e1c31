-- ===== src/Tetris/Log/Client/Ledger.antt =====
-- What a log or a drain does to the records, in their order and in number.
use mathlib.Core.List.{Sublist}
use mathlib.Core.List.Sublist
use corestack_50005_htt.Prelude.{sym}
use corestack_50005_htt.Prelude.{
  ℕ, zero, suc, ◌+◌, ◌<◌, ◌%◌, ◌^◌, ◌≡◌, refl, ap, ◌∙◌, Bool, true, false, not, arith,
}
use corestack_50005_htt.Prelude.{
  if◌then◌else◌, if_both, List, [], ◌∷◌, ◌++◌, map, take, drop, length, some,
}
use corestack_50005_htt.Prelude.{
  subst, take-append-drop, Bool-cases, inl, inr, ltb, get_or, length-append,
}
use corestack_50005_htt.Corestack.Queue.{dequeue, enqueue}
use corestack_50005_htt.Corestack.Queue.Fifo.{
  IsQueue, contents, head, enqueue_lem, dequeue_lem, peek-empty, enqueue-full,
}
use corestack_50005_htt.Corestack.Hypertext.{c_string}
use corestack_50005_htt.Tetris.Log.{LogRecord, LogLevel, Moment, build_log_record, pack_log_record}
use corestack_50005_htt.Tetris.Log.Client.{
  LogClient, log_queue_size, zero_record, log_client_push, note_answer, drain_records,
  log_client_drain,
}

-- The elements for which the answers are successes, in their order, and the number of the others.
module _ {ℓ} {A : Type ℓ} where
  abbrev pub accepted : (ℕ → Bool) → List A → List A
  accepted answers [] = []
  accepted answers (x ∷ xs) =
      let rest = accepted (λ k. answers (suc k)) xs in if answers 0 then x ∷ rest else rest

  abbrev pub refused : (ℕ → Bool) → List A → ℕ
  refused answers [] = 0
  refused answers (x ∷ xs) = (if answers 0 then 0 else 1) + refused (λ k. answers (suc k)) xs

abbrev pub queued : LogClient → List LogRecord
queued client = contents client.queue

abbrev pub ClientOk : LogClient → Type 0
ClientOk client = IsQueue log_queue_size client.queue

count_one : (d : ℕ) → d + 1 < 2 ^ 32 → (d + 1) % 2 ^ 32 ≡ d + 1
count_one d h = omega arith

note_answer_lem :
    (b : Bool) (client : LogClient)
    → client.dropped_queue_full + 1 < 2 ^ 32
    → (note_answer b client).dropped_queue_full ≡ client.dropped_queue_full + (if b then 0 else 1)
unfolding note_answer
note_answer_lem true client h = omega arith
note_answer_lem false client h = count_one client.dropped_queue_full h

note_answer-source : (b : Bool) (client : LogClient) → (note_answer b client).source ≡ client.source
unfolding note_answer
note_answer-source true client = refl
note_answer-source false client = refl

note_answer-sock : (b : Bool) (client : LogClient) → (note_answer b client).sock ≡ client.sock
unfolding note_answer
note_answer-sock true client = refl
note_answer-sock false client = refl

send_one :
    (b : Bool) (r : LogRecord) (sent : List (List ℕ)) (rest : List LogRecord)
    → sent ≡ map pack_log_record rest
    → (if b then pack_log_record r ∷ sent else sent)
      ≡ map pack_log_record (if b then r ∷ rest else rest)
send_one true r sent rest e = ap (λ l. pack_log_record r ∷ l) e
send_one false r sent rest e = e

drain_records_lem :
    (n : ℕ) (answers : ℕ → Bool) (client : LogClient)
    → ClientOk client
    → client.dropped_queue_full + length (queued client) < 2 ^ 32
    → let o = drain_records n answers client in
      ClientOk o.0
      × (queued o.0 ≡ drop n (queued client))
      × (o.1 ≡ map pack_log_record (accepted answers (take n (queued client))))
      × (o.0.dropped_queue_full
          ≡ client.dropped_queue_full + refused answers (take n (queued client)))
      × (o.0.sock ≡ client.sock)
      × (o.0.source ≡ client.source)
unfolding drain_records
drain_records_lem zero answers client w h = (w, refl, refl, omega arith, refl, refl)
drain_records_lem (suc n) answers client w h =
    elim (Bool-cases (ltb (head client.queue) client.queue.rear)) [
      | inl more ↦
          let first = get_or client.queue.items (head client.queue) zero_record in
          let (w', done, whole, seen) =
            dequeue_lem log_queue_size zero_record client.queue w (ground arith) in
          let left = record (note_answer (answers 0) client) {
            queue = (dequeue log_queue_size client.queue).0;
          } in
          let one_more = ap length whole in
          let noted = note_answer_lem (answers 0) client (omega arith) in
          let (ok, kept, sent, dropped, still, named) =
            drain_records_lem n (λ k. answers (suc k)) left w' (ground arith) in
          rw (seen, drain_records, whole)
            (
              ok,
              kept,
              send_one (answers 0) first (drain_records n (λ k. answers (suc k)) left).1
                  (accepted (λ k. answers (suc k)) (take n (queued left))) sent,
              omega arith,
              still ∙ note_answer-sock (answers 0) client,
              named ∙ note_answer-source (answers 0) client,
            )
      | inr none_left ↦
          let (empty, nothing) =
            peek-empty log_queue_size zero_record client.queue w (ground (arith, w.order)) in
          rw (nothing, drain_records, empty) (w, refl, refl, omega arith, refl, refl)
    ]

module _ {ℓ} {A : Type ℓ} where
  accepted-refused :
      (answers : ℕ → Bool) (xs : List A)
      → length (accepted answers xs) + refused answers xs ≡ length xs
  accepted-refused answers [] = omega arith
  accepted-refused answers (x ∷ xs) = ground (arith, accepted-refused (λ k. answers (suc k)) xs)

  length-take-drop : (n : ℕ) (xs : List A) → length (take n xs) + length (drop n xs) ≡ length xs
  length-take-drop zero xs = omega arith
  length-take-drop (suc n) [] = omega arith
  length-take-drop (suc n) (x ∷ xs) = omega (arith, length-take-drop n xs)

length-map : (f : LogRecord → List ℕ) (xs : List LogRecord) → length (map f xs) ≡ length xs
length-map f [] = refl
length-map f (x ∷ xs) = ap suc (length-map f xs)

-- What was accepted stands in the order of the list.
accepted-Sublist :
    (answers : ℕ → Bool) (xs : List LogRecord)
    → Sublist (map pack_log_record (accepted answers xs)) (map pack_log_record xs)
accepted-Sublist answers [] = Sublist.refl []
accepted-Sublist answers (x ∷ xs) =
    let later = λ (k : ℕ). answers (suc k) in
    let rest = accepted-Sublist later xs in
    if_both (λ l. Sublist (map pack_log_record l) (map pack_log_record (x ∷ xs))) (answers 0)
      (x ∷ accepted later xs) (accepted later xs) (λ _. Sublist.cons-cons (pack_log_record x) rest)
      (λ _. Sublist.cons (pack_log_record x) rest)

pub map-append :
    (xs ys : List LogRecord)
    → map pack_log_record (xs ++ ys) ≡ map pack_log_record xs ++ map pack_log_record ys
map-append [] ys = refl
map-append (x ∷ xs) ys = ap (λ l. pack_log_record x ∷ l) (map-append xs ys)

-- The datagrams of the records that wait.
abbrev pub waiting : LogClient → List (List ℕ)
waiting client = map pack_log_record (queued client)

-- What is sent, waits and is dropped.
abbrev pub kept_count : LogClient → List (List ℕ) → ℕ
kept_count client sent = length sent + (length (queued client) + client.dropped_queue_full)

skips : (l : List (List ℕ)) (x : List ℕ) → Sublist l (l ++ x ∷ [])
skips [] x = Sublist.cons x (Sublist.refl [])
skips (y ∷ l) x = Sublist.cons-cons y (skips l x)

pub log_client_push_lem :
    (client : LogClient) (now : Moment) (next_seq : ℕ) (level : LogLevel) (message : List ℕ)
    → client.sock ≡ true
    → ClientOk client
    → client.dropped_queue_full + 1 < 2 ^ 32
    → let t = (log_client_push client now next_seq level message).0 in
      ClientOk t
      × (t.sock ≡ true)
      × (kept_count t [] ≡ 1 + kept_count client [])
      × (t.source ≡ client.source)
      × Sublist (waiting t) (
          waiting client
          ++ pack_log_record
              (build_log_record now next_seq level (some (c_string client.source)) (some message)).0
            ∷ [])
unfolding log_client_push
log_client_push_lem client now next_seq level message open_sock w h =
    let (r, seq) =
      build_log_record now next_seq level (some (c_string client.source)) (some message) in
    let (queue, done) = enqueue log_queue_size client.queue r in
    let lost = record client { dropped_queue_full = (client.dropped_queue_full + 1) % 2 ^ 32 } in
    let put = record client { queue = queue } in
    let Good = λ (o : LogClient × ℕ).
      ClientOk o.0
      × (o.0.sock ≡ true)
      × (kept_count o.0 [] ≡ 1 + kept_count client [])
      × (o.0.source ≡ client.source)
      × Sublist (waiting o.0) (waiting client ++ pack_log_record r ∷ []) in
    if_both Good (not client.sock) (client, next_seq) (if not done then (lost, seq) else (put, seq))
      (λ e. absurd (ground arith))
      (λ _. elim (Bool-cases (ltb client.queue.rear log_queue_size)) [
        | inl room ↦
            let (ok, stored, behind) = enqueue_lem log_queue_size client.queue r w (ground arith) in
            if_both Good (not done) (lost, seq) (put, seq) (λ e. absurd (ground arith))
              (λ _. (
                ok,
                open_sock,
                omega (arith, ap length behind, length-append (queued client) (r ∷ [])),
                refl,
                subst (λ l. Sublist l (waiting client ++ pack_log_record r ∷ []))
                    (sym (ap (map pack_log_record) behind ∙ map-append (queued client) (r ∷ [])))
                    (Sublist.refl (waiting client ++ pack_log_record r ∷ [])),
              ))
        | inr none_left ↦
            let same =
              ap (λ o. o.1)
                (enqueue-full log_queue_size client.queue r (ground (arith, w.bound))) in
            if_both Good (not done) (lost, seq) (put, seq)
              (λ _. (w, open_sock, omega arith, refl, skips (waiting client) (pack_log_record r)))
              (λ e. absurd (ground arith))
      ])

pub log_client_drain_lem :
    (client : LogClient) (max_records : ℕ) (answers : ℕ → Bool)
    → client.sock ≡ true
    → ClientOk client
    → client.dropped_queue_full + length (queued client) < 2 ^ 32
    → let (t, sent) = log_client_drain client max_records answers in
      ClientOk t
      × (t.sock ≡ true)
      × (kept_count t sent ≡ kept_count client [])
      × (t.source ≡ client.source)
      × Sublist (sent ++ waiting t) (waiting client)
unfolding log_client_drain
log_client_drain_lem client n answers open_sock w h =
    let (ok, kept, sent, dropped, still, named) = drain_records_lem n answers client w h in
    let taken = take n (queued client) in
    let split = accepted-refused answers taken in
    let parts = length-take-drop n (queued client) in
    let out = ap length sent ∙ length-map pack_log_record (accepted answers taken) in
    let remaining = ap length kept in
    let whole : map pack_log_record taken ++ map pack_log_record (drop n (queued client))
        ≡ waiting client =
      sym (map-append taken (drop n (queued client)))
      ∙ ap (map pack_log_record) (take-append-drop n (queued client)) in
    let order : Sublist
        (map pack_log_record (accepted answers taken)
          ++ map pack_log_record (drop n (queued client)))
        (waiting client) =
      subst
        (Sublist (
          map pack_log_record (accepted answers taken)
          ++ map pack_log_record (drop n (queued client))))
        whole
        (Sublist.append (accepted-Sublist answers taken)
          (Sublist.refl (map pack_log_record (drop n (queued client))))) in
    let Good = λ (o : LogClient × List (List ℕ)).
      ClientOk o.0
      × (o.0.sock ≡ true)
      × (kept_count o.0 o.1 ≡ kept_count client [])
      × (o.0.source ≡ client.source)
      × Sublist (o.1 ++ waiting o.0) (waiting client) in
    if_both Good (not client.sock) (client, []) (drain_records n answers client)
      (λ e. absurd (ground arith))
      (λ _. (
        ok,
        still ∙ open_sock,
        omega (arith, split, parts, out, remaining, dropped),
        named,
        rw (sent, kept) order,
      ))
