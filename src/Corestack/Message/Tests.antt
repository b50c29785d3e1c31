-- ===== src/Corestack/Message/Tests.antt =====
-- A connection that takes and gives one byte at a time.
use corestack_50005_htt.Prelude.{ℕ, ◌<◌, ◌≤◌, ◌≡◌, refl, arith, List, [], ◌∷◌, ◌++◌, length, take}
use corestack_50005_htt.Prelude.{replicate, Option, none, some}
use corestack_50005_htt.Corestack.Message.{
  Message, Connection, receive_message_tcp, send_message_tcp,
}
use corestack_50005_htt.Corestack.Message.Transport.{Reliable}
use corestack_50005_htt.Corestack.Message.Arrival.{receive-send_message_tcp}

-- The pending bytes and the sent ones.
abbrev Ends : Type 0
Ends = List ℕ × List ℕ

abbrev take_one : Ends → ℕ → Option (List ℕ × Ends)
take_one ([], sent) n = none
take_one (x ∷ pending, sent) n = some (x ∷ [], (pending, sent))

abbrev give_one : Ends → List ℕ → Option (ℕ × Ends)
give_one ends [] = none
give_one (pending, sent) (x ∷ buf) = some (1, (pending, sent ++ x ∷ []))

abbrev drip : Connection Ends
drip = record { recv = take_one; send = give_one }

drip_recv :
    (s : Ends) (n : ℕ)
    → 0 < n
    → 0 < length s.0
    → (bytes : List ℕ) × (next : Ends) × (take_one s n ≡ some (bytes, next))
      × (s.0 ≡ bytes ++ next.0)
      × (0 < length bytes)
      × (length bytes ≤ n)
drip_recv ([], sent) n h k = absurd (omega arith)
drip_recv (x ∷ pending, sent) n h k =
    (x ∷ [], (pending, sent), refl, refl, omega arith, omega arith)

drip_send :
    (s : Ends) (buf : List ℕ)
    → 0 < length buf
    → (m : ℕ) × (next : Ends) × (give_one s buf ≡ some (m, next))
      × (next.1 ≡ s.1 ++ take m buf)
      × (0 < m)
      × (m ≤ length buf)
drip_send s [] h = absurd (omega arith)
drip_send (pending, sent) (x ∷ buf) h =
    (1, (pending, sent ++ x ∷ []), refl, refl, omega arith, omega arith)

abbrev drip-Reliable : Reliable drip
drip-Reliable = record {
  pending = λ s. s.0;
  sent = λ s. s.1;
  recv_some = drip_recv;
  send_some = drip_send;
}

abbrev letter : Message
letter = record { source_id = 7; msg_len = 5; msg_type = 3; msg_content = replicate 2048 9 }

receive-send_message_tcp_example :
    (last : Ends) × (next : Ends) × (send_message_tcp drip letter ([], []) ≡ some last)
    × (receive_message_tcp drip (last.1, []) ≡ some (letter, next))
    × (next.0 ≡ [])
receive-send_message_tcp_example =
    receive-send_message_tcp drip drip-Reliable drip drip-Reliable letter ([], []) (λ s. (s.1, []))
      (omega arith, omega arith, omega arith, refl) refl (λ last. refl)
