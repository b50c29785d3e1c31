-- ===== src/Corestack/Message/Arrival.antt =====
-- A message that is sent over a connection that stays up arrives as it was.
use corestack_50005_htt.Prelude.{
  ℕ, ◌≡◌, refl, sym, ap, ◌∙◌, List, [], ◌++◌, length, append_assoc, append-nil,
}
use corestack_50005_htt.Prelude.{
  some, net_word, host_word, IsWord, length-net_word, host_word-net_word,
}
use corestack_50005_htt.Corestack.Message.{Message, Connection, read_bytes, send_bytes, ◌>>=◌}
use corestack_50005_htt.Corestack.Message.{
  receive_message_tcp, send_message_tcp, msg_content_length,
}
use corestack_50005_htt.Corestack.Message.Transport.{Reliable, read_bytes_lem, send_bytes_lem}

-- The bytes of a message on the wire.
abbrev pub wire : Message → List ℕ
wire m = net_word m.source_id ++ (net_word m.msg_len ++ (net_word m.msg_type ++ m.msg_content))

abbrev pub IsMessage : Message → Type 0
IsMessage m =
    IsWord m.source_id × IsWord m.msg_len × IsWord m.msg_type × (length m.msg_content ≡ 2048)

word : (w : ℕ) → IsWord w → host_word (net_word w) ≡ w
word w h = ap host_word (sym (append-nil (net_word w))) ∙ host_word-net_word w [] h

module _ {S : Type 0} (c : Connection S) (up : Reliable c) where
  send_runs :
      (m : Message) (s s1 s2 s3 s4 : S)
      → send_bytes c (net_word m.source_id) s ≡ some s1
      → send_bytes c (net_word m.msg_len) s1 ≡ some s2
      → send_bytes c (net_word m.msg_type) s2 ≡ some s3
      → send_bytes c m.msg_content s3 ≡ some s4
      → send_message_tcp c m s ≡ some s4
  unfolding send_message_tcp
  send_runs m s s1 s2 s3 s4 run1 run2 run3 run4 = rw (◌>>=◌, run1, run2, run3) run4

  -- A message is sent as its bytes on the wire, however few of them each call of `send` takes.
  pub send_message_tcp_lem :
      (m : Message) (s : S)
      → (next : S) × (send_message_tcp c m s ≡ some next) × (up.sent next ≡ up.sent s ++ wire m)
  send_message_tcp_lem m s =
      let (s1, run1, log1) = send_bytes_lem c up (net_word m.source_id) s in
      let (s2, run2, log2) = send_bytes_lem c up (net_word m.msg_len) s1 in
      let (s3, run3, log3) = send_bytes_lem c up (net_word m.msg_type) s2 in
      let (s4, run4, log4) = send_bytes_lem c up m.msg_content s3 in
      let one = up.sent s ++ net_word m.source_id in
      let two = one ++ net_word m.msg_len in
      (
        s4,
        send_runs m s s1 s2 s3 s4 run1 run2 run3 run4,
        log4
            ∙ ap (λ l. l ++ m.msg_content)
                (log3
                  ∙ ap (λ l. l ++ net_word m.msg_type)
                      (log2 ∙ ap (λ l. l ++ net_word m.msg_len) log1))
            ∙ append_assoc two (net_word m.msg_type) m.msg_content
            ∙ append_assoc one (net_word m.msg_len) (net_word m.msg_type ++ m.msg_content)
            ∙ append_assoc (up.sent s) (net_word m.source_id)
                (net_word m.msg_len ++ (net_word m.msg_type ++ m.msg_content)),
      )

  receive_runs :
      (m : Message) (s s1 s2 s3 s4 : S)
      → IsMessage m
      → read_bytes c 4 s ≡ some (net_word m.source_id, s1)
      → read_bytes c 4 s1 ≡ some (net_word m.msg_len, s2)
      → read_bytes c 4 s2 ≡ some (net_word m.msg_type, s3)
      → read_bytes c msg_content_length s3 ≡ some (m.msg_content, s4)
      → receive_message_tcp c s ≡ some (m, s4)
  unfolding receive_message_tcp
  receive_runs m s s1 s2 s3 s4 (a, b, t, _) run1 run2 run3 run4 =
      rw (◌>>=◌, run1, run2, run3, run4, word m.source_id a, word m.msg_len b, word m.msg_type t)
        refl

  -- A message that is pending is received as it was, and just its bytes are read.
  pub receive_message_tcp_lem :
      (m : Message) (rest : List ℕ) (s : S)
      → IsMessage m
      → up.pending s ≡ wire m ++ rest
      → (next : S) × (receive_message_tcp c s ≡ some (m, next)) × (up.pending next ≡ rest)
  receive_message_tcp_lem m rest s good p =
      let third = net_word m.msg_type ++ m.msg_content in
      let second = net_word m.msg_len ++ third in
      let four = λ (w : ℕ). sym (length-net_word w) in
      let (s1, run1, p1) =
        read_bytes_lem c up 4 (net_word m.source_id) (second ++ rest) s (four m.source_id)
          (p ∙ append_assoc (net_word m.source_id) second rest) in
      let (s2, run2, p2) =
        read_bytes_lem c up 4 (net_word m.msg_len) (third ++ rest) s1 (four m.msg_len)
          (p1 ∙ append_assoc (net_word m.msg_len) third rest) in
      let (s3, run3, p3) =
        read_bytes_lem c up 4 (net_word m.msg_type) (m.msg_content ++ rest) s2 (four m.msg_type)
          (p2 ∙ append_assoc (net_word m.msg_type) m.msg_content rest) in
      let (s4, run4, p4) =
        read_bytes_lem c up msg_content_length m.msg_content rest s3 (sym good.3) p3 in
      (s4, receive_runs m s s1 s2 s3 s4 good run1 run2 run3 run4, p4)

-- A message of words and 2048 bytes that one side of a connection sends, on a socket that has sent
-- nothing before, is received by the other as it was, where its pending bytes are those sent.
pub receive-send_message_tcp :
    {S T : Type 0} (c : Connection S) (up : Reliable c) (d : Connection T) (down : Reliable d)
    → (m : Message) (s : S) (t : S → T) → IsMessage m
    → up.sent s ≡ []
    → ((last : S) → down.pending (t last) ≡ up.sent last)
    → (last : S) × (next : T) × (send_message_tcp c m s ≡ some last)
      × (receive_message_tcp d (t last) ≡ some (m, next))
      × (down.pending next ≡ [])
receive-send_message_tcp c up d down m s t good fresh wired =
    let (last, sends, log) = send_message_tcp_lem c up m s in
    let arrives = wired last ∙ log ∙ ap (λ l. l ++ wire m) fresh ∙ sym (append-nil (wire m)) in
    let (next, receives, left) = receive_message_tcp_lem d down m [] (t last) good arrives in
    (last, next, sends, receives, left)
