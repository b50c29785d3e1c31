-- ===== src/Corestack/Message.antt =====
-- corestack/src/lib/libbattleroyale/message.c: messages over a TCP connection. The calls of `recv` and
-- `send` are the operations of a connection; `none` is a result of 0 or less.
pub mod Transport
pub mod Arrival
mod Tests
use package.corestack_50005_htt.Prelude.{
  ℕ, zero, suc, ◌+◌, ◌-◌, ◌==◌, ltb, if◌then◌else◌, List, [], ◌∷◌, ◌++◌,
}
use package.corestack_50005_htt.Prelude.{length, drop, Option, none, some, net_word, host_word}

abbrev pub msg_content_length : ℕ
msg_content_length = 2048

-- The type is the value of a `MessageType`, and `ntohl` can give any word.
pub record Message : Type 0 where
  pub source_id : ℕ
  pub msg_len : ℕ
  pub msg_type : ℕ
  pub msg_content : List ℕ

-- `recv(sockfd, buf, n, 0)` gives the bytes that it wrote to `buf`, and `send(sockfd, buf, n, 0)` of the
-- bytes of `buf` the number that it took.
pub record Connection (S : Type 0) : Type 0 where
  pub recv : S → ℕ → Option (List ℕ × S)
  pub send : S → List ℕ → Option (ℕ × S)

infixl 5 ◌>>=◌
abbrev pub ◌>>=◌ {ℓ κ} : {A : Type ℓ} {B : Type κ} → Option A → (A → Option B) → Option B
none >>= f = none
some a >>= f = f a

-- The functions return the connection with what they read; `none` is the return value -1.
module _ {S : Type 0} (c : Connection S) where
  -- The loop of `read_bytes`, with `got` in the buffer and `remaining` bytes to come. Every `recv` that
  -- succeeds brings a byte, so there are no more rounds than bytes.
  unfoldable pub read_from : ℕ → List ℕ → ℕ → S → Option (List ℕ × S)
  read_from zero got remaining s = if remaining == 0 then some (got, s) else none
  read_from (suc fuel) got remaining s = if remaining == 0 then some (got, s) else (do
    (bytes, next) ← c.recv s remaining
    read_from fuel (got ++ bytes) (remaining - length bytes) next)

  unfoldable pub read_bytes : ℕ → S → Option (List ℕ × S)
  read_bytes n s = read_from n [] n s

  -- The loop of `send_bytes`, with `left` still to send.
  unfoldable pub send_from : ℕ → List ℕ → S → Option S
  send_from zero left s = if length left == 0 then some s else none
  send_from (suc fuel) left s =
      if length left == 0
      then some s
      else (do (m, next) ← c.send s left; send_from fuel (drop m left) next)

  unfoldable pub send_bytes : List ℕ → S → Option S
  send_bytes buf s = send_from (length buf) buf s

  unfoldable pub receive_message_tcp : S → Option (Message × S)
  receive_message_tcp s = do
    (source, s1) ← read_bytes 4 s
    (len, s2) ← read_bytes 4 s1
    (type, s3) ← read_bytes 4 s2
    (content, s4) ← read_bytes msg_content_length s3
    some (
      record {
        source_id = host_word source;
        msg_len = host_word len;
        msg_type = host_word type;
        msg_content = content;
      },
      s4,
    )

  unfoldable pub send_message_tcp : Message → S → Option S
  send_message_tcp msg s = do
    s1 ← send_bytes (net_word msg.source_id) s
    s2 ← send_bytes (net_word msg.msg_len) s1
    s3 ← send_bytes (net_word msg.msg_type) s2
    send_bytes msg.msg_content s3
