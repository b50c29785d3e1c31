-- ===== src/Tetris/Log/Wire.antt =====
-- A log record that is sent in a datagram is received as it was built.
use corestack_50005_htt.Prelude.{
  ℕ, suc, zero, ◌+◌, ◌-◌, ◌<◌, ◌^◌, ◌≡◌, ◌≢◌, refl, ap, sym, ◌∙◌, arith,
}
use corestack_50005_htt.Prelude.{List, [], ◌∷◌, ◌++◌, some, length, set, take, drop, replicate}
use corestack_50005_htt.Prelude.{
  net_words, host_words, store, store-store, drop-store, drop_all, drop-append_at, take-append_at,
  take-all,
}
use corestack_50005_htt.Prelude.{
  host_words-net_words, length-net_words, length-append, length-replicate, length-take,
}
use corestack_50005_htt.Prelude.{
  append_assoc, append-nil, set-append_mid, IsWord, All, ◌==◌, ◌%◌, ◌/◌, false,
}
use corestack_50005_htt.Corestack.Hypertext.{c_string}
use corestack_50005_htt.Tetris.Log.{
  LogRecord, LogLevel, level_value, Moment, fields_of, copy_fixed, pack_log_record,
  unpack_log_record, build_log_record, log_wire_size, log_source_length, log_msg_length,
  log_level_debug, log_level_info, log_level_warn, log_level_error,
}

-- The sizes and the range of the members.
pub record IsRecord (r : LogRecord) : Type 0 where
  pub words : All IsWord (fields_of r)
  pub source_size : length r.source ≡ log_source_length
  pub message_size : length r.message ≡ log_msg_length

store_all : (buffer bytes : List ℕ) → length bytes ≡ length buffer → store buffer 0 bytes ≡ bytes
store_all buffer bytes h =
    let none_left : drop (0 + length bytes) buffer ≡ [] =
      drop_all 0 (0 + length bytes) buffer (omega arith) in
    drop-store buffer 0 bytes (omega arith) ∙ ap (λ t. bytes ++ t) none_left ∙ append-nil bytes

pack_log_record_lem :
    (r : LogRecord)
    → IsRecord r
    → pack_log_record r ≡ net_words (fields_of r) ++ (r.source ++ r.message)
unfolding pack_log_record
pack_log_record_lem r o =
    let start : List ℕ = replicate log_wire_size 0 in
    let words = net_words (fields_of r) in
    let size : length words ≡ 20 = length-net_words (fields_of r) ∙ omega arith in
    let total : length start ≡ log_wire_size = length-replicate {A = ℕ} log_wire_size 0 in
    ap (λ b. store b (20 + log_source_length) r.message)
      (store-store start 0 20 words r.source (omega arith) (omega (arith, o.source_size)))
    ∙ store-store start 0 (20 + log_source_length) (words ++ r.source) r.message
        (omega (arith, length-append words r.source, o.source_size)) (omega (arith, o.message_size))
    ∙ store_all start ((words ++ r.source) ++ r.message) (
        omega (
          arith,
          length-append (words ++ r.source) r.message,
          length-append words r.source,
          o.source_size,
          o.message_size,
        ))
    ∙ append_assoc words r.source r.message

-- A record goes through a datagram but for the last byte of each of its arrays, which is set to zero.
unpack-pack_log_record :
    (r : LogRecord)
    → IsRecord r
    → unpack_log_record (pack_log_record r) ≡ record r {
      source = set r.source (log_source_length - 1) 0;
      message = set r.message (log_msg_length - 1) 0;
    }
unfolding unpack_log_record
unpack-pack_log_record r o =
    let words = net_words (fields_of r) in
    let size : length words ≡ 20 = length-net_words (fields_of r) ∙ omega arith in
    let numbers : host_words 5 (words ++ (r.source ++ r.message)) ≡ fields_of r =
      host_words-net_words (fields_of r) (r.source ++ r.message) o.words in
    let behind : drop 20 (words ++ (r.source ++ r.message)) ≡ r.source ++ r.message =
      drop-append_at 20 words (r.source ++ r.message) size in
    let name : take log_source_length (drop 20 (words ++ (r.source ++ r.message))) ≡ r.source =
      ap (take log_source_length) behind
      ∙ take-append_at log_source_length r.source r.message o.source_size in
    let text : take log_msg_length
          (drop (20 + log_source_length) (words ++ (r.source ++ r.message)))
        ≡ r.message =
      ap (take log_msg_length) (
        ap (λ l. drop (20 + log_source_length) l) (sym (append_assoc words r.source r.message))
        ∙ drop-append_at (20 + log_source_length) (words ++ r.source) r.message
            (omega (arith, length-append words r.source, o.source_size)))
      ∙ take-all log_msg_length r.message o.message_size in
    rw (pack_log_record_lem r o, numbers, name, text) refl

-- The text in an array of `suc n` bytes that `copy_fixed` writes.
abbrev pub fixed : ℕ → List ℕ → List ℕ
fixed n text = take n (text ++ replicate n 0)

length-fixed : (n : ℕ) (text : List ℕ) → length (fixed n text) ≡ n
length-fixed n text =
    length-take n (text ++ replicate n 0)
      (omega (arith, length-append text (replicate n 0), length-replicate {A = ℕ} n 0))

set_last : (xs : List ℕ) (v w : ℕ) (n : ℕ) → length xs ≡ n → set (xs ++ v ∷ []) n w ≡ xs ++ w ∷ []
set_last xs v w n h = ap (λ k. set (xs ++ v ∷ []) k w) (sym h) ∙ set-append_mid xs v w []

-- What is read of it: the text, cut off behind `n` characters.
c_string-fixed :
    (n m : ℕ) (text : List ℕ)
    → All (λ c. c ≢ 0) text
    → c_string (take n (text ++ replicate m 0) ++ 0 ∷ []) ≡ take n text
c_string-fixed zero m text h = refl
c_string-fixed (suc n) zero [] h = refl
c_string-fixed (suc n) (suc m) [] h = refl
c_string-fixed (suc n) m (c ∷ text) h =
    let other : (c == 0) ≡ false = ground (arith, h.0) in
    rw other (ap (λ l. c ∷ l) (c_string-fixed n m text h.1))

built_fields :
    (now : Moment) (next_seq : ℕ) (level : LogLevel)
    → next_seq < 2 ^ 32
    → All IsWord (
        now.tv_sec % 2 ^ 32
        ∷ now.tv_nsec / 1000000 % 2 ^ 32
        ∷ level_value level
        ∷ now.pid % 2 ^ 32
        ∷ next_seq
        ∷ [])
built_fields now next_seq log_level_debug h =
    (omega arith, (omega arith, (omega arith, (omega arith, (omega arith, tt)))))
built_fields now next_seq log_level_info h =
    (omega arith, (omega arith, (omega arith, (omega arith, (omega arith, tt)))))
built_fields now next_seq log_level_warn h =
    (omega arith, (omega arith, (omega arith, (omega arith, (omega arith, tt)))))
built_fields now next_seq log_level_error h =
    (omega arith, (omega arith, (omega arith, (omega arith, (omega arith, tt)))))

-- A record that is built of a source and a message, and sent in a datagram of 292 bytes, is received as it was
-- built; what is read of its source is the first 15 characters of the source that was given, and of its message
-- the first 255 of the message, for texts of any length without a zero byte.
pub log_record_delivered :
    (now : Moment) (next_seq : ℕ) (level : LogLevel) (source message : List ℕ)
    → next_seq < 2 ^ 32
    → All (λ c. c ≢ 0) source
    → All (λ c. c ≢ 0) message
    → let sent = (build_log_record now next_seq level (some source) (some message)).0 in
      (length (pack_log_record sent) ≡ log_wire_size)
      × (unpack_log_record (pack_log_record sent) ≡ sent)
      × (c_string sent.source ≡ take 15 source)
      × (c_string sent.message ≡ take 255 message)
unfolding build_log_record copy_fixed
log_record_delivered now next_seq level source message h p q =
    let sent = (build_log_record now next_seq level (some source) (some message)).0 in
    let len1 = length-fixed 15 source in
    let len2 = length-fixed 255 message in
    let ok : IsRecord sent = record {
      words = built_fields now next_seq level h;
      source_size = omega (arith, length-append (fixed 15 source) (0 ∷ []));
      message_size = omega (arith, length-append (fixed 255 message) (0 ∷ []));
    } in
    (
      ap length (pack_log_record_lem sent ok)
          ∙ omega (
            arith,
            length-append (net_words (fields_of sent)) (sent.source ++ sent.message),
            length-append sent.source sent.message,
            length-net_words (fields_of sent),
            ok.source_size,
            ok.message_size,
          ),
      unpack-pack_log_record sent ok
          ∙ ap (λ s. record sent { source = s; message = set sent.message (log_msg_length - 1) 0 })
              (set_last (fixed 15 source) 0 0 15 len1)
          ∙ ap (λ t. record sent { message = t }) (set_last (fixed 255 message) 0 0 255 len2),
      c_string-fixed 15 15 source p,
      c_string-fixed 255 255 message q,
    )
