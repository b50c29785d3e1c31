-- ===== src/Tetris/Log.antt =====
-- libtetrislog/logrecord.c with its header: the record of a log message, and its bytes in a datagram. A `char`
-- array is the list of its bytes, and a C string is given without its zero byte.
pub mod Wire
pub mod Client
mod Tests
use package.corestack_50005_htt.Prelude.{ℕ, suc, zero, ◌+◌, ◌-◌, ◌*◌, ◌/◌, ◌%◌, ◌^◌, ◌≤◌}
use package.corestack_50005_htt.Prelude.{
  List, [], ◌∷◌, ◌++◌, Option, none, some, length, get_or, set, take, drop, replicate,
}
use package.corestack_50005_htt.Prelude.{net_words, host_words, store}

abbrev pub log_source_length : ℕ
log_source_length = 16

abbrev pub log_msg_length : ℕ
log_msg_length = 256

-- Five words and the two arrays.
abbrev pub log_wire_size : ℕ
log_wire_size = 292

pub data LogLevel : Type 0 where
  log_level_debug : LogLevel
  log_level_info : LogLevel
  log_level_warn : LogLevel
  log_level_error : LogLevel

abbrev pub level_value : LogLevel → ℕ
level_value log_level_debug = 0
level_value log_level_info = 1
level_value log_level_warn = 2
level_value log_level_error = 3

pub record LogRecord : Type 0 where
  pub time_sec : ℕ
  pub time_msec : ℕ
  pub level : ℕ
  pub pid : ℕ
  pub seq : ℕ
  pub source : List ℕ
  pub message : List ℕ

-- `copy_fixed` with `strncpy`, which fills the array with zeros behind a short string; `none` is NULL.
pub copy_fixed : List ℕ → Option (List ℕ) → ℕ → List ℕ
copy_fixed dest none dest_size = set dest 0 0
copy_fixed dest (some src) dest_size =
    take (dest_size - 1) (src ++ replicate (dest_size - 1) 0) ++ 0 ∷ []

abbrev pub fields_of : LogRecord → List ℕ
fields_of r = r.time_sec ∷ r.time_msec ∷ r.level ∷ r.pid ∷ r.seq ∷ []

pub pack_log_record : LogRecord → List ℕ
pack_log_record r =
    let start = replicate log_wire_size 0 in
    let numbered = store start 0 (net_words (fields_of r)) in
    let named = store numbered 20 r.source in store named (20 + log_source_length) r.message

-- The last byte of each array is overwritten with zero.
pub unpack_log_record : List ℕ → LogRecord
unpack_log_record buffer =
    let fields = host_words 5 buffer in
    record {
      time_sec = get_or fields 0 0;
      time_msec = get_or fields 1 0;
      level = get_or fields 2 0;
      pid = get_or fields 3 0;
      seq = get_or fields 4 0;
      source = set (take log_source_length (drop 20 buffer)) (log_source_length - 1) 0;
      message =
          set (take log_msg_length (drop (20 + log_source_length) buffer)) (log_msg_length - 1) 0;
    }

-- What `clock_gettime` and `getpid` give.
pub record Moment : Type 0 where
  pub tv_sec : ℕ
  pub tv_nsec : ℕ
  pub pid : ℕ

-- The record, and the next value of `next_seq`.
pub build_log_record : Moment → ℕ → LogLevel → Option (List ℕ) → Option (List ℕ) → LogRecord × ℕ
build_log_record now next_seq level source message = (
  record {
    time_sec = now.tv_sec % 2 ^ 32;
    time_msec = now.tv_nsec / 1000000 % 2 ^ 32;
    level = level_value level;
    pid = now.pid % 2 ^ 32;
    seq = next_seq;
    source = copy_fixed (replicate log_source_length 0) source log_source_length;
    message = copy_fixed (replicate log_msg_length 0) message log_msg_length;
  },
  (next_seq + 1) % 2 ^ 32,
)
