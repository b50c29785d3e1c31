-- ===== src/Tetris/Killfeed.antt =====
-- libtetrisbrain/killfeed.c: the circular buffer of the last attacks.
pub mod Recent
use package.corestack_50005_htt.Prelude.{
  ℕ, zero, suc, ◌+◌, ◌-◌, ◌%◌, ltb, if◌then◌else◌, List, [], ◌∷◌,
}
use package.corestack_50005_htt.Prelude.{get_or, set}

abbrev pub kill_feed_max : ℕ
kill_feed_max = 4

-- `KillFeedEntry`
pub record Entry : Type 0 where
  pub source_player : ℕ
  pub target_player : ℕ
  pub lines : ℕ

abbrev pub no_entry : Entry
no_entry = record { source_player = 0; target_player = 0; lines = 0 }

-- The static variables `feed`, `feed_head` and `feed_count`.
pub record Killfeed : Type 0 where
  pub feed : List Entry
  pub feed_head : ℕ
  pub feed_count : ℕ

pub add_kill_feed : Killfeed → Entry → Killfeed
add_kill_feed k e = record {
  feed = set k.feed k.feed_head e;
  feed_head = (k.feed_head + 1) % kill_feed_max;
  feed_count = if ltb k.feed_count kill_feed_max then k.feed_count + 1 else k.feed_count;
}

-- The entries that the loop of `draw_kill_feed` prints from its round `i` on, `n` rounds left. The
-- index is summed in another order, since a difference of natural numbers stops at 0.
pub drawn_from : Killfeed → ℕ → ℕ → List Entry
drawn_from k zero i = []
drawn_from k (suc n) i =
    get_or k.feed ((k.feed_head + i + kill_feed_max - k.feed_count) % kill_feed_max) no_entry
    ∷ drawn_from k n (i + 1)

-- What `draw_kill_feed` prints: the entries in order, and the number of padding lines.
pub draw_kill_feed : Killfeed → List Entry × ℕ
draw_kill_feed k = (drawn_from k k.feed_count 0, kill_feed_max - k.feed_count)
