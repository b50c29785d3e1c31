-- ===== src/Tetris/Killfeed/Recent.antt =====
-- The kill feed holds the last four attacks, oldest first.
use corestack_50005_htt.Prelude.{◌⊎◌}
use corestack_50005_htt.Prelude.{
  ℕ, zero, suc, ◌-◌, ◌≤◌, ◌<◌, ◌≡◌, refl, subst, sym, ◌∙◌, length-set,
}
use corestack_50005_htt.Prelude.{List, [], ◌∷◌, ◌++◌, length, arith}
use corestack_50005_htt.Prelude.{drop}
use corestack_50005_htt.Tetris.Killfeed.{Entry, Killfeed, add_kill_feed, drawn_from, draw_kill_feed}

-- The buffer has four places, the head is one of them, and the count is at most four; until the
-- buffer is full the head is the count.
pub record IsFeed (k : Killfeed) : Type 0 where
  pub places : length k.feed ≡ 4
  pub head : k.feed_head < 4
  pub counted : k.feed_count ≤ 4
  pub filling : (k.feed_count ≡ 4) ⊎ (k.feed_head ≡ k.feed_count)

-- The last four of a list.
abbrev pub last_four : List Entry → List Entry
last_four l = drop (length l - 4) l

add_kill_feed-IsFeed : (k : Killfeed) (e : Entry) → IsFeed k → IsFeed (add_kill_feed k e)
unfolding add_kill_feed
add_kill_feed-IsFeed k e w = record {
  places = length-set k.feed k.feed_head e ∙ w.places;
  head = omega arith;
  counted = ground (arith, w.counted);
  filling = ground (arith, w.filling, w.counted, w.head);
}

-- A feed of four given places.
abbrev feed_of : Entry → Entry → Entry → Entry → ℕ → ℕ → Killfeed
feed_of a b c d h n = record { feed = a ∷ b ∷ c ∷ d ∷ []; feed_head = h; feed_count = n }

-- What `draw_kill_feed` shows after an attack.
abbrev Shows : Killfeed → Entry → Type 0
Shows k e =
    draw_kill_feed (add_kill_feed k e)
    ≡ (last_four ((draw_kill_feed k).0 ++ e ∷ []), 4 - (add_kill_feed k e).feed_count)

-- The eight sound states of the head and the count.
Shows-feed_of :
    (a b c d e : Entry) (h n : ℕ)
    → h < 4
    → n ≤ 4
    → (n ≡ 4) ⊎ (h ≡ n)
    → Shows (feed_of a b c d h n) e
unfolding add_kill_feed draw_kill_feed drawn_from
Shows-feed_of a b c d e zero zero hh hn f = refl
Shows-feed_of a b c d e (suc zero) (suc zero) hh hn f = refl
Shows-feed_of a b c d e (suc (suc zero)) (suc (suc zero)) hh hn f = refl
Shows-feed_of a b c d e (suc (suc (suc zero))) (suc (suc (suc zero))) hh hn f = refl
Shows-feed_of a b c d e zero (suc (suc (suc (suc zero)))) hh hn f = refl
Shows-feed_of a b c d e (suc zero) (suc (suc (suc (suc zero)))) hh hn f = refl
Shows-feed_of a b c d e (suc (suc zero)) (suc (suc (suc (suc zero)))) hh hn f = refl
Shows-feed_of a b c d e (suc (suc (suc zero))) (suc (suc (suc (suc zero)))) hh hn f = refl
Shows-feed_of a b c d e h n hh hn f = absurd (omega arith)

four_view :
    (l : List Entry)
    → length l ≡ 4
    → (a : Entry) × (b : Entry) × (c : Entry) × (d : Entry) × (l ≡ a ∷ b ∷ c ∷ d ∷ [])
four_view (a ∷ b ∷ c ∷ d ∷ []) h = (a, b, c, d, refl)
four_view l h = absurd (omega arith)

-- Adding an attack keeps the buffer sound, and the feed then shows the last four of the attacks
-- that it showed before and the new one, with one padding line for each attack short of four.
pub add_kill_feed_lem :
    (k : Killfeed) (e : Entry)
    → IsFeed k
    → IsFeed (add_kill_feed k e)
      × (draw_kill_feed (add_kill_feed k e)
          ≡ (last_four ((draw_kill_feed k).0 ++ e ∷ []), 4 - (add_kill_feed k e).feed_count))
add_kill_feed_lem k e w =
    let (a, b, c, d, places) = four_view k.feed w.places in
    (
      add_kill_feed-IsFeed k e w,
      subst (λ (l : List Entry). Shows (record k { feed = l }) e) (sym places)
          (Shows-feed_of a b c d e k.feed_head k.feed_count w.head w.counted w.filling),
    )
