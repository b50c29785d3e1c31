-- ===== src/Bomb/Protocol/Snapshot/RoundTrip.antt =====
-- A snapshot in one packet: what `pack_state` writes, and what `unpack_state` makes of it.
use corestack_50005_htt.Prelude.{ℕ, ◌+◌, ◌*◌, ◌^◌, ◌≤◌, ◌<◌, ◌≡◌, refl, ap, ap₂, ◌∙◌, arith}
use corestack_50005_htt.Prelude.{List, [], ◌∷◌, ◌++◌, length, take, drop, append_assoc}
use corestack_50005_htt.Prelude.{length-append, length-take, All, All-take}
use corestack_50005_htt.Prelude.{net_word, host_word, store, IsWord, store-store}
use corestack_50005_htt.Prelude.{
  length-store, length-net_word, length-net_words, host_words-net_words,
}
use corestack_50005_htt.Prelude.{host_word-net_word, drop-net_word}
use corestack_50005_htt.Bomb.Protocol.{
  StatePayload, PlayerStateEntry, BombStateEntry, payload_start,
}
use corestack_50005_htt.Bomb.Protocol.{write_tag, packet_state, tag_size}
use corestack_50005_htt.Bomb.Protocol.Fixed.{length-write_tag, payload_start-store}
use corestack_50005_htt.Bomb.Protocol.Snapshot.{
  player_bytes, read_player, bomb_bytes, read_bomb, clamp,
}
use corestack_50005_htt.Bomb.Protocol.Snapshot.{
  pack_state, unpack_state, write_entries, read_entries,
}
use corestack_50005_htt.Bomb.Protocol.Snapshot.{player_size, bomb_size, no_player, no_bomb}
use corestack_50005_htt.Bomb.Protocol.Snapshot.Loops.{bytes_of, length-bytes_of}
use corestack_50005_htt.Bomb.Protocol.Snapshot.Loops.{write_entries_first, read_entries_first}

-- The fields of an entry, of four bytes each.
abbrev pub player_words : PlayerStateEntry → List ℕ
player_words p =
    p.player_id ∷ p.x ∷ p.y ∷ p.direction ∷ p.is_moving ∷ p.alive ∷ p.num_bombs ∷ p.remaining_bombs
    ∷ p.num_fires ∷ []

abbrev pub IsPlayer : PlayerStateEntry → Type 0
IsPlayer p = All IsWord (player_words p)

abbrev pub bomb_words : BombStateEntry → List ℕ
bomb_words b = b.x ∷ b.y ∷ b.timer ∷ []

abbrev pub IsBomb : BombStateEntry → Type 0
IsBomb b = All IsWord (bomb_words b)

length-player_bytes : (p : PlayerStateEntry) → length (player_bytes p) ≡ player_size
unfolding player_bytes
length-player_bytes p = length-net_words (player_words p)

length-bomb_bytes : (b : BombStateEntry) → length (bomb_bytes b) ≡ bomb_size
unfolding bomb_bytes
length-bomb_bytes b = length-net_words (bomb_words b)

read_player-player_bytes :
    (p : PlayerStateEntry) (rest : List ℕ) → IsPlayer p → read_player (player_bytes p ++ rest) ≡ p
unfolding read_player player_bytes
read_player-player_bytes p rest h = rw (host_words-net_words (player_words p) rest h) refl

read_bomb-bomb_bytes :
    (b : BombStateEntry) (rest : List ℕ) → IsBomb b → read_bomb (bomb_bytes b ++ rest) ≡ b
unfolding read_bomb bomb_bytes
read_bomb-bomb_bytes b rest h = rw (host_words-net_words (bomb_words b) rest h) refl

-- The arrays of a `StatePayload` have 25 and 100 places.
abbrev pub IsState : StatePayload → Type 0
IsState s = (length s.players ≡ 25) × (length s.bombs ≡ 100)

abbrev pub sent_players : StatePayload → List PlayerStateEntry
sent_players s = take (clamp 8 s.player_count) s.players

abbrev pub sent_bombs : StatePayload → List BombStateEntry
sent_bombs s = take (clamp 16 s.bomb_count) s.bombs

-- Two runs of entries, each behind its count.
abbrev pub counted : ℕ → List PlayerStateEntry → ℕ → List BombStateEntry → List ℕ
counted k players m bombs =
    (net_word k ++ bytes_of player_bytes (take k players))
    ++ (net_word m ++ bytes_of bomb_bytes (take m bombs))

-- The bytes behind the tag.
abbrev pub payload_bytes : StatePayload → List ℕ
payload_bytes s = counted (clamp 8 s.player_count) s.players (clamp 16 s.bomb_count) s.bombs

pub clamp-le : (most count : ℕ) → clamp most count ≤ most
unfolding clamp
clamp-le most count = ground arith

length-counted_entries {ℓ} :
    {A : Type ℓ} (size : ℕ) (bytes : A → List ℕ) (k : ℕ) (xs : List A)
    → ((a : A) → length (bytes a) ≡ size)
    → k ≤ length xs
    → length (net_word k ++ bytes_of bytes (take k xs)) ≡ 4 + k * size
length-counted_entries size bytes k xs sized h =
    length-append (net_word k) (bytes_of bytes (take k xs))
    ∙ ap₂ ◌+◌ (length-net_word k)
        (length-bytes_of size bytes (take k xs) sized ∙ ap (λ n. n * size) (length-take k xs h))

length-counted :
    (k m : ℕ) (players : List PlayerStateEntry) (bombs : List BombStateEntry)
    → k ≤ length players
    → m ≤ length bombs
    → length (counted k players m bombs) ≡ 8 + k * 36 + m * 12
length-counted k m players bombs hk hm =
    let front = net_word k ++ bytes_of player_bytes (take k players) in
    let back = net_word m ++ bytes_of bomb_bytes (take m bombs) in
    omega (
      arith,
      length-append front back,
      length-counted_entries player_size player_bytes k players length-player_bytes hk,
      length-counted_entries bomb_size bomb_bytes m bombs length-bomb_bytes hm,
    )

pub length-payload_bytes :
    (s : StatePayload)
    → IsState s
    → length (payload_bytes s) ≡ 8 + clamp 8 s.player_count * 36 + clamp 16 s.bomb_count * 12
length-payload_bytes s (hp, hb) =
    let k = clamp-le 8 s.player_count in
    let m = clamp-le 16 s.bomb_count in
    length-counted (clamp 8 s.player_count) (clamp 16 s.bomb_count) s.players s.bombs
      (omega (arith, k)) (omega (arith, m))

-- A count and the entries behind it are one copy.
write_counted {ℓ} :
    {A : Type ℓ} (size : ℕ) (bytes : A → List ℕ) (d : A) (k : ℕ) (xs : List A) (buffer : List ℕ)
    (out : ℕ)
    → ((a : A) → length (bytes a) ≡ size)
    → k ≤ length xs
    → out + (4 + k * size) ≤ length buffer
    → write_entries size bytes d k 0 xs (store buffer out (net_word k)) (out + 4)
      ≡ (store buffer out (net_word k ++ bytes_of bytes (take k xs)), out + (4 + k * size))
write_counted size bytes d k xs buffer out sized h fits =
    let four = length-net_word k in
    let same : length (store buffer out (net_word k)) ≡ length buffer =
      length-store buffer out (net_word k) (omega arith) in
    let many : length (bytes_of bytes (take k xs)) ≡ k * size =
      length-bytes_of size bytes (take k xs) sized ∙ ap (λ n. n * size) (length-take k xs h) in
    write_entries_first size bytes d sized k xs (store buffer out (net_word k)) (out + 4) h
      (omega arith)
    ∙ ap₂ (λ (b : List ℕ) (n : ℕ). (b, n))
        (store-store buffer out (out + 4) (net_word k) (bytes_of bytes (take k xs)) (omega arith)
          (omega arith))
        (omega arith)

-- The loops write the payload at the offset of the tag, as one copy.
pub pack_state-store :
    (s : StatePayload)
    → IsState s
    → pack_state s ≡ store (write_tag packet_state) tag_size (payload_bytes s)
unfolding pack_state
pack_state-store s (hp, hb) =
    let k = clamp 8 s.player_count in
    let m = clamp 16 s.bomb_count in
    let hk = clamp-le 8 s.player_count in
    let hm = clamp-le 16 s.bomb_count in
    let blank = length-write_tag packet_state in
    let players = net_word k ++ bytes_of player_bytes (take k s.players) in
    let bombs = net_word m ++ bytes_of bomb_bytes (take m s.bombs) in
    let long =
      length-counted_entries player_size player_bytes k s.players length-player_bytes
        (omega (arith, hk)) in
    let short =
      length-counted_entries bomb_size bomb_bytes m s.bombs length-bomb_bytes (omega (arith, hm)) in
    let peopled = store (write_tag packet_state) tag_size players in
    let same : length peopled ≡ 512 =
      length-store (write_tag packet_state) tag_size players (omega (arith, long, hk, blank))
      ∙ blank in
    ap
      (λ r.
        (write_entries bomb_size bomb_bytes no_bomb m 0 s.bombs (store r.0 r.1 (net_word m))
          (r.1 + 4)).0)
      (write_counted player_size player_bytes no_player k s.players (write_tag packet_state)
        tag_size length-player_bytes (omega (arith, hk)) (omega (arith, hk, blank)))
    ∙ ap (λ r. r.0)
        (write_counted bomb_size bomb_bytes no_bomb m s.bombs peopled
          (tag_size + (4 + k * player_size)) length-bomb_bytes (omega (arith, hm))
          (omega (arith, hk, hm, same)))
    ∙ store-store (write_tag packet_state) tag_size (tag_size + (4 + k * player_size)) players bombs
        (omega (arith, long)) (omega (arith, long, short, hk, hm, blank))

-- A count and its entries are read back.
module _ {ℓ} {A : Type ℓ} (size : ℕ) (bytes : A → List ℕ) (read : List ℕ → A) (Good : A → Type 0)
    (sized : (a : A) → length (bytes a) ≡ size)
    (reads : (a : A) (rest : List ℕ) → Good a → read (bytes a ++ rest) ≡ a) where
  read_counted_count :
      (k : ℕ) (xs : List A) (rest : List ℕ)
      → k < 2 ^ 32
      → host_word ((net_word k ++ bytes_of bytes (take k xs)) ++ rest) ≡ k
  read_counted_count k xs rest h =
      ap host_word (append_assoc (net_word k) (bytes_of bytes (take k xs)) rest)
      ∙ host_word-net_word k (bytes_of bytes (take k xs) ++ rest) h

  read_counted_entries :
      (k : ℕ) (xs old : List A) (rest : List ℕ)
      → k ≤ length xs
      → k ≤ length old
      → All Good xs
      → read_entries size read k 0 (drop 4 ((net_word k ++ bytes_of bytes (take k xs)) ++ rest)) old
        ≡ (take k xs ++ drop k old, rest)
  read_counted_entries k xs old rest h ho g =
      ap (λ b. read_entries size read k 0 b old)
        (ap (drop 4) (append_assoc (net_word k) (bytes_of bytes (take k xs)) rest)
          ∙ drop-net_word k (bytes_of bytes (take k xs) ++ rest))
      ∙ read_entries_first size bytes read Good sized reads k (take k xs) old rest
          (length-take k xs h) ho (All-take Good k xs g)

clamp-clamp : (most count : ℕ) → clamp most (clamp most count) ≡ clamp most count
unfolding clamp
clamp-clamp most count = ground arith

-- A snapshot whose entries are words arrives with at most 8 players and 16 bombs: the entries that were
-- sent stand in the first places of the receiver's arrays, and its other entries are left.
pub unpack-pack_state :
    (s old : StatePayload)
    → IsState s
    → IsState old
    → All IsPlayer s.players
    → All IsBomb s.bombs
    → unpack_state (pack_state s) old ≡ record {
      player_count = clamp 8 s.player_count;
      players = sent_players s ++ drop (clamp 8 s.player_count) old.players;
      bomb_count = clamp 16 s.bomb_count;
      bombs = sent_bombs s ++ drop (clamp 16 s.bomb_count) old.bombs;
    }
unfolding unpack_state
unpack-pack_state s old h ho hp hb =
    let k = clamp 8 s.player_count in
    let m = clamp 16 s.bomb_count in
    let hk = clamp-le 8 s.player_count in
    let hm = clamp-le 16 s.bomb_count in
    let players = net_word k ++ bytes_of player_bytes (take k s.players) in
    let bombs = net_word m ++ bytes_of bomb_bytes (take m s.bombs) in
    let tail = drop (tag_size + length (payload_bytes s)) (write_tag packet_state) in
    let net : payload_start (pack_state s) ≡ players ++ (bombs ++ tail) =
      ap payload_start (pack_state-store s h)
      ∙ payload_start-store packet_state (payload_bytes s)
      ∙ append_assoc players bombs tail in
    rw
      (
        unpack_state,
        net,
        read_counted_count player_size player_bytes read_player IsPlayer length-player_bytes
            read_player-player_bytes k s.players (bombs ++ tail) (omega (arith, hk)),
        clamp-clamp 8 s.player_count,
        read_counted_entries player_size player_bytes read_player IsPlayer length-player_bytes
            read_player-player_bytes k s.players old.players (bombs ++ tail) (omega (arith, hk))
            (omega (arith, hk)) hp,
        read_counted_count bomb_size bomb_bytes read_bomb IsBomb length-bomb_bytes
            read_bomb-bomb_bytes m s.bombs tail (omega (arith, hm)),
        clamp-clamp 16 s.bomb_count,
        read_counted_entries bomb_size bomb_bytes read_bomb IsBomb length-bomb_bytes
            read_bomb-bomb_bytes m s.bombs old.bombs tail (omega (arith, hm)) (omega (arith, hm))
            hb,
      )
      refl
