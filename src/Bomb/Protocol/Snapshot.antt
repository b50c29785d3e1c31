-- ===== src/Bomb/Protocol/Snapshot.antt =====
-- `pack_state` and `unpack_state` of protocol.c. The pointers `out` and `in` are an offset into the
-- buffer and the bytes that are left.
pub mod Loops
pub mod RoundTrip
pub mod Layout
use package.corestack_50005_htt.Prelude.{ℕ, zero, suc, ◌+◌, List, [], ◌∷◌, get_or, set, drop, ltb}
use package.corestack_50005_htt.Prelude.{
  if◌then◌else◌, net_word, host_word, net_words, host_words, store,
}
use package.corestack_50005_htt.Bomb.Protocol.{
  PlayerStateEntry, BombStateEntry, StatePayload, tag_size,
}
use package.corestack_50005_htt.Bomb.Protocol.{write_tag, payload_start, packet_state}
use package.corestack_50005_htt.Bomb.Protocol.{state_packet_max_players, state_packet_max_bombs}

abbrev pub no_player : PlayerStateEntry
no_player = record {
  player_id = 0;
  x = 0;
  y = 0;
  direction = 0;
  is_moving = 0;
  alive = 0;
  num_bombs = 0;
  remaining_bombs = 0;
  num_fires = 0;
}

abbrev pub no_bomb : BombStateEntry
no_bomb = record { x = 0; y = 0; timer = 0 }

-- `net_entry` and `net_bomb`, as they are copied, and the entries that are read back.
pub player_bytes : PlayerStateEntry → List ℕ
player_bytes p = net_words (
    p.player_id ∷ p.x ∷ p.y ∷ p.direction ∷ p.is_moving ∷ p.alive ∷ p.num_bombs ∷ p.remaining_bombs
    ∷ p.num_fires ∷ [])

pub read_player : List ℕ → PlayerStateEntry
read_player b =
    let net = host_words 9 b in
    record {
      player_id = get_or net 0 0;
      x = get_or net 1 0;
      y = get_or net 2 0;
      direction = get_or net 3 0;
      is_moving = get_or net 4 0;
      alive = get_or net 5 0;
      num_bombs = get_or net 6 0;
      remaining_bombs = get_or net 7 0;
      num_fires = get_or net 8 0;
    }

pub bomb_bytes : BombStateEntry → List ℕ
bomb_bytes b = net_words (b.x ∷ b.y ∷ b.timer ∷ [])

pub read_bomb : List ℕ → BombStateEntry
read_bomb b =
    let net = host_words 3 b in
    record { x = get_or net 0 0; y = get_or net 1 0; timer = get_or net 2 0 }

abbrev pub player_size : ℕ
player_size = 36

abbrev pub bomb_size : ℕ
bomb_size = 12

-- The two loops of `pack_state` and those of `unpack_state`, from the entry `i` on with `n` left, for
-- entries of `size` bytes.
module _ {ℓ} {A : Type ℓ} (size : ℕ) where
  unfoldable pub write_entries : (A → List ℕ) → A → ℕ → ℕ → List A → List ℕ → ℕ → List ℕ × ℕ
  write_entries bytes d zero i src buffer out = (buffer, out)
  write_entries bytes d (suc n) i src buffer out =
      write_entries bytes d n (i + 1) src (store buffer out (bytes (get_or src i d))) (out + size)

  unfoldable pub read_entries : (List ℕ → A) → ℕ → ℕ → List ℕ → List A → List A × List ℕ
  read_entries read zero i net dst = (dst, net)
  read_entries read (suc n) i net dst =
      read_entries read n (i + 1) (drop size net) (set dst i (read net))

-- `if (count > most) count = most`
pub clamp : ℕ → ℕ → ℕ
clamp most count = if ltb most count then most else count

pub pack_state : StatePayload → List ℕ
pack_state payload =
    let player_count = clamp state_packet_max_players payload.player_count in
    let bomb_count = clamp state_packet_max_bombs payload.bomb_count in
    let counted = store (write_tag packet_state) tag_size (net_word player_count) in
    let (peopled, out) =
      write_entries player_size player_bytes no_player player_count 0 payload.players counted
        (tag_size + 4) in
    let halved = store peopled out (net_word bomb_count) in
    (write_entries bomb_size bomb_bytes no_bomb bomb_count 0 payload.bombs halved (out + 4)).0

-- `unpack_state` writes over the entries of the payload that it is given, up to the counts.
pub unpack_state : List ℕ → StatePayload → StatePayload
unpack_state buffer payload =
    let net = payload_start buffer in
    let player_count = clamp state_packet_max_players (host_word net) in
    let (players, rest) =
      read_entries player_size read_player player_count 0 (drop 4 net) payload.players in
    let bomb_count = clamp state_packet_max_bombs (host_word rest) in
    let (bombs, _) = read_entries bomb_size read_bomb bomb_count 0 (drop 4 rest) payload.bombs in
    record {
      player_count = player_count;
      players = players;
      bomb_count = bomb_count;
      bombs = bombs;
    }
