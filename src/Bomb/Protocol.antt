-- ===== src/Bomb/Protocol.antt =====
-- bomberman/src/lib/libbombprotocol/protocol.c: the packets of 512 bytes. A struct whose fields all
-- have four bytes is copied as its words in order, an `int32_t` is converted to and from `uint32_t`,
-- and a `float` is its 32 bits, which `write_net_float` and `read_net_float` treat as a word.
pub mod Snapshot
pub mod Fixed
mod Tests
use package.corestack_50005_htt.Prelude.{
  ℕ, zero, suc, ◌+◌, ◌*◌, List, [], ◌∷◌, get_or, set, take, drop,
}
use package.corestack_50005_htt.Prelude.{replicate, ltb, if◌then◌else◌, map, ◌++◌}
use package.corestack_50005_htt.Prelude.{net_word, host_word, net_words, host_words, store}
use package.corestack_50005_htt.Prelude.Int.{ℤ, to_int, to_unsigned}

abbrev pub bombd_max_players : ℕ
bombd_max_players = 25

abbrev pub bombd_max_bombs : ℕ
bombd_max_bombs = 100

abbrev pub bombd_max_map_dim : ℕ
bombd_max_map_dim = 20

abbrev pub state_packet_max_players : ℕ
state_packet_max_players = 8

abbrev pub state_packet_max_bombs : ℕ
state_packet_max_bombs = 16

-- `BombPacketType`
pub data BombPacketType : Type 0 where
  packet_move : BombPacketType
  packet_bomb_place : BombPacketType
  packet_roster : BombPacketType
  packet_map_init : BombPacketType
  packet_tile_update : BombPacketType
  packet_state : BombPacketType
  packet_explosion : BombPacketType
  packet_game_over : BombPacketType

-- Its values.
abbrev pub tag_of : BombPacketType → ℕ
tag_of packet_move = 0
tag_of packet_bomb_place = 1
tag_of packet_roster = 2
tag_of packet_map_init = 3
tag_of packet_tile_update = 4
tag_of packet_state = 5
tag_of packet_explosion = 6
tag_of packet_game_over = 7

pub record MovePayload : Type 0 where
  pub player_id : ℕ
  pub dx : ℤ
  pub dy : ℤ
  pub sprinting : ℕ

pub record BombPlacePayload : Type 0 where
  pub player_id : ℕ

pub record RosterPayload : Type 0 where
  pub count : ℕ
  pub ids : List ℕ

-- The tiles are one list, row after row.
pub record MapInitPayload : Type 0 where
  pub map_size : ℕ
  pub tiles : List ℕ

pub record TileUpdatePayload : Type 0 where
  pub x : ℕ
  pub y : ℕ
  pub tile : ℕ

pub record PlayerStateEntry : Type 0 where
  pub player_id : ℕ
  pub x : ℕ
  pub y : ℕ
  pub direction : ℕ
  pub is_moving : ℕ
  pub alive : ℕ
  pub num_bombs : ℕ
  pub remaining_bombs : ℕ
  pub num_fires : ℕ

pub record BombStateEntry : Type 0 where
  pub x : ℕ
  pub y : ℕ
  pub timer : ℕ

pub record StatePayload : Type 0 where
  pub player_count : ℕ
  pub players : List PlayerStateEntry
  pub bomb_count : ℕ
  pub bombs : List BombStateEntry

pub record ExplosionPayload : Type 0 where
  pub center_x : ℕ
  pub center_y : ℕ
  pub spread_amt : List ℕ

pub record GameOverPayload : Type 0 where
  pub winner_id : ℕ

-- `write_tag` clears the buffer, so its old bytes play no part; the payload starts at offset 4.
abbrev pub tag_size : ℕ
tag_size = 4

unfoldable pub write_tag : BombPacketType → List ℕ
write_tag type = store (replicate 512 0) 0 (net_word (tag_of type))

unfoldable pub payload_start : List ℕ → List ℕ
payload_start buffer = drop tag_size buffer

pub read_bomb_packet_tag : List ℕ → ℕ
read_bomb_packet_tag buffer = host_word buffer

-- A packet of a tag and a struct of words.
unfoldable pub pack_words : BombPacketType → List ℕ → List ℕ
pack_words type words = store (write_tag type) tag_size (net_words words)

pub pack_move : MovePayload → List ℕ
pack_move payload =
    pack_words packet_move
      (payload.player_id ∷ to_unsigned payload.dx ∷ to_unsigned payload.dy ∷ payload.sprinting ∷ [])

pub unpack_move : List ℕ → MovePayload
unpack_move buffer =
    let net = host_words 4 (payload_start buffer) in
    record {
      player_id = get_or net 0 0;
      dx = to_int (get_or net 1 0);
      dy = to_int (get_or net 2 0);
      sprinting = get_or net 3 0;
    }

pub pack_bomb_place : BombPlacePayload → List ℕ
pack_bomb_place payload = pack_words packet_bomb_place (payload.player_id ∷ [])

pub unpack_bomb_place : List ℕ → BombPlacePayload
unpack_bomb_place buffer = record { player_id = host_word (payload_start buffer) }

-- The two loops over the ids convert the words one by one; all 25 are sent, whatever the count.
pub pack_roster : RosterPayload → List ℕ
pack_roster payload = pack_words packet_roster (payload.count ∷ payload.ids)

pub unpack_roster : List ℕ → RosterPayload
unpack_roster buffer =
    let net = host_words (1 + bombd_max_players) (payload_start buffer) in
    record { count = get_or net 0 0; ids = drop 1 net }

pub pack_map_init : MapInitPayload → List ℕ
pack_map_init payload =
    store (write_tag packet_map_init) tag_size (net_word payload.map_size ++ payload.tiles)

pub unpack_map_init : List ℕ → MapInitPayload
unpack_map_init buffer =
    let net = payload_start buffer in
    record {
      map_size = host_word net;
      tiles = take (bombd_max_map_dim * bombd_max_map_dim) (drop 4 net);
    }

pub pack_tile_update : TileUpdatePayload → List ℕ
pack_tile_update payload = pack_words packet_tile_update (payload.x ∷ payload.y ∷ payload.tile ∷ [])

pub unpack_tile_update : List ℕ → TileUpdatePayload
unpack_tile_update buffer =
    let net = host_words 3 (payload_start buffer) in
    record { x = get_or net 0 0; y = get_or net 1 0; tile = get_or net 2 0 }

pub pack_explosion : ExplosionPayload → List ℕ
pack_explosion payload =
    pack_words packet_explosion (payload.center_x ∷ payload.center_y ∷ payload.spread_amt)

pub unpack_explosion : List ℕ → ExplosionPayload
unpack_explosion buffer =
    let net = host_words 6 (payload_start buffer) in
    record { center_x = get_or net 0 0; center_y = get_or net 1 0; spread_amt = drop 2 net }

pub pack_game_over : GameOverPayload → List ℕ
pack_game_over payload = pack_words packet_game_over (payload.winner_id ∷ [])

pub unpack_game_over : List ℕ → GameOverPayload
unpack_game_over buffer = record { winner_id = host_word (payload_start buffer) }
