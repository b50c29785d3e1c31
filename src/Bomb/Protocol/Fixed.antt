-- ===== src/Bomb/Protocol/Fixed.antt =====
-- protocol.c: the packets of a fixed size, which come back as they were sent.
use corestack_50005_htt.Prelude.{ℕ, suc, ◌+◌, ◌≡◌, refl, sym, ap, ◌∙◌, arith}
use corestack_50005_htt.Prelude.{List, [], ◌∷◌, ◌++◌, length, get_or, drop, append_assoc}
use corestack_50005_htt.Prelude.{replicate, length-replicate, All}
use corestack_50005_htt.Prelude.{net_word, net_words, host_words, store, IsWord, drop-store}
use corestack_50005_htt.Prelude.{length-store, length-net_word, host_words-net_words}
use corestack_50005_htt.Prelude.{host_word-net_word, host_word-store, drop-net_word, take-append_at}
use corestack_50005_htt.Prelude.Int.{to_unsigned, to_int-to_unsigned, to_unsigned-lt, IsInt}
use corestack_50005_htt.Bomb.Protocol.{BombPacketType, tag_of, tag_size, bombd_max_players}
use corestack_50005_htt.Bomb.Protocol.{
  packet_move, packet_bomb_place, packet_roster, packet_map_init,
}
use corestack_50005_htt.Bomb.Protocol.{
  packet_tile_update, packet_state, packet_explosion, packet_game_over,
}
use corestack_50005_htt.Bomb.Protocol.{write_tag, payload_start, read_bomb_packet_tag, pack_words}
use corestack_50005_htt.Bomb.Protocol.{
  MovePayload, pack_move, unpack_move, BombPlacePayload, pack_bomb_place,
}
use corestack_50005_htt.Bomb.Protocol.{unpack_bomb_place, RosterPayload, pack_roster, unpack_roster}
use corestack_50005_htt.Bomb.Protocol.{
  MapInitPayload, pack_map_init, unpack_map_init, TileUpdatePayload,
}
use corestack_50005_htt.Bomb.Protocol.{pack_tile_update, unpack_tile_update, ExplosionPayload}
use corestack_50005_htt.Bomb.Protocol.{
  pack_explosion, unpack_explosion, GameOverPayload, pack_game_over,
}
use corestack_50005_htt.Bomb.Protocol.{unpack_game_over}

pub tag_of-IsWord : (type : BombPacketType) → IsWord (tag_of type)
tag_of-IsWord packet_move = omega arith
tag_of-IsWord packet_bomb_place = omega arith
tag_of-IsWord packet_roster = omega arith
tag_of-IsWord packet_map_init = omega arith
tag_of-IsWord packet_tile_update = omega arith
tag_of-IsWord packet_state = omega arith
tag_of-IsWord packet_explosion = omega arith
tag_of-IsWord packet_game_over = omega arith

pub length-write_tag : (type : BombPacketType) → length (write_tag type) ≡ 512
unfolding write_tag
length-write_tag type =
    length-store (replicate 512 0) 0 (net_word (tag_of type))
      (omega (arith, length-net_word (tag_of type), length-replicate {A = ℕ} 512 0))
    ∙ length-replicate {A = ℕ} 512 0

-- The payload of a packet stands behind its tag.
pub payload_start-store :
    (type : BombPacketType) (bytes : List ℕ)
    → payload_start (store (write_tag type) tag_size bytes)
      ≡ bytes ++ drop (tag_size + length bytes) (write_tag type)
unfolding payload_start
payload_start-store type bytes =
    drop-store (write_tag type) tag_size bytes (omega (arith, length-write_tag type))

pub read_bomb_packet_tag-store :
    (type : BombPacketType) (bytes : List ℕ)
    → read_bomb_packet_tag (store (write_tag type) tag_size bytes) ≡ tag_of type
unfolding read_bomb_packet_tag write_tag
read_bomb_packet_tag-store type bytes =
    host_word-store (replicate 512 0) (tag_of type) bytes (tag_of-IsWord type)

pub payload_start-pack_words :
    (type : BombPacketType) (words : List ℕ)
    → All IsWord words
    → host_words (length words) (payload_start (pack_words type words)) ≡ words
unfolding pack_words
payload_start-pack_words type words h =
    ap (host_words (length words)) (payload_start-store type (net_words words))
    ∙ host_words-net_words words (drop (tag_size + length (net_words words)) (write_tag type)) h

-- A move of words and `int`s is read back as it was packed.
pub unpack-pack_move :
    (p : MovePayload)
    → IsWord p.player_id
    → IsInt p.dx
    → IsInt p.dy
    → IsWord p.sprinting
    → unpack_move (pack_move p) ≡ p
unfolding pack_move unpack_move
unpack-pack_move p h hx hy hs =
    let words = p.player_id ∷ to_unsigned p.dx ∷ to_unsigned p.dy ∷ p.sprinting ∷ [] in
    rw
      (
        payload_start-pack_words packet_move words
            (h, (to_unsigned-lt p.dx, (to_unsigned-lt p.dy, (hs, tt)))),
        to_int-to_unsigned p.dx hx,
        to_int-to_unsigned p.dy hy,
      )
      refl

-- A roster of 25 ids, all words, is read back as it was packed.
pub unpack-pack_roster :
    (p : RosterPayload)
    → IsWord p.count
    → All IsWord p.ids
    → length p.ids ≡ bombd_max_players
    → unpack_roster (pack_roster p) ≡ p
unfolding pack_roster unpack_roster
unpack-pack_roster p h hi e =
    let sized : suc (length p.ids) ≡ 1 + bombd_max_players = omega arith in
    let net = payload_start (pack_words packet_roster (p.count ∷ p.ids)) in
    let read : host_words (1 + bombd_max_players) net ≡ p.count ∷ p.ids =
      ap (λ n. host_words n net) (sym sized)
      ∙ payload_start-pack_words packet_roster (p.count ∷ p.ids) (h, hi) in
    ap (λ l. record { count = get_or l 0 0; ids = drop 1 l }) read

-- A map of 400 tiles and a size that is a word is read back as it was packed.
pub unpack-pack_map_init :
    (p : MapInitPayload)
    → IsWord p.map_size
    → length p.tiles ≡ 400
    → unpack_map_init (pack_map_init p) ≡ p
unfolding pack_map_init unpack_map_init
unpack-pack_map_init p h e =
    let bytes = net_word p.map_size ++ p.tiles in
    let rest = drop (tag_size + length bytes) (write_tag packet_map_init) in
    rw
      (
        payload_start-store packet_map_init bytes,
        append_assoc (net_word p.map_size) p.tiles rest,
        host_word-net_word p.map_size (p.tiles ++ rest) h,
        drop-net_word p.map_size (p.tiles ++ rest),
        take-append_at 400 p.tiles rest e,
      )
      refl

-- So are a bomb's placing,
pub unpack-pack_bomb_place :
    (p : BombPlacePayload) → IsWord p.player_id → unpack_bomb_place (pack_bomb_place p) ≡ p
unfolding pack_bomb_place unpack_bomb_place host_words
unpack-pack_bomb_place p h =
    ap (λ l. record { player_id = get_or l 0 0 })
      (payload_start-pack_words packet_bomb_place (p.player_id ∷ []) (h, tt))

-- a tile,
pub unpack-pack_tile_update :
    (p : TileUpdatePayload)
    → IsWord p.x
    → IsWord p.y
    → IsWord p.tile
    → unpack_tile_update (pack_tile_update p) ≡ p
unfolding pack_tile_update unpack_tile_update
unpack-pack_tile_update p hx hy ht =
    rw (payload_start-pack_words packet_tile_update (p.x ∷ p.y ∷ p.tile ∷ []) (hx, (hy, (ht, tt))))
      refl

-- an explosion with its four reaches,
pub unpack-pack_explosion :
    (p : ExplosionPayload)
    → IsWord p.center_x
    → IsWord p.center_y
    → All IsWord p.spread_amt
    → length p.spread_amt ≡ 4
    → unpack_explosion (pack_explosion p) ≡ p
unfolding pack_explosion unpack_explosion
unpack-pack_explosion p hx hy hs e =
    let words = p.center_x ∷ p.center_y ∷ p.spread_amt in
    let six : length words ≡ 6 = omega arith in
    let net = payload_start (pack_words packet_explosion words) in
    let read : host_words 6 net ≡ words =
      ap (λ n. host_words n net) (sym six)
      ∙ payload_start-pack_words packet_explosion words (hx, (hy, hs)) in
    ap (λ l. record { center_x = get_or l 0 0; center_y = get_or l 1 0; spread_amt = drop 2 l })
      read

-- and the end of a match.
pub unpack-pack_game_over :
    (p : GameOverPayload) → IsWord p.winner_id → unpack_game_over (pack_game_over p) ≡ p
unfolding pack_game_over unpack_game_over host_words
unpack-pack_game_over p h =
    ap (λ l. record { winner_id = get_or l 0 0 })
      (payload_start-pack_words packet_game_over (p.winner_id ∷ []) (h, tt))
