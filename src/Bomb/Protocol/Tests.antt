-- ===== src/Bomb/Protocol/Tests.antt =====
-- Packets on concrete values.
use corestack_50005_htt.Prelude.{◌+◌, ◌≤◌, ◌≡◌, refl, arith, ◌∷◌, ◌++◌, length, drop, replicate}
use corestack_50005_htt.Prelude.{All-replicate, All-append}
use corestack_50005_htt.Prelude.Int.{pos, negsuc}
use corestack_50005_htt.Bomb.Protocol.{MovePayload, MapInitPayload}
use corestack_50005_htt.Bomb.Protocol.{StatePayload, tag_size, read_bomb_packet_tag}
use corestack_50005_htt.Bomb.Protocol.{PlayerStateEntry}
use corestack_50005_htt.Bomb.Protocol.Snapshot.{pack_state, unpack_state, no_player, no_bomb, clamp}
use corestack_50005_htt.Bomb.Protocol.Snapshot.RoundTrip.{
  IsPlayer, IsBomb, sent_players, sent_bombs,
}
use corestack_50005_htt.Bomb.Protocol.Snapshot.RoundTrip.{payload_bytes, unpack-pack_state}
use corestack_50005_htt.Prelude.{◌-◌, ◌++◌, []}
use corestack_50005_htt.Bomb.Protocol.Snapshot.Layout.{pack_state_lem}

abbrev walk : MovePayload
walk = record { player_id = 3; dx = negsuc 0; dy = pos 1; sprinting = 1 }

abbrev arena : MapInitPayload
arena = record { map_size = 11; tiles = 1 ∷ 2 ∷ replicate 398 0 }

abbrev runner : PlayerStateEntry
runner = record {
  player_id = 7;
  x = 1065353216;
  y = 1073741824;
  direction = 2;
  is_moving = 1;
  alive = 1;
  num_bombs = 2;
  remaining_bombs = 1;
  num_fires = 3;
}

-- Nine players and one bomb: the ninth player is not sent.
abbrev crowd : StatePayload
crowd = record {
  player_count = 9;
  players = replicate 9 runner ++ replicate 16 no_player;
  bomb_count = 1;
  bombs = replicate 100 no_bomb;
}

abbrev empty : StatePayload
empty = record {
  player_count = 0;
  players = replicate 25 no_player;
  bomb_count = 0;
  bombs = replicate 100 no_bomb;
}

abbrev no_bomb-IsBomb : IsBomb no_bomb
no_bomb-IsBomb = (omega arith, (omega arith, (omega arith, tt)))

pack_state_lem_example :
    (pack_state crowd
      ≡ (0 ∷ 0 ∷ 0 ∷ 5 ∷ [])
        ++ (payload_bytes crowd ++ replicate (508 - length (payload_bytes crowd)) 0))
    × (length (pack_state crowd) ≡ 512)
    × (tag_size + length (payload_bytes crowd) ≤ 492)
    × (read_bomb_packet_tag (pack_state crowd) ≡ 5)
pack_state_lem_example = pack_state_lem crowd (refl, refl)

runner-IsPlayer : IsPlayer runner
runner-IsPlayer = ground arith

no_player-IsPlayer : IsPlayer no_player
no_player-IsPlayer = ground arith

unpack-pack_state_example : unpack_state (pack_state crowd) empty ≡ record {
  player_count = clamp 8 9;
  players = sent_players crowd ++ drop (clamp 8 9) empty.players;
  bomb_count = clamp 16 1;
  bombs = sent_bombs crowd ++ drop (clamp 16 1) empty.bombs;
}
unpack-pack_state_example =
    unpack-pack_state crowd empty (refl, refl) (refl, refl)
      (All-append IsPlayer (replicate 9 runner) (replicate 16 no_player)
        (All-replicate IsPlayer 9 runner runner-IsPlayer)
        (All-replicate IsPlayer 16 no_player no_player-IsPlayer))
      (All-replicate IsBomb 100 no_bomb no_bomb-IsBomb)
