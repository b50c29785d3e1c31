-- ===== src/Bomb/Protocol/Snapshot/Layout.antt =====
-- The 512 bytes of a snapshot.
use corestack_50005_htt.Prelude.{ℕ, zero, suc, ◌+◌, ◌-◌, ◌≤◌, ◌≡◌, refl, ap, ◌∙◌, arith}
use corestack_50005_htt.Prelude.{[], ◌∷◌, ◌++◌, length, drop, replicate}
use corestack_50005_htt.Prelude.{net_word, store, length-store, store-append, drop-nil}
use corestack_50005_htt.Bomb.Protocol.{
  StatePayload, write_tag, packet_state, tag_size, read_bomb_packet_tag,
}
use corestack_50005_htt.Bomb.Protocol.Fixed.{length-write_tag, read_bomb_packet_tag-store}
use corestack_50005_htt.Bomb.Protocol.Snapshot.{pack_state}
use corestack_50005_htt.Bomb.Protocol.Snapshot.RoundTrip.{
  IsState, payload_bytes, pack_state-store, length-payload_bytes, clamp-le,
}

drop-replicate : (n j k x : ℕ) → j ≡ k - n → drop n (replicate k x) ≡ replicate j x
drop-replicate zero j k x e = ap (λ i. replicate i x) (omega arith)
drop-replicate (suc n) j zero x e =
    let none : 0 ≡ j = omega arith in drop-nil (suc n) ∙ ap (λ i. replicate i x) none
drop-replicate (suc n) j (suc k) x e = drop-replicate n j k x (omega arith)

-- The tag of a snapshot, and zeros.
write_tag_lem : write_tag packet_state ≡ (0 ∷ 0 ∷ 0 ∷ 5 ∷ []) ++ replicate 508 0
unfolding write_tag net_word
write_tag_lem = store-append [] (replicate 512 0) (0 ∷ 0 ∷ 0 ∷ 5 ∷ [])

-- For a payload whose arrays have their 25 and 100 places, whatever its counts say, the packet has 512 bytes: the
-- tag 5 of a snapshot, which is read back, the payload of at most 8 players and 16 bombs, which ends at byte
-- 492 at most, and zeros behind it.
pub pack_state_lem :
    (s : StatePayload)
    → IsState s
    → (pack_state s
        ≡ (0 ∷ 0 ∷ 0 ∷ 5 ∷ []) ++ (payload_bytes s ++ replicate (508 - length (payload_bytes s)) 0))
      × (length (pack_state s) ≡ 512)
      × (tag_size + length (payload_bytes s) ≤ 492)
      × (read_bomb_packet_tag (pack_state s) ≡ 5)
pack_state_lem s h =
    let len = length-payload_bytes s h in
    let k = clamp-le 8 s.player_count in
    let m = clamp-le 16 s.bomb_count in
    let blank = length-write_tag packet_state in
    let fits : tag_size + length (payload_bytes s) ≤ 492 = omega (arith, len, k, m) in
    rw (pack_state-store s h) (
      ap (λ b. store b tag_size (payload_bytes s)) write_tag_lem
          ∙ store-append (0 ∷ 0 ∷ 0 ∷ 5 ∷ []) (replicate 508 0) (payload_bytes s)
          ∙ ap (λ z. (0 ∷ 0 ∷ 0 ∷ 5 ∷ []) ++ (payload_bytes s ++ z))
              (drop-replicate (length (payload_bytes s)) (508 - length (payload_bytes s)) 508 0
                refl),
      length-store (write_tag packet_state) tag_size (payload_bytes s) (omega (arith, fits, blank))
          ∙ blank,
      fits,
      read_bomb_packet_tag-store packet_state (payload_bytes s),
    )
