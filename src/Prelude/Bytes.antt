-- ===== src/Prelude/Bytes.antt =====
-- Buffers of bytes, and 32-bit words in network order. `htonl` and a copy write the bytes of a word
-- from the highest down on every host, and a copy and `ntohl` read them back.
use Prim.Native.Nat.{ℕ, zero, suc, ◌+◌, ◌*◌, ◌/◌, ◌%◌, ◌^◌, ◌≤◌, ◌<◌}
use mathlib.Core.Path.{◌≡◌, refl, ap, ap₂, sym, ◌∙◌}
use mathlib.Core.List.{List, [], ◌∷◌, ◌++◌, append_assoc}
use native.Mathlib.Omega.{arith}
use corestack_50005_htt.Prelude.Lists.{
  length, take, drop, get_or, length-append, length-take, length-drop,
}
use corestack_50005_htt.Prelude.Lists.{take-append-drop}
use corestack_50005_htt.Prelude.Counts.{All}

abbrev pub IsWord : ℕ → Type 0
IsWord w = w < 2 ^ 32

unfoldable pub net_word : ℕ → List ℕ
net_word w = w / 2 ^ 24 % 256 ∷ w / 2 ^ 16 % 256 ∷ w / 2 ^ 8 % 256 ∷ w % 256 ∷ []

-- The word at the front of the bytes.
pub host_word : List ℕ → ℕ
host_word b = get_or b 0 0 * 2 ^ 24 + get_or b 1 0 * 2 ^ 16 + get_or b 2 0 * 2 ^ 8 + get_or b 3 0

-- A struct of words is copied as its words in order.
unfoldable pub net_words : List ℕ → List ℕ
net_words [] = []
net_words (w ∷ ws) = net_word w ++ net_words ws

unfoldable pub host_words : ℕ → List ℕ → List ℕ
host_words zero b = []
host_words (suc n) b = host_word b ∷ host_words n (drop 4 b)

pub length-net_word : (w : ℕ) → length (net_word w) ≡ 4
unfolding net_word
length-net_word w = refl

pub length-net_words : (ws : List ℕ) → length (net_words ws) ≡ 4 * length ws
unfolding net_words
length-net_words [] = refl
length-net_words (w ∷ ws) =
    omega (arith, length-append (net_word w) (net_words ws), length-net_word w, length-net_words ws)

pub host_word-net_word : (w : ℕ) (rest : List ℕ) → IsWord w → host_word (net_word w ++ rest) ≡ w
unfolding net_word host_word
host_word-net_word w rest h = omega arith

pub drop-net_word : (w : ℕ) (rest : List ℕ) → drop 4 (net_word w ++ rest) ≡ rest
unfolding net_word
drop-net_word w rest = refl

-- Words that are written are read back, whatever stands behind them.
pub host_words-net_words :
    (ws rest : List ℕ) → All IsWord ws → host_words (length ws) (net_words ws ++ rest) ≡ ws
unfolding net_words host_words
host_words-net_words [] rest h = refl
host_words-net_words (w ∷ ws) rest h = rw append_assoc (
    ap₂ ◌∷◌ (host_word-net_word w (net_words ws ++ rest) h.0) (
      ap (host_words (length ws)) (drop-net_word w (net_words ws ++ rest))
      ∙ host_words-net_words ws rest h.1))

-- `memcpy(buffer + offset, bytes, length)`, inside the buffer.
pub store : List ℕ → ℕ → List ℕ → List ℕ
store buffer offset bytes = take offset buffer ++ (bytes ++ drop (offset + length bytes) buffer)

pub length-store :
    (buffer : List ℕ) (offset : ℕ) (bytes : List ℕ)
    → offset + length bytes ≤ length buffer
    → length (store buffer offset bytes) ≡ length buffer
unfolding store
length-store buffer offset bytes h = omega (
  arith,
  length-append (take offset buffer) (bytes ++ drop (offset + length bytes) buffer),
  length-append bytes (drop (offset + length bytes) buffer),
  length-take offset buffer,
  length-drop (offset + length bytes) buffer,
)

pub store-nil : (buffer : List ℕ) (out : ℕ) → store buffer out [] ≡ buffer
unfolding store
store-nil buffer out =
    ap (λ n. take out buffer ++ drop n buffer) (omega arith) ∙ take-append-drop out buffer

module _ {ℓ} {A : Type ℓ} where
  pub drop-append_at : (n : ℕ) (xs ys : List A) → length xs ≡ n → drop n (xs ++ ys) ≡ ys
  drop-append_at zero [] ys h = refl
  drop-append_at (suc n) (x ∷ xs) ys h = drop-append_at n xs ys (omega arith)
  drop-append_at zero (x ∷ xs) ys h = absurd (omega arith)
  drop-append_at (suc n) [] ys h = absurd (omega arith)

  pub take-append_at : (n : ℕ) (xs ys : List A) → length xs ≡ n → take n (xs ++ ys) ≡ xs
  take-append_at zero [] ys h = refl
  take-append_at (suc n) (x ∷ xs) ys h = ap (λ t. x ∷ t) (take-append_at n xs ys (omega arith))
  take-append_at zero (x ∷ xs) ys h = absurd (omega arith)
  take-append_at (suc n) [] ys h = absurd (omega arith)

  pub drop-nil : (n : ℕ) → drop {A = A} n [] ≡ []
  drop-nil zero = refl
  drop-nil (suc n) = refl

  pub drop-drop : (m n k : ℕ) (xs : List A) → k ≡ n + m → drop m (drop n xs) ≡ drop k xs
  drop-drop m zero k xs e = ap (λ j. drop j xs) (omega arith)
  drop-drop m (suc n) k [] e = drop-nil m ∙ sym (drop-nil k)
  drop-drop m (suc n) zero (x ∷ xs) e = absurd (omega arith)
  drop-drop m (suc n) (suc k) (x ∷ xs) e = drop-drop m n k xs (omega arith)

-- What stands at the offset after a copy there.
pub drop-store :
    (buffer : List ℕ) (offset : ℕ) (bytes : List ℕ)
    → offset ≤ length buffer
    → drop offset (store buffer offset bytes) ≡ bytes ++ drop (offset + length bytes) buffer
unfolding store
drop-store buffer offset bytes h =
    drop-append_at offset (take offset buffer) (bytes ++ drop (offset + length bytes) buffer)
      (length-take offset buffer h)

-- Two copies, one behind the other, are one copy of both.
pub store-store :
    (buffer : List ℕ) (offset next : ℕ) (a b : List ℕ)
    → next ≡ offset + length a
    → next + length b ≤ length buffer
    → store (store buffer offset a) next b ≡ store buffer offset (a ++ b)
unfolding store
store-store buffer offset next a b e h =
    let pre = take offset buffer in
    let rest = drop (offset + length a) buffer in
    let len : length (pre ++ a) ≡ next =
      omega (arith, length-append pre a, length-take offset buffer (omega arith)) in
    let whole : pre ++ (a ++ rest) ≡ (pre ++ a) ++ rest = sym (append_assoc pre a rest) in
    let front : take next (pre ++ (a ++ rest)) ≡ pre ++ a =
      ap (take next) whole ∙ take-append_at next (pre ++ a) rest len in
    let back : drop (next + length b) (pre ++ (a ++ rest))
        ≡ drop (offset + length (a ++ b)) buffer =
      sym (drop-drop (length b) next (next + length b) (pre ++ (a ++ rest)) refl)
      ∙ ap (drop (length b)) (ap (drop next) whole ∙ drop-append_at next (pre ++ a) rest len)
      ∙ drop-drop (length b) (offset + length a) (offset + length (a ++ b)) buffer
          (omega (arith, length-append a b)) in
    rw
      (
        front,
        back,
        append_assoc pre a (b ++ drop (offset + length (a ++ b)) buffer),
        append_assoc a b (drop (offset + length (a ++ b)) buffer),
      )
      refl

-- A word at the front stays there when bytes are copied behind it.
pub host_word-store :
    (buffer : List ℕ) (w : ℕ) (bytes : List ℕ)
    → IsWord w
    → host_word (store (store buffer 0 (net_word w)) 4 bytes) ≡ w
unfolding store
host_word-store buffer w bytes h =
    let whole = net_word w ++ drop (0 + length (net_word w)) buffer in
    let rest = bytes ++ drop (4 + length bytes) whole in
    ap (λ t. host_word (t ++ rest))
      (take-append_at 4 (net_word w) (drop (0 + length (net_word w)) buffer) (length-net_word w))
    ∙ host_word-net_word w rest h

-- A copy behind the first part of a buffer.
pub store-append :
    (front back bytes : List ℕ)
    → store (front ++ back) (length front) bytes ≡ front ++ (bytes ++ drop (length bytes) back)
unfolding store
store-append front back bytes =
    let end = length front + length bytes in
    let left : take (length front) (front ++ back) ≡ front =
      take-append_at (length front) front back refl in
    let right : drop end (front ++ back) ≡ drop (length bytes) back =
      sym (drop-drop (length bytes) (length front) end (front ++ back) refl)
      ∙ ap (drop (length bytes)) (drop-append_at (length front) front back refl) in
    rw (left, right) refl
