-- ===== src/Corestack/Message/Transport.antt =====
-- The loops of `read_bytes` and `send_bytes` over a connection that stays up.
use corestack_50005_htt.Prelude.{ℕ, zero, suc, ◌-◌, ◌≤◌, ◌<◌, ◌≡◌, refl, sym, ap, ◌∙◌, arith}
use corestack_50005_htt.Prelude.{
  List, [], ◌∷◌, ◌++◌, length, length-append, length-drop, take, drop, append_assoc, append-nil,
}
use corestack_50005_htt.Prelude.{
  take-append-drop, take-append_at, drop-append_at, some, ◌==◌, false,
}
use corestack_50005_htt.Corestack.Message.{Connection, read_from, read_bytes, send_from, send_bytes}
use corestack_50005_htt.Corestack.Message.{◌>>=◌}

-- What TCP promises while the connection is up. `pending` are the bytes that the peer has sent and that
-- have not been read, `sent` those that were taken from this side: where bytes are pending, `recv` gives
-- the first of them, at least one and no more than asked for, and `send` takes at least one byte.
pub record Reliable {S : Type 0} (c : Connection S) : Type 0 where
  pub pending : S → List ℕ
  pub sent : S → List ℕ
  pub recv_some :
      (s : S) (n : ℕ)
      → 0 < n
      → 0 < length (pending s)
      → (bytes : List ℕ) × (next : S) × (c.recv s n ≡ some (bytes, next))
        × (pending s ≡ bytes ++ pending next)
        × (0 < length bytes)
        × (length bytes ≤ n)
  pub send_some :
      (s : S) (buf : List ℕ)
      → 0 < length buf
      → (m : ℕ) × (next : S) × (c.send s buf ≡ some (m, next))
        × (sent next ≡ sent s ++ take m buf)
        × (0 < m)
        × (m ≤ length buf)

take_short : (n : ℕ) (xs ys : List ℕ) → n ≤ length xs → take n (xs ++ ys) ≡ take n xs
take_short zero xs ys h = refl
take_short (suc n) [] ys h = absurd (omega arith)
take_short (suc n) (x ∷ xs) ys h = ap (λ l. x ∷ l) (take_short n xs ys (omega arith))

drop_short : (n : ℕ) (xs ys : List ℕ) → n ≤ length xs → drop n (xs ++ ys) ≡ drop n xs ++ ys
drop_short zero xs ys h = refl
drop_short (suc n) [] ys h = absurd (omega arith)
drop_short (suc n) (x ∷ xs) ys h = drop_short n xs ys (omega arith)

-- A shorter front of the same list is a front of the longer one.
front_split :
    (bytes rest want other : List ℕ)
    → bytes ++ rest ≡ want ++ other
    → length bytes ≤ length want
    → (more : List ℕ) × (want ≡ bytes ++ more) × (rest ≡ more ++ other)
front_split bytes rest want other e h =
    let n = length bytes in
    let front : take n want ≡ bytes =
      sym (take_short n want other h) ∙ ap (take n) (sym e) ∙ take-append_at n bytes rest refl in
    (
      drop n want,
      sym (take-append-drop n want) ∙ ap (λ l. l ++ drop n want) front,
      sym (drop-append_at n bytes rest refl) ∙ ap (drop n) e ∙ drop_short n want other h,
    )

module _ {S : Type 0} (c : Connection S) (up : Reliable c) where
  read_step :
      (fuel n : ℕ) (got want bytes more : List ℕ) (s next last : S)
      → c.recv s (suc n) ≡ some (bytes, next)
      → read_from c fuel (got ++ bytes) (suc n - length bytes) next
        ≡ some ((got ++ bytes) ++ more, last)
      → want ≡ bytes ++ more
      → read_from c (suc fuel) got (suc n) s ≡ some (got ++ want, last)
  unfolding read_from
  read_step fuel n got want bytes more s next last run runs whole =
      let to_come : (suc n == 0) ≡ false = ground arith in
      rw (to_come, ◌>>=◌, run, runs)
        (ap (λ l. some (l, last)) (append_assoc got bytes more ∙ ap (λ l. got ++ l) (sym whole)))

  send_step :
      (fuel m : ℕ) (buf : List ℕ) (s next last : S)
      → 0 < length buf
      → c.send s buf ≡ some (m, next)
      → send_from c fuel (drop m buf) next ≡ some last
      → send_from c (suc fuel) buf s ≡ some last
  unfolding send_from
  send_step fuel m buf s next last some_byte run runs =
      let to_come : (length buf == 0) ≡ false = ground arith in rw (to_come, ◌>>=◌, run) runs

  -- As many bytes as are asked for are read, if that many are pending.
  read_from_lem :
      (fuel n : ℕ) (got want rest : List ℕ) (s : S)
      → n ≡ length want
      → n ≤ fuel
      → up.pending s ≡ want ++ rest
      → (next : S) × (read_from c fuel got n s ≡ some (got ++ want, next))
        × (up.pending next ≡ rest)
  unfolding read_from
  read_from_lem zero zero got [] rest s e enough p =
      (s, ap (λ g. some (g, s)) (sym (append-nil got)), p)
  read_from_lem zero zero got (x ∷ want) rest s e enough p = absurd (omega arith)
  read_from_lem zero (suc n) got want rest s e enough p = absurd (omega arith)
  read_from_lem (suc fuel) zero got [] rest s e enough p =
      (s, ap (λ g. some (g, s)) (sym (append-nil got)), p)
  read_from_lem (suc fuel) zero got (x ∷ want) rest s e enough p = absurd (omega arith)
  read_from_lem (suc fuel) (suc n) got want rest s e enough p =
      let long = length-append want rest in
      let (bytes, next, run, split, some_byte, few) =
        up.recv_some s (suc n) (omega arith) (omega (arith, ap length p, long)) in
      let (more, whole, left) =
        front_split bytes (up.pending next) want rest (sym split ∙ p) (omega arith) in
      let size = length-append bytes more in
      let (last, runs, behind) =
        read_from_lem fuel (suc n - length bytes) (got ++ bytes) more rest next
          (omega (arith, ap length whole, size)) (omega arith) left in
      (last, read_step fuel n got want bytes more s next last run runs whole, behind)

  pub read_bytes_lem :
      (n : ℕ) (want rest : List ℕ) (s : S)
      → n ≡ length want
      → up.pending s ≡ want ++ rest
      → (next : S) × (read_bytes c n s ≡ some (want, next)) × (up.pending next ≡ rest)
  unfolding read_bytes
  read_bytes_lem n want rest s e p = read_from_lem n n [] want rest s e (omega arith) p

  -- All bytes are sent.
  send_from_lem :
      (fuel : ℕ) (left : List ℕ) (s : S)
      → length left ≤ fuel
      → (next : S) × (send_from c fuel left s ≡ some next) × (up.sent next ≡ up.sent s ++ left)
  unfolding send_from
  send_from_lem zero [] s h = (s, refl, sym (append-nil (up.sent s)))
  send_from_lem zero (x ∷ left) s h = absurd (omega arith)
  send_from_lem (suc fuel) [] s h = (s, refl, sym (append-nil (up.sent s)))
  send_from_lem (suc fuel) (x ∷ left) s h =
      let buf = x ∷ left in
      let (m, next, run, log, some_byte, few) = up.send_some s buf (omega arith) in
      let (last, runs, logs) =
        send_from_lem fuel (drop m buf) next (omega (arith, length-drop m buf)) in
      (
        last,
        send_step fuel m buf s next last (omega arith) run runs,
        logs
            ∙ ap (λ l. l ++ drop m buf) log
            ∙ append_assoc (up.sent s) (take m buf) (drop m buf)
            ∙ ap (λ l. up.sent s ++ l) (take-append-drop m buf),
      )

  pub send_bytes_lem :
      (buf : List ℕ) (s : S)
      → (next : S) × (send_bytes c buf s ≡ some next) × (up.sent next ≡ up.sent s ++ buf)
  unfolding send_bytes
  send_bytes_lem buf s = send_from_lem (length buf) buf s (omega arith)
