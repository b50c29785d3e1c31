-- ===== src/Prelude/Copies.antt =====
-- The copying loops of the C code, as loops and as what they leave.
use Prim.Native.Nat.{ℕ, zero, suc, ◌+◌, ◌<◌, ◌≤◌}
use mathlib.Core.Path.{◌≡◌, refl, ◌∙◌}
use mathlib.Core.List.{List, [], ◌∷◌, ◌++◌, append_assoc}
use native.Mathlib.Omega.{arith}
use corestack_50005_htt.Prelude.Lists.{length, get_or, set, drop, set-append_mid}
use corestack_50005_htt.Prelude.Lists.{length-append}

module _ {ℓ} {A : Type ℓ} (d : A) where
  -- `for (; rounds left: n; i++) a[i] = a[i + off]`
  unfoldable pub copy_ahead : ℕ → ℕ → ℕ → List A → List A
  copy_ahead zero i off a = a
  copy_ahead (suc n) i off a = copy_ahead n (i + 1) off (set a i (get_or a (i + off) d))

  -- `for (; rounds left: n; i++) a[to + i] = source[i]`
  unfoldable pub copy_into : ℕ → ℕ → ℕ → List A → List A → List A
  copy_into zero i to source a = a
  copy_into (suc n) i to source a =
      copy_into n (i + 1) to source (set a (to + i) (get_or source i d))

  get_or-append_right :
      (xs ys : List A) (k j : ℕ) → j ≡ length xs + k → get_or (xs ++ ys) j d ≡ get_or ys k d
  get_or-append_right [] ys k j h = let e : j ≡ k = omega arith in rw e
  get_or-append_right (x ∷ xs) ys k zero h = absurd (omega arith)
  get_or-append_right (x ∷ xs) ys k (suc j) h = get_or-append_right xs ys k j (omega arith)

  -- Writing at the place where two lists meet, which then moves past the element written.
  pub set_next :
      (xs : List A) (y v : A) (ys : List A) (j : ℕ)
      → j ≡ length xs
      → set (xs ++ y ∷ ys) j v ≡ (xs ++ v ∷ []) ++ ys
  set_next xs y v ys j h = rw (h, set-append_mid xs y v ys, append_assoc xs (v ∷ []) ys)

  pub drop_all : (k : ℕ) (m : List A) → length m ≤ k → drop k m ≡ []
  drop_all zero [] h = refl
  drop_all zero (x ∷ m) h = absurd (omega arith)
  drop_all (suc k) [] h = refl
  drop_all (suc k) (x ∷ m) h = drop_all k m (omega arith)

  pub drop-cons_get : (k : ℕ) (m : List A) → k < length m → drop k m ≡ get_or m k d ∷ drop (suc k) m
  drop-cons_get k [] h = absurd (omega arith)
  drop-cons_get zero (x ∷ m) h = refl
  drop-cons_get (suc k) (x ∷ m) h = drop-cons_get k m (omega arith)

  -- The part `m` of the array from `i` on is replaced by what stands `off` places further, and its
  -- last `off` elements are left.
  pub copy_ahead_lem :
      (n i off : ℕ) (p m : List A)
      → length p ≡ i
      → length m ≡ n + suc off
      → copy_ahead n i (suc off) (p ++ m) ≡ p ++ (drop (suc off) m ++ drop n m)
  unfolding copy_ahead
  copy_ahead_lem zero i off p m hp hm = rw (drop_all (suc off) m (omega arith))
  copy_ahead_lem (suc n) i off p [] hp hm = absurd (omega arith)
  copy_ahead_lem (suc n) i off p (r ∷ m) hp hm =
      let v = get_or m off d in
      let read : get_or (p ++ r ∷ m) (i + suc off) d ≡ v =
        get_or-append_right p (r ∷ m) (suc off) (i + suc off) (omega arith) in
      rw (read, set_next p r v m i (omega arith), drop-cons_get off m (omega arith))
        (copy_ahead_lem n (i + 1) off (p ++ v ∷ []) m (omega (arith, length-append p (v ∷ [])))
            (omega arith)
          ∙ append_assoc p (v ∷ []) (drop (suc off) m ++ drop n m))

  -- The `n` elements of the array from `to + i` on become the elements `w` of the source.
  pub copy_into_lem :
      (n i to : ℕ) (p q r u w : List A)
      → length p ≡ to + i
      → length q ≡ n
      → length u ≡ i
      → length w ≡ n
      → copy_into n i to (u ++ w) (p ++ (q ++ r)) ≡ p ++ (w ++ r)
  unfolding copy_into
  copy_into_lem zero i to p [] r u [] hp hq hu hw = refl
  copy_into_lem zero i to p (x ∷ q) r u w hp hq hu hw = absurd (omega arith)
  copy_into_lem zero i to p [] r u (x ∷ w) hp hq hu hw = absurd (omega arith)
  copy_into_lem (suc n) i to p [] r u w hp hq hu hw = absurd (omega arith)
  copy_into_lem (suc n) i to p (x ∷ q) r u [] hp hq hu hw = absurd (omega arith)
  copy_into_lem (suc n) i to p (z ∷ q) r u (x ∷ w) hp hq hu hw =
      let read : get_or (u ++ x ∷ w) i d ≡ x = get_or-append_right u (x ∷ w) 0 i (omega arith) in
      rw (read, set_next p z x (q ++ r) (to + i) (omega arith), ← append_assoc u (x ∷ []) w)
        (copy_into_lem n (i + 1) to (p ++ x ∷ []) q r (u ++ x ∷ []) w
            (omega (arith, length-append p (x ∷ []))) (omega arith)
            (omega (arith, length-append u (x ∷ []))) (omega arith)
          ∙ append_assoc p (x ∷ []) (w ++ r))
