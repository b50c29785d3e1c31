-- ===== src/Prelude/Counts.antt =====
-- Predicates on all elements of a list, and how they behave under the array operations.
use Prim.Native.Nat.{ℕ, zero, suc, ◌+◌, ◌<◌, ◌≤◌}
use mathlib.Core.Path.{◌≡◌, ap}
use native.Mathlib.Decide.{ℕ_discrete}
use mathlib.Core.List.{List, [], ◌∷◌, ◌++◌}
use native.Mathlib.Omega.{arith}
use corestack_50005_htt.Prelude.Tests.{◌==◌, if◌then◌else◌}
use corestack_50005_htt.Prelude.Lists.{length-set, get_or-set_self, get_or-set_ne}
use corestack_50005_htt.Prelude.Lists.{length, get_or, set, take, drop, replicate}

-- A predicate by recursion computes to tuples, which the tactics read and build.
abbrev pub All {ℓ κ} : {A : Type ℓ} → (A → Type κ) → List A → Type κ
All P [] = Unit
All P (x ∷ xs) = P x × All P xs

module _ {ℓ κ} {A : Type ℓ} (P : A → Type κ) where
  pub All-append : (xs ys : List A) → All P xs → All P ys → All P (xs ++ ys)
  All-append [] ys hx hy = hy
  All-append (x ∷ xs) ys hx hy = (hx.0, All-append xs ys hx.1 hy)

  pub All-set : (xs : List A) (i : ℕ) (v : A) → P v → All P xs → All P (set xs i v)
  All-set [] i v hv hx = hx
  All-set (x ∷ xs) zero v hv hx = (hv, hx.1)
  All-set (x ∷ xs) (suc i) v hv hx = (hx.0, All-set xs i v hv hx.1)

  pub All-take : (n : ℕ) (xs : List A) → All P xs → All P (take n xs)
  All-take zero xs h = tt
  All-take (suc n) [] h = tt
  All-take (suc n) (x ∷ xs) h = (h.0, All-take n xs h.1)

  pub All-drop : (n : ℕ) (xs : List A) → All P xs → All P (drop n xs)
  All-drop zero xs h = h
  All-drop (suc n) [] h = tt
  All-drop (suc n) (x ∷ xs) h = All-drop n xs h.1

  pub All-replicate : (n : ℕ) (v : A) → P v → All P (replicate n v)
  All-replicate zero v h = tt
  All-replicate (suc n) v h = (h, All-replicate n v h)

  pub All-get_or : (xs : List A) (i : ℕ) (d : A) → P d → All P xs → P (get_or xs i d)
  All-get_or [] i d hd h = hd
  All-get_or (x ∷ xs) zero d hd h = h.0
  All-get_or (x ∷ xs) (suc i) d hd h = All-get_or xs i d hd h.1

  -- In range no default is needed.
  pub All-get_in : (xs : List A) (i : ℕ) (d : A) → i < length xs → All P xs → P (get_or xs i d)
  All-get_in [] i d lt h = absurd (omega arith)
  All-get_in (x ∷ xs) zero d lt h = h.0
  All-get_in (x ∷ xs) (suc i) d lt h = All-get_in xs i d (omega arith) h.1

-- How often a number stands in a list.
abbrev pub count : ℕ → List ℕ → ℕ
count v [] = 0
count v (x ∷ xs) = (if x == v then 1 else 0) + count v xs

pub count-append : (v : ℕ) (xs ys : List ℕ) → count v (xs ++ ys) ≡ count v xs + count v ys
count-append v [] ys = omega arith
count-append v (x ∷ xs) ys = omega (arith, count-append v xs ys)

pub count-set :
    (v : ℕ) (xs : List ℕ) (i w : ℕ)
    → i < length xs
    → count v (set xs i w) + (if get_or xs i 0 == v then 1 else 0)
      ≡ count v xs + (if w == v then 1 else 0)
count-set v [] i w h = absurd (omega arith)
count-set v (x ∷ xs) zero w h = omega arith
count-set v (x ∷ xs) (suc i) w h = omega (arith, count-set v xs i w (omega arith))

pub count-get_or : (xs : List ℕ) (i : ℕ) → i < length xs → 1 ≤ count (get_or xs i 0) xs
count-get_or [] i h = absurd (omega arith)
count-get_or (x ∷ xs) zero h = ground arith
count-get_or (x ∷ xs) (suc i) h = omega (arith, count-get_or xs i (omega arith))

-- Exchanging two elements keeps every count.
pub count-swap :
    (v : ℕ) (xs : List ℕ) (i j : ℕ)
    → i < length xs
    → j < length xs
    → count v (set (set xs i (get_or xs j 0)) j (get_or xs i 0)) ≡ count v xs
count-swap v xs i j hi hj = elim (ℕ_discrete i j) [
  | yes e ↦ ground (
    arith,
    count-set v xs i (get_or xs i 0) hi,
    count-set v (set xs i (get_or xs i 0)) i (get_or xs i 0),
    length-set xs i (get_or xs i 0),
    get_or-set_self xs i (get_or xs i 0) 0 hi,
  )
  | no ne ↦ omega (
    arith,
    count-set v xs i (get_or xs j 0) hi,
    count-set v (set xs i (get_or xs j 0)) j (get_or xs i 0)
        (omega (arith, length-set xs i (get_or xs j 0))),
    ap {B = ℕ} (λ (k : ℕ). if k == v then 1 else 0) (get_or-set_ne xs (get_or xs j 0) 0 ne),
  )
]
