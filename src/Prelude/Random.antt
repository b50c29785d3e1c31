-- ===== src/Prelude/Random.antt =====
-- `rand()` of the C library, as the sequence of values that its calls are going to return.
use Prim.Native.Nat.{ℕ, suc}

-- Any sequence: nothing is assumed of the generator or of its seed.
abbrev pub Draws : Type 0
Draws = ℕ → ℕ

-- One call: its value, and the values that are left.
abbrev pub rand : Draws → ℕ × Draws
rand d = (d 0, λ n. d (suc n))
