-- ===== src/Corestack/Htttp/Decimal.antt =====
-- Numbers as `sprintf` writes them with `%u` and `strtoul` reads them.
use corestack_50005_htt.Prelude.{
  ℕ, zero, suc, ◌+◌, ◌*◌, ◌/◌, ◌%◌, ◌^◌, ◌≤◌, ◌<◌, ◌≡◌, refl, sym, ap, ◌∙◌, arith,
}
use corestack_50005_htt.Prelude.{
  List, [], ◌∷◌, ◌++◌, append-nil, append_assoc, length, length-append, All, All-append,
}
use corestack_50005_htt.Prelude.{true, false, ◌&&◌, ltb, leb, Bool-cases, inl, inr, ltb→lt}
use corestack_50005_htt.Corestack.Htttp.{digits, print_u, digits_value, strtoul, saturate}

-- 10 to the power of the fuel.
abbrev pub limit : ℕ → ℕ
limit zero = 1
limit (suc fuel) = 10 * limit fuel

-- What stands behind the digits does not begin with another.
abbrev pub Ends : List ℕ → Type 0
Ends [] = Unit
Ends (c ∷ s) = (leb 48 c && leb c 57) ≡ false

abbrev pub IsDigit : ℕ → Type 0
IsDigit c = (48 ≤ c) × (c ≤ 57)

pub digits-IsDigit : (fuel n : ℕ) → All IsDigit (digits fuel n)
unfolding digits
digits-IsDigit zero n = tt
digits-IsDigit (suc fuel) n = elim (Bool-cases (ltb n 10)) [
  | inl small ↦ let below = ltb→lt n 10 small in rw small ((omega arith, omega arith), tt)
  | inr big ↦ rw big (
      All-append IsDigit (digits fuel (n / 10)) ((48 + n % 10) ∷ []) (digits-IsDigit fuel (n / 10))
        ((omega arith, omega arith), tt))
]

pub length-digits : (fuel n : ℕ) → length (digits fuel n) ≤ fuel
unfolding digits
length-digits zero n = omega arith
length-digits (suc fuel) n = elim (Bool-cases (ltb n 10)) [
  | inl small ↦ rw small (omega arith)
  | inr big ↦ rw big (
      omega (
        arith,
        length-append (digits fuel (n / 10)) ((48 + n % 10) ∷ []),
        length-digits fuel (n / 10),
      ))
]

digits_value-digit :
    (acc d : ℕ) (s : List ℕ)
    → d < 10
    → digits_value acc ((48 + d) ∷ s) ≡ digits_value (acc * 10 + d) s
digits_value-digit acc d s h =
    let digit : (leb 48 (48 + d) && leb (48 + d) 57) ≡ true = ground arith in
    rw digit (ap (λ k. digits_value k s) (omega arith))

-- Enough digits are read back as the number, whatever was read before is zero.
digits_value-digits :
    (fuel n : ℕ) (rest : List ℕ)
    → n < limit fuel
    → digits_value 0 (digits fuel n ++ rest) ≡ digits_value n rest
unfolding digits
digits_value-digits zero n rest h = ap (λ k. digits_value k rest) (omega arith)
digits_value-digits (suc fuel) n rest h = elim (Bool-cases (ltb n 10)) [
  | inl small ↦
      let first = digits_value-digit 0 n rest (ltb→lt n 10 small) in
      rw small (first ∙ ap (λ k. digits_value k rest) (omega arith))
  | inr big ↦
      rw (big, append_assoc (digits fuel (n / 10)) ((48 + n % 10) ∷ []) rest)
        (digits_value-digits fuel (n / 10) ((48 + n % 10) ∷ rest) (omega arith)
          ∙ digits_value-digit (n / 10) (n % 10) rest (omega arith)
          ∙ ap (λ k. digits_value k rest) (omega arith))
]

strtoul-digit :
    (s : List ℕ) (c : ℕ) → IsDigit c → strtoul (c ∷ s) ≡ saturate (digits_value 0 (c ∷ s))
strtoul-digit s c h = ground arith

strtoul-IsDigit :
    (s : List ℕ) → All IsDigit s → 0 < length s → strtoul s ≡ saturate (digits_value 0 s)
strtoul-IsDigit [] h some_digit = refl
strtoul-IsDigit (c ∷ s) h some_digit = strtoul-digit s c h.0

some_digits : (fuel n : ℕ) → 0 < length (digits (suc fuel) n)
unfolding digits
some_digits fuel n = elim (Bool-cases (ltb n 10)) [
  | inl small ↦ rw small (omega arith)
  | inr big ↦ rw big (omega (arith, length-append (digits fuel (n / 10)) ((48 + n % 10) ∷ [])))
]

-- A number of 32 bits is read back.
pub strtoul-print_u : (n : ℕ) → n < 2 ^ 32 → strtoul (print_u n) ≡ n
strtoul-print_u n h =
    let whole : digits_value 0 (print_u n) ≡ n =
      ap (digits_value 0) (sym (append-nil (print_u n)))
      ∙ digits_value-digits 10 n [] (omega arith) in
    let fits : saturate n ≡ n = ground arith in
    strtoul-IsDigit (print_u n) (digits-IsDigit 10 n) (some_digits 9 n) ∙ ap saturate whole ∙ fits
