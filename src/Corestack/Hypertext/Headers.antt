-- ===== src/Corestack/Hypertext/Headers.antt =====
-- The headers that `msg_add_header` of libhypertext.c takes.
use corestack_50005_htt.Prelude.{ℕ, ◌≤◌, ◌<◌, ◌≡◌, refl, sym, ap₂, ◌∙◌, arith}
use corestack_50005_htt.Prelude.{List, [], ◌∷◌, ◌++◌, length, true, false}
use mathlib.Core.Bool.{false≢true}
use corestack_50005_htt.Prelude.{or_false, ltb, ◌||◌, ◌⊎◌, Bool-cases, inl, inr}
use corestack_50005_htt.Corestack.Hypertext.{HeaderHt, ParsedMsgHt, failure, overrun, done}
use corestack_50005_htt.Corestack.Hypertext.{msg_add_header, strpbrk, max_headers}
use corestack_50005_htt.Corestack.Hypertext.Split.{Lacks, IsHeader}

field-Lacks :
    (s : List ℕ) → strpbrk s (13 ∷ 10 ∷ 58 ∷ []) ≡ false → Lacks 13 s × Lacks 10 s × Lacks 58 s
field-Lacks [] h = (tt, tt, tt)
field-Lacks (x ∷ s) h =
    let rest : strpbrk s (13 ∷ 10 ∷ 58 ∷ []) ≡ false = ground arith in
    let (a, b, c) = field-Lacks s rest in
    ((λ e. ground arith, a), (λ e. ground arith, b), (λ e. ground arith, c))

Lacks-field :
    (s : List ℕ) → Lacks 13 s → Lacks 10 s → Lacks 58 s → strpbrk s (13 ∷ 10 ∷ 58 ∷ []) ≡ false
Lacks-field [] a b c = refl
Lacks-field (x ∷ s) a b c = grind (arith, a.0, b.0, c.0, Lacks-field s a.1 b.1 c.1)

value-Lacks : (s : List ℕ) → strpbrk s (13 ∷ 10 ∷ []) ≡ false → Lacks 13 s × Lacks 10 s
value-Lacks [] h = (tt, tt)
value-Lacks (x ∷ s) h =
    let rest : strpbrk s (13 ∷ 10 ∷ []) ≡ false = ground arith in
    let (a, b) = value-Lacks s rest in ((λ e. ground arith, a), (λ e. ground arith, b))

Lacks-value : (s : List ℕ) → Lacks 13 s → Lacks 10 s → strpbrk s (13 ∷ 10 ∷ []) ≡ false
Lacks-value [] a b = refl
Lacks-value (x ∷ s) a b = grind (arith, a.0, b.0, Lacks-value s a.1 b.1)

refused :
    (f v : List ℕ)
    → (strpbrk f (13 ∷ 10 ∷ 58 ∷ []) || strpbrk v (13 ∷ 10 ∷ [])) ≡ true
    → ¬ (Lacks 13 f × Lacks 10 f × Lacks 58 f × Lacks 13 v × Lacks 10 v)
refused f v e (a, b, c, d, g) =
    false≢true (sym (ap₂ ◌||◌ (Lacks-field f a b c) (Lacks-value v d g)) ∙ e)

-- A header is refused just when its field has a line end or a colon or its value has a line end; one
-- that is not refused is added behind the others while there are fewer than 16, and the 17th is
-- written behind the array.
pub msg_add_header_lem :
    (msg : ParsedMsgHt) (h : HeaderHt)
    → (¬ IsHeader h × (msg_add_header msg h.field h.value ≡ failure))
      ⊎ (IsHeader h
          × (max_headers ≤ length msg.headers)
          × (msg_add_header msg h.field h.value ≡ overrun))
      ⊎ (IsHeader h
          × (length msg.headers < max_headers)
          × (msg_add_header msg h.field h.value
              ≡ done (record msg { headers = msg.headers ++ h ∷ [] })))
unfolding msg_add_header
msg_add_header_lem msg h =
    let first = strpbrk h.field (13 ∷ 10 ∷ 58 ∷ []) in
    let second = strpbrk h.value (13 ∷ 10 ∷ []) in
    elim (Bool-cases (first || second)) [
      | inl e ↦ inl (refused h.field h.value e, rw e refl)
      | inr e ↦
          let (a, b, c) = field-Lacks h.field (or_false first second e).0 in
          let (d, f) = value-Lacks h.value (or_false first second e).1 in
          elim (Bool-cases (ltb (length msg.headers) max_headers)) [
            | inl room ↦ inr (inr ((a, b, c, d, f), ground arith, rw (e, room) refl))
            | inr full ↦ inr (inl ((a, b, c, d, f), ground arith, rw (e, full) refl))
          ]
    ]
