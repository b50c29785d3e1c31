-- ===== src/Corestack/Hypertext.antt =====
-- corestack/src/lib/libhypertext.c: the text messages. A string is the list of its bytes. A pointer into
-- the text that is parsed is the bytes from it to the end of the string, and the zero bytes that
-- `next_token` writes over a separator end the token in front of it.
pub mod Split
pub mod Build
pub mod Headers
pub mod Parse
mod Tests
use package.corestack_50005_htt.Prelude.{
  ℕ, zero, suc, ◌+◌, ◌-◌, Bool, true, false, ◌==◌, ltb, leb, ◌||◌,
}
use package.corestack_50005_htt.Prelude.{
  if◌then◌else◌, List, [], ◌∷◌, ◌++◌, length, take, replicate,
}
use package.corestack_50005_htt.Prelude.{store, Option, none, some}
use mathlib.Core.Option

abbrev pub max_buf : ℕ
max_buf = 2048

abbrev pub max_headers : ℕ
max_headers = 16

-- `HT_END_LINE`, `HT_TOKEN_SEP` and `HT_HEADER_SEP`
abbrev pub ht_end_line : List ℕ
ht_end_line = 13 ∷ 10 ∷ []

abbrev pub ht_token_sep : List ℕ
ht_token_sep = 32 ∷ []

abbrev pub ht_header_sep : List ℕ
ht_header_sep = 58 ∷ 32 ∷ []

pub record HeaderHt : Type 0 where
  pub field : List ℕ
  pub value : List ℕ

-- `n_headers` is the length of the headers.
pub record ParsedMsgHt : Type 0 where
  pub token1 : List ℕ
  pub token2 : List ℕ
  pub token3 : List ℕ
  pub headers : List HeaderHt
  pub body : List ℕ

-- The return value -1, a write outside an array, and a result.
pub data Outcome {ℓ} (A : Type ℓ) : Type ℓ where
  failure : Outcome A
  overrun : Outcome A
  done : A → Outcome A

infixl 5 ◌>>=◌
abbrev pub ◌>>=◌ {ℓ κ} : {A : Type ℓ} {B : Type κ} → Outcome A → (A → Outcome B) → Outcome B
failure >>= f = failure
overrun >>= f = overrun
done a >>= f = f a

-- What follows a string that stands at the front.
abbrev pub strip : List ℕ → List ℕ → Option (List ℕ)
strip [] s = some s
strip (c ∷ delim) [] = none
strip (c ∷ delim) (x ∷ s) = let rest = strip delim s in if c == x then rest else none

-- `strstr`, and the token in front of the match with what is behind it; `none` is NULL. A delimiter is
-- never empty here.
unfoldable pub next_token : List ℕ → List ℕ → Option (List ℕ × List ℕ)
next_token [] delim = none
next_token (x ∷ s) delim =
    let later = next_token s delim in
    elim (strip delim (x ∷ s)) [
      | some rest ↦ some ([], rest)
      | none ↦ Option.map (λ t. (x ∷ t.0, t.1)) later
    ]

-- The loop of `count_headers`, while `ptr` is in front of the end, behind which `left` bytes stand.
unfoldable pub count_lines : ℕ → List ℕ → ℕ → ℕ
count_lines zero ptr left = 0
count_lines (suc fuel) ptr left =
    if ltb left (length ptr)
    then elim (next_token ptr ht_end_line) [ none ↦ 0 | some t ↦ 1 + count_lines fuel t.1 left ]
    else 0

-- Without an end of the section the pointer to it is NULL, and nothing is in front of it.
unfoldable pub count_headers : List ℕ → ℕ
count_headers start = elim (next_token start (13 ∷ 10 ∷ 13 ∷ 10 ∷ [])) [
  | none ↦ 0
  | some t ↦ count_lines (length start) start (4 + length t.1)
]

-- The test for NULL behind each call.
abbrev pub token_at : List ℕ → List ℕ → Outcome (List ℕ × List ℕ)
token_at ptr delim = elim (next_token ptr delim) [ none ↦ failure | some t ↦ done t ]

-- The loop over the headers, from the index `i` on with `n` left.
unfoldable pub parse_headers : ℕ → ℕ → List ℕ → Outcome (List HeaderHt × List ℕ)
parse_headers zero i ptr = done ([], ptr)
parse_headers (suc n) i ptr = do
  (field, behind) ← token_at ptr ht_header_sep
  (value, next) ← token_at behind ht_end_line
  (headers, last) ← if ltb i max_headers then parse_headers n (i + 1) next else overrun
  done (record { field = field; value = value } ∷ headers, last)

-- The string in a buffer ends at the first zero byte.
abbrev pub c_string : List ℕ → List ℕ
c_string [] = []
c_string (x ∷ s) = if x == 0 then [] else x ∷ c_string s

-- What the result holds after a failure is left out.
unfoldable pub parse_hypertext : List ℕ → Outcome ParsedMsgHt
parse_hypertext ht = do
  (token1, p) ← token_at (c_string ht) ht_token_sep
  (token2, q) ← token_at p ht_token_sep
  (token3, r) ← token_at q ht_end_line
  (headers, s) ← parse_headers (count_headers r) 0 r
  (_, body) ← token_at s ht_end_line
  done
      (record { token1 = token1; token2 = token2; token3 = token3; headers = headers; body = body })

-- `req_init` and `res_init` pass their arguments on to it. The headers are not touched.
pub msg_init : ParsedMsgHt → List ℕ → List ℕ → List ℕ → ParsedMsgHt
msg_init msg t1 t2 t3 = record msg { token1 = t1; token2 = t2; token3 = t3 }

-- `strpbrk(s, chars) != NULL`
abbrev pub member : List ℕ → ℕ → Bool
member [] x = false
member (c ∷ chars) x = c == x || member chars x

abbrev pub strpbrk : List ℕ → List ℕ → Bool
strpbrk [] chars = false
strpbrk (x ∷ s) chars = member chars x || strpbrk s chars

unfoldable pub msg_add_header : ParsedMsgHt → List ℕ → List ℕ → Outcome ParsedMsgHt
msg_add_header msg field value =
    if strpbrk field (13 ∷ 10 ∷ 58 ∷ []) || strpbrk value (13 ∷ 10 ∷ [])
    then failure
    else if ltb (length msg.headers) max_headers
    then done (record msg { headers = msg.headers ++ record { field = field; value = value } ∷ [] })
    else overrun

unfoldable pub msg_add_body : ParsedMsgHt → List ℕ → Outcome ParsedMsgHt
msg_add_body msg body =
    if leb max_buf (length body) then failure else done (record msg { body = body })

-- `snprintf(ht + offset, MAX_BUF - offset, …)` of a text, and the new offset. Behind the buffer the size
-- wraps around to a large one.
unfoldable pub print : List ℕ × ℕ → List ℕ → Outcome (List ℕ × ℕ)
print (buffer, offset) text =
    if ltb max_buf offset
    then overrun
    else if offset == max_buf
    then done (buffer, offset + length text)
    else done
        (store buffer offset (take (max_buf - offset - 1) text ++ 0 ∷ []), offset + length text)

abbrev pub request_line : ParsedMsgHt → List ℕ
request_line msg =
    msg.token1 ++ (ht_token_sep ++ (msg.token2 ++ (ht_token_sep ++ (msg.token3 ++ ht_end_line))))

abbrev pub header_line : HeaderHt → List ℕ
header_line h = h.field ++ (ht_header_sep ++ (h.value ++ ht_end_line))

unfoldable pub print_headers : List HeaderHt → List ℕ × ℕ → Outcome (List ℕ × ℕ)
print_headers [] at = done at
print_headers (h ∷ headers) at =
    if ltb at.1 max_buf
    then (do next ← print at (header_line h); print_headers headers next)
    else done at

unfoldable pub convert_to_hypertext : ParsedMsgHt → Outcome (List ℕ)
convert_to_hypertext msg = do
  first ← print (replicate max_buf 0, 0) (request_line msg)
  second ← print_headers msg.headers first
  (converted, offset) ← print second (ht_end_line ++ msg.body)
  if ltb max_buf offset then failure else done converted
