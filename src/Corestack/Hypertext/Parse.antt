-- ===== src/Corestack/Hypertext/Parse.antt =====
-- What `parse_hypertext` makes of the text of a message.
use corestack_50005_htt.Prelude.{ℕ, suc, ◌+◌, ◌≤◌, ◌<◌, ◌≡◌, refl, ap, ◌∙◌, arith}
use corestack_50005_htt.Prelude.{List, [], ◌∷◌, ◌++◌, append_assoc, length, length-append, All}
use corestack_50005_htt.Prelude.{true, if◌then◌else◌, ltb, Bool-cases, inl, inr}
use corestack_50005_htt.Corestack.Hypertext.{HeaderHt, ParsedMsgHt, overrun, done, ◌>>=◌}
use corestack_50005_htt.Corestack.Hypertext.{token_at, count_headers, parse_headers, c_string}
use corestack_50005_htt.Corestack.Hypertext.{
  parse_hypertext, request_line, header_line, ht_end_line,
}
use corestack_50005_htt.Corestack.Hypertext.{ht_token_sep, ht_header_sep, max_headers}
use corestack_50005_htt.Corestack.Hypertext.Split.{
  Lacks, next_token_lem, IsHeader, lines, lines-append,
}
use corestack_50005_htt.Corestack.Hypertext.Split.{length-header_line, count_lines_lem}
use corestack_50005_htt.Corestack.Hypertext.Split.{blank_line_lem}

-- The text of a message.
abbrev pub text_of : ParsedMsgHt → List ℕ
text_of m = request_line m ++ (lines m.headers ++ (ht_end_line ++ m.body))

-- A message whose text can be read back: no separator stands inside a token, each header is one that
-- `msg_add_header` takes, and there is at least one.
abbrev pub IsPlain : ParsedMsgHt → Type 0
IsPlain m =
    Lacks 32 m.token1
    × Lacks 32 m.token2
    × Lacks 13 m.token3
    × All IsHeader m.headers
    × (1 ≤ length m.headers)

length-lines : (headers : List HeaderHt) → length headers ≤ length (lines headers)
length-lines [] = omega arith
length-lines (h ∷ headers) = omega (
  arith,
  length-lines headers,
  length-append (header_line h) (lines headers),
  length-header_line h,
)

-- The headers of a section are counted right, whatever the body holds.
pub count_headers_lem :
    (headers : List HeaderHt) (body : List ℕ)
    → 1 ≤ length headers
    → All IsHeader headers
    → count_headers (lines headers ++ (13 ∷ 10 ∷ body)) ≡ length headers
unfolding count_headers
count_headers_lem [] body some_header all = absurd (omega arith)
count_headers_lem (h ∷ headers) body some_header all =
    let section = lines (h ∷ headers) ++ (13 ∷ 10 ∷ body) in
    let (before, found) = blank_line_lem h headers body all in
    let room : length (h ∷ headers) ≤ length section =
      omega
        (arith, length-append (lines (h ∷ headers)) (13 ∷ 10 ∷ body), length-lines (h ∷ headers)) in
    rw (count_headers, found) (count_lines_lem (length section) (h ∷ headers) body room all)

token_at_lem :
    (c : ℕ) (delim x r : List ℕ)
    → Lacks c x
    → token_at (x ++ (c ∷ (delim ++ r))) (c ∷ delim) ≡ done (x, r)
token_at_lem c delim x r h = rw (token_at, next_token_lem c delim x r h) refl

parse_header :
    (n i : ℕ) (h : HeaderHt) (headers : List HeaderHt) (r : List ℕ)
    → IsHeader h
    → parse_headers (suc n) i (lines (h ∷ headers) ++ r) ≡ (
        (if ltb i max_headers then parse_headers n (i + 1) (lines headers ++ r) else overrun)
        >>= λ t. done (h ∷ t.0, t.1))
unfolding parse_headers
parse_header n i h headers r good =
    let behind = h.value ++ (13 ∷ 10 ∷ (lines headers ++ r)) in
    let first : token_at (h.field ++ (58 ∷ 32 ∷ behind)) ht_header_sep ≡ done (h.field, behind) =
      token_at_lem 58 (32 ∷ []) h.field behind good.2 in
    let second : token_at behind ht_end_line ≡ done (h.value, lines headers ++ r) =
      token_at_lem 13 (10 ∷ []) h.value (lines headers ++ r) good.3 in
    rw (parse_headers, lines-append h headers r, first, second) refl

-- The result of the loop for headers that have room in the array, and for more.
pub parse_headers_lem :
    (i : ℕ) (headers : List HeaderHt) (r : List ℕ)
    → All IsHeader headers
    → i + length headers ≤ max_headers
    → parse_headers (length headers) i (lines headers ++ r) ≡ done (headers, r)
unfolding parse_headers
parse_headers_lem i [] r all room = refl
parse_headers_lem i (h ∷ headers) r (good, all) room =
    let inside : ltb i max_headers ≡ true = ground arith in
    parse_header (length headers) i h headers r good
    ∙ rw (inside, parse_headers_lem (i + 1) headers r all (omega arith)) refl

pub parse_headers_overrun :
    (i : ℕ) (headers : List HeaderHt) (r : List ℕ)
    → All IsHeader headers
    → i ≤ max_headers
    → max_headers < i + length headers
    → parse_headers (length headers) i (lines headers ++ r) ≡ overrun
parse_headers_overrun i [] r all low high = absurd (omega arith)
parse_headers_overrun i (h ∷ headers) r (good, all) low high =
    parse_header (length headers) i h headers r good ∙ (elim (Bool-cases (ltb i max_headers)) [
      | inl inside ↦
          rw (inside, parse_headers_overrun (i + 1) headers r all (ground arith) (omega arith)) refl
      | inr outside ↦ rw outside refl
    ])

c_string_lem : (s r : List ℕ) → Lacks 0 s → c_string (s ++ (0 ∷ r)) ≡ s
c_string_lem [] r h = refl
c_string_lem (x ∷ s) r h = grind (arith, h.0, c_string_lem s r h.1)

request_line-append :
    (m : ParsedMsgHt) (r : List ℕ)
    → request_line m ++ r ≡ m.token1 ++ (32 ∷ (m.token2 ++ (32 ∷ (m.token3 ++ (13 ∷ 10 ∷ r)))))
request_line-append m r =
    append_assoc m.token1
      (ht_token_sep ++ (m.token2 ++ (ht_token_sep ++ (m.token3 ++ ht_end_line)))) r
    ∙ ap (λ t. m.token1 ++ (32 ∷ t))
        (append_assoc m.token2 (ht_token_sep ++ (m.token3 ++ ht_end_line)) r
          ∙ ap (λ t. m.token2 ++ (32 ∷ t)) (append_assoc m.token3 ht_end_line r))

-- The three tokens are taken off, and the loop runs over as many headers as there are.
parse_request_line :
    (m : ParsedMsgHt) (r : List ℕ)
    → IsPlain m
    → Lacks 0 (text_of m)
    → parse_hypertext (text_of m ++ (0 ∷ r)) ≡ (
        parse_headers (length m.headers) 0 (lines m.headers ++ (ht_end_line ++ m.body)) >>= λ t.
        token_at t.1 ht_end_line >>= λ b. done (record m { headers = t.0; body = b.1 }))
unfolding parse_hypertext
parse_request_line m r (one, two, three, all, some_header) zeros =
    let section = lines m.headers ++ (ht_end_line ++ m.body) in
    let third = m.token3 ++ (13 ∷ 10 ∷ section) in
    let second = m.token2 ++ (32 ∷ third) in
    let whole : c_string (text_of m ++ (0 ∷ r)) ≡ m.token1 ++ (32 ∷ second) =
      c_string_lem (text_of m) r zeros ∙ request_line-append m section in
    let first_token : token_at (m.token1 ++ (32 ∷ second)) ht_token_sep ≡ done (m.token1, second) =
      token_at_lem 32 [] m.token1 second one in
    let second_token : token_at second ht_token_sep ≡ done (m.token2, third) =
      token_at_lem 32 [] m.token2 third two in
    let third_token : token_at third ht_end_line ≡ done (m.token3, section) =
      token_at_lem 13 (10 ∷ []) m.token3 section three in
    rw
      (
        parse_hypertext,
        whole,
        first_token,
        second_token,
        third_token,
        count_headers_lem m.headers m.body some_header all,
      )
      refl

-- The text of a plain message with at most 16 headers, in a buffer, is parsed as that message.
pub parse_hypertext_lem :
    (m : ParsedMsgHt) (r : List ℕ)
    → IsPlain m
    → Lacks 0 (text_of m)
    → length m.headers ≤ max_headers
    → parse_hypertext (text_of m ++ (0 ∷ r)) ≡ done m
parse_hypertext_lem m r plain zeros room =
    let last : token_at (ht_end_line ++ m.body) ht_end_line ≡ done ([], m.body) =
      token_at_lem 13 (10 ∷ []) [] m.body tt in
    parse_request_line m r plain zeros
    ∙ rw (parse_headers_lem 0 m.headers (ht_end_line ++ m.body) plain.3 (omega arith))
        (ap (λ o. o >>= λ b. done (record m { body = b.1 })) last)

-- A plain message with more headers is written behind the array of the headers.
pub parse_hypertext_overrun :
    (m : ParsedMsgHt) (r : List ℕ)
    → IsPlain m
    → Lacks 0 (text_of m)
    → max_headers < length m.headers
    → parse_hypertext (text_of m ++ (0 ∷ r)) ≡ overrun
parse_hypertext_overrun m r plain zeros many =
    parse_request_line m r plain zeros
    ∙ rw
        (parse_headers_overrun 0 m.headers (ht_end_line ++ m.body) plain.3 (omega arith)
          (omega arith))
        refl
