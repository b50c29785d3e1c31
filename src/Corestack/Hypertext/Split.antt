-- ===== src/Corestack/Hypertext/Split.antt =====
-- Where `next_token` and `count_headers` of libhypertext.c find a separator.
use corestack_50005_htt.Prelude.{ℕ, zero, suc, ◌+◌, ◌≤◌, ◌≡◌, ◌≢◌, refl, sym, ap, subst, ◌∙◌, arith}
use corestack_50005_htt.Prelude.{
  List, [], ◌∷◌, ◌++◌, append_assoc, length, length-append, All, All-append,
}
use corestack_50005_htt.Prelude.{none, some, true, ==_refl, ltb}
use corestack_50005_htt.Corestack.Hypertext.{HeaderHt, strip, next_token, count_lines}
use corestack_50005_htt.Corestack.Hypertext.{header_line, ht_end_line, ht_header_sep}

abbrev pub Lacks : ℕ → List ℕ → Type 0
Lacks c s = All (λ x. x ≢ c) s

strip-append : (delim r : List ℕ) → strip delim (delim ++ r) ≡ some r
strip-append [] r = refl
strip-append (c ∷ delim) r = rw (==_refl c) (strip-append delim r)

strip_differs : (c x : ℕ) (delim s : List ℕ) → x ≢ c → strip (c ∷ delim) (x ∷ s) ≡ none
strip_differs c x delim s h = grind arith

-- The separator is found behind a text that lacks its first byte.
pub next_token_lem :
    (c : ℕ) (delim x r : List ℕ)
    → Lacks c x
    → next_token (x ++ (c ∷ (delim ++ r))) (c ∷ delim) ≡ some (x, r)
unfolding next_token
next_token_lem c delim [] r h = rw (next_token, ==_refl c, strip-append delim r) refl
next_token_lem c delim (y ∷ x) r h =
    rw
      (
        next_token,
        strip_differs c y delim (x ++ (c ∷ (delim ++ r))) h.0,
        next_token_lem c delim x r h.1,
      )
      refl

abbrev pub blank_line : List ℕ
blank_line = 13 ∷ 10 ∷ 13 ∷ 10 ∷ []

-- The first blank line of `s` stands in front of `r`.
abbrev pub Behind : List ℕ → List ℕ → Type 0
Behind s r = (before : List ℕ) × (next_token s blank_line ≡ some (before, r))

Behind-cons :
    (x : ℕ) (s r : List ℕ) → strip blank_line (x ∷ s) ≡ none → Behind s r → Behind (x ∷ s) r
unfolding next_token
Behind-cons x s r h (before, found) = (x ∷ before, rw (next_token, h, found) refl)

Behind-append : (x s r : List ℕ) → Lacks 13 x → Behind s r → Behind (x ++ s) r
Behind-append [] s r h b = b
Behind-append (y ∷ x) s r h b =
    Behind-cons y (x ++ s) r (strip_differs 13 y (10 ∷ 13 ∷ 10 ∷ []) (x ++ s) h.0)
      (Behind-append x s r h.1 b)

Behind-here : (r : List ℕ) → Behind (13 ∷ 10 ∷ 13 ∷ 10 ∷ r) r
unfolding next_token
Behind-here r = ([], refl)

-- The end of a line that is not followed by a blank one.
Behind-line : (y : ℕ) (s r : List ℕ) → y ≢ 13 → Behind (y ∷ s) r → Behind (13 ∷ 10 ∷ y ∷ s) r
Behind-line y s r h b =
    Behind-cons 13 (10 ∷ y ∷ s) r (strip_differs 13 y (10 ∷ []) s h)
      (Behind-cons 10 (y ∷ s) r refl b)

-- A header as `msg_add_header` takes it.
abbrev pub IsHeader : HeaderHt → Type 0
IsHeader h =
    Lacks 13 h.field × Lacks 10 h.field × Lacks 58 h.field × Lacks 13 h.value × Lacks 10 h.value

abbrev pub lines : List HeaderHt → List ℕ
lines [] = []
lines (h ∷ headers) = header_line h ++ lines headers

pub header_line-append :
    (h : HeaderHt) (r : List ℕ)
    → header_line h ++ r ≡ h.field ++ (58 ∷ 32 ∷ (h.value ++ (13 ∷ 10 ∷ r)))
header_line-append h r =
    append_assoc h.field (ht_header_sep ++ (h.value ++ ht_end_line)) r
    ∙ ap (λ t. h.field ++ (58 ∷ 32 ∷ t)) (append_assoc h.value ht_end_line r)

pub lines-append :
    (h : HeaderHt) (headers : List HeaderHt) (r : List ℕ)
    → lines (h ∷ headers) ++ r
      ≡ h.field ++ (58 ∷ 32 ∷ (h.value ++ (13 ∷ 10 ∷ (lines headers ++ r))))
lines-append h headers r =
    append_assoc (header_line h) (lines headers) r ∙ header_line-append h (lines headers ++ r)

-- In front of the end of a header there is no end of a line.
Behind-header :
    (h : HeaderHt) (headers : List HeaderHt) (body : List ℕ)
    → IsHeader h
    → Behind (13 ∷ 10 ∷ (lines headers ++ (13 ∷ 10 ∷ body))) body
    → Behind (lines (h ∷ headers) ++ (13 ∷ 10 ∷ body)) body
Behind-header h headers body good b =
    subst (λ s. Behind s body) (sym (lines-append h headers (13 ∷ 10 ∷ body)))
      (Behind-append h.field
        (58 ∷ 32 ∷ (h.value ++ (13 ∷ 10 ∷ (lines headers ++ (13 ∷ 10 ∷ body))))) body good.0
        (Behind-append (58 ∷ 32 ∷ []) (h.value ++ (13 ∷ 10 ∷ (lines headers ++ (13 ∷ 10 ∷ body))))
          body (omega arith, (omega arith, tt))
          (Behind-append h.value (13 ∷ 10 ∷ (lines headers ++ (13 ∷ 10 ∷ body))) body good.3 b)))

Behind-next :
    (field s r : List ℕ)
    → Lacks 13 field
    → Behind (field ++ (58 ∷ s)) r
    → Behind (13 ∷ 10 ∷ (field ++ (58 ∷ s))) r
Behind-next [] s r h b = Behind-line 58 s r (omega arith) b
Behind-next (x ∷ field) s r h b = Behind-line x (field ++ (58 ∷ s)) r h.0 b

-- Behind the end of a line of the section stand headers or the blank line.
Behind-section :
    (headers : List HeaderHt) (body : List ℕ)
    → All IsHeader headers
    → Behind (13 ∷ 10 ∷ (lines headers ++ (13 ∷ 10 ∷ body))) body
Behind-section [] body h = Behind-here body
Behind-section (x ∷ headers) body (h, hs) =
    let found = Behind-header x headers body h (Behind-section headers body hs) in
    let whole = lines-append x headers (13 ∷ 10 ∷ body) in
    let rest = x.value ++ (13 ∷ 10 ∷ (lines headers ++ (13 ∷ 10 ∷ body))) in
    subst (λ s. Behind (13 ∷ 10 ∷ s) body) (sym whole)
      (Behind-next x.field (32 ∷ rest) body h.0 (subst (λ s. Behind s body) whole found))

-- The blank line behind one header or more is the first one.
pub blank_line_lem :
    (h : HeaderHt) (headers : List HeaderHt) (body : List ℕ)
    → All IsHeader (h ∷ headers)
    → Behind (lines (h ∷ headers) ++ (13 ∷ 10 ∷ body)) body
blank_line_lem h headers body (good, all) =
    Behind-header h headers body good (Behind-section headers body all)

-- A text that lacks the first byte of the separator, with another text in front.
header_text : HeaderHt → List ℕ
header_text h = h.field ++ (58 ∷ 32 ∷ h.value)

next_line :
    (h : HeaderHt) (headers : List HeaderHt) (r : List ℕ)
    → IsHeader h
    → next_token (lines (h ∷ headers) ++ r) ht_end_line ≡ some (header_text h, lines headers ++ r)
unfolding header_text
next_line h headers r good =
    let text = h.field ++ (58 ∷ 32 ∷ h.value) in
    let lacks : Lacks 13 text =
      All-append (λ x. x ≢ 13) h.field (58 ∷ 32 ∷ h.value) good.0
        (omega arith, (omega arith, good.3)) in
    ap (λ s. next_token s ht_end_line)
      (lines-append h headers r
        ∙ sym (append_assoc h.field (58 ∷ 32 ∷ h.value) (13 ∷ 10 ∷ (lines headers ++ r))))
    ∙ next_token_lem 13 (10 ∷ []) text (lines headers ++ r) lacks

pub length-header_line : (h : HeaderHt) → 4 ≤ length (header_line h)
length-header_line h = omega (
  arith,
  length-append h.field (ht_header_sep ++ (h.value ++ ht_end_line)),
  length-append h.value ht_end_line,
)

-- The loop counts the headers, and needs no more rounds than there are headers.
pub count_lines_lem :
    (fuel : ℕ) (headers : List HeaderHt) (body : List ℕ)
    → length headers ≤ fuel
    → All IsHeader headers
    → count_lines fuel (lines headers ++ (13 ∷ 10 ∷ body)) (4 + length body) ≡ length headers
unfolding count_lines
count_lines_lem zero [] body enough all = refl
count_lines_lem zero (h ∷ headers) body enough all = absurd (omega arith)
count_lines_lem (suc fuel) [] body enough all = ground arith
count_lines_lem (suc fuel) (h ∷ headers) body enough (good, all) =
    let rest = 13 ∷ 10 ∷ body in
    let long : ltb (4 + length body) (length (lines (h ∷ headers) ++ rest)) ≡ true = ground (
      arith,
      length-append (lines (h ∷ headers)) rest,
      length-append (header_line h) (lines headers),
      length-header_line h,
    ) in
    rw
      (
        count_lines,
        long,
        next_line h headers rest good,
        count_lines_lem fuel headers body (omega arith) all,
      )
      (omega arith)
