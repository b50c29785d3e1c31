-- ===== src/Corestack/Htttp/Requests.antt =====
-- A request that is built is understood.
use corestack_50005_htt.Prelude.{ℕ, ◌%◌, ◌^◌, ◌≤◌, ◌<◌, ◌≡◌, ◌≢◌, refl, ap, ◌∙◌, arith}
use corestack_50005_htt.Prelude.{List, [], ◌∷◌, ◌++◌, length, length-append, All, ◌⊎◌, inl, inr}
use corestack_50005_htt.Prelude.{false, leb}
use corestack_50005_htt.Corestack.Hypertext.{HeaderHt, ParsedMsgHt, Outcome, done, ◌>>=◌}
use corestack_50005_htt.Corestack.Hypertext.{msg_add_header, msg_add_body, max_headers, max_buf}
use corestack_50005_htt.Corestack.Hypertext.Split.{Lacks, IsHeader}
use corestack_50005_htt.Corestack.Hypertext.Headers.{msg_add_header_lem}
use corestack_50005_htt.Corestack.Htttp.{
  MethodHttp, unknown, req_move, req_drop, req_rotate, req_state,
}
use corestack_50005_htt.Corestack.Htttp.{
  req_attack, req_action, req_roster, string_to_method, method_to_string,
}
use corestack_50005_htt.Corestack.Htttp.{print_u, bytes, or_before}
use corestack_50005_htt.Corestack.Htttp.{payload_encode_input, name_or_empty, req_create_action}
use corestack_50005_htt.Corestack.Htttp.{req_extract_info, strtoul}
use corestack_50005_htt.Corestack.Htttp.Decimal.{
  strtoul-print_u, digits-IsDigit, length-digits, IsDigit,
}

-- The name of a method, where it has one, is read as that method.
method-name :
    (v : MethodHttp) → v ≢ unknown → string_to_method (name_or_empty (method_to_string v)) ≡ v
unfolding string_to_method method_to_string
method-name unknown h = absurd (h refl)
method-name req_move h = refl
method-name req_drop h = refl
method-name req_rotate h = refl
method-name req_state h = refl
method-name req_attack h = refl
method-name req_action h = refl
method-name req_roster h = refl

pub digits_lack : (c : ℕ) (s : List ℕ) → c < 48 ⊎ (57 < c) → All IsDigit s → Lacks c s
digits_lack c [] h d = tt
digits_lack c (x ∷ s) h d = (λ e. ground arith, digits_lack c s h d.1)

-- A header that is legal and has room is added.
add_header :
    (msg : ParsedMsgHt) (h : HeaderHt)
    → IsHeader h
    → length msg.headers < max_headers
    → or_before msg (msg_add_header msg h.field h.value)
      ≡ done (record msg { headers = msg.headers ++ h ∷ [] })
add_header msg h legal room = elim (msg_add_header_lem msg h) [
  | inl (illegal, _) ↦ absurd (illegal legal)
  | inr (inl (_, full, _)) ↦ absurd (omega arith)
  | inr (inr (_, _, run)) ↦ rw (or_before, run) refl
]

pub number_header :
    (name : List ℕ) (n : ℕ)
    → Lacks 13 name × Lacks 10 name × Lacks 58 name
    → IsHeader (record { field = name; value = print_u n })
number_header name n (a, b, c) = (
  a,
  b,
  c,
  digits_lack 13 (print_u n) (inl (omega arith)) (digits-IsDigit 10 n),
  digits_lack 10 (print_u n) (inl (omega arith)) (digits-IsDigit 10 n),
)

add_body :
    (msg : ParsedMsgHt) (body : List ℕ)
    → length body < max_buf
    → or_before msg (msg_add_body msg body) ≡ done (record msg { body = body })
unfolding msg_add_body
add_body msg body h =
    let short : leb max_buf (length body) ≡ false = ground arith in rw (or_before, short) refl

pub length-payload_encode_input : (action : ℕ) → length (payload_encode_input action) ≤ 23
length-payload_encode_input action =
    omega (arith, length-append (print_u action) (bytes "}"), length-digits 10 action)

built :
    (o : Outcome ParsedMsgHt) (f g h k : ParsedMsgHt → Outcome ParsedMsgHt)
    (a b c d e : ParsedMsgHt)
    → o ≡ done a
    → f a ≡ done b
    → g b ≡ done c
    → h c ≡ done d
    → k d ≡ done e
    → (o >>= λ m1. f m1 >>= λ m2. g m2 >>= λ m3. h m3 >>= k) ≡ done e
built o f g h k a b c d e p q r s t = rw (p, q, r, s) t

-- The request line, and the headers in their order.
abbrev pub named : MethodHttp → ℕ → ParsedMsgHt → List HeaderHt → ParsedMsgHt
named method id msg headers = record msg {
  token1 = name_or_empty (method_to_string method);
  token2 = bytes "/room/0/player/" ++ print_u id;
  token3 = bytes "HTTTP/1.0";
  headers = headers;
}

abbrev pub id_header : ℕ → HeaderHt
id_header id = record { field = bytes "Player-Id"; value = print_u id }

abbrev pub type_header : HeaderHt
type_header = record { field = bytes "Content-Type"; value = bytes "application/input-payload" }

abbrev pub date_header : List ℕ → HeaderHt
date_header date = record { field = bytes "Date"; value = date }

abbrev pub length_header : ℕ → HeaderHt
length_header action = record {
  field = bytes "Content-Length";
  value = print_u (length (payload_encode_input action));
}

-- What `req_create_action` makes of a message without headers.
abbrev pub request_of : List ℕ → ℕ → MethodHttp → ℕ → ParsedMsgHt → ParsedMsgHt
request_of date id method action msg =
    record (named method id msg
      (id_header id ∷ type_header ∷ date_header date ∷ length_header action ∷ [])) {
        body = payload_encode_input action;
      }

-- A request for an action, built on a message without headers for a method with a name, an identifier of
-- 32 bits and a date in one line, is the message with the four headers, and gives back the method, the identifier and
-- the payload.
pub req_extract_info-req_create_action :
    (date : List ℕ) (id : ℕ) (method : MethodHttp) (action : ℕ) (msg : ParsedMsgHt)
    → Lacks 13 date
    → Lacks 10 date
    → id < 2 ^ 32
    → method ≢ unknown
    → (req_create_action date id method action (record msg { headers = [] })
        ≡ done (request_of date id method action msg))
      × (req_extract_info (request_of date id method action msg)
          ≡ (method, id, payload_encode_input action))
unfolding req_create_action req_extract_info
req_extract_info-req_create_action date id method action msg one two small known =
    let body = payload_encode_input action in
    let h1 = id_header id in
    let h2 = date_header date in
    let h3 = length_header action in
    let s0 = named method id msg [] in
    let s1 = named method id msg (h1 ∷ []) in
    let s2 = named method id msg (h1 ∷ type_header ∷ []) in
    let s3 = named method id msg (h1 ∷ type_header ∷ h2 ∷ []) in
    let s4 = record s3 { body = body } in
    let s5 = record s4 { headers = h1 ∷ type_header ∷ h2 ∷ h3 ∷ [] } in
    let legal1 = number_header (bytes "Player-Id") id (ground arith, ground arith, ground arith) in
    let legal3 =
      number_header (bytes "Content-Length") (length body)
        (ground arith, ground arith, ground arith) in
    let run1 : or_before s0 (msg_add_header s0 h1.field h1.value) ≡ done s1 =
      add_header s0 h1 legal1 (omega arith) in
    let run2 : or_before s1 (msg_add_header s1 type_header.field type_header.value) ≡ done s2 =
      add_header s1 type_header (ground arith) (omega arith) in
    let run3 : or_before s2 (msg_add_header s2 h2.field h2.value) ≡ done s3 =
      add_header s2 h2 (ground arith, ground arith, ground arith, one, two) (omega arith) in
    let run4 : or_before s3 (msg_add_body s3 body) ≡ done s4 =
      add_body s3 body (omega (arith, length-payload_encode_input action)) in
    let run5 : or_before s4 (msg_add_header s4 h3.field h3.value) ≡ done s5 =
      add_header s4 h3 legal3 (omega arith) in
    let number : strtoul (print_u id) % 2 ^ 32 ≡ id =
      ap (λ n. n % 2 ^ 32) (strtoul-print_u id small) ∙ omega arith in
    (
      built (or_before s0 (msg_add_header s0 h1.field h1.value))
          (λ m. or_before m (msg_add_header m type_header.field type_header.value))
          (λ m. or_before m (msg_add_header m h2.field h2.value))
          (λ m. or_before m (msg_add_body m body))
          (λ m. or_before m (msg_add_header m h3.field h3.value)) s1 s2 s3 s4 s5 run1 run2 run3 run4
          run5,
      ap (λ v. (v, strtoul (print_u id) % 2 ^ 32, body)) (method-name method known)
          ∙ ap (λ n. (method, n, body)) number,
    )
