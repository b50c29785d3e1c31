-- ===== src/Corestack/Htttp/Delivery.antt =====
-- A request for an action survives the text message that carries it.
use corestack_50005_htt.Prelude.{ℕ, ◌+◌, ◌^◌, ◌≤◌, ◌<◌, ◌≡◌, ◌≢◌, ap, arith, inl}
use corestack_50005_htt.Prelude.{List, [], ◌∷◌, ◌++◌, length, length-append, All, All-append}
use corestack_50005_htt.Corestack.Hypertext.{HeaderHt, ParsedMsgHt, done, ◌>>=◌}
use corestack_50005_htt.Corestack.Hypertext.{
  convert_to_hypertext, parse_hypertext, header_line, request_line,
}
use corestack_50005_htt.Corestack.Hypertext.{ht_end_line, ht_header_sep, ht_token_sep}
use corestack_50005_htt.Corestack.Hypertext.Split.{Lacks, lines}
use corestack_50005_htt.Corestack.Hypertext.Parse.{IsPlain, text_of}
use corestack_50005_htt.Corestack.Hypertext.Build.{parse-convert_to_hypertext}
use corestack_50005_htt.Corestack.Htttp.{
  MethodHttp, unknown, req_move, req_drop, req_rotate, req_state,
}
use corestack_50005_htt.Corestack.Htttp.{
  req_attack, req_action, req_roster, method_to_string, name_or_empty,
}
use corestack_50005_htt.Corestack.Htttp.{
  print_u, bytes, payload_encode_input, req_create_action, req_extract_info,
}
use corestack_50005_htt.Corestack.Htttp.Decimal.{digits-IsDigit, length-digits}
use corestack_50005_htt.Corestack.Htttp.Requests.{
  digits_lack, number_header, length-payload_encode_input,
}
use corestack_50005_htt.Corestack.Htttp.Requests.{
  request_of, id_header, type_header, date_header, length_header,
}
use corestack_50005_htt.Corestack.Htttp.Requests.{req_extract_info-req_create_action}

both : (c : ℕ) (xs ys : List ℕ) → Lacks c xs → Lacks c ys → Lacks c (xs ++ ys)
both c xs ys h k = All-append (λ x. x ≢ c) xs ys h k

name-Lacks :
    (v : MethodHttp)
    → Lacks 32 (name_or_empty (method_to_string v))
      × Lacks 0 (name_or_empty (method_to_string v))
      × (length (name_or_empty (method_to_string v)) ≤ 6)
unfolding method_to_string
name-Lacks unknown = (tt, tt, omega arith)
name-Lacks req_move = (ground arith, ground arith, omega arith)
name-Lacks req_drop = (ground arith, ground arith, omega arith)
name-Lacks req_rotate = (ground arith, ground arith, omega arith)
name-Lacks req_state = (ground arith, ground arith, omega arith)
name-Lacks req_attack = (ground arith, ground arith, omega arith)
name-Lacks req_action = (ground arith, ground arith, omega arith)
name-Lacks req_roster = (ground arith, ground arith, omega arith)

header_line-Lacks : (h : HeaderHt) → Lacks 0 h.field → Lacks 0 h.value → Lacks 0 (header_line h)
header_line-Lacks h f v =
    both 0 h.field (ht_header_sep ++ (h.value ++ ht_end_line)) f
      (omega arith, (omega arith, both 0 h.value ht_end_line v (ground arith)))

number-Lacks : (n : ℕ) → Lacks 0 (print_u n)
number-Lacks n = digits_lack 0 (print_u n) (inl (omega arith)) (digits-IsDigit 10 n)

length-header_line_le :
    (h : HeaderHt) (n : ℕ) → length h.field + length h.value ≤ n → length (header_line h) ≤ n + 4
length-header_line_le h n e = omega (
  arith,
  length-append h.field (ht_header_sep ++ (h.value ++ ht_end_line)),
  length-append h.value ht_end_line,
)

lines-Lacks :
    (headers : List HeaderHt)
    → All (λ h. Lacks 0 h.field × Lacks 0 h.value) headers
    → Lacks 0 (lines headers)
lines-Lacks [] all = tt
lines-Lacks (h ∷ headers) all =
    both 0 (header_line h) (lines headers) (header_line-Lacks h all.0.0 all.0.1)
      (lines-Lacks headers all.1)

text_of-Lacks :
    (m : ParsedMsgHt)
    → Lacks 0 m.token1
    → Lacks 0 m.token2
    → Lacks 0 m.token3
    → All (λ h. Lacks 0 h.field × Lacks 0 h.value) m.headers
    → Lacks 0 m.body
    → Lacks 0 (text_of m)
text_of-Lacks m one two three all body =
    both 0 (request_line m) (lines m.headers ++ (ht_end_line ++ m.body))
      (both 0 m.token1 (ht_token_sep ++ (m.token2 ++ (ht_token_sep ++ (m.token3 ++ ht_end_line))))
        one
        (
          omega arith,
          both 0 m.token2 (ht_token_sep ++ (m.token3 ++ ht_end_line)) two
              (omega arith, both 0 m.token3 ht_end_line three (ground arith)),
        ))
      (both 0 (lines m.headers) (ht_end_line ++ m.body) (lines-Lacks m.headers all)
        (omega arith, (omega arith, body)))

length-request_line :
    (m : ParsedMsgHt)
    → length (request_line m) ≡ length m.token1 + (length m.token2 + (length m.token3 + 4))
length-request_line m = omega (
  arith,
  length-append m.token1
      (ht_token_sep ++ (m.token2 ++ (ht_token_sep ++ (m.token3 ++ ht_end_line)))),
  length-append m.token2 (ht_token_sep ++ (m.token3 ++ ht_end_line)),
  length-append m.token3 ht_end_line,
)

length-lines :
    (h : HeaderHt) (headers : List HeaderHt) (n k : ℕ)
    → length h.field + length h.value ≤ n
    → length (lines headers) ≤ k
    → length (lines (h ∷ headers)) ≤ n + 4 + k
length-lines h headers n k e f =
    omega (arith, length-append (header_line h) (lines headers), length-header_line_le h n e)

length-text_of_le :
    (m : ParsedMsgHt) (a b c : ℕ)
    → length (request_line m) ≤ a
    → length (lines m.headers) ≤ b
    → length m.body ≤ c
    → length (text_of m) ≤ a + (b + (2 + c))
length-text_of_le m a b c e f g = omega (
  arith,
  length-append (request_line m) (lines m.headers ++ (ht_end_line ++ m.body)),
  length-append (lines m.headers) (ht_end_line ++ m.body),
)

module _ (date : List ℕ) (id : ℕ) (method : MethodHttp) (action : ℕ) (msg : ParsedMsgHt) where
  request-IsPlain : Lacks 13 date → Lacks 10 date → IsPlain (request_of date id method action msg)
  request-IsPlain one two =
      let (name, _, _) = name-Lacks method in
      (
        name,
        both 32 (bytes "/room/0/player/") (print_u id) (ground arith)
            (digits_lack 32 (print_u id) (inl (omega arith)) (digits-IsDigit 10 id)),
        ground arith,
        (
          number_header (bytes "Player-Id") id (ground arith, ground arith, ground arith),
          (
            ground arith,
            (
              (ground arith, ground arith, ground arith, one, two),
              (
                number_header (bytes "Content-Length") (length (payload_encode_input action))
                    (ground arith, ground arith, ground arith),
                tt,
              ),
            ),
          ),
        ),
        omega arith,
      )

  text-Lacks : Lacks 0 date → Lacks 0 (text_of (request_of date id method action msg))
  text-Lacks zeros =
      text_of-Lacks (request_of date id method action msg) (name-Lacks method).1
        (both 0 (bytes "/room/0/player/") (print_u id) (ground arith) (number-Lacks id))
        (ground arith)
        (
          (ground arith, number-Lacks id),
          (
            (ground arith, ground arith),
            (
              (ground arith, zeros),
              ((ground arith, number-Lacks (length (payload_encode_input action))), tt),
            ),
          ),
        )
        (both 0 (bytes "{action-id: ") (print_u action ++ bytes "}") (ground arith)
          (both 0 (print_u action) (bytes "}") (number-Lacks action) (ground arith)))

  length-text : length date ≤ 29 → length (text_of (request_of date id method action msg)) ≤ 500
  length-text short =
      let request = request_of date id method action msg in
      let first : length (request_line request) ≤ 100 =
        omega (arith, length-request_line request, (name-Lacks method).2, length-digits 10 id) in
      let h3 = length_header action in
      let l3 : length (lines (h3 ∷ [])) ≤ 40 =
        length-lines h3 [] 36 0
          (omega (arith, length-digits 10 (length (payload_encode_input action)))) (omega arith) in
      let l2 : length (lines (date_header date ∷ h3 ∷ [])) ≤ 84 =
        length-lines (date_header date) (h3 ∷ []) 40 40 (omega arith) l3 in
      let l1 : length (lines (type_header ∷ date_header date ∷ h3 ∷ [])) ≤ 148 =
        length-lines type_header (date_header date ∷ h3 ∷ []) 60 84 (omega arith) l2 in
      let l0 : length (lines request.headers) ≤ 182 =
        length-lines (id_header id) (type_header ∷ date_header date ∷ h3 ∷ []) 30 148
          (omega (arith, length-digits 10 id)) l1 in
      omega
        (arith, length-text_of_le request 100 182 23 first l0 (length-payload_encode_input action))

-- A request for an action is built, on a message without headers for a method with a name, an identifier
-- of 32 bits and a date of at most 29 characters in one line. It is converted into a buffer, the parser
-- reads a message from the buffer, and the method, the identifier and the payload that are extracted
-- from that message are those of the request.
pub req_extract_info-parse_hypertext :
    (date : List ℕ) (id : ℕ) (method : MethodHttp) (action : ℕ) (msg : ParsedMsgHt)
    → Lacks 13 date
    → Lacks 10 date
    → Lacks 0 date
    → length date ≤ 29
    → id < 2 ^ 32
    → method ≢ unknown
    → (req_create_action date id method action (record msg { headers = [] }) >>= λ request.
        convert_to_hypertext request >>= λ ht.
        parse_hypertext ht >>= λ received. done (req_extract_info received))
      ≡ done (method, id, payload_encode_input action)
req_extract_info-parse_hypertext date id method action msg one two zeros short small known =
    let request = request_of date id method action msg in
    let (run, extracted) =
      req_extract_info-req_create_action date id method action msg one two small known in
    let (ht, converted, parsed) =
      parse-convert_to_hypertext request (request-IsPlain date id method action msg one two)
        (text-Lacks date id method action msg zeros) (omega arith)
        (omega (arith, length-text date id method action msg short)) in
    rw (run, converted, parsed) (ap done extracted)
