-- ===== src/Corestack/Hypertext/Build.antt =====
-- The builder of libhypertext.c: the headers that it takes, and the text that it writes.
use corestack_50005_htt.Prelude.{
  ℕ, zero, suc, ◌+◌, ◌-◌, ◌≤◌, ◌<◌, ◌≡◌, refl, sym, ap, ap₂, ◌∙◌, arith,
}
use corestack_50005_htt.Prelude.{
  List, [], ◌∷◌, ◌++◌, append_assoc, append-nil, length, length-append,
}
use corestack_50005_htt.Prelude.{take, drop, replicate, store, true, false, ◌==◌, if◌then◌else◌}
use corestack_50005_htt.Prelude.{ltb, store-append}
use corestack_50005_htt.Corestack.Hypertext.{HeaderHt, ParsedMsgHt, failure, overrun, done, ◌>>=◌}
use corestack_50005_htt.Corestack.Hypertext.{print, print_headers}
use corestack_50005_htt.Corestack.Hypertext.{
  convert_to_hypertext, parse_hypertext, request_line, header_line,
}
use corestack_50005_htt.Corestack.Hypertext.{ht_end_line, max_buf, max_headers}
use corestack_50005_htt.Corestack.Hypertext.Split.{Lacks, lines}
use corestack_50005_htt.Corestack.Hypertext.Parse.{text_of, IsPlain, parse_hypertext_lem}

-- A buffer that holds a text and zeros behind it.
abbrev pub filled : List ℕ → ℕ → List ℕ
filled text rest = text ++ replicate rest 0

take_all {ℓ} : {A : Type ℓ} (n : ℕ) (xs : List A) → length xs ≤ n → take n xs ≡ xs
take_all zero [] h = refl
take_all zero (x ∷ xs) h = absurd (omega arith)
take_all (suc n) [] h = refl
take_all (suc n) (x ∷ xs) h = ap (λ l. x ∷ l) (take_all n xs (omega arith))

drop-replicate {ℓ} :
    {A : Type ℓ} (n rest k : ℕ) (a : A) → k ≡ n + rest → drop n (replicate k a) ≡ replicate rest a
drop-replicate zero rest k a e = ap (λ j. replicate j a) (omega arith)
drop-replicate (suc n) rest zero a e = absurd (omega arith)
drop-replicate (suc n) rest (suc k) a e = drop-replicate n rest k a (omega arith)

-- A text that fits with its zero byte stands behind the text that was there.
store-filled :
    (text new : List ℕ) (rest room : ℕ)
    → room ≡ length new + suc rest
    → store (filled text room) (length text) (new ++ 0 ∷ []) ≡ filled (text ++ new) (suc rest)
store-filled text new rest room e =
    let size : length (new ++ 0 ∷ []) ≡ length new + 1 = length-append new (0 ∷ []) in
    store-append text (replicate room 0) (new ++ 0 ∷ [])
    ∙ ap (λ t. text ++ ((new ++ 0 ∷ []) ++ t))
        (drop-replicate (length (new ++ 0 ∷ [])) rest room 0 (omega (arith, size)))
    ∙ ap (λ t. text ++ t) (append_assoc new (0 ∷ []) (replicate rest 0))
    ∙ sym (append_assoc text new (0 ∷ replicate rest 0))

-- The buffer and the offset when a text has been written to the empty buffer.
abbrev pub written : List ℕ → ℕ → List ℕ × ℕ
written text rest = (filled text rest, length text)

pub print_lem :
    (text new : List ℕ) (rest room : ℕ)
    → room ≡ length new + suc rest
    → length text + room ≡ max_buf
    → print (written text room) new ≡ done (written (text ++ new) (suc rest))
unfolding print
print_lem text new rest room e all =
    let inside : ltb max_buf (length text) ≡ false = ground arith in
    let short : (length text == max_buf) ≡ false = ground arith in
    rw
      (
        inside,
        short,
        take_all (max_buf - length text - 1) new (omega arith),
        store-filled text new rest room e,
        length-append text new,
      )
      refl

print_headers_lem :
    (headers : List HeaderHt) (text : List ℕ) (rest room : ℕ)
    → room ≡ length (lines headers) + suc rest
    → length text + room ≡ max_buf
    → print_headers headers (written text room) ≡ done (written (text ++ lines headers) (suc rest))
unfolding print_headers
print_headers_lem [] text rest room e all =
    let same : room ≡ suc rest = omega arith in
    ap₂ (λ (t : List ℕ) (n : ℕ). done (written t n)) (sym (append-nil text)) same
print_headers_lem (h ∷ headers) text rest room e all =
    let left = length (lines headers) + rest in
    let size = length-append (header_line h) (lines headers) in
    let longer = length-append text (header_line h) in
    let inside : ltb (length text) max_buf ≡ true = ground arith in
    rw (inside, print_lem text (header_line h) left room (omega (arith, size)) all)
      (print_headers_lem headers (text ++ header_line h) rest (suc left) (omega arith)
          (omega (arith, longer, size))
        ∙ ap (λ t. done (written t (suc rest))) (append_assoc text (header_line h) (lines headers)))

-- A message whose text has at most 2047 bytes is written to the front of the buffer, with zeros behind.
pub convert_to_hypertext_lem :
    (m : ParsedMsgHt) (rest : ℕ)
    → length (text_of m) + suc rest ≡ max_buf
    → convert_to_hypertext m ≡ done (filled (text_of m) (suc rest))
unfolding convert_to_hypertext
convert_to_hypertext_lem m rest e =
    let line = request_line m in
    let block = lines m.headers in
    let body = ht_end_line ++ m.body in
    let all = length-append line (block ++ body) in
    let behind = length-append block body in
    let before = length-append line block in
    let third = length body + rest in
    let second = length block + third in
    let text : text_of m ≡ (line ++ block) ++ body = sym (append_assoc line block body) in
    let first_print : print (replicate max_buf 0, 0) line ≡ done (written line (suc second)) =
      print_lem [] line second max_buf (omega (arith, all, behind)) refl in
    let second_print : print_headers m.headers (written line (suc second))
        ≡ done (written (line ++ block) (suc third)) =
      print_headers_lem m.headers line third (suc second) (omega arith)
        (omega (arith, all, behind)) in
    let third_print : print (written (line ++ block) (suc third)) body
        ≡ done (written ((line ++ block) ++ body) (suc rest)) =
      print_lem (line ++ block) body rest (suc third) (omega arith)
        (omega (arith, all, behind, before)) in
    let fits : ltb max_buf (length ((line ++ block) ++ body)) ≡ false =
      ground (arith, all, behind, before, length-append (line ++ block) body) in
    ap
      (λ o. o >>= λ f. print_headers m.headers f >>= λ g.
        print g body >>= λ r. if ltb max_buf r.1 then failure else done r.0)
      first_print
    ∙ ap (λ o. o >>= λ g. print g body >>= λ r. if ltb max_buf r.1 then failure else done r.0)
        second_print
    ∙ ap (λ o. o >>= λ r. if ltb max_buf r.1 then failure else done r.0) third_print
    ∙ rw fits (ap (λ t. done (filled t (suc rest))) (sym text))

-- A plain message without zero bytes, with at most 16 headers and a text of at most 2047 bytes, is
-- converted, and parsing the buffer gives it back.
pub parse-convert_to_hypertext :
    (m : ParsedMsgHt)
    → IsPlain m
    → Lacks 0 (text_of m)
    → length m.headers ≤ max_headers
    → length (text_of m) < max_buf
    → (ht : List ℕ) × (convert_to_hypertext m ≡ done ht) × (parse_hypertext ht ≡ done m)
parse-convert_to_hypertext m plain zeros room short =
    let rest = max_buf - length (text_of m) - 1 in
    (
      filled (text_of m) (suc rest),
      convert_to_hypertext_lem m rest (omega arith),
      parse_hypertext_lem m (replicate rest 0) plain zeros room,
    )

print_headers_behind :
    (headers : List HeaderHt) (buffer : List ℕ) (offset : ℕ)
    → max_buf < offset
    → print_headers headers (buffer, offset) ≡ done (buffer, offset)
unfolding print_headers
print_headers_behind [] buffer offset h = refl
print_headers_behind (x ∷ headers) buffer offset h = ground arith

print_first :
    (buffer text : List ℕ)
    → print (buffer, 0) text
      ≡ done (store buffer 0 (take (max_buf - 0 - 1) text ++ 0 ∷ []), 0 + length text)
unfolding print
print_first buffer text = refl

print_behind :
    (buffer text : List ℕ) (offset : ℕ) → max_buf < offset → print (buffer, offset) text ≡ overrun
unfolding print
print_behind buffer text offset h = ground arith

-- A request line of more than 2048 bytes makes the last print write behind the buffer.
pub convert_to_hypertext-overrun :
    (m : ParsedMsgHt) → max_buf < length (request_line m) → convert_to_hypertext m ≡ overrun
unfolding convert_to_hypertext
convert_to_hypertext-overrun m h =
    let line = request_line m in
    let body = ht_end_line ++ m.body in
    let buffer = store (replicate max_buf 0) 0 (take (max_buf - 0 - 1) line ++ 0 ∷ []) in
    let far : max_buf < 0 + length line = omega arith in
    ap
      (λ o. o >>= λ f. print_headers m.headers f >>= λ g.
        print g body >>= λ r. if ltb max_buf r.1 then failure else done r.0)
      (print_first (replicate max_buf 0) line)
    ∙ ap (λ o. o >>= λ g. print g body >>= λ r. if ltb max_buf r.1 then failure else done r.0)
        (print_headers_behind m.headers buffer (0 + length line) far)
    ∙ ap (λ o. o >>= λ r. if ltb max_buf r.1 then failure else done r.0)
        (print_behind buffer body (0 + length line) far)
