-- ===== src/Corestack/Htttp.antt =====
-- corestack/src/lib/libhtttp.c: requests over the text messages of libhypertext.c, with the payload of
-- an action from libhtttp/payload.c. A string is the list of its bytes, and is never NULL here.
pub mod Decimal
pub mod Requests
pub mod Delivery
mod Tests
use Prim.Native.String.{String}
use Prim.Native.Char.{code}
use package.corestack_50005_htt.Prelude.{
  ℕ, zero, suc, ◌+◌, ◌-◌, ◌*◌, ◌/◌, ◌%◌, ◌^◌, Bool, true, false, not, ◌&&◌,
}
use package.corestack_50005_htt.Prelude.{
  ◌||◌, ◌==◌, ltb, leb, if◌then◌else◌, List, [], ◌∷◌, ◌++◌, length, Option,
}
use package.corestack_50005_htt.Prelude.{none, some}
use package.corestack_50005_htt.Corestack.Hypertext.{
  HeaderHt, ParsedMsgHt, Outcome, failure, overrun, done,
}
use package.corestack_50005_htt.Corestack.Hypertext.{◌>>=◌, msg_add_header, msg_add_body}

abbrev pub bytes : String → List ℕ
bytes String.[] = []
bytes (String.◌∷◌ c s) = code c ∷ bytes s

-- `strcmp(a, b) == 0`
abbrev pub same_string : List ℕ → List ℕ → Bool
same_string [] [] = true
same_string [] (y ∷ b) = false
same_string (x ∷ a) [] = false
same_string (x ∷ a) (y ∷ b) = x == y && same_string a b

-- `MethodHTTTP`
pub data MethodHttp : Type 0 where
  unknown : MethodHttp
  req_move : MethodHttp
  req_drop : MethodHttp
  req_rotate : MethodHttp
  req_state : MethodHttp
  req_attack : MethodHttp
  req_action : MethodHttp
  req_roster : MethodHttp

-- Its values.
abbrev pub method_value : MethodHttp → ℕ
method_value unknown = 0
method_value req_move = 1
method_value req_drop = 2
method_value req_rotate = 3
method_value req_state = 4
method_value req_attack = 5
method_value req_action = 6
method_value req_roster = 7

abbrev pub htttp_methods : List (List ℕ × MethodHttp)
htttp_methods =
    (bytes "MOVE", req_move)
    ∷ (bytes "DROP", req_drop)
    ∷ (bytes "ROTATE", req_rotate)
    ∷ (bytes "STATE", req_state)
    ∷ (bytes "ATTACK", req_attack)
    ∷ (bytes "ACTION", req_action)
    ∷ (bytes "ROSTER", req_roster)
    ∷ []

abbrev pub htttp_headers : List (List ℕ)
htttp_headers =
    bytes "Content-Length" ∷ bytes "Content-Type" ∷ bytes "Player-Id" ∷ bytes "Date" ∷ []

-- The loop of `string_to_method`.
abbrev pub method_of : List (List ℕ × MethodHttp) → List ℕ → MethodHttp
method_of [] s = unknown
method_of ((name, method) ∷ methods) s = if same_string s name then method else method_of methods s

pub string_to_method : List ℕ → MethodHttp
string_to_method s = method_of htttp_methods s

pub is_legal_method : List ℕ → Bool
is_legal_method s = not (method_value (string_to_method s) == 0)

-- The loop of `method_to_string`; `none` is NULL.
abbrev pub name_of : List (List ℕ × MethodHttp) → MethodHttp → Option (List ℕ)
name_of [] v = none
name_of ((name, method) ∷ methods) v =
    if method_value v == method_value method then some name else name_of methods v

pub method_to_string : MethodHttp → Option (List ℕ)
method_to_string v = if method_value v == 0 then none else name_of htttp_methods v

-- The loop of `is_legal_header_field`.
abbrev pub any_of : List (List ℕ) → List ℕ → Bool
any_of [] s = false
any_of (name ∷ names) s = same_string s name || any_of names s

pub is_legal_header_field : List ℕ → Bool
is_legal_header_field s = any_of htttp_headers s

-- `sprintf` of a `%u`, with at most as many digits as fuel; a `uint32_t` has no more than 10.
unfoldable pub digits : ℕ → ℕ → List ℕ
digits zero n = []
digits (suc fuel) n =
    let more = digits fuel (n / 10) in
    if ltb n 10 then (48 + n) ∷ [] else more ++ (48 + n % 10) ∷ []

abbrev pub print_u : ℕ → List ℕ
print_u n = digits 10 n

-- `strtoul(s, NULL, 10)`: white space, a sign, and the digits that follow. What does not fit into 64 bits
-- gives the largest value.
abbrev pub digits_value : ℕ → List ℕ → ℕ
digits_value acc [] = acc
digits_value acc (c ∷ s) =
    let longer = digits_value (acc * 10 + (c - 48)) s in
    if leb 48 c && leb c 57 then longer else acc

abbrev pub saturate : ℕ → ℕ
saturate n = if ltb n (2 ^ 64) then n else 2 ^ 64 - 1

abbrev pub strtoul : List ℕ → ℕ
strtoul [] = 0
strtoul (c ∷ s) =
    let skipped = strtoul s in
    if c == 32 || leb 9 c && leb c 13
    then skipped
    else if c == 43
    then saturate (digits_value 0 s)
    else if c == 45
    then (let v = digits_value 0 s in if ltb v (2 ^ 64) then (2 ^ 64 - v) % 2 ^ 64 else 2 ^ 64 - 1)
    else saturate (digits_value 0 (c ∷ s))

-- `payload_encode_input`
abbrev pub payload_encode_input : ℕ → List ℕ
payload_encode_input action = bytes "{action-id: " ++ (print_u action ++ bytes "}")

-- The calls of the builder do not look at its return value.
abbrev pub or_before : ParsedMsgHt → Outcome ParsedMsgHt → Outcome ParsedMsgHt
or_before msg failure = done msg
or_before msg overrun = overrun
or_before msg (done next) = done next

-- A token that is NULL, for a method without a name, is empty here.
abbrev pub name_or_empty : Option (List ℕ) → List ℕ
name_or_empty none = []
name_or_empty (some name) = name

-- `req_create_action`, with the string that `get_date_str` makes. The body is set before its length is
-- added as the last header.
unfoldable pub req_create_action : List ℕ → ℕ → MethodHttp → ℕ → ParsedMsgHt → Outcome ParsedMsgHt
req_create_action date id method action msg =
    let start = record msg {
      token1 = name_or_empty (method_to_string method);
      token2 = bytes "/room/0/player/" ++ print_u id;
      token3 = bytes "HTTTP/1.0";
    } in
    let body = payload_encode_input action in
    do
      m1 ← or_before start (msg_add_header start (bytes "Player-Id") (print_u id))
      m2 ←
          or_before m1
            (msg_add_header m1 (bytes "Content-Type") (bytes "application/input-payload"))
      m3 ← or_before m2 (msg_add_header m2 (bytes "Date") date)
      m4 ← or_before m3 (msg_add_body m3 body)
      or_before m4 (msg_add_header m4 (bytes "Content-Length") (print_u (length body)))

-- The loop over the headers of `req_extract_info`.
abbrev pub player_id_in : List HeaderHt → ℕ
player_id_in [] = 0
player_id_in (h ∷ headers) =
    if same_string h.field (bytes "Player-Id")
    then strtoul h.value % 2 ^ 32
    else player_id_in headers

unfoldable pub req_extract_info : ParsedMsgHt → MethodHttp × ℕ × List ℕ
req_extract_info msg = (string_to_method msg.token1, player_id_in msg.headers, msg.body)
