-- ===== src/Corestack/Htttp/Tests.antt =====
-- A request of player 12.
use corestack_50005_htt.Prelude.{◌≡◌, ap, arith, []}
use corestack_50005_htt.Corestack.Hypertext.{
  ParsedMsgHt, done, ◌>>=◌, convert_to_hypertext, parse_hypertext,
}
use corestack_50005_htt.Corestack.Htttp.{
  unknown, req_action, method_value, req_create_action, req_extract_info,
}
use corestack_50005_htt.Corestack.Htttp.{payload_encode_input, bytes}
use corestack_50005_htt.Corestack.Htttp.Delivery.{req_extract_info-parse_hypertext}

abbrev blank : ParsedMsgHt
blank = record { token1 = []; token2 = []; token3 = []; headers = []; body = [] }

abbrev action_known : req_action ≡ unknown → ⊥
action_known e = absurd (omega (arith, ap method_value e))

req_extract_info-parse_hypertext_example :
    (req_create_action (bytes "Mon") 12 req_action 3 blank >>= λ request.
    convert_to_hypertext request >>= λ ht.
    parse_hypertext ht >>= λ received. done (req_extract_info received))
    ≡ done (req_action, 12, payload_encode_input 3)
req_extract_info-parse_hypertext_example =
    req_extract_info-parse_hypertext (bytes "Mon") 12 req_action 3 blank (ground arith)
      (ground arith) (ground arith) (omega arith) (omega arith) action_known
