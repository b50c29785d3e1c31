-- ===== src/Corestack/Hypertext/Tests.antt =====
-- Messages with one header and with seventeen.
use corestack_50005_htt.Prelude.{ℕ, ◌<◌, ◌≤◌, ◌≡◌, arith, ◌⊎◌, All-replicate, replicate}
use corestack_50005_htt.Prelude.{List, [], ◌∷◌, ◌++◌}
use corestack_50005_htt.Corestack.Hypertext.{HeaderHt, ParsedMsgHt, failure, overrun, done}
use corestack_50005_htt.Corestack.Hypertext.{
  convert_to_hypertext, parse_hypertext, msg_add_header, max_headers,
}
use corestack_50005_htt.Corestack.Hypertext.Split.{IsHeader}
use corestack_50005_htt.Corestack.Hypertext.Parse.{text_of, parse_hypertext_overrun}
use corestack_50005_htt.Corestack.Hypertext.Build.{
  parse-convert_to_hypertext, convert_to_hypertext-overrun,
}
use corestack_50005_htt.Corestack.Hypertext.Headers.{msg_add_header_lem}

-- "P: 1"
abbrev player_id : HeaderHt
player_id = record { field = 80 ∷ []; value = 49 ∷ [] }

-- "A /b V", the header and "hi"
abbrev greeting : ParsedMsgHt
greeting = record {
  token1 = 65 ∷ [];
  token2 = 47 ∷ 98 ∷ [];
  token3 = 86 ∷ [];
  headers = player_id ∷ [];
  body = 104 ∷ 105 ∷ [];
}

abbrev player_id-IsHeader : IsHeader player_id
player_id-IsHeader = ground arith

abbrev crowded : ParsedMsgHt
crowded = record greeting { headers = replicate 17 player_id }

parse-convert_to_hypertext_example :
    (ht : List ℕ) × (convert_to_hypertext greeting ≡ done ht) × (parse_hypertext ht ≡ done greeting)
parse-convert_to_hypertext_example =
    parse-convert_to_hypertext greeting
      (ground arith, ground arith, ground arith, (player_id-IsHeader, tt), omega arith)
      (ground arith) (omega arith) (omega arith)

parse_hypertext_overrun_example : parse_hypertext (text_of crowded ++ (0 ∷ [])) ≡ overrun
parse_hypertext_overrun_example =
    parse_hypertext_overrun crowded []
      (
        ground arith,
        ground arith,
        ground arith,
        All-replicate IsHeader 17 player_id player_id-IsHeader,
        omega arith,
      )
      (ground arith) (omega arith)

abbrev long : ParsedMsgHt
long = record greeting { token1 = replicate 2100 65 }

convert_to_hypertext-overrun_example : convert_to_hypertext long ≡ overrun
convert_to_hypertext-overrun_example = convert_to_hypertext-overrun long (omega arith)

msg_add_header_lem_example :
    (¬ IsHeader player_id × (msg_add_header greeting (80 ∷ []) (49 ∷ []) ≡ failure))
    ⊎ (IsHeader player_id
        × (max_headers ≤ 1)
        × (msg_add_header greeting (80 ∷ []) (49 ∷ []) ≡ overrun))
    ⊎ (IsHeader player_id
        × (1 < max_headers)
        × (msg_add_header greeting (80 ∷ []) (49 ∷ [])
            ≡ done (record greeting { headers = player_id ∷ player_id ∷ [] })))
msg_add_header_lem_example = msg_add_header_lem greeting player_id
