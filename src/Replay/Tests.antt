-- ===== src/Replay/Tests.antt =====
-- A journal's bytes, and the message of a timeout.
use opc_server.Prelude.{ℕ, ◌≡◌, List, [], ◌∷◌, ◌++◌, some, refl, arith}
use opc_server.Domain.{Error, Result}
use opc_server.Replay.Text.{
  to_hex, hex_nibble, parse_hex_bytes, parse_error_and_tx, print_error_and_tx, space,
}
use opc_server.Replay.TextLaws.{parse_hex_bytes-to_hex, parse_error_and_tx-print_error}

abbrev pdu : List ℕ
pdu = 3 ∷ 0xab ∷ 255 ∷ []

parse_hex_bytes-to_hex_example : parse_hex_bytes (to_hex pdu) ≡ Result.ok pdu
parse_hex_bytes-to_hex_example =
    parse_hex_bytes-to_hex pdu (omega arith, (omega arith, (omega arith, tt)))

abbrev recv : List ℕ
recv = 114 ∷ 101 ∷ 99 ∷ 118 ∷ []

-- "recv timeout".
parse_error_and_tx-print_error_example :
    (e : Error) × (parse_error_and_tx
        (print_error_and_tx (some (recv ++ space ∷ 116 ∷ 105 ∷ [])) pdu)
      ≡ Result.err e)
unfolding hex_nibble
parse_error_and_tx-print_error_example =
    parse_error_and_tx-print_error recv 116 (105 ∷ []) pdu (refl, (refl, (refl, (refl, tt)))) refl
      refl
