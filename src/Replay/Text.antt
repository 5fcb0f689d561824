-- ===== src/Replay/Text.antt =====
-- The text of a journal's line from its error field to the bytes sent: what log_frame of
-- Src/adapters/frame_log.cpp prints, and what parse_frame_log_line of Src/adapters/frame_replay.cpp
-- reads; trim is the same there as in import_csv.cpp. A text is the list of its bytes.
use opc_server.Prelude.{
  ℕ, ◌+◌, ◌-◌, ◌*◌, ◌/◌, ◌%◌, List, [], ◌∷◌, ◌++◌, map, Option, none, some, true, false, ◌==◌, ◌&&◌,
  ◌||◌, ltb, leb, if◌then◌else◌,
}
use opc_server.Domain.{Result, ErrorCode, ◌>>=◌}
use opc_server.Csv.{is_space, trim, trim_front, quote}
use opc_server.Replay.{replay_err}

abbrev pub space : ℕ
space = 32

abbrev pub dash : ℕ
dash = 45

-- A hexadecimal digit in lower case.
unfoldable pub hex_digit : ℕ → ℕ
hex_digit n = if ltb n 10 then 48 + n else 87 + n

-- The bytes after the first, each with a space before its two digits.
unfoldable pub to_hex_rest : List ℕ → List ℕ
to_hex_rest [] = []
to_hex_rest (b ∷ bs) = space ∷ hex_digit (b / 16) ∷ hex_digit (b % 16) ∷ to_hex_rest bs

unfoldable pub to_hex : List ℕ → List ℕ
to_hex [] = []
to_hex (b ∷ bs) = hex_digit (b / 16) ∷ hex_digit (b % 16) ∷ to_hex_rest bs

-- `none` is -1.
unfoldable pub hex_nibble : ℕ → Option ℕ
hex_nibble c =
    if leb 48 c && leb c 57
    then some (c - 48)
    else if leb 97 c && leb c 102
    then some (c - 97 + 10)
    else if leb 65 c && leb c 70
    then some (c - 65 + 10)
    else none

abbrev pub push_byte : Option ℕ → Option ℕ → Result (List ℕ) → Result (List ℕ)
push_byte (some hi) (some lo) rest = rest >>= λ bytes. Result.ok ((hi * 16 + lo) ∷ bytes)
push_byte _ _ rest = Result.err (replay_err ErrorCode.decoding "invalid hex byte" false)

unfoldable pub parse_hex_bytes : List ℕ → Result (List ℕ)
parse_hex_bytes [] = Result.ok []
parse_hex_bytes (c ∷ []) =
    if is_space c
    then Result.ok []
    else Result.err (replay_err ErrorCode.decoding "odd hex nibble" false)
parse_hex_bytes (c ∷ d ∷ rest) = elim (is_space c) [
  | true ↦ parse_hex_bytes (d ∷ rest)
  | false ↦ push_byte (hex_nibble c) (hex_nibble d) (parse_hex_bytes rest)
]

-- An error's text as log_frame prints it, or a dash.
abbrev pub printable : ℕ → ℕ
printable c = if (c == quote) || (c == 10) then 95 else c

unfoldable pub print_error : Option (List ℕ) → List ℕ
print_error none = dash ∷ []
print_error (some message) = quote ∷ (map printable message ++ quote ∷ [])

-- The bytes up to the next white one, and those from it on.
unfoldable pub take_word : List ℕ → List ℕ × List ℕ
take_word [] = ([], [])
take_word (c ∷ cs) =
    let (word, rest) = take_word cs in if is_space c then ([], c ∷ cs) else (c ∷ word, rest)

-- `>>` of a text: white bytes are skipped; an empty word is a failure.
unfoldable pub read_word : List ℕ → List ℕ × List ℕ
read_word text = take_word (trim_front text)

-- The bytes before the last, if the last is a quote, and otherwise all.
unfoldable pub drop_last_quote : List ℕ → List ℕ
drop_last_quote [] = []
drop_last_quote (c ∷ []) = if c == quote then [] else c ∷ []
drop_last_quote (c ∷ d ∷ rest) = c ∷ drop_last_quote (d ∷ rest)

-- What is made of the error field's word.
unfoldable pub error_of : List ℕ → Option (List ℕ)
error_of [] = some []
error_of (c ∷ []) = if c == dash then none else if c == quote then some [] else some (c ∷ [])
error_of (c ∷ d ∷ rest) =
    if c == quote then some (drop_last_quote (d ∷ rest)) else some (c ∷ d ∷ rest)

-- What the rest of the line up to the bar gives, where the error's word has been read.
abbrev pub with_tx : Option (List ℕ) → Result (List ℕ) → Result (Option (List ℕ) × List ℕ)
with_tx error (Result.err e) = Result.err e
with_tx error (Result.ok tx) = Result.ok (error, tx)

abbrev pub parse_word : List ℕ × List ℕ → Result (Option (List ℕ) × List ℕ)
parse_word ([], rest) = Result.err (replay_err ErrorCode.decoding "bad frame log prefix" false)
parse_word (c ∷ word, rest) = with_tx (error_of (c ∷ word)) (parse_hex_bytes (trim rest))

unfoldable pub parse_error_and_tx : List ℕ → Result (Option (List ℕ) × List ℕ)
parse_error_and_tx text = parse_word (read_word text)

-- The error and the bytes sent as log_frame prints them.
unfoldable pub print_error_and_tx : Option (List ℕ) → List ℕ → List ℕ
print_error_and_tx error tx = print_error error ++ space ∷ (to_hex tx ++ space ∷ [])
