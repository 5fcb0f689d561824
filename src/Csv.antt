-- ===== src/Csv.antt =====
-- Src/project/import_csv.cpp: the fields of a line. A text is the list of its bytes.
pub mod RoundTrip
mod Tests
use opc_server.Prelude.{
  ℕ, List, [], ◌∷◌, ◌++◌, Option, none, some, Bool, true, false, ◌==◌, ◌&&◌, ◌||◌, leb,
  if◌then◌else◌,
}

abbrev pub quote : ℕ
quote = 34

abbrev pub comma : ℕ
comma = 44

abbrev pub carriage_return : ℕ
carriage_return = 13

-- std::isspace in the C locale.
abbrev pub is_space : ℕ → Bool
is_space c = (c == 32) || (leb 9 c && leb c 13)

unfoldable pub trim_front : List ℕ → List ℕ
trim_front [] = []
trim_front (c ∷ cs) = if is_space c then trim_front cs else c ∷ cs

-- A white byte before nothing goes too.
abbrev pub keep_first : ℕ → List ℕ → List ℕ
keep_first c [] = if is_space c then [] else c ∷ []
keep_first c (d ∷ ds) = c ∷ d ∷ ds

unfoldable pub trim_back : List ℕ → List ℕ
trim_back [] = []
trim_back (c ∷ cs) = keep_first c (trim_back cs)

unfoldable pub trim : List ℕ → List ℕ
trim text = trim_back (trim_front text)

unfoldable pub strip_utf8_bom : List ℕ → List ℕ
strip_utf8_bom (a ∷ b ∷ c ∷ rest) =
    if (a == 0xef) && (b == 0xbb) && (c == 0xbf) then rest else a ∷ b ∷ c ∷ rest
strip_utf8_bom text = text

-- A field that is complete, before those of the rest of the line.
abbrev pub push_field : List ℕ → Option (List (List ℕ)) → Option (List (List ℕ))
push_field field none = none
push_field field (some fields) = some (field ∷ fields)

-- The loop of parse_csv_line with what is left of the line, `in_quotes` and `current`; `none` is the
-- exception for a quoted field without an end.
unfoldable pub parse_from : List ℕ → Bool → List ℕ → Option (List (List ℕ))
parse_from [] true current = none
parse_from [] false current = some (current ∷ [])
parse_from (c ∷ []) true current = elim (c == quote) [ true ↦ some (current ∷ []) | false ↦ none ]
parse_from (c ∷ d ∷ rest) true current = elim (c == quote) [
  | true ↦ elim (d == quote) [
    | true ↦ parse_from rest true (current ++ quote ∷ [])
    | false ↦ parse_from (d ∷ rest) false current
  ]
  | false ↦ parse_from (d ∷ rest) true (current ++ c ∷ [])
]
parse_from (c ∷ rest) false current = elim (c == quote) [
  | true ↦ parse_from rest true current
  | false ↦ elim (c == comma) [
    | true ↦ push_field current (parse_from rest false [])
    | false ↦ elim (c == carriage_return) [
      | true ↦ parse_from rest false current
      | false ↦ parse_from rest false (current ++ c ∷ [])
    ]
  ]
]

unfoldable pub parse_csv_line : List ℕ → Option (List (List ℕ))
parse_csv_line line = parse_from line false []
