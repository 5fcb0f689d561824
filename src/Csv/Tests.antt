-- ===== src/Csv/Tests.antt =====
-- A row with a comma and a quote inside its fields.
use opc_server.Prelude.{ℕ, ◌≡◌, List, [], ◌∷◌, some}
use opc_server.Csv.{parse_csv_line}
use opc_server.Csv.RoundTrip.{print_row, parse_csv_line-print_row}

abbrev odd_field : List ℕ
odd_field = 97 ∷ 44 ∷ 34 ∷ 98 ∷ []

parse_csv_line-print_row_example :
    parse_csv_line (print_row odd_field (odd_field ∷ [] ∷ []))
    ≡ some (odd_field ∷ odd_field ∷ [] ∷ [])
parse_csv_line-print_row_example = parse_csv_line-print_row odd_field (odd_field ∷ [] ∷ [])
