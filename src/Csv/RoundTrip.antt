-- ===== src/Csv/RoundTrip.antt =====
-- A row of quoted fields parses to its fields.
use mathlib.Core.List.{append_assoc, append-nil}
use opc_server.Prelude.{
  ℕ, ◌≡◌, List, [], ◌∷◌, ◌++◌, Option, some, true, false, ◌==◌, if◌then◌else◌, refl, sym, ap, ◌∙◌,
  arith, Bool-cases, inl, inr,
}
use opc_server.Csv.{quote, comma, parse_from, parse_csv_line, push_field}

-- The bytes between the quotes of a field: each quote twice.
abbrev pub escape : List ℕ → List ℕ
escape [] = []
escape (c ∷ cs) = if c == quote then quote ∷ quote ∷ escape cs else c ∷ escape cs

abbrev pub print_field : List ℕ → List ℕ
print_field field = quote ∷ (escape field ++ quote ∷ [])

-- The quoted fields with commas between them.
abbrev pub print_row : List ℕ → List (List ℕ) → List ℕ
print_row field [] = print_field field
print_row field (next ∷ fields) = print_field field ++ comma ∷ print_row next fields

-- Bytes that do not go on with a quote.
abbrev EndsField : List ℕ → Type 0
EndsField [] = Unit
EndsField (c ∷ rest) = (c == quote) ≡ false

-- In quotes a byte that is no quote goes to the field.
parse_from-plain :
    (c : ℕ) (text current : List ℕ)
    → (c == quote) ≡ false
    → parse_from (c ∷ text) true current ≡ parse_from text true (current ++ c ∷ [])
unfolding parse_from
parse_from-plain c [] current h = rw (parse_from, h) refl
parse_from-plain c (d ∷ rest) current h = rw (parse_from, h) refl

-- A quote that no quote follows ends the field.
parse_from-quote :
    (rest current : List ℕ)
    → EndsField rest
    → parse_from (quote ∷ rest) true current ≡ parse_from rest false current
unfolding parse_from
parse_from-quote [] current end = refl
parse_from-quote (d ∷ rest) current end =
    ap
      (λ b. elim b as (λ x. Option (List (List ℕ))) [
        | true ↦ parse_from rest true (current ++ quote ∷ [])
        | false ↦ parse_from (d ∷ rest) false current
      ])
      end

parse_from-escape :
    (field current rest : List ℕ)
    → EndsField rest
    → parse_from (escape field ++ quote ∷ rest) true current
      ≡ parse_from rest false (current ++ field)
unfolding parse_from
parse_from-escape [] current rest end =
    parse_from-quote rest current end ∙ ap (parse_from rest false) (sym (append-nil current))
parse_from-escape (c ∷ cs) current rest end = elim (Bool-cases (c == quote)) [
  | inl e ↦ rw e (
      parse_from-escape cs (current ++ quote ∷ []) rest end
      ∙ ap (parse_from rest false) (
          append_assoc current (quote ∷ []) cs
          ∙ ap (λ b. current ++ b ∷ cs) {x = quote} {y = c} (ground (arith, e))))
  | inr e ↦ rw e (
      parse_from-plain c (escape cs ++ quote ∷ rest) current e
      ∙ parse_from-escape cs (current ++ c ∷ []) rest end
      ∙ ap (parse_from rest false) (append_assoc current (c ∷ []) cs))
]

parse_from-print_field :
    (field rest : List ℕ)
    → EndsField rest
    → parse_from (print_field field ++ rest) false [] ≡ parse_from rest false field
unfolding parse_from
parse_from-print_field field rest end =
    ap (λ text. parse_from text true []) (append_assoc (escape field) (quote ∷ []) rest)
    ∙ parse_from-escape field [] rest end

-- A line of fields in quotes, each of its quotes doubled, with commas between the fields, parses to
-- the fields, whatever bytes they hold.
pub parse_csv_line-print_row :
    (field : List ℕ) (fields : List (List ℕ))
    → parse_csv_line (print_row field fields) ≡ some (field ∷ fields)
unfolding parse_csv_line parse_from
parse_csv_line-print_row field [] =
    ap (λ text. parse_from text false []) (sym (append-nil (print_field field)))
    ∙ parse_from-print_field field [] tt
parse_csv_line-print_row field (next ∷ fields) =
    parse_from-print_field field (comma ∷ print_row next fields) refl
    ∙ ap (push_field field) (parse_csv_line-print_row next fields)
