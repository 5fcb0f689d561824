-- ===== src/Replay/TextLaws.antt =====
-- Reading back the bytes and the error that a journal's line holds.
use mathlib.Core.List.{append_assoc, map-append}
use opc_server.Prelude.{
  ℕ, ◌+◌, ◌*◌, ◌/◌, ◌%◌, ◌<◌, ◌≡◌, List, [], ◌∷◌, ◌++◌, map, none, some, Bool, true, false, refl,
  ap, ◌∙◌, arith, All,
}
use opc_server.Domain.{Result, Error, ErrorCode}
use opc_server.Csv.{is_space, trim, trim_front, trim_back, keep_first, quote}
use opc_server.Replay.{replay_err}
use opc_server.Replay.Text.{
  space, hex_digit, to_hex, to_hex_rest, hex_nibble, push_byte, parse_hex_bytes, printable,
  print_error, take_word, read_word, error_of, with_tx, parse_word, parse_error_and_tx,
  print_error_and_tx,
}

hex_nibble-hex_digit : (n : ℕ) → n < 16 → hex_nibble (hex_digit n) ≡ some n
unfolding hex_nibble hex_digit
hex_nibble-hex_digit n h = ground (arith, h)

is_space-hex_digit : (n : ℕ) → n < 16 → is_space (hex_digit n) ≡ false
unfolding hex_digit
is_space-hex_digit n h = ground (arith, h)

parse_hex_bytes-is_space :
    (c d : ℕ) (rest : List ℕ) (b : Bool)
    → is_space c ≡ b
    → parse_hex_bytes (c ∷ d ∷ rest) ≡ (elim b as (λ x. Result (List ℕ)) [
      | true ↦ parse_hex_bytes (d ∷ rest)
      | false ↦ push_byte (hex_nibble c) (hex_nibble d) (parse_hex_bytes rest)
    ])
unfolding parse_hex_bytes
parse_hex_bytes-is_space c d rest b h =
    ap
      (λ x. elim x as (λ y. Result (List ℕ)) [
        | true ↦ parse_hex_bytes (d ∷ rest)
        | false ↦ push_byte (hex_nibble c) (hex_nibble d) (parse_hex_bytes rest)
      ])
      h

parse_hex_bytes-byte :
    (b : ℕ) (text bytes : List ℕ)
    → b < 256
    → parse_hex_bytes text ≡ Result.ok bytes
    → parse_hex_bytes (hex_digit (b / 16) ∷ hex_digit (b % 16) ∷ text) ≡ Result.ok (b ∷ bytes)
parse_hex_bytes-byte b text bytes h rest =
    parse_hex_bytes-is_space (hex_digit (b / 16)) (hex_digit (b % 16)) text false
      (is_space-hex_digit (b / 16) (omega (arith, h)))
    ∙ ap (λ hi. push_byte hi (hex_nibble (hex_digit (b % 16))) (parse_hex_bytes text))
        (hex_nibble-hex_digit (b / 16) (omega (arith, h)))
    ∙ ap (λ lo. push_byte (some (b / 16)) lo (parse_hex_bytes text))
        (hex_nibble-hex_digit (b % 16) (omega arith))
    ∙ ap (push_byte (some (b / 16)) (some (b % 16))) rest
    ∙ ap (λ n. Result.ok (n ∷ bytes)) {x = b / 16 * 16 + b % 16} {y = b} (omega arith)

parse_hex_bytes-to_hex_rest :
    (bytes : List ℕ)
    → All (λ b. b < 256) bytes
    → parse_hex_bytes (to_hex_rest bytes) ≡ Result.ok bytes
unfolding to_hex_rest
parse_hex_bytes-to_hex_rest [] h = unfold parse_hex_bytes in refl
parse_hex_bytes-to_hex_rest (b ∷ bytes) (h, hs) =
    parse_hex_bytes-is_space space (hex_digit (b / 16)) _ true refl
    ∙ parse_hex_bytes-byte b (to_hex_rest bytes) bytes h (parse_hex_bytes-to_hex_rest bytes hs)

-- The digits of any bytes read back as the bytes.
pub parse_hex_bytes-to_hex :
    (bytes : List ℕ) → All (λ b. b < 256) bytes → parse_hex_bytes (to_hex bytes) ≡ Result.ok bytes
unfolding to_hex
parse_hex_bytes-to_hex [] h = unfold parse_hex_bytes in refl
parse_hex_bytes-to_hex (b ∷ bytes) (h, hs) =
    parse_hex_bytes-byte b (to_hex_rest bytes) bytes h (parse_hex_bytes-to_hex_rest bytes hs)

-- A byte that is neither white nor a digit is refused, whatever follows.
parse_hex_bytes-refuses :
    (c : ℕ) (rest : List ℕ)
    → is_space c ≡ false
    → hex_nibble c ≡ none
    → (e : Error) × (parse_hex_bytes (c ∷ rest) ≡ Result.err e)
parse_hex_bytes-refuses c [] plain none_c =
    (replay_err ErrorCode.decoding "odd hex nibble" false, unfold parse_hex_bytes in rw plain refl)
parse_hex_bytes-refuses c (d ∷ rest) plain none_c = (
  replay_err ErrorCode.decoding "invalid hex byte" false,
  parse_hex_bytes-is_space c d rest false plain
      ∙ ap (λ hi. push_byte hi (hex_nibble d) (parse_hex_bytes rest)) none_c,
)

keep_first-plain : (c : ℕ) (kept : List ℕ) → is_space c ≡ false → keep_first c kept ≡ c ∷ kept
keep_first-plain c [] plain = rw plain refl
keep_first-plain c (d ∷ ds) plain = refl

trim_back-plain : (c : ℕ) (cs : List ℕ) → is_space c ≡ false → trim_back (c ∷ cs) ≡ c ∷ trim_back cs
unfolding trim_back
trim_back-plain c cs plain = keep_first-plain c (trim_back cs) plain

trim_front-plain : (c : ℕ) (cs : List ℕ) → is_space c ≡ false → trim_front (c ∷ cs) ≡ c ∷ cs
unfolding trim_front
trim_front-plain c cs plain = rw plain refl

-- A space goes, and what comes after it begins where it began.
trim-space : (c : ℕ) (cs : List ℕ) → is_space c ≡ false → trim (space ∷ c ∷ cs) ≡ c ∷ trim_back cs
unfolding trim trim_front
trim-space c cs plain = ap trim_back (trim_front-plain c cs plain) ∙ trim_back-plain c cs plain

take_word-append :
    (word rest : List ℕ)
    → All (λ c. is_space c ≡ false) word
    → take_word (word ++ space ∷ rest) ≡ (word, space ∷ rest)
unfolding take_word
take_word-append [] rest h = refl
take_word-append (c ∷ word) rest (plain, h) =
    rw plain (ap (λ p. (c ∷ p.0, p.1)) (take_word-append word rest h))

printable-is_space : (c : ℕ) → is_space c ≡ false → is_space (printable c) ≡ false
printable-is_space c h = ground (arith, h)

printable-All :
    (word : List ℕ)
    → All (λ c. is_space c ≡ false) word
    → All (λ c. is_space c ≡ false) (map printable word)
printable-All [] h = tt
printable-All (c ∷ word) (plain, h) = (printable-is_space c plain, printable-All word h)

-- A message with a space does not read back: where the byte after its first space is neither white
-- nor printed as a hexadecimal digit, what is printed of the error and of the bytes sent, whatever
-- these are, is refused by the parser.
pub parse_error_and_tx-print_error :
    (word : List ℕ) (c : ℕ) (more tx : List ℕ)
    → All (λ b. is_space b ≡ false) word
    → is_space c ≡ false
    → hex_nibble (printable c) ≡ none
    → (e : Error) × (parse_error_and_tx (print_error_and_tx (some (word ++ space ∷ c ∷ more)) tx)
        ≡ Result.err e)
unfolding parse_error_and_tx print_error_and_tx print_error read_word take_word trim_front
    parse_hex_bytes
parse_error_and_tx-print_error word c more tx plain next digit =
    let tail = space ∷ (to_hex tx ++ space ∷ []) in
    let after = map printable more ++ quote ∷ tail in
    let text : print_error_and_tx (some (word ++ space ∷ c ∷ more)) tx
        ≡ (quote ∷ map printable word) ++ space ∷ printable c ∷ after =
      ap (λ t. quote ∷ t)
        (append_assoc (map printable (word ++ space ∷ c ∷ more)) (quote ∷ []) tail
          ∙ ap (λ t. t ++ quote ∷ tail) (map-append printable word (space ∷ c ∷ more))
          ∙ append_assoc (map printable word) (space ∷ printable c ∷ map printable more)
              (quote ∷ tail)) in
    let (e, refused) =
      parse_hex_bytes-refuses (printable c) (trim_back after) (printable-is_space c next) digit in
    (
      e,
      ap parse_error_and_tx text
          ∙ ap parse_word (
              take_word-append (quote ∷ map printable word) (printable c ∷ after)
                (refl, printable-All word plain))
          ∙ ap (λ t. with_tx (error_of (quote ∷ map printable word)) (parse_hex_bytes t))
              (trim-space (printable c) after (printable-is_space c next))
          ∙ ap (with_tx (error_of (quote ∷ map printable word))) refused,
    )
