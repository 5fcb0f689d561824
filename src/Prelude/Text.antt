-- ===== src/Prelude/Text.antt =====
-- Joining texts, for messages and keys, numbers in decimal, and sets of texts.
use Prim.Native.Nat.{ℕ, zero, suc, ◌/◌, ◌%◌}
use Prim.Native.String.{String, ◌++◌}
use mathlib.Core.Bool.{Bool, false, ◌||◌}
use mathlib.Core.List.{List, [], ◌∷◌}
use opc_server.Prelude.Tests.{ltb, if◌then◌else◌}
use opc_server.Prelude.Eq.{◌=?◌, string_eq}

abbrev pub concat : String → String → String
concat s t = s ++ t

-- The digit of a number below ten.
unfoldable pub digit : ℕ → String
digit n =
    if ltb n 1
    then "0"
    else if ltb n 2
    then "1"
    else if ltb n 3
    then "2"
    else if ltb n 4
    then "3"
    else if ltb n 5
    then "4"
    else if ltb n 6
    then "5"
    else if ltb n 7
    then "6"
    else if ltb n 8
    then "7"
    else if ltb n 9
    then "8"
    else "9"

-- The digits before `shown`: a number has fewer digits than its successor, so that much fuel is enough.
unfoldable pub decimal : ℕ → ℕ → String → String
decimal zero n shown = shown
decimal (suc fuel) n shown =
    let longer = decimal fuel (n / 10) (concat (digit (n % 10)) shown) in
    if ltb n 10 then concat (digit n) shown else longer

-- std::to_string
unfoldable pub to_string : ℕ → String
to_string n = decimal (suc n) n ""

-- An unordered_set of texts as a list.
unfoldable pub contains : String → List String → Bool
contains s [] = false
contains s (t ∷ ts) = (t =? s) || contains s ts
