-- ===== src/Platform.antt =====
-- What the program takes from the platform's floating point: the types float and double, with the
-- operations that the sources use. No law is built in; a theorem that needs one names it.
use opc_server.Prelude.{ℕ, Bool, true, false, ◌≡◌, ◌^◌, ◌≤◌, ◌+◌}
use opc_server.Prelude.Int.{ℤ, pos, pos_part, neg_part, ltb_ℤ}

pub record Floats : Type 1 where
  pub F32 : Type 0
  pub F64 : Type 0
  pub add : F64 → F64 → F64
  pub sub : F64 → F64 → F64
  pub mul : F64 → F64 → F64
  pub div : F64 → F64 → F64
  pub abs : F64 → F64
  pub round : F64 → F64
  pub is_finite : F64 → Bool
  pub less : F64 → F64 → Bool
  pub equal : F64 → F64 → Bool
  -- conversions: from and to an integer type, and between the two widths
  pub of_int : ℤ → F64
  pub to_int : F64 → ℤ
  pub widen : F32 → F64
  pub narrow : F64 → F32
  pub max_f32 : F64
  -- std::memcpy from and to the unsigned integer of the same width
  pub bits32 : F32 → ℕ
  pub of_bits32 : ℕ → F32
  pub bits64 : F64 → ℕ
  pub of_bits64 : ℕ → F64

-- The integers that a double holds exactly.
abbrev pub IsExact : ℤ → Type 0
IsExact n = pos_part n + neg_part n ≤ 2 ^ 53

-- IEEE 754 on integers of at most 53 bits: they are finite and their own rounding, converting back
-- gives the integer, the order is that of the integers, and 0 and 1 are neutral.
pub record IntegerLaws (fl : Floats) : Type 0 where
  pub finite : (n : ℤ) → IsExact n → fl.is_finite (fl.of_int n) ≡ true
  pub rounds : (n : ℤ) → IsExact n → fl.round (fl.of_int n) ≡ fl.of_int n
  pub back : (n : ℤ) → IsExact n → fl.to_int (fl.of_int n) ≡ n
  pub ordered : (a b : ℤ) → IsExact a → IsExact b → fl.less (fl.of_int a) (fl.of_int b) ≡ ltb_ℤ a b
  pub one_ne_zero : fl.equal (fl.of_int (pos 1)) (fl.of_int (pos 0)) ≡ false
  pub mul_one : (n : ℤ) → IsExact n → fl.mul (fl.of_int n) (fl.of_int (pos 1)) ≡ fl.of_int n
  pub add_zero : (n : ℤ) → IsExact n → fl.add (fl.of_int n) (fl.of_int (pos 0)) ≡ fl.of_int n
  pub sub_zero : (n : ℤ) → IsExact n → fl.sub (fl.of_int n) (fl.of_int (pos 0)) ≡ fl.of_int n
  pub div_one : (n : ℤ) → IsExact n → fl.div (fl.of_int n) (fl.of_int (pos 1)) ≡ fl.of_int n
