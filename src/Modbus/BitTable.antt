-- ===== src/Modbus/BitTable.antt =====
-- One bit of a byte set by `|`: the facts of the 256 bytes and 8 positions, checked by evaluation.
use Prim.Native.Nat.{bit_or}
use opc_server.Prelude.{
  ℕ, zero, suc, ◌/◌, ◌%◌, ◌^◌, ◌≡◌, ◌<◌, refl, Bool, true, false, ◌&&◌, ◌==◌, if◌then◌else◌, arith,
  ltb,
}

-- Whether a test holds of the `size` numbers from 0.
every : (ℕ → Bool) → ℕ → Bool
every test zero = true
every test (suc size) = if test size then every test size else false

every-elim : (test : ℕ → Bool) (i size : ℕ) → i < size → every test size ≡ true → test i ≡ true
unfolding every
every-elim test i zero inside all = absurd (omega arith)
every-elim test i (suc size) inside all = ground (arith, every-elim test i size)

abbrev pub bit : ℕ → ℕ → ℕ
bit byte k = byte / 2 ^ k % 2

abbrev row : ℕ → ℕ → ℕ → Bool
row a k j =
    (bit (bit_or a (2 ^ k)) j == (if k == j then 1 else bit a j)) && ltb (bit_or a (2 ^ k)) 256

bytes : every (λ a. every (λ k. every (row a k) 8) 8) 256 ≡ true
unfolding every
bytes = refl

row_holds : (a k j : ℕ) → a < 256 → k < 8 → j < 8 → row a k j ≡ true
row_holds a k j byte position other =
    let positions = every-elim (λ a'. every (λ k'. every (row a' k') 8) 8) a 256 byte bytes in
    let cells = every-elim (λ k'. every (row a k') 8) k 8 position positions in
    every-elim (row a k) j 8 other cells

pub bit-bit_or :
    (a k j : ℕ)
    → a < 256
    → k < 8
    → j < 8
    → bit (bit_or a (2 ^ k)) j ≡ (if k == j then 1 else bit a j)
bit-bit_or a k j ha hk hj = ground (arith, row_holds a k j ha hk hj)

pub bit_or-lt : (a k : ℕ) → a < 256 → k < 8 → bit_or a (2 ^ k) < 256
bit_or-lt a k ha hk = ground (arith, row_holds a k 0 ha hk)
