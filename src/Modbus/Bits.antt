-- ===== src/Modbus/Bits.antt =====
-- Coil bits: FC15's packing against the decoding of bit responses, and when the decoding reads out
-- of the response's range.
use Prim.Native.Nat.{bit_or}
use opc_server.Prelude.{
  ℕ, zero, suc, ◌+◌, ◌*◌, ◌/◌, ◌%◌, ◌^◌, ◌≡◌, ◌<◌, ◌≤◌, refl, ap, ◌∙◌, List, [], ◌∷◌, none, some,
  Bool, not, ◌==◌, if◌then◌else◌, length, drop, arith, get_elem?, get_elem?-append, get_elem?-some,
  get_elem?-none, get_or, set, replicate, map, length-set, length-replicate, get_or-set_self,
  get_or-set_ne, ℕ_discrete, dec_lt, Bool-cases, Option-cases, ◌↔◌, inl, inr,
}
use opc_server.Domain.{Result}
use opc_server.Modbus.Pdu.{set_bit, pack_bits, make_write_multiple_coils_pdu}
use opc_server.Modbus.Response.{read_bits, decode_bits_response}
use opc_server.Modbus.Registers.{AllBelow}
use opc_server.Modbus.BitTable.{bit, bit-bit_or, bit_or-lt}

abbrev bit_at : List ℕ → ℕ → ℕ
bit_at bytes p = bit (get_or bytes (p / 8) 0) (p % 8)

AllBelow-get_or : (n : ℕ) (bytes : List ℕ) (k : ℕ) → 0 < n → AllBelow n bytes → get_or bytes k 0 < n
AllBelow-get_or n [] k h b = h
AllBelow-get_or n (x ∷ xs) zero h b = b.0
AllBelow-get_or n (x ∷ xs) (suc k) h b = AllBelow-get_or n xs k h b.1

AllBelow-set :
    (n : ℕ) (bytes : List ℕ) (k v : ℕ) → v < n → AllBelow n bytes → AllBelow n (set bytes k v)
AllBelow-set n [] k v h b = tt
AllBelow-set n (x ∷ xs) zero v h b = (h, b.1)
AllBelow-set n (x ∷ xs) (suc k) v h b = (b.0, AllBelow-set n xs k v h b.1)

AllBelow-replicate : (n k : ℕ) → 0 < n → AllBelow n (replicate k 0)
AllBelow-replicate n zero h = tt
AllBelow-replicate n (suc k) h = (h, AllBelow-replicate n k h)

set_bit-AllBelow : (bytes : List ℕ) (i : ℕ) → AllBelow 256 bytes → AllBelow 256 (set_bit bytes i)
set_bit-AllBelow bytes i b =
    AllBelow-set 256 bytes (i / 8) _
      (bit_or-lt _ (i % 8) (AllBelow-get_or 256 bytes (i / 8) (omega arith) b) (omega arith)) b

bit_at-set_bit :
    (bytes : List ℕ) (i p : ℕ)
    → AllBelow 256 bytes
    → i / 8 < length bytes
    → bit_at (set_bit bytes i) p ≡ (if i == p then 1 else bit_at bytes p)
bit_at-set_bit bytes i p b h = elim (ℕ_discrete (i / 8) (p / 8)) [
  | yes e ↦
      rw (← e, get_or-set_self bytes (i / 8) (bit_or (get_or bytes (i / 8) 0) (2 ^ (i % 8))) 0 h)
        (bit-bit_or (get_or bytes (i / 8) 0) (i % 8) (p % 8)
            (AllBelow-get_or 256 bytes (i / 8) (omega arith) b) (omega arith) (omega arith)
          ∙ ground arith)
  | no ne ↦
      rw
        (get_or-set_ne bytes {i = i / 8} {j = p / 8} (bit_or (get_or bytes (i / 8) 0) (2 ^ (i % 8)))
          0 ne)
        (ground arith)
]

-- What the loop makes of the bit at `p` that was `b`.
abbrev marked : List ℕ → ℕ → ℕ → ℕ → ℕ
marked [] i p b = b
marked (v ∷ vs) i p b = marked vs (suc i) p (if v == 0 then b else (if i == p then 1 else b))

marked-above : (vs : List ℕ) (i p b : ℕ) → p < i → marked vs i p b ≡ b
marked-above [] i p b h = refl
marked-above (v ∷ vs) i p b h = marked-above vs (suc i) p _ (omega arith) ∙ ground arith

record Packed (bytes vs : List ℕ) (i : ℕ) (out : List ℕ) : Type 0 where
  bits : (p : ℕ) → bit_at out p ≡ marked vs i p (bit_at bytes p)
  cells : length out ≡ length bytes

pack_bits-Packed :
    (bytes vs : List ℕ) (i : ℕ)
    → AllBelow 256 bytes
    → i + length vs ≤ 8 * length bytes
    → Packed bytes vs i (pack_bits bytes vs i)
unfolding pack_bits
pack_bits-Packed bytes [] i b h = record { bits = λ p. refl; cells = refl }
pack_bits-Packed bytes (v ∷ vs) i b h = elim (Bool-cases (v == 0)) [
  | inl e ↦
      let ih = pack_bits-Packed bytes vs (suc i) b (omega arith) in
      record { bits = λ p. rw e (ih.bits p); cells = rw e ih.cells }
  | inr e ↦
      let out = set_bit bytes i in
      let size = length-set bytes (i / 8) (bit_or (get_or bytes (i / 8) 0) (2 ^ (i % 8))) in
      let ih = pack_bits-Packed out vs (suc i) (set_bit-AllBelow bytes i b) (omega (arith, size)) in
      record {
        bits = λ p.
            rw e (ih.bits p ∙ ap (marked vs (suc i) p) (bit_at-set_bit bytes i p b (omega arith)));
        cells = rw e (ih.cells ∙ size);
      }
]

-- A coil value is ON when it is not 0.
abbrev pub is_on : ℕ → Bool
is_on v = not (v == 0)

get_elem?-eq-get_or :
    (xs : List ℕ) (i d : ℕ) → i < length xs → get_elem? xs i ≡ some (get_or xs i d)
get_elem?-eq-get_or [] i d h = absurd (omega arith)
get_elem?-eq-get_or (x ∷ xs) zero d h = refl
get_elem?-eq-get_or (x ∷ xs) (suc i) d h = get_elem?-eq-get_or xs i d (omega arith)

get_or-replicate : (n k : ℕ) → get_or {A = ℕ} (replicate n 0) k 0 ≡ 0
get_or-replicate zero k = refl
get_or-replicate (suc n) zero = refl
get_or-replicate (suc n) (suc k) = get_or-replicate n k

bit_at-replicate : (n p : ℕ) → bit_at (replicate n 0) p ≡ 0
bit_at-replicate n p = rw (get_or-replicate n (p / 8)) (omega arith)

read_bits-suc :
    (f c : ℕ) (bytes : List ℕ) (n i : ℕ) {rest : List Bool}
    → i / 8 < length bytes
    → read_bits (f ∷ c ∷ bytes) n (suc i) ≡ some rest
    → read_bits (f ∷ c ∷ bytes) (suc n) i ≡ some ((bit_at bytes i == 1) ∷ rest)
unfolding read_bits
read_bits-suc f c bytes n i h e =
    let byte : get_elem? (f ∷ c ∷ bytes) (2 + i / 8) ≡ some (get_or bytes (i / 8) 0) =
      get_elem?-append (f ∷ c ∷ []) bytes (2 + i / 8) (i / 8) refl
      ∙ get_elem?-eq-get_or bytes (i / 8) 0 h in
    rw (byte, e)

-- The bits from `i` on, where these are what the values `vs` mark in zeros.
read_bits-marked :
    (f c : ℕ) (bytes vs : List ℕ) (i : ℕ)
    → i + length vs ≤ 8 * length bytes
    → ((p : ℕ) → i ≤ p → bit_at bytes p ≡ marked vs i p 0)
    → read_bits (f ∷ c ∷ bytes) (length vs) i ≡ some (map is_on vs)
read_bits-marked f c bytes [] i h m = unfold read_bits in refl
read_bits-marked f c bytes (v ∷ vs) i h m =
    read_bits-suc f c bytes (length vs) i (omega arith)
      (read_bits-marked f c bytes vs (suc i) (omega arith) (λ p q. m p (omega arith) ∙ later p q))
    ∙ ap (λ x. some (x ∷ map is_on vs)) (ap (◌== 1) (m i (omega arith) ∙ now) ∙ ground arith)
  where
    later :
        (p : ℕ)
        → suc i ≤ p
        → marked vs (suc i) p (if v == 0 then 0 else (if i == p then 1 else 0))
          ≡ marked vs (suc i) p 0
    later p q = ap (marked vs (suc i) p) (ground arith)

    now :
        marked vs (suc i) i (if v == 0 then 0 else (if i == i then 1 else 0))
        ≡ (if v == 0 then 0 else 1)
    now = marked-above vs (suc i) i _ (omega arith) ∙ ground arith

-- For 1 to 1968 coil values FC15's PDU is built, and its packed data, read as a bit response,
-- decodes to the ON and OFF states of the values in their order.
pub decode_bits_response-make_write_multiple_coils_pdu :
    (address function : ℕ) (values : List ℕ)
    → 0 < length values
    → length values ≤ 1968
    → (pdu : List ℕ) × (make_write_multiple_coils_pdu address values ≡ Result.ok pdu)
      × (decode_bits_response (function ∷ drop 5 pdu) (length values)
          ≡ some (Result.ok (map is_on values)))
unfolding decode_bits_response make_write_multiple_coils_pdu
decode_bits_response-make_write_multiple_coils_pdu a f vs lo hi =
    let c : ℕ = (length vs % 0x10000 + 7) / 8 % 256 in
    let zeros : List ℕ = replicate c 0 in
    let packed = pack_bits zeros vs 0 in
    let size : length zeros ≡ c = length-replicate c 0 in
    let p =
      pack_bits-Packed zeros vs 0 (AllBelow-replicate 256 c (omega arith)) (omega (arith, size)) in
    let decoded =
      read_bits-marked f c packed vs 0 (omega (arith, size, p.cells))
        (λ q _. p.bits q ∙ ap (marked vs 0 q) (bit_at-replicate c q)) in
    let q : ℕ = length vs % 0x10000 in
    let pdu : List ℕ =
      0x0f ∷ (a / 256 % 256) ∷ (a % 256) ∷ (q / 256 % 256) ∷ (q % 256) ∷ c ∷ packed in
    (pdu, ground arith, ground (arith, decoded, size, p.cells))

read_bits_total :
    (resp : List ℕ) (n i : ℕ)
    → 2 + (i + n + 7) / 8 ≤ length resp
    → (bs : List Bool) × (read_bits resp n i ≡ some bs)
unfolding read_bits
read_bits_total resp zero i h = ([], refl)
read_bits_total resp (suc n) i h =
    let (b, e) = get_elem?-some resp (2 + i / 8) (omega arith) in
    let (bs, r) = read_bits_total resp n (suc i) (omega arith) in
    ((b / 2 ^ (i % 8) % 2 == 1) ∷ bs, rw (e, r))

read_bits_short :
    (resp : List ℕ) (n i : ℕ) → length resp ≤ 2 + (i + n) / 8 → read_bits resp (suc n) i ≡ none
unfolding read_bits
read_bits_short resp zero i h = rw (get_elem?-none resp (2 + i / 8) (omega arith))
read_bits_short resp (suc n) i h =
    let later = read_bits_short resp n (suc i) (omega arith) in
    elim (Option-cases (get_elem? resp (2 + i / 8))) [ inl e ↦ rw e | inr (b, e) ↦ rw (e, later) ]

-- A bit response whose count byte fits the response is read out of its range exactly when it is
-- shorter than the two header bytes and one byte for each eight bits asked for: the count byte is
-- not compared with the quantity.
pub decode_bits_response_faults :
    (function count : ℕ) (body : List ℕ) (quantity : ℕ)
    → count ≤ length body
    → (decode_bits_response (function ∷ count ∷ body) quantity ≡ none)
      ↔ (length body < (quantity + 7) / 8)
unfolding decode_bits_response
decode_bits_response_faults f c body q h = (
  (λ e. elim (dec_lt (length body) ((q + 7) / 8)) [
    | yes p ↦ p
    | no p ↦
        let (bs, r) = read_bits_total (f ∷ c ∷ body) q 0 (omega arith) in absurd (ground (arith, r))
  ]),
  (λ p. ground (arith, short q p)),
)
  where
    short : (n : ℕ) → length body < (n + 7) / 8 → read_bits (f ∷ c ∷ body) n 0 ≡ none
    short zero p = absurd (omega arith)
    short (suc n) p = read_bits_short (f ∷ c ∷ body) n 0 (omega arith)
