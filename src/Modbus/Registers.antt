-- ===== src/Modbus/Registers.antt =====
-- Register responses, and the layout of FC16's data.
use mathlib.Core.List.{append_assoc, append-nil}
use opc_server.Prelude.{
  ℕ, zero, suc, ◌+◌, ◌*◌, ◌/◌, ◌%◌, ◌≡◌, ◌<◌, ◌≤◌, refl, sym, ap, ◌∙◌, List, [], ◌∷◌, ◌++◌, some,
  length, drop, arith, get_elem?, Bool-cases, false, String, ltb, ◌==◌, ◌||◌, not, ◌⊎◌, inl, inr,
  length-append, get_elem?-some, get_elem?-append,
}
use opc_server.Domain.{ErrorCode, Result}
use opc_server.Modbus.Frame.{append_u16, join_u16, proto_err, u16_mod}
use opc_server.Modbus.Pdu.{append_all, make_write_multiple_registers_pdu}
use opc_server.Modbus.Response.{read_words, decode_register_response}

abbrev pub AllBelow : ℕ → List ℕ → Type 0
AllBelow n [] = Unit {0}
AllBelow n (x ∷ xs) = (x < n) × AllBelow n xs

-- The bytes of registers, the high byte of each first.
abbrev pub flat : List ℕ → List ℕ
flat [] = []
flat (v ∷ vs) = (v / 256 % 256) ∷ (v % 256) ∷ flat vs

append_all-flat : (pdu vs : List ℕ) → append_all pdu vs ≡ pdu ++ flat vs
unfolding append_all
append_all-flat pdu [] = sym (append-nil pdu)
append_all-flat pdu (v ∷ vs) =
    append_all-flat (append_u16 pdu v) vs
    ∙ append_assoc pdu (v / 256 % 256 ∷ v % 256 ∷ []) (flat vs)

pub length-flat : (vs : List ℕ) → length (flat vs) ≡ length vs * 2
length-flat [] = refl
length-flat (v ∷ vs) = omega (arith, length-flat vs)

read_words-suc :
    (resp : List ℕ) (n i : ℕ) {hi lo : ℕ} {rest : List ℕ}
    → get_elem? resp (2 + i * 2) ≡ some hi
    → get_elem? resp (3 + i * 2) ≡ some lo
    → read_words resp n (suc i) ≡ some rest
    → read_words resp (suc n) i ≡ some (join_u16 hi lo ∷ rest)
unfolding read_words
read_words-suc resp n i a b c = rw (a, b, c)

read_words-flat :
    (pre vs post : List ℕ) (i : ℕ)
    → length pre ≡ 2 + i * 2
    → AllBelow u16_mod vs
    → read_words (pre ++ (flat vs ++ post)) (length vs) i ≡ some vs
read_words-flat pre [] post i e h = read_words_zero (pre ++ post) i
  where
    read_words_zero : (resp : List ℕ) (k : ℕ) → read_words resp 0 k ≡ some []
    read_words_zero resp k = unfold read_words in refl
read_words-flat pre (v ∷ vs) post i e h =
    read_words-suc _ (length vs) i (get_elem?-append pre _ (2 + i * 2) 0 (omega arith))
      (get_elem?-append pre _ (3 + i * 2) 1 (omega arith))
      (ap (λ xs. read_words xs (length vs) (suc i))
          (sym (append_assoc pre (v / 256 % 256 ∷ v % 256 ∷ []) (flat vs ++ post)))
        ∙ read_words-flat (pre ++ (v / 256 % 256 ∷ v % 256 ∷ [])) vs post (suc i)
            (omega (arith, length-append pre (v / 256 % 256 ∷ v % 256 ∷ []))) h.1)
    ∙ ap (λ x. some (x ∷ vs)) (word v h.0)
  where
    word : (x : ℕ) → x < u16_mod → join_u16 (x / 256 % 256) (x % 256) ≡ x
    word x p = omega arith

read_words_total :
    (resp : List ℕ) (n i : ℕ)
    → 2 + (i + n) * 2 ≤ length resp
    → (ws : List ℕ) × (read_words resp n i ≡ some ws) × (length ws ≡ n)
unfolding read_words
read_words_total resp zero i h = ([], refl, refl)
read_words_total resp (suc n) i h =
    let (hi, a) = get_elem?-some resp (2 + i * 2) (omega arith) in
    let (lo, b) = get_elem?-some resp (3 + i * 2) (omega arith) in
    let (ws, c, len) = read_words_total resp n (suc i) (omega arith) in
    (join_u16 hi lo ∷ ws, rw (a, b, c), ap suc len)

abbrev pub rejects : {A : Type 0} → String → Result A
rejects m = Result.err (proto_err ErrorCode.decoding m false)

-- Whatever the response and the quantity, decoding registers never reads out of the response's
-- range: it gives as many registers as were asked for, or an error.
pub decode_register_response_total :
    (resp : List ℕ) (quantity : ℕ)
    → ((ws : List ℕ) × (decode_register_response resp quantity ≡ some (Result.ok ws))
        × (length ws ≡ quantity))
      ⊎ ((m : String) × (decode_register_response resp quantity ≡ some (rejects m)))
unfolding decode_register_response
decode_register_response_total [] q = inr ("short register response", refl)
decode_register_response_total (f ∷ []) q = inr ("short register response", ground arith)
decode_register_response_total (f ∷ c ∷ body) q =
    let resp = f ∷ c ∷ body in
    elim (Bool-cases (ltb (length resp) (2 + c) || not (c == q * 2))) [
      | inl bad ↦ inr ("register byte count mismatch", ground arith)
      | inr good ↦
          let (ws, e, len) = read_words_total resp q 0 (ground arith) in
          inl (ws, ground (arith, e), len)
    ]

-- The data of a FC16 request, read as a response, decodes to the registers that were written, for
-- at most 127 registers of 16 bits.
pub decode_register_response-make_write_multiple_registers_pdu :
    (address function : ℕ) (values : List ℕ)
    → length values ≤ 127
    → AllBelow u16_mod values
    → decode_register_response
        (function ∷ drop 5 (make_write_multiple_registers_pdu address values))
        (length values)
      ≡ some (Result.ok values)
unfolding decode_register_response make_write_multiple_registers_pdu
decode_register_response-make_write_multiple_registers_pdu a f vs h b =
    let count : ℕ = length vs * 2 % 256 in
    let resp = f ∷ count ∷ flat vs in
    rw (append_all-flat _ vs) (
      ground (
        arith,
        length-flat vs,
        ap (λ xs. read_words (f ∷ count ∷ xs) (length vs) 0) (append-nil (flat vs)),
        read_words-flat (f ∷ count ∷ []) vs [] 0 (omega arith) b,
      ))

-- A response that holds at most 127 registers of 16 bits decodes to them.
pub decode_register_response-flat :
    (function : ℕ) (values : List ℕ)
    → length values ≤ 127
    → AllBelow u16_mod values
    → decode_register_response (function ∷ (length values * 2) ∷ flat values) (length values)
      ≡ some (Result.ok values)
unfolding decode_register_response
decode_register_response-flat f vs h b =
    let resp = f ∷ (length vs * 2) ∷ flat vs in
    ground (
      arith,
      length-flat vs,
      ap (λ xs. read_words (f ∷ (length vs * 2) ∷ xs) (length vs) 0) (append-nil (flat vs)),
      read_words-flat (f ∷ (length vs * 2) ∷ []) vs [] 0 (omega arith) b,
    )
