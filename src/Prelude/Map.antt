-- ===== src/Prelude/Map.antt =====
-- std::unordered_map as an association list with at most one entry read for each key: `insert` is
-- `m[k] = v`, `emplace` leaves an entry that is there, `erase` drops every entry of the key.
use mathlib.Core.Path.{◌≡◌, refl, ap}
use mathlib.Core.Option.{Option, none, some}
use mathlib.Core.List.{List, [], ◌∷◌}
use native.Mathlib.Omega.{arith}
use opc_server.Prelude.Tests.{if◌then◌else◌}
use opc_server.Prelude.Eq.{Eq, ◌=?◌, =?-refl}

module _ {ℓ κ} {K : Type ℓ} {V : Type κ} ⦃e : Eq K⦄ where
  unfoldable pub lookup : K → List (K × V) → Option V
  lookup k [] = none
  lookup k ((j, v) ∷ m) = if j =? k then some v else lookup k m

  unfoldable pub insert : K → V → List (K × V) → List (K × V)
  insert k v [] = (k, v) ∷ []
  insert k v ((j, w) ∷ m) = if j =? k then (k, v) ∷ m else (j, w) ∷ insert k v m

  unfoldable pub erase : K → List (K × V) → List (K × V)
  erase k [] = []
  erase k ((j, v) ∷ m) = let rest = erase k m in if j =? k then rest else (j, v) ∷ rest

  unfoldable pub emplace : K → V → List (K × V) → List (K × V)
  unfolding lookup
  emplace k v m = elim (lookup k m) [ none ↦ (k, v) ∷ m | some _ ↦ m ]

  pub lookup-insert :
      (k j : K) (v : V) (m : List (K × V))
      → lookup j (insert k v m) ≡ (if k =? j then some v else lookup j m)
  unfolding lookup insert
  lookup-insert k j v [] = refl
  lookup-insert k j v ((i, w) ∷ m) =
      ground (arith, e.beq_iff k j, e.beq_iff i k, e.beq_iff i j, lookup-insert k j v m)

  pub lookup-insert_self : (k : K) (v : V) (m : List (K × V)) → lookup k (insert k v m) ≡ some v
  lookup-insert_self k v m = simp (lookup-insert, =?-refl)

  pub lookup-erase :
      (k j : K) (m : List (K × V)) → lookup j (erase k m) ≡ (if k =? j then none else lookup j m)
  unfolding lookup erase
  lookup-erase k j [] = ground arith
  lookup-erase k j ((i, w) ∷ m) =
      ground (arith, e.beq_iff k j, e.beq_iff i k, e.beq_iff i j, lookup-erase k j m)

  pub lookup-emplace :
      (k j : K) (v : V) (m : List (K × V))
      → lookup k m ≡ none
      → lookup j (emplace k v m) ≡ (if k =? j then some v else lookup j m)
  unfolding emplace lookup
  lookup-emplace k j v m h = rw (h, emplace)

-- The first of two options that is there.
abbrev pub or_else {ℓ} : {A : Type ℓ} → Option A → Option A → Option A
or_else none b = b
or_else (some a) b = some a

module _ {ℓ κ} {K : Type ℓ} {V : Type κ} ⦃e : Eq K⦄ where
  pub lookup-emplace_any :
      (k j : K) (v : V) (m : List (K × V))
      → lookup j (emplace k v m) ≡ or_else (lookup j m) (if k =? j then some v else none)
  unfolding emplace lookup
  lookup-emplace_any k j v m = go (lookup k m) refl
    where
      go :
          (o : Option V)
          → lookup k m ≡ o
          → lookup j (elim o [ none ↦ (k, v) ∷ m | some _ ↦ m ])
            ≡ or_else (lookup j m) (if k =? j then some v else none)
      go none h = ground (arith, e.beq_iff k j, ap (λ i. lookup i m) {x = k} {y = j})
      go (some w) h = ground (arith, e.beq_iff k j, ap (λ i. lookup i m) {x = k} {y = j})
