-- ===== src/Runtime/Periods.antt =====
-- How often an endpoint is polled, and by how many threads.
use opc_server.Prelude.{
  ℕ, ◌≡◌, ◌≤◌, ◌⊎◌, inl, inr, List, [], ◌∷◌, false, ◌||◌, String, length, min, max, ltb,
  if◌then◌else◌, refl, arith, All, Bool-cases, get_elem?, some, suc, sym, ◌∙◌,
}
use opc_server.Prelude.Int.{ℤ, pos, ltb_ℤ, ◌≤ℤ◌}
use opc_server.Domain.{is_zero}
use opc_server.Project.{PollGroup, Endpoint}
use opc_server.Index.{RuntimeIndex, groups_for_endpoint}

-- The loop of min_group_period_ms, from the smallest period so far; 0 is none yet.
unfoldable pub min_period : List PollGroup → ℤ → ℤ
min_period [] m = m
min_period (group ∷ groups) m = min_period groups (
    if ltb_ℤ group.period_ms (pos 1)
    then m
    else if is_zero m || ltb_ℤ group.period_ms m
    then group.period_ms
    else m)

unfoldable pub min_group_period_ms : {F64 : Type 0} → RuntimeIndex F64 → String → ℤ
min_group_period_ms index endpoint_id =
    let m = min_period (groups_for_endpoint index endpoint_id) (pos 0) in
    if ltb_ℤ (pos 0) m then m else pos 1000

-- `hardware` is std::thread::hardware_concurrency().
unfoldable pub choose_worker_count : List Endpoint → ℕ → ℕ
choose_worker_count endpoints hardware =
    let hw = if ltb hardware 2 then 2 else hardware in max 2 (min (max (length endpoints) 1) hw)

abbrev lowered : PollGroup → ℤ → ℤ
lowered group m =
    if ltb_ℤ group.period_ms (pos 1)
    then m
    else if is_zero m || ltb_ℤ group.period_ms m
    then group.period_ms
    else m

-- A positive period that is at most the group's, where the group's is positive.
abbrev pub IsWithin : ℤ → PollGroup → Type 0
IsWithin r group = pos 1 ≤ℤ group.period_ms → (pos 1 ≤ℤ r) × (r ≤ℤ group.period_ms)

-- The period of one of the groups.
abbrev pub IsPeriod : ℤ → List PollGroup → Type 0
IsPeriod r groups =
    (i : ℕ) × (group : PollGroup) × (get_elem? groups i ≡ some group) × (group.period_ms ≡ r)

abbrev IsLower : ℤ → ℤ → Type 0
IsLower m r = (pos 0 ≤ℤ r) × (pos 1 ≤ℤ m → pos 1 ≤ℤ r) × (pos 1 ≤ℤ m → r ≤ℤ m)

lowered-IsLower : (group : PollGroup) (m : ℤ) → pos 0 ≤ℤ m → IsLower m (lowered group m)
lowered-IsLower group m h =
    (ground (arith, h), (λ k. ground (arith, h, k)), (λ k. ground (arith, h, k)))

lowered-IsWithin : (group : PollGroup) (m : ℤ) → pos 0 ≤ℤ m → IsWithin (lowered group m) group
lowered-IsWithin group m h k = (ground (arith, h, k), ground (arith, h, k))

lowered_cases :
    (group : PollGroup) (m : ℤ) → (lowered group m ≡ m) ⊎ (lowered group m ≡ group.period_ms)
lowered_cases group m = elim (Bool-cases (ltb_ℤ group.period_ms (pos 1))) [
  | inl e ↦ inl (rw e refl)
  | inr e ↦ elim (Bool-cases (is_zero m || ltb_ℤ group.period_ms m)) [
    | inl f ↦ inr (rw (e, f) refl)
    | inr f ↦ inl (rw (e, f) refl)
  ]
]

min_period_lem :
    (groups : List PollGroup) (m : ℤ)
    → pos 0 ≤ℤ m
    → IsLower m (min_period groups m) × All (IsWithin (min_period groups m)) groups
unfolding min_period
min_period_lem [] m h = ((h, (λ k. k), (λ k. omega arith)), tt)
min_period_lem (group ∷ groups) m h =
    let (start, kept, below) = lowered-IsLower group m h in
    let within = lowered-IsWithin group m h in
    let ((nonneg, positive, lower), all) = min_period_lem groups (lowered group m) start in
    (
      (nonneg, (λ k. positive (kept k)), (λ k. omega (arith, lower (kept k), below k))),
      ((λ k. let (one, most) = within k in (positive one, omega (arith, lower one, most))), all),
    )

min_period-IsPeriod :
    (groups : List PollGroup) (m : ℤ)
    → (min_period groups m ≡ m) ⊎ IsPeriod (min_period groups m) groups
unfolding min_period
min_period-IsPeriod [] m = inl refl
min_period-IsPeriod (group ∷ groups) m = elim (min_period-IsPeriod groups (lowered group m)) [
  | inr (i, g, at, same) ↦ inr (suc i, g, at, same)
  | inl same ↦ elim (lowered_cases group m) [
    | inl e ↦ inl (same ∙ e)
    | inr e ↦ inr (0, group, refl, sym (same ∙ e))
  ]
]

-- Where no group has a positive period, none bounds the default.
IsWithin-default :
    (m : ℤ) (groups : List PollGroup)
    → ltb_ℤ (pos 0) m ≡ false
    → All (IsWithin m) groups
    → All (IsWithin (pos 1000)) groups
IsWithin-default m [] none h = tt
IsWithin-default m (group ∷ groups) none (h, hs) = (
  (λ k. let (one, _) = h k in absurd (ground (arith, none, one))),
  IsWithin-default m groups none hs,
)

or_default :
    (m : ℤ) (groups : List PollGroup)
    → All (IsWithin m) groups
    → (m ≡ pos 0) ⊎ IsPeriod m groups
    → let r = if ltb_ℤ (pos 0) m then m else pos 1000 in
      (pos 1 ≤ℤ r) × All (IsWithin r) groups × (IsPeriod r groups ⊎ (r ≡ pos 1000))
or_default m groups all found = elim (Bool-cases (ltb_ℤ (pos 0) m)) [
  | inl e ↦ rw e (
    ground (arith, e),
    all,
    elim found [ inl zero_m ↦ absurd (ground (arith, e, zero_m)) | inr period ↦ inl period ],
  )
  | inr e ↦ rw e (omega arith, IsWithin-default m groups e all, inr refl)
]

-- The period of an endpoint's timer is positive, at most the period of each of its groups whose
-- period is positive, and either the period of one of them or the default of 1000.
pub min_group_period_ms_lem :
    {F64 : Type 0} (index : RuntimeIndex F64) (endpoint_id : String)
    → let r = min_group_period_ms index endpoint_id in
      let groups = groups_for_endpoint index endpoint_id in
      (pos 1 ≤ℤ r) × All (IsWithin r) groups × (IsPeriod r groups ⊎ (r ≡ pos 1000))
unfolding min_group_period_ms
min_group_period_ms_lem index endpoint_id =
    let groups = groups_for_endpoint index endpoint_id in
    let (_, all) = min_period_lem groups (pos 0) (omega arith) in
    or_default (min_period groups (pos 0)) groups all (min_period-IsPeriod groups (pos 0))

-- The pool has at least two threads, no more than the hardware's and two, and no more than the
-- endpoints and two.
pub choose_worker_count_lem :
    (endpoints : List Endpoint) (hardware : ℕ)
    → let r = choose_worker_count endpoints hardware in
      (2 ≤ r) × (r ≤ max 2 hardware) × (r ≤ max 2 (length endpoints))
unfolding choose_worker_count
choose_worker_count_lem endpoints hardware = (ground arith, ground arith, ground arith)
