-- ===== src/Doctor/Laws.antt =====
-- The findings of runtime_doctor against the qualities in the tag store.
use mathlib.Core.List.{append_assoc, append-nil, map-append}
use opc_server.Prelude.{
  ℕ, ◌+◌, ◌≡◌, refl, sym, ap, ◌∙◌, List, [], ◌∷◌, ◌++◌, map, Option, none, some, String, arith, All,
}
use opc_server.Domain.{Quality, QualityReason, TagValue}
use opc_server.Index.{RuntimeIndex, TagBinding}
use opc_server.TagStore.{TagStore, get}
use opc_server.Doctor.{
  FindingSeverity, RuntimeDoctorFinding, RuntimeDoctorReport, add_finding, examine, examine_quality,
  examine_all, quality_message, runtime_doctor,
}

abbrev pub severity_of : Quality → Option FindingSeverity
severity_of Quality.good = none
severity_of Quality.uncertain = some FindingSeverity.warning
severity_of Quality.bad = some FindingSeverity.error

abbrev pub listed : String → Option FindingSeverity → List (String × FindingSeverity)
listed name none = []
listed name (some v) = (name, v) ∷ []

-- What is wrong with a tag by what the store has of it.
abbrev pub trouble : {V : Type 0} → String → Option (TagValue V) → List (String × FindingSeverity)
trouble name none = (name, FindingSeverity.error) ∷ []
trouble name (some value) = listed name (severity_of value.quality)

abbrev pub errors : FindingSeverity → ℕ
errors FindingSeverity.error = 1
errors FindingSeverity.warning = 0

abbrev pub warnings : FindingSeverity → ℕ
warnings FindingSeverity.error = 0
warnings FindingSeverity.warning = 1

-- The sum over what is found.
abbrev pub total : (FindingSeverity → ℕ) → List (String × FindingSeverity) → ℕ
total f [] = 0
total f ((_, v) ∷ rest) = f v + total f rest

abbrev pub named : RuntimeDoctorFinding → String × FindingSeverity
named finding = (finding.tag_name, finding.severity)

-- A report that adds `new` to another.
pub record Adds (before after : RuntimeDoctorReport) (new : List (String × FindingSeverity))
    : Type 0 where
  pub findings : map named after.findings ≡ map named before.findings ++ new
  pub error_count : after.error_count ≡ before.error_count + total errors new
  pub warning_count : after.warning_count ≡ before.warning_count + total warnings new

add_finding-Adds :
    (report : RuntimeDoctorReport) (v : FindingSeverity) (name message : String)
    → Adds report (add_finding report v name message) ((name, v) ∷ [])
unfolding add_finding
add_finding-Adds report FindingSeverity.error name message = record {
  findings = map-append _ _ _;
  error_count = omega arith;
  warning_count = omega arith;
}
add_finding-Adds report FindingSeverity.warning name message = record {
  findings = map-append _ _ _;
  error_count = omega arith;
  warning_count = omega arith;
}

total-append :
    (f : FindingSeverity → ℕ) (xs ys : List (String × FindingSeverity))
    → total f (xs ++ ys) ≡ total f xs + total f ys
total-append f [] ys = omega arith
total-append f ((_, v) ∷ xs) ys = omega (arith, total-append f xs ys)

unchanged : (report : RuntimeDoctorReport) → Adds report report []
unchanged report = record {
  findings = sym (append-nil (map named report.findings));
  error_count = omega arith;
  warning_count = omega arith;
}

examine_quality-Adds :
    (report : RuntimeDoctorReport) (name : String) (q : Quality) (r : QualityReason)
    → Adds report (examine_quality report name q r) (listed name (severity_of q))
unfolding examine_quality
examine_quality-Adds report name Quality.good r = unchanged report
examine_quality-Adds report name Quality.uncertain r =
    add_finding-Adds report FindingSeverity.warning name (quality_message Quality.uncertain r)
examine_quality-Adds report name Quality.bad r =
    add_finding-Adds report FindingSeverity.error name (quality_message Quality.bad r)

examine-Adds :
    {V : Type 0} (report : RuntimeDoctorReport) (name : String) (o : Option (TagValue V))
    → Adds report (examine report name o) (trouble name o)
unfolding examine
examine-Adds report name none =
    add_finding-Adds report FindingSeverity.error name "tag never published (missing from TagStore)"
examine-Adds report name (some value) = examine_quality-Adds report name value.quality value.reason

map_nil : (fs : List RuntimeDoctorFinding) → map named fs ≡ [] → fs ≡ []
map_nil [] h = refl
map_nil (f ∷ fs) h = absurd (ground (arith, h))

no_front : {A : Type 0} (xs ys : List A) → xs ++ ys ≡ [] → xs ≡ []
no_front [] ys h = refl
no_front (x ∷ xs) ys h = absurd (ground (arith, h))

no_back : {A : Type 0} (xs ys : List A) → xs ++ ys ≡ [] → ys ≡ []
no_back [] ys h = h
no_back (x ∷ xs) ys h = absurd (ground (arith, h))

Adds-trans :
    (a b c : RuntimeDoctorReport) (xs ys : List (String × FindingSeverity))
    → Adds a b xs
    → Adds b c ys
    → Adds a c (xs ++ ys)
Adds-trans a b c xs ys h k = record {
  findings =
      k.findings ∙ ap (λ fs. fs ++ ys) h.findings ∙ append_assoc (map named a.findings) xs ys;
  error_count = omega (arith, h.error_count, k.error_count, total-append errors xs ys);
  warning_count = omega (arith, h.warning_count, k.warning_count, total-append warnings xs ys);
}

abbrev pub IsGood : {V : Type 0} → Option (TagValue V) → Type 0
IsGood {V} o = (value : TagValue V) × (o ≡ some value) × (value.quality ≡ Quality.good)

trouble-IsGood :
    {V : Type 0} (name : String) (o : Option (TagValue V)) → trouble name o ≡ [] → IsGood o
trouble-IsGood name none h = absurd (ground (arith, h))
trouble-IsGood name (some value) h = (value, refl, at_quality value.quality h)
  where
    at_quality : (q : Quality) → listed name (severity_of q) ≡ [] → q ≡ Quality.good
    at_quality Quality.good e = refl
    at_quality Quality.uncertain e = absurd (ground (arith, e))
    at_quality Quality.bad e = absurd (ground (arith, e))

trouble-good :
    {V : Type 0} (name : String) (o : Option (TagValue V)) → IsGood o → trouble name o ≡ []
trouble-good name o (value, at, good) = rw (at, good) refl

module _ {F64 V H : Type 0} where
  -- The tags that are not Good in the store, with how bad they are.
  abbrev pub troubles : List (TagBinding F64) → TagStore V H → List (String × FindingSeverity)
  troubles [] store = []
  troubles (b ∷ bs) store = trouble b.tag.name (get store b.id) ++ troubles bs store

  examine_all-Adds :
      (report : RuntimeDoctorReport) (bs : List (TagBinding F64)) (store : TagStore V H)
      → Adds report (examine_all report bs store) (troubles bs store)
  unfolding examine_all
  examine_all-Adds report [] store = unchanged report
  examine_all-Adds report (b ∷ bs) store =
      let first = examine report b.tag.name (get store b.id) in
      Adds-trans report first (examine_all first bs store) (trouble b.tag.name (get store b.id))
        (troubles bs store) (examine-Adds report b.tag.name (get store b.id))
        (examine_all-Adds first bs store)

  -- The report has one finding for each tag of the index that the store has no value of or whose
  -- value is not Good, in the index's order, a warning for Uncertain and an error otherwise; the
  -- counts are the numbers of errors and of warnings among them.
  pub runtime_doctor_lem :
      (index : RuntimeIndex F64) (store : TagStore V H)
      → (map named (runtime_doctor index store).findings ≡ troubles index.tags store)
        × ((runtime_doctor index store).error_count ≡ total errors (troubles index.tags store))
        × ((runtime_doctor index store).warning_count ≡ total warnings (troubles index.tags store))
  unfolding runtime_doctor
  runtime_doctor_lem index store =
      let adds =
        examine_all-Adds (record { findings = []; warning_count = 0; error_count = 0 }) index.tags
          store in
      (adds.findings, adds.error_count ∙ omega arith, adds.warning_count ∙ omega arith)

  troubles-All :
      (bs : List (TagBinding F64)) (store : TagStore V H)
      → (troubles bs store ≡ [] → All (λ b. IsGood (get store b.id)) bs)
        × (All (λ b. IsGood (get store b.id)) bs → troubles bs store ≡ [])
  troubles-All [] store = (λ h. tt, λ h. refl)
  troubles-All (b ∷ bs) store =
      let (to, from) = troubles-All bs store in
      let own = trouble b.tag.name (get store b.id) in
      (
        λ h. (
          trouble-IsGood b.tag.name (get store b.id) (no_front own (troubles bs store) h),
          to (no_back own (troubles bs store) h),
        ),
        λ h. rw (trouble-good b.tag.name (get store b.id) (h.0)) (from (h.1)),
      )

  -- The report is free of findings exactly when the store has a Good value of every tag of the index.
  pub runtime_doctor-All :
      (index : RuntimeIndex F64) (store : TagStore V H)
      → ((runtime_doctor index store).findings ≡ [] → All (λ b. IsGood (get store b.id)) index.tags)
        × (All (λ b. IsGood (get store b.id)) index.tags
            → (runtime_doctor index store).findings ≡ [])
  runtime_doctor-All index store =
      let (names, _, _) = runtime_doctor_lem index store in
      let (to, from) = troubles-All index.tags store in
      (
        λ h. to (sym names ∙ ap (map named) h),
        λ h. map_nil (runtime_doctor index store).findings (names ∙ from h),
      )
