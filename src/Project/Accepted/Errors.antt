-- ===== src/Project/Accepted/Errors.antt =====
-- Diagnostics without errors.
use opc_server.Prelude.{◌≡◌, refl, [], ◌∷◌, ◌++◌, Bool, true, false, String, arith}
use opc_server.Prelude.Eq.{string_eq}
use opc_server.Project.Validate.{Severity, Diagnostics, error_if, warning_if, is_accepted}

abbrev pub Accepted : Diagnostics → Type 0
Accepted ds = is_accepted ds ≡ true

Accepted_cons :
    (v : Severity) (more all : Bool)
    → (more ≡ true → all ≡ true)
    → (elim v [ Severity.error ↦ false | Severity.warning ↦ more ]) ≡ true
    → (elim v [ Severity.error ↦ false | Severity.warning ↦ all ]) ≡ true
Accepted_cons Severity.error more all f h = h
Accepted_cons Severity.warning more all f h = f h

Accepted_tail :
    (v : Severity) (more : Bool)
    → (elim v [ Severity.error ↦ false | Severity.warning ↦ more ]) ≡ true
    → more ≡ true
Accepted_tail Severity.error more h = absurd (ground (arith, h))
Accepted_tail Severity.warning more h = h

pub Accepted-append : (xs ys : Diagnostics) → Accepted (xs ++ ys) → Accepted xs × Accepted ys
unfolding is_accepted
Accepted-append [] ys h = (refl, h)
Accepted-append (x ∷ xs) ys h =
    let (fits, rest) = Accepted-append xs ys (Accepted_tail x.severity _ h) in
    (Accepted_cons x.severity (is_accepted (xs ++ ys)) (is_accepted xs) (λ _. fits) h, rest)

pub Accepted-error_if :
    (c : Bool) (path message : String) (ys : Diagnostics)
    → Accepted (error_if c path message ++ ys)
    → (c ≡ false) × Accepted ys
unfolding is_accepted error_if
Accepted-error_if true path message ys h = absurd (ground (arith, h))
Accepted-error_if false path message ys h = (refl, h)

pub error_if_last :
    (c : Bool) (path message : String) → Accepted (error_if c path message) → c ≡ false
unfolding is_accepted error_if
error_if_last true path message h = absurd (ground (arith, h))
error_if_last false path message h = refl

pub Accepted-warning_if :
    (c : Bool) (path message : String) (ys : Diagnostics)
    → Accepted (warning_if c path message ++ ys)
    → Accepted ys
unfolding is_accepted warning_if
Accepted-warning_if true path message ys h = h
Accepted-warning_if false path message ys h = h
