-- ===== src/Schema/Checked.antt =====
-- What a finding and a report that pass the checks are known to hold.
use sentinel_host.Prelude.{
  ℕ, Bool, true, false, ◌+◌, List, [], ◌∷◌, ◌++◌, Text, text_eq, text_eq_iff, is_empty, ◌≡◌, refl,
  arith, All,
}
use sentinel_host.Schema.Enums.{status_valid}
use sentinel_host.Schema.Types.{Finding, ScanReport, abstains}
use sentinel_host.Schema.Validate.{
  Problem, report_if, gather, finding_checks, finding_at, report_checks, validate_finding, nested,
  findings_problems, validate_report,
}

nil_parts : {A : Type 0} (xs ys : List A) → xs ++ ys ≡ [] → (xs ≡ []) × (ys ≡ [])
nil_parts [] ys h = (refl, h)
nil_parts (x ∷ xs) ys h = absurd (cc h)

gather-nil : {A : Type 0} (pss : List (List A)) → gather pss ≡ [] → All (λ ps. ps ≡ []) pss
gather-nil [] h = tt
gather-nil (ps ∷ pss) h = let (a, b) = nil_parts ps (gather pss) h in (a, gather-nil pss b)

report_if-false : {A : Type 0} (b : Bool) (p : A) → report_if b p ≡ [] → b ≡ false
report_if-false true p h = absurd (cc h)
report_if-false false p h = refl

nested-nil : (i : ℕ) (ps : List Problem) → nested i ps ≡ [] → ps ≡ []
nested-nil i [] h = refl
nested-nil i (p ∷ ps) h = absurd (cc h)

-- The finding passes its own checks and is the engine's.
abbrev pub Attributed : Text → Finding → Type 0
Attributed engine f = (validate_finding f ≡ []) × (f.engine ≡ engine)

validate_finding-engine : (f : Finding) → validate_finding f ≡ [] → is_empty f.engine ≡ false
unfolding validate_finding
validate_finding-engine f h =
    let parts = gather-nil (finding_checks f) h in report_if-false _ _ parts.1.0

findings_problems-Attributed :
    (engine : Text) (i : ℕ) (fs : List Finding)
    → is_empty engine ≡ false
    → findings_problems engine i fs ≡ []
    → All (Attributed engine) fs
unfolding findings_problems
findings_problems-Attributed engine i [] n h = tt
findings_problems-Attributed engine i (f ∷ fs) n h =
    let parts = gather-nil (finding_at engine i f (findings_problems engine (i + 1) fs)) h in
    let valid = nested-nil i _ parts.0 in
    let own = validate_finding-engine f valid in
    let test = report_if-false _ _ parts.1.0 in
    let same : text_eq f.engine engine ≡ true = ground arith in
    (
      (valid, (text_eq_iff f.engine engine).0 same),
      findings_problems-Attributed engine (i + 1) fs n parts.1.1.0,
    )

-- A report without problems has an engine, a status of the schema, and a reason when it abstains; each of
-- its findings passes its own checks and names the engine of the report.
pub validate_report-Attributed :
    (r : ScanReport)
    → validate_report r ≡ []
    → (is_empty r.engine ≡ false)
      × (status_valid r.status ≡ true)
      × ((abstains r ≡ true) → is_empty r.error ≡ false)
      × All (Attributed r.engine) r.findings
unfolding validate_report abstains
validate_report-Attributed r h =
    let parts = gather-nil (report_checks r) h in
    let named = report_if-false _ _ parts.1.1.0 in
    let known = report_if-false _ _ parts.1.1.1.0 in
    let explained = report_if-false _ _ parts.1.1.1.1.0 in
    (
      named,
      ground arith,
      (λ a. ground arith),
      findings_problems-Attributed r.engine 0 r.findings named parts.1.1.1.1.1.1.1.0,
    )
