-- ===== src/Schema/Validate.antt =====
-- validate.go: the checks on findings, reports and verdicts. A problem is a constructor instead of a
-- formatted line; an empty list is no error.
use sentinel_host.Prelude.{
  ℕ, Bool, true, false, not, ◌||◌, ◌&&◌, ◌+◌, Option, none, some, List, [], ◌∷◌, ◌++◌, Text,
  text_eq, is_empty, length, ltb, leb, ◌==◌, if◌then◌else◌,
}
use sentinel_host.Prelude.Float.{zero_f, one_f, lt_f}
use sentinel_host.Prelude.Int.{ℤ, pos, atoi, is_digit}
use sentinel_host.Schema.Enums.{
  Kind, vulnerability, kind_valid, category_valid, severity_valid, confidence_valid, status_valid,
  counts_as_vote, ScanMode, mode_valid, level_valid, ActionTaken, quarantined, action_failed,
  action_valid,
}
use sentinel_host.Schema.Types.{
  Component, Finding, ScanReport, Vote, Verdict, schema_version_now, is_zero_time, effective_kind,
}

pub data Problem : Type 0 where
  version_incompatible empty_engine empty_rule unknown_kind unknown_category unknown_severity :
      Problem
  unknown_confidence no_detection_time content_too_long no_component empty_component_slug : Problem
  empty_installed_version bad_sha256 empty_path empty_scan_id unknown_status no_error : Problem
  unknown_mode finished_before_start : Problem
  empty_verdict_id unknown_level score_out_of_range unknown_action no_quarantine_ref : Problem
  no_action_error empty_vote_engine negative_weight : Problem

-- The problems of a report: its own, and those of its findings and clean files with their index.
pub data ReportProblem : Type 0 where
  in_report : Problem → ReportProblem
  in_finding : ℕ → List Problem → ReportProblem
  foreign_finding : ℕ → ReportProblem
  bad_clean_file : ℕ → ReportProblem

-- `if test { p.addf(…) }`.
abbrev pub report_if : {A : Type 0} → Bool → A → List A
report_if b p = if b then p ∷ [] else []

-- The problems in their order.
abbrev pub gather : {A : Type 0} → List (List A) → List A
gather [] = []
gather (ps ∷ pss) = ps ++ gather pss

-- `strings.Cut(v, ".")`: what stands before the first dot, or all.
unfoldable pub before_dot : Text → Text
before_dot [] = []
before_dot (c ∷ s) = if c == b'.' then [] else c ∷ before_dot s

unfoldable pub major_of : Text → Option ℤ
unfolding before_dot atoi
major_of v = atoi (before_dot v)

-- The major version of this binary is 1.
abbrev pub is_one : Option ℤ → Bool
is_one (some (pos n)) = n == 1
is_one _ = false

unfoldable pub compatible_version : Text → Bool
unfolding major_of
compatible_version v = is_empty v || (text_eq v schema_version_now || is_one (major_of v))

abbrev pub is_hex : ℕ → Bool
is_hex c = is_digit c || (leb b'a' c && leb c b'f')

abbrev pub all_hex : Text → Bool
all_hex [] = true
all_hex (c ∷ s) = is_hex c && all_hex s

unfoldable pub is_sha256 : Text → Bool
is_sha256 s = length s == 64 && all_hex s

abbrev pub is_vulnerability : Kind → Bool
is_vulnerability vulnerability = true
is_vulnerability _ = false

unfoldable pub component_problems : Option Component → List Problem
component_problems none = no_component ∷ []
component_problems (some c) =
    report_if (is_empty c.slug) empty_component_slug
    ++ report_if (is_empty c.installed_version) empty_installed_version

-- The last `switch` of `Finding.Validate`.
unfoldable pub target_problems : Finding → List Problem
unfolding component_problems effective_kind
target_problems f =
    if is_vulnerability (effective_kind f)
    then component_problems f.component
    else report_if (not (is_sha256 f.file.sha256)) bad_sha256
      ++ report_if (is_empty f.file.path) empty_path

abbrev pub finding_checks : Finding → List (List Problem)
finding_checks f =
    report_if (not (compatible_version f.schema_version)) version_incompatible
    ∷ report_if (is_empty f.engine) empty_engine
    ∷ report_if (is_empty f.rule) empty_rule
    ∷ report_if (not (kind_valid (effective_kind f))) unknown_kind
    ∷ report_if (not (category_valid f.category)) unknown_category
    ∷ report_if (not (severity_valid f.severity)) unknown_severity
    ∷ report_if (not (confidence_valid f.confidence)) unknown_confidence
    ∷ report_if (is_zero_time f.detected_at) no_detection_time
    ∷ report_if (ltb 512 (length f.matched_content)) content_too_long
    ∷ target_problems f
    ∷ []

unfoldable pub validate_finding : Finding → List Problem
validate_finding f = gather (finding_checks f)

-- `if err := f.Validate(); err != nil { p.addf(…) }`.
abbrev pub nested : ℕ → List Problem → List ReportProblem
nested i [] = []
nested i (p ∷ ps) = in_finding i (p ∷ ps) ∷ []

-- One round of the loop over the findings, before the rest of it.
abbrev pub finding_at : Text → ℕ → Finding → List ReportProblem → List (List ReportProblem)
finding_at engine i f rest =
    nested i (validate_finding f)
    ∷ report_if
        (not (is_empty f.engine) && (not (is_empty engine) && not (text_eq f.engine engine)))
        (foreign_finding i)
    ∷ rest
    ∷ []

-- The loop over the findings of a report of this engine, from index `i`.
unfoldable pub findings_problems : Text → ℕ → List Finding → List ReportProblem
findings_problems engine i [] = []
findings_problems engine i (f ∷ fs) =
    gather (finding_at engine i f (findings_problems engine (i + 1) fs))

unfoldable pub clean_problems : ℕ → List Text → List ReportProblem
clean_problems i [] = []
clean_problems i (h ∷ hs) =
    report_if (not (is_sha256 h)) (bad_clean_file i) ++ clean_problems (i + 1) hs

abbrev pub mode_unset : ScanMode → Bool
mode_unset (ScanMode.unknown t) = is_empty t
mode_unset _ = false

abbrev pub report_checks : ScanReport → List (List ReportProblem)
report_checks r =
    report_if (not (compatible_version r.schema_version)) (in_report version_incompatible)
    ∷ report_if (is_empty r.scan_id) (in_report empty_scan_id)
    ∷ report_if (is_empty r.engine) (in_report empty_engine)
    ∷ report_if (not (status_valid r.status)) (in_report unknown_status)
    ∷ report_if (status_valid r.status && (not (counts_as_vote r.status) && is_empty r.error))
        (in_report no_error)
    ∷ report_if (not (mode_unset r.scope.mode) && not (mode_valid r.scope.mode))
        (in_report unknown_mode)
    ∷ report_if
        (not (is_zero_time r.started_at)
          && (not (is_zero_time r.finished_at) && ltb r.finished_at r.started_at))
        (in_report finished_before_start)
    ∷ findings_problems r.engine 0 r.findings
    ∷ clean_problems 0 r.clean_files
    ∷ []

unfoldable pub validate_report : ScanReport → List ReportProblem
validate_report r = gather (report_checks r)

abbrev pub action_unset : ActionTaken → Bool
action_unset (ActionTaken.unknown t) = is_empty t
action_unset _ = false

abbrev pub is_quarantined : ActionTaken → Bool
is_quarantined quarantined = true
is_quarantined _ = false

abbrev pub is_failed : ActionTaken → Bool
is_failed action_failed = true
is_failed _ = false

unfoldable pub votes_problems : List Vote → List Problem
votes_problems [] = []
votes_problems (v ∷ vs) =
    report_if (is_empty v.engine) empty_vote_engine
    ++ report_if (lt_f v.weight zero_f) negative_weight
    ++ votes_problems vs

abbrev pub verdict_checks : Verdict → List (List Problem)
verdict_checks v =
    report_if (not (compatible_version v.schema_version)) version_incompatible
    ∷ report_if (is_empty v.verdict_id) empty_verdict_id
    ∷ report_if (not (is_sha256 v.file_sha256)) bad_sha256
    ∷ report_if (not (level_valid v.level)) unknown_level
    ∷ report_if (lt_f v.score zero_f || lt_f one_f v.score) score_out_of_range
    ∷ report_if (not (action_unset v.action_taken) && not (action_valid v.action_taken))
        unknown_action
    ∷ report_if (is_quarantined v.action_taken && is_empty v.quarantine_ref) no_quarantine_ref
    ∷ report_if (is_failed v.action_taken && is_empty v.action_error) no_action_error
    ∷ votes_problems v.votes
    ∷ []

unfoldable pub validate_verdict : Verdict → List Problem
validate_verdict v = gather (verdict_checks v)
