-- ===== src/Config/Validate.antt =====
-- validate.go, except for the alerts. A problem is its field and whether it is fatal; the messages are left
-- out. Where the code ranges over a map, the problems come in the order of the list.
use sentinel_host.Prelude.{
  ℕ, suc, Bool, true, false, not, ◌||◌, ◌&&◌, ◌+◌, Option, none, some, List, [], ◌∷◌, ◌++◌, Text,
  codes, text_eq, is_empty, any_of, ◌==◌, if◌then◌else◌,
}
use sentinel_host.Prelude.Int.{ℤ, pos, le_int, lt_int}
use sentinel_host.Prelude.Float.{Float64, zero_f, one_f, lt_f, le_f, eq_f}
use sentinel_host.Schema.Validate.{report_if, gather}
use sentinel_host.Sched.Cron.{cut}
use sentinel_host.Verdict.Votes.{VerdictConfig}
use sentinel_host.Cycle.Engines.{EngineConfig}
use sentinel_host.Config.Types.{GeneralConfig, LimitsConfig, QuarantineConfig, WebConfig}

-- A field by its name; `under` is a field of the element of a list, `within` one of a map.
pub data Field : Type 0 where
  named : Text → Field
  under : Text → ℕ → Text → Field
  within : Text → Text → Text → Field

pub record ConfigProblem : Type 0 where
  pub field : Field
  pub fatal : Bool

abbrev pub error_at : Field → ConfigProblem
error_at f = record { field = f; fatal = true }

abbrev pub warning_at : Field → ConfigProblem
warning_at f = record { field = f; fatal = false }

abbrev pub fatal_if : Bool → Field → List ConfigProblem
fatal_if b f = report_if b (error_at f)

abbrev pub warn_if : Bool → Field → List ConfigProblem
warn_if b f = report_if b (warning_at f)

abbrev pub has_errors : List ConfigProblem → Bool
has_errors ps = any_of (λ p. p.fatal) ps

abbrev pub not_positive : ℤ → Bool
not_positive n = le_int n (pos 0)

abbrev pub is_negative : ℤ → Bool
is_negative n = lt_int n (pos 0)

abbrev pub is_zero_int : ℤ → Bool
is_zero_int n = le_int n (pos 0) && le_int (pos 0) n

abbrev pub is_nil : List Text → Bool
is_nil [] = true
is_nil (t ∷ ts) = false

abbrev pub root_problems : ℕ → Text → List ConfigProblem
root_problems i root =
    if is_empty root
    then error_at (under (codes "general.roots") i []) ∷ []
    else fatal_if (text_eq root (codes "/")) (under (codes "general.roots") i [])

unfoldable pub roots_problems : ℕ → List Text → List ConfigProblem
roots_problems i [] = []
roots_problems i (root ∷ roots) = root_problems i root ++ roots_problems (i + 1) roots

abbrev pub general_checks : GeneralConfig → List (List ConfigProblem)
unfolding gather report_if roots_problems
general_checks g =
    fatal_if (is_nil g.roots) (named (codes "general.roots"))
    ∷ roots_problems 0 g.roots
    ∷ fatal_if (is_empty g.data_dir) (named (codes "general.data_dir"))
    ∷ fatal_if (is_negative g.grace_period_days) (named (codes "general.grace_period_days"))
    ∷ warn_if (not g.observation_mode && is_zero_int g.grace_period_days)
        (named (codes "general.observation_mode"))
    ∷ []

unfoldable pub general_problems : GeneralConfig → List ConfigProblem
unfolding gather report_if roots_problems
general_problems g = gather (general_checks g)

abbrev pub limits_checks : LimitsConfig → List (List ConfigProblem)
limits_checks l =
    fatal_if (is_negative l.nice || lt_int (pos 19) l.nice) (named (codes "limits.nice"))
    ∷ warn_if (lt_int l.nice (pos 10)) (named (codes "limits.nice"))
    ∷ fatal_if (not_positive l.max_file_size_mb) (named (codes "limits.max_file_size_mb"))
    ∷ fatal_if (not_positive l.engine_timeout) (named (codes "limits.engine_timeout"))
    ∷ warn_if (lt_int (pos 0) l.cycle_timeout && lt_int l.cycle_timeout l.engine_timeout)
        (named (codes "limits.cycle_timeout"))
    ∷ fatal_if (not_positive l.batch_size) (named (codes "limits.batch_size"))
    ∷ fatal_if (not_positive l.max_depth) (named (codes "limits.max_depth"))
    ∷ warn_if (lt_int (pos 0) l.memory_limit_mb && lt_int l.memory_limit_mb (pos 32))
        (named (codes "limits.memory_limit_mb"))
    ∷ []

unfoldable pub limits_problems : LimitsConfig → List ConfigProblem
limits_problems l = gather (limits_checks l)

-- `val < 0 || val > 1`.
abbrev pub outside_unit : Float64 → Bool
outside_unit v = lt_f v zero_f || lt_f one_f v

abbrev pub half_f : Float64
half_f = 0x3FE0000000000000

abbrev pub three_f : Float64
three_f = 0x4008000000000000

abbrev pub thresholds_checks : VerdictConfig → List (List ConfigProblem)
thresholds_checks v =
    fatal_if (le_f v.saturation zero_f) (named (codes "verdict.saturation"))
    ∷ fatal_if (outside_unit v.confirmed_at) (named (codes "verdict.confirmed_at"))
    ∷ fatal_if (outside_unit v.likely_at) (named (codes "verdict.likely_at"))
    ∷ fatal_if (outside_unit v.suspicious_at) (named (codes "verdict.suspicious_at"))
    ∷ fatal_if (not (lt_f v.likely_at v.confirmed_at && lt_f v.suspicious_at v.likely_at))
        (named (codes "verdict"))
    ∷ fatal_if (outside_unit v.signature_multiplier) (named (codes "verdict.signature_multiplier"))
    ∷ fatal_if (outside_unit v.heuristic_multiplier) (named (codes "verdict.heuristic_multiplier"))
    ∷ fatal_if (outside_unit v.anomaly_multiplier) (named (codes "verdict.anomaly_multiplier"))
    ∷ warn_if
        (lt_f v.signature_multiplier v.heuristic_multiplier
          || lt_f v.heuristic_multiplier v.anomaly_multiplier)
        (named (codes "verdict"))
    ∷ warn_if (lt_f v.confirmed_at half_f) (named (codes "verdict.confirmed_at"))
    ∷ []

unfoldable pub thresholds_problems : VerdictConfig → List ConfigProblem
thresholds_problems v = gather (thresholds_checks v)

abbrev pub quarantine_checks : QuarantineConfig → List (List ConfigProblem)
quarantine_checks q =
    fatal_if (is_negative q.retention_days) (named (codes "quarantine.retention_days"))
    ∷ fatal_if (q.auto_purge && is_zero_int q.retention_days)
        (named (codes "quarantine.auto_purge"))
    ∷ warn_if (q.auto_purge && lt_int q.retention_days (pos 7))
        (named (codes "quarantine.retention_days"))
    ∷ fatal_if (is_empty q.neutralized_extension) (named (codes "quarantine.neutralized_extension"))
    ∷ []

unfoldable pub quarantine_problems : QuarantineConfig → List ConfigProblem
quarantine_problems q = gather (quarantine_checks q)

unfoldable pub count_enabled : List (Text × EngineConfig) → ℕ
count_enabled [] = 0
count_enabled ((slug, e) ∷ es) = if e.enabled then suc (count_enabled es) else count_enabled es

unfoldable pub each_engine : List (Text × EngineConfig) → List ConfigProblem
each_engine [] = []
each_engine ((slug, e) ∷ es) = gather (
    fatal_if (lt_f e.weight zero_f) (within (codes "engines") slug (codes "weight"))
    ∷ warn_if (lt_f three_f e.weight) (within (codes "engines") slug (codes "weight"))
    ∷ warn_if (e.enabled && eq_f e.weight zero_f) (within (codes "engines") slug [])
    ∷ each_engine es
    ∷ [])

abbrev pub engines_checks : List (Text × EngineConfig) → List (List ConfigProblem)
unfolding each_engine count_enabled
engines_checks es =
    each_engine es
    ∷ fatal_if (count_enabled es == 0) (named (codes "engines"))
    ∷ warn_if (count_enabled es == 1) (named (codes "engines"))
    ∷ []

unfoldable pub engines_problems : List (Text × EngineConfig) → List ConfigProblem
unfolding each_engine count_enabled
engines_problems es = gather (engines_checks es)

unfoldable pub markers_problems : List Text → List ConfigProblem
markers_problems [] = []
markers_problems (dir ∷ dirs) = warning_at (named (codes "limits.exclude")) ∷ markers_problems dirs

abbrev pub is_local : Text → Bool
is_local host =
    text_eq host (codes "127.0.0.1")
    || (text_eq host (codes "localhost") || text_eq host (codes "::1"))

abbrev pub listen_checks : WebConfig → Text → List (List ConfigProblem)
listen_checks w host =
    warn_if (not (is_local host)) (named (codes "web.listen"))
    ∷ fatal_if (not_positive w.session_ttl) (named (codes "web.session_ttl"))
    ∷ fatal_if (not_positive w.login_rate_limit) (named (codes "web.login_rate_limit"))
    ∷ []

unfoldable pub listen_problems : WebConfig → Option (Text × Text) → List ConfigProblem
listen_problems w none = error_at (named (codes "web.listen")) ∷ []
listen_problems w (some (host, port)) = gather (listen_checks w host)

unfoldable pub web_problems : WebConfig → List ConfigProblem
unfolding listen_problems cut
web_problems w =
    if not w.enabled
    then []
    else fatal_if (is_empty w.listen) (named (codes "web.listen"))
      ++ listen_problems w (cut b':' w.listen)
