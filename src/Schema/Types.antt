-- ===== src/Schema/Types.antt =====
-- internal/schema: the records of finding.go, report.go and verdict.go, with their methods.
-- A `time.Time` is the number of nanoseconds since the zero time; a map of counts is a list of pairs.
use sentinel_host.Prelude.{
  ℕ, Bool, not, ◌&&◌, Option, none, some, List, [], ◌∷◌, Text, is_empty, if◌then◌else◌, codes, ◌==◌,
}
use sentinel_host.Prelude.Float.{Float64, zero_f}
use sentinel_host.Schema.Enums.{
  Kind, Category, Severity, Confidence, ScanStatus, ScanMode, Level, ActionTaken, counts_as_vote,
  is_confirmed, malware, failed,
}

abbrev pub Time : Type 0
Time = ℕ

abbrev pub is_zero_time : Time → Bool
is_zero_time t = t == 0

abbrev pub Counts : Type 0
Counts = List (Text × ℕ)

pub record FileRef : Type 0 where
  pub path : Text
  pub size_bytes : ℕ
  pub sha256 : Text
  pub md5 : Text
  pub m_time : Time
  pub owner : Text
  pub perms : Text
  pub location : Text

pub record Component : Type 0 where
  pub type_name : Text
  pub slug : Text
  pub installed_version : Text
  pub fixed_in : Text
  pub vuln_ids : List Text
  pub cvss : Float64
  pub exploited_in_wild : Bool

pub record Finding : Type 0 where
  pub schema_version : Text
  pub id : Text
  pub kind : Kind
  pub engine : Text
  pub engine_version : Text
  pub rule : Text
  pub rule_ref : Text
  pub file : FileRef
  pub category : Category
  pub severity : Severity
  pub confidence : Confidence
  pub matched_content : Text
  pub matched_offset : ℕ
  pub component : Option Component
  pub scan_id : Text
  pub detected_at : Time

-- An empty kind is malware.
unfoldable pub kind_or_malware : Kind → Kind
kind_or_malware (Kind.unknown []) = malware
kind_or_malware k = k

unfoldable pub effective_kind : Finding → Kind
unfolding kind_or_malware
effective_kind f = kind_or_malware f.kind

pub record Scope : Type 0 where
  pub root : Text
  pub mode : ScanMode
  pub files_considered : ℕ
  pub files_scanned : ℕ
  pub skipped_reason_counts : Counts
  pub note_counts : Counts

pub record ResourceUsage : Type 0 where
  pub wall_seconds : Float64
  pub max_rss_mb : ℕ

pub record ScanReport : Type 0 where
  pub schema_version : Text
  pub scan_id : Text
  pub engine : Text
  pub engine_version : Text
  pub signatures_updated_at : Time
  pub started_at : Time
  pub finished_at : Time
  pub scope : Scope
  pub status : ScanStatus
  pub error : Text
  pub resource_usage : ResourceUsage
  pub findings : List Finding
  pub clean_files : List Text
  pub raw_ref : Text

unfoldable pub abstains : ScanReport → Bool
unfolding counts_as_vote
abstains r = not (counts_as_vote r.status)

abbrev pub schema_version_now : Text
schema_version_now = codes "1.0"

abbrev pub no_scope : Scope
no_scope = record {
  root = [];
  mode = ScanMode.unknown [];
  files_considered = 0;
  files_scanned = 0;
  skipped_reason_counts = [];
  note_counts = [];
}

abbrev pub no_usage : ResourceUsage
no_usage = record { wall_seconds = zero_f; max_rss_mb = 0 }

-- `FailedReport`; `msg` is the error's text (`unknown error` for none), `now` the clock's reading.
unfoldable pub failed_report :
    Text → Text → ScanStatus → Option Text → (started now : Time) → ScanReport
unfolding counts_as_vote
failed_report scan engine status err started now = record {
  schema_version = schema_version_now;
  scan_id = scan;
  engine = engine;
  engine_version = [];
  signatures_updated_at = 0;
  started_at = started;
  finished_at = now;
  scope = no_scope;
  status = if counts_as_vote status then failed else status;
  error = elim err [ none ↦ codes "unknown error" | some msg ↦ msg ];
  resource_usage = no_usage;
  findings = [];
  clean_files = [];
  raw_ref = [];
}

pub record Vote : Type 0 where
  pub engine : Text
  pub finding_id : Text
  pub weight : Float64
  pub confidence : Confidence
  pub effective_weight : Float64
  pub rule : Text
  pub category : Category

pub record Verdict : Type 0 where
  pub schema_version : Text
  pub verdict_id : Text
  pub file_sha256 : Text
  pub file_path : Text
  pub file_location : Text
  pub file_size : ℕ
  pub level : Level
  pub score : Float64
  pub votes : List Vote
  pub abstentions : List Text
  pub clean_reason : Text
  pub action_taken : ActionTaken
  pub action_at : Time
  pub action_error : Text
  pub quarantine_ref : Text
  pub acknowledged_by_user : Bool
  pub acknowledged_at : Time
  pub scan_id : Text
  pub created_at : Time

-- `Engines`: the slugs of the votes, in their order.
abbrev pub engines : List Vote → List Text
engines [] = []
engines (v ∷ vs) = v.engine ∷ engines vs

unfoldable pub actionable : Verdict → Bool
actionable v = is_confirmed v.level && is_empty v.clean_reason
