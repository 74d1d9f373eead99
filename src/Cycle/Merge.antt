-- ===== src/Cycle/Merge.antt =====
-- `mergeReports` and `worstStatus` of persist.go: one report for each engine from its batches.
use sentinel_host.Prelude.{
  ℕ, Bool, true, false, not, ◌||◌, ◌&&◌, ◌+◌, List, [], ◌∷◌, ◌++◌, Text, codes, text_eq, is_empty,
  length, ltb, if◌then◌else◌,
}
use sentinel_host.Prelude.Float.{FloatOps}
use sentinel_host.Schema.Enums.{ScanStatus, completed, partially, failed, timeout, killed, ScanMode}
use sentinel_host.Schema.Types.{
  Finding, ScanReport, Scope, ResourceUsage, Counts, abstains, schema_version_now, no_usage,
}

-- The map `severity`; a missing key reads as 0.
unfoldable pub severity : ScanStatus → ℕ
severity completed = 0
severity partially = 1
severity timeout = 2
severity killed = 3
severity failed = 4
severity (ScanStatus.unknown t) = 0

unfoldable pub worst_status : ScanStatus → ScanStatus → ScanStatus
unfolding severity
worst_status a b = if ltb (severity a) (severity b) then b else a

-- `m[k] += n`, for all pairs of a map.
abbrev pub add_count : Text → ℕ → Counts → Counts
add_count k n [] = (k, n) ∷ []
add_count k n ((j, i) ∷ m) = if text_eq j k then (j, i + n) ∷ m else (j, i) ∷ add_count k n m

abbrev pub add_counts : Counts → Counts → Counts
add_counts m [] = m
add_counts m ((k, n) ∷ more) = add_counts (add_count k n m) more

unfoldable pub merge_scope : Scope → Scope → Scope
merge_scope out p = record out {
  files_considered = out.files_considered + p.files_considered;
  files_scanned = out.files_scanned + p.files_scanned;
  skipped_reason_counts = add_counts out.skipped_reason_counts p.skipped_reason_counts;
  note_counts = add_counts out.note_counts p.note_counts;
}

module _ (ops : FloatOps) where
  unfoldable pub merge_usage : ResourceUsage → ResourceUsage → ResourceUsage
  merge_usage out p = record {
    wall_seconds = ops.add out.wall_seconds p.wall_seconds;
    max_rss_mb = if ltb out.max_rss_mb p.max_rss_mb then p.max_rss_mb else out.max_rss_mb;
  }

  -- One round of the loop, without the list of failures; `first` says that it is the first.
  unfoldable pub merge_one : Bool → ScanReport → ScanReport → ScanReport
  unfolding abstains merge_scope merge_usage
  merge_one first out p = record out {
    started_at = if first || ltb p.started_at out.started_at then p.started_at else out.started_at;
    finished_at = if ltb out.finished_at p.finished_at then p.finished_at else out.finished_at;
    findings = out.findings ++ p.findings;
    clean_files = out.clean_files ++ p.clean_files;
    scope = merge_scope out.scope p.scope;
    resource_usage = merge_usage out.resource_usage p.resource_usage;
    raw_ref = if is_empty out.raw_ref then p.raw_ref else out.raw_ref;
    engine_version =
        if not (is_empty p.engine_version) && is_empty out.engine_version
        then p.engine_version
        else out.engine_version;
    status = if abstains p then worst_status out.status p.status else out.status;
  }

  unfoldable pub merge_all : Bool → ScanReport → List ScanReport → ScanReport
  merge_all first out [] = out
  merge_all first out (p ∷ ps) = merge_all false (merge_one first out p) ps

-- The errors of the batches that failed.
unfoldable pub failures : List ScanReport → List Text
unfolding abstains
failures [] = []
failures (p ∷ ps) =
    if abstains p && not (is_empty p.error) then p.error ∷ failures ps else failures ps

abbrev pub start_report : (scan slug version root : Text) → ScanMode → ScanReport
start_report scan slug version root mode = record {
  schema_version = schema_version_now;
  scan_id = scan;
  engine = slug;
  engine_version = version;
  signatures_updated_at = 0;
  started_at = 0;
  finished_at = 0;
  scope = record {
    root = root;
    mode = mode;
    files_considered = 0;
    files_scanned = 0;
    skipped_reason_counts = [];
    note_counts = [];
  };
  status = completed;
  error = [];
  resource_usage = no_usage;
  findings = [];
  clean_files = [];
  raw_ref = [];
}

-- A failure report carries no findings. `summary` is the formatted text of the failures.
unfoldable pub close_report : Text → ScanReport → ScanReport
unfolding abstains
close_report summary out =
    if abstains out then record out { error = summary; findings = []; clean_files = [] } else out

-- `batches_failed` formats the error from the failures and the number of batches.
module _ (ops : FloatOps) (batches_failed : List Text → ℕ → Text) where
  unfoldable pub merge_reports :
      (scan slug version : Text) → List ScanReport → (root : Text) → ScanMode → ScanReport
  merge_reports scan slug version [] root mode = record (start_report scan slug version root mode) {
    status = failed;
    error = codes "the engine produced no report at all";
  }
  merge_reports scan slug version (p ∷ ps) root mode =
      close_report (batches_failed (failures (p ∷ ps)) (length (p ∷ ps)))
        (merge_all ops true (start_report scan slug version root mode) (p ∷ ps))

-- The findings and the clean hashes of all batches, in order.
abbrev pub all_findings : List ScanReport → List Finding
all_findings [] = []
all_findings (p ∷ ps) = p.findings ++ all_findings ps

abbrev pub all_clean : List ScanReport → List Text
all_clean [] = []
all_clean (p ∷ ps) = p.clean_files ++ all_clean ps
