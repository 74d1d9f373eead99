-- ===== src/Adapter/Paths.antt =====
-- pathsafety.go, targetlist.go and report.go: which paths an engine can be asked about, the file that
-- names them, and the report that every Parse starts from.
use sentinel_host.Prelude.{
  ℕ, Bool, false, not, ◌||◌, ◌&&◌, ◌-◌, Option, List, [], ◌∷◌, ◌++◌, Text, codes, text_eq, is_empty,
  has_prefix, ltb, leb, ◌==◌, select, any_of, if◌then◌else◌,
}
use sentinel_host.PathMatch.Glob.{slash}
use sentinel_host.Reach.Classify.{trim_slash}
use sentinel_host.Schema.Enums.{ScanStatus, completed, ScanMode}
use sentinel_host.Schema.Types.{ScanReport, Time, Counts, schema_version_now, no_usage}

-- A line feed, a carriage return or a NUL.
abbrev pub breaks_line : ℕ → Bool
breaks_line c = c == 10 || (c == 13 || c == 0)

unfoldable pub path_is_expressible : Text → Bool
path_is_expressible p = not (any_of breaks_line p)

-- The two results of `FilterExpressiblePaths`.
unfoldable pub usable_paths : List Text → List Text
usable_paths paths = select path_is_expressible paths

unfoldable pub refused_paths : List Text → List Text
refused_paths paths = select (λ p. not (path_is_expressible p)) paths

-- `clean` stands for `filepath.Clean` and `filepath.ToSlash`.
module _ (clean : Text → Text) where
  unfoldable pub path_is_within : Text → Text → Bool
  unfolding trim_slash
  path_is_within path root =
      if is_empty root
      then false
      else text_eq (clean path) (trim_slash (clean root))
        || has_prefix (clean path) (trim_slash (clean root) ++ slash ∷ [])

  unfoldable pub path_is_within_any : Text → List Text → Bool
  path_is_within_any path roots = any_of (λ r. path_is_within path r) roots

-- `strings.Join(paths, "\n") + "\n"`.
unfoldable pub join_after : Text → List Text → Text
join_after p [] = p ++ 10 ∷ []
join_after p (q ∷ qs) = p ++ 10 ∷ join_after q qs

unfoldable pub join_lines : List Text → Text
unfolding join_after
join_lines [] = 10 ∷ []
join_lines (p ∷ ps) = join_after p ps

-- What `WriteTargetList` writes.
unfoldable pub target_list : List Text → Text
unfolding join_lines usable_paths
target_list paths = join_lines (usable_paths paths)

-- The part of `RawOutput` that the orchestrator and `NewScanReport` read.
pub record RawOutput : Type 0 where
  pub engine_version : Text
  pub scan_id : Text
  pub root : Text
  pub mode : ScanMode
  pub stdout : Text
  pub exit_code : ℕ
  pub started_at : Time
  pub finished_at : Time
  pub status : ScanStatus
  pub err : Option Text
  pub raw_ref : Text
  pub paths_requested : ℕ
  pub unscannable_paths : ℕ
  pub truncated : Bool

abbrev pub unscannable_path_name : Text
unscannable_path_name = codes "unscannable_path_name"

unfoldable pub skipped_paths : ℕ → Counts
skipped_paths n = if ltb 0 n then (unscannable_path_name, n) ∷ [] else []

unfoldable pub scanned_paths : ℕ → ℕ → ℕ
scanned_paths requested unscannable =
    if ltb 0 unscannable && leb unscannable requested then requested - unscannable else requested

unfoldable pub new_scan_report : Text → RawOutput → ScanReport
unfolding skipped_paths scanned_paths
new_scan_report slug raw = record {
  schema_version = schema_version_now;
  scan_id = raw.scan_id;
  engine = slug;
  engine_version = raw.engine_version;
  signatures_updated_at = 0;
  started_at = raw.started_at;
  finished_at = raw.finished_at;
  scope = record {
    root = raw.root;
    mode = raw.mode;
    files_considered = raw.paths_requested;
    files_scanned = scanned_paths raw.paths_requested raw.unscannable_paths;
    skipped_reason_counts = skipped_paths raw.unscannable_paths;
    note_counts = [];
  };
  status = completed;
  error = [];
  resource_usage = no_usage;
  findings = [];
  clean_files = [];
  raw_ref = raw.raw_ref;
}
