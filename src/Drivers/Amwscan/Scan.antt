-- ===== src/Drivers/Amwscan/Scan.antt =====
-- internal/adapter/amwscan/amwscan.go: `Scan`, with the report's file as a state that the engine changes.
use sentinel_host.Prelude.{
  ℕ, Bool, true, false, Option, none, some, List, [], ◌∷◌, ◌++◌, Text, codes, is_empty, length, ltb,
  if◌then◌else◌,
}
use sentinel_host.Schema.Enums.{ScanStatus, completed, failed}
use sentinel_host.Schema.Types.{Time}
use sentinel_host.Adapter.Paths.{RawOutput}
use sentinel_host.Adapter.Safe.{ScanRequest}
use sentinel_host.Drivers.Command.{
  Command, ExecResult, exec_abstains, Environment, binary_or, Scanned, bare_output,
}
use sentinel_host.Drivers.Amwscan.Parse.{slug}

pub data ScanProblem : Type 0 where
  not_installed not_cleared unreadable_report : ScanProblem
  no_report : ℕ → ScanProblem
  engine_error : Text → ScanProblem

-- The report's file: absent, with a content, or there and not readable.
pub data ReportFile : Type 0 where
  absent unreadable : ReportFile
  written : Text → ReportFile

-- What else the operating system answers: whether the archive of the engine is there, whether a file
-- that is there can be removed, and whether the copy of the report can be archived; and the names, which
-- are paths below the data directory and beside the archived output.
pub record Answers : Type 0 where
  pub installed : Bool
  pub removable : Bool
  pub archivable : Bool
  pub phar : Text
  pub report_base : Text
  pub beside : Text → Text
  pub number : ℕ → Text

abbrev size_args : (ℕ → Text) → ℕ → List Text
size_args number n = if ltb 0 n then codes "--max-filesize" ∷ number n ∷ [] else []

unfoldable pub scan_command : Answers → Environment → ScanRequest → Command
scan_command a env req = record {
  engine = slug;
  scan_id = req.scan_id;
  path = binary_or env.binary_path (codes "php");
  args =
      codes "-d"
      ∷ codes "memory_limit=256M"
      ∷ a.phar
      ∷ codes "--report"
      ∷ codes "--report-format"
      ∷ codes "txt"
      ∷ codes "--path-report"
      ∷ a.report_base
      ∷ codes "--no-colors"
      ∷ codes "--silent"
      ∷ (size_args a.number req.max_file_size_bytes ++ (env.extra_args ++ req.root ∷ []));
  dir = req.root;
}

abbrev ended : Option Text → Option ScanProblem
ended none = none
ended (some e) = some (engine_error e)

-- The environment holds a runner; `run` is the run of the engine on the report's file as it finds it.
module _ (a : Answers) (env : Environment) (req : ScanRequest) (started finished : Time)
    (run : Command → ReportFile → ExecResult × ReportFile) where
  unfoldable pub output : ScanStatus → (finished : Time) → (raw_ref stdout : Text) → RawOutput
  output status end ref text = record {
    engine_version = [];
    scan_id = req.scan_id;
    root = req.root;
    mode = req.mode;
    stdout = text;
    exit_code = 0;
    started_at = started;
    finished_at = end;
    status = status;
    err = none;
    raw_ref = ref;
    paths_requested = length req.paths;
    unscannable_paths = 0;
    truncated = false;
  }

  abbrev pub scan_stopped : RawOutput → Option ScanProblem → List Command → Scanned ScanProblem
  scan_stopped out why cs = record { out = out; problem = why; ran = cs; lists = [] }

  -- The reference to the archived copy of the report; none rather than one to the wrong stream.
  unfoldable pub archived : Text → Text
  archived ref = if is_empty ref then [] else if a.archivable then a.beside ref else []

  unfoldable pub read_report : ExecResult → Command → ReportFile → Scanned ScanProblem
  unfolding output archived
  read_report r c absent =
      scan_stopped (output failed finished r.raw_ref []) (some (no_report r.exit_code)) (c ∷ [])
  read_report r c unreadable =
      scan_stopped (output failed finished r.raw_ref []) (some unreadable_report) (c ∷ [])
  read_report r c (written content) =
      scan_stopped (output completed finished (archived r.raw_ref) content) none (c ∷ [])

  unfoldable pub after_run : Command → ExecResult → ReportFile → Scanned ScanProblem
  unfolding read_report exec_abstains output
  after_run c r file =
      if exec_abstains r
      then scan_stopped (output r.status finished r.raw_ref []) (ended r.err) (c ∷ [])
      else read_report r c file

  abbrev pub cleared : Bool → ReportFile → Option ReportFile
  cleared removable absent = some absent
  cleared true file = some absent
  cleared false file = none

  abbrev pub run_on : Command → Option ReportFile → Scanned ScanProblem
  run_on c none = scan_stopped (output failed 0 [] []) (some not_cleared) []
  run_on c (some file) = let (r, after) = run c file in after_run c r after

  -- `before` is the report's file as the scan finds it: that of the cycle before.
  unfoldable pub scan : (before : ReportFile) → Scanned ScanProblem
  unfolding after_run scan_command output
  scan before =
      if a.installed
      then run_on (scan_command a env req) (cleared a.removable before)
      else scan_stopped (bare_output failed) (some not_installed) []
