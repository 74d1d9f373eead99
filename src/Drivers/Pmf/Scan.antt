-- ===== src/Drivers/Pmf/Scan.antt =====
-- internal/adapter/pmf/pmf.go: `Scan`, with `FromExecResult` of internal/adapter/adapter.go.
use sentinel_host.Prelude.{
  Option, none, some, List, [], ◌∷◌, ◌++◌, Text, codes, length, if◌then◌else◌,
}
use sentinel_host.Schema.Enums.{failed}
use sentinel_host.Schema.Types.{Time}
use sentinel_host.Adapter.Paths.{RawOutput, target_list, refused_paths}
use sentinel_host.Adapter.Safe.{ScanRequest}
use sentinel_host.Drivers.Command.{
  Command, ExecResult, exec_abstains, Environment, binary_or, Scanned, bare_output,
}
use sentinel_host.Drivers.Pmf.Parse.{slug}

pub data ScanProblem : Type 0 where
  no_rules no_target_list : ScanProblem
  engine_error : Text → ScanProblem

-- `FromExecResult`; the two times are now, and now less the run's duration.
unfoldable pub from_exec_result : ScanRequest → ExecResult → (started now : Time) → RawOutput
from_exec_result req r started now = record {
  engine_version = [];
  scan_id = req.scan_id;
  root = req.root;
  mode = req.mode;
  stdout = r.stdout;
  exit_code = r.exit_code;
  started_at = started;
  finished_at = now;
  status = r.status;
  err = r.err;
  raw_ref = r.raw_ref;
  paths_requested = length req.paths;
  unscannable_paths = 0;
  truncated = r.truncated;
}

abbrev fixed_args : List Text
fixed_args =
    codes "--no-warnings"
    ∷ codes "-s"
    ∷ codes "-w"
    ∷ codes "--max-strings-per-rule"
    ∷ codes "20"
    ∷ codes "--scan-list"
    ∷ []

abbrev ended : Option Text → Option ScanProblem
ended none = none
ended (some e) = some (engine_error e)

unfoldable pub scan_command : Environment → ScanRequest → (rules list : Text) → Command
scan_command env req rules list = record {
  engine = slug;
  scan_id = req.scan_id;
  path = binary_or env.binary_path (codes "yara");
  args = fixed_args ++ (env.extra_args ++ rules ∷ list ∷ []);
  dir = req.root;
}

-- The environment holds a runner. `rules` is the file of the rules, where it is installed; `write` is the
-- file that is created for a list's content, if it can be; `run` is the run of yara.
module _ (env : Environment) (req : ScanRequest) (rules : Option Text) (write : Text → Option Text)
    (run : Command → ExecResult) (started now : Time) where
  unfoldable pub after_run : Command → ExecResult → Scanned ScanProblem
  unfolding from_exec_result exec_abstains
  after_run c r = record {
    out = record (from_exec_result req r started now) {
      unscannable_paths = length (refused_paths req.paths);
    };
    problem = if exec_abstains r then ended r.err else none;
    ran = c ∷ [];
    lists = target_list req.paths ∷ [];
  }

  abbrev refused : ScanProblem → Scanned ScanProblem
  refused why = record { out = bare_output failed; problem = some why; ran = []; lists = [] }

  unfoldable pub with_list : Text → Option Text → Scanned ScanProblem
  unfolding after_run scan_command
  with_list r none = refused no_target_list
  with_list r (some list) = let c = scan_command env req r list in after_run c (run c)

  abbrev with_rules : Option Text → Scanned ScanProblem
  with_rules none = refused no_rules
  with_rules (some r) = with_list r (write (target_list req.paths))

  unfoldable pub scan : Scanned ScanProblem
  unfolding with_list target_list
  scan = with_rules rules
