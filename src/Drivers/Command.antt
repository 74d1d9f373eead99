-- ===== src/Drivers/Command.antt =====
-- internal/exec/exec.go and internal/adapter/adapter.go: what a driver asks the runner for, what comes
-- back, and the environment it gets. The runs themselves are parameters of the drivers' models.
use sentinel_host.Prelude.{
  ℕ, Bool, true, false, not, ◌≡◌, Option, none, List, [], Text, is_empty, if◌then◌else◌,
}
use sentinel_host.Schema.Enums.{ScanStatus, ScanMode, counts_as_vote}
use sentinel_host.Adapter.Paths.{RawOutput}

-- Of a command the parts that decide what runs; its time limit is the request's.
pub record Command : Type 0 where
  pub engine : Text
  pub scan_id : Text
  pub path : Text
  pub args : List Text
  pub dir : Text

-- `truncated`: a stream reached the runner's limit, and what came after it is not in the result; the status
-- does not tell.
pub record ExecResult : Type 0 where
  pub stdout : Text
  pub stderr : Text
  pub exit_code : ℕ
  pub status : ScanStatus
  pub err : Option Text
  pub raw_ref : Text
  pub truncated : Bool

unfoldable pub exec_abstains : ExecResult → Bool
unfolding counts_as_vote
exec_abstains r = not (counts_as_vote r.status)

pub record Environment : Type 0 where
  pub binary_path : Text
  pub extra_args : List Text

abbrev pub binary_or : Text → Text → Text
binary_or p fallback = if is_empty p then fallback else p

-- A scan's result, its error, the commands it ran in their order, and the target lists it wrote.
pub record Scanned (E : Type 0) : Type 0 where
  pub out : RawOutput
  pub problem : Option E
  pub ran : List Command
  pub lists : List Text

-- A raw output of which only the status is set.
abbrev pub bare_output : ScanStatus → RawOutput
bare_output status = record {
  engine_version = [];
  scan_id = [];
  root = [];
  mode = ScanMode.unknown [];
  stdout = [];
  exit_code = 0;
  started_at = 0;
  finished_at = 0;
  status = status;
  err = none;
  raw_ref = [];
  paths_requested = 0;
  unscannable_paths = 0;
  truncated = false;
}

-- No error, and the status of a complete scan.
abbrev pub Votes : {E : Type 0} → Scanned E → Type 0
Votes s = (s.problem ≡ none) × (counts_as_vote s.out.status ≡ true)
