-- ===== src/Drivers/Maldet/Scan.antt =====
-- internal/adapter/maldet/maldet.go: `Scan` and what it reads in maldet's output.
use sentinel_host.Prelude.{
  ℕ, Bool, true, false, ◌&&◌, Option, none, some, List, [], ◌∷◌, ◌++◌, Text, codes, is_empty, take,
  drop, ◌==◌, length, any_of, if◌then◌else◌,
}
use sentinel_host.Prelude.Int.{is_digit}
use sentinel_host.Sched.Cron.{trim_space}
use sentinel_host.Config.Alerts.{to_lower}
use sentinel_host.Schema.Enums.{ScanStatus, completed, failed, ScanMode, full}
use sentinel_host.Schema.Types.{Time}
use sentinel_host.Adapter.Paths.{RawOutput, target_list, refused_paths}
use sentinel_host.Adapter.Safe.{ScanRequest}
use sentinel_host.Drivers.Lines.{has_substring, re_space, take_while, drop_while}
use sentinel_host.Drivers.Command.{
  Command, ExecResult, exec_abstains, Environment, binary_or, Scanned,
}
use sentinel_host.Drivers.Maldet.Report.{slug, after_label}

pub data ScanProblem : Type 0 where
  no_target_list no_targets access_disabled paths_missing : ScanProblem
  engine_error empty_report : Text → ScanProblem
  no_scan_id : ℕ → ScanProblem

-- The two refusals that maldet prints to an unprivileged account.
abbrev pub disabled_words : List Text
disabled_words =
    codes "public scanning is currently disabled"
    ∷ codes "public scanning support not enabled"
    ∷ codes "scan_user_access=0"
    ∷ []

abbrev pub missing_words : List Text
missing_words = codes "paths do not exist" ∷ codes "mkpubpaths" ∷ []

unfoldable pub has_any : Text → List Text → Bool
unfolding has_substring
has_any s words = any_of (λ w. has_substring s w) words

-- The reason as a problem; none where the output is no refusal.
unfoldable pub access_gate_reason : Text → Option ScanProblem
unfolding has_any to_lower
access_gate_reason output =
    let s = to_lower output in
    if has_any s disabled_words
    then some access_disabled
    else if has_any s missing_words
    then some paths_missing
    else none

abbrev pub dash : ℕ → Bool
dash c = c == b'-'

abbrev pub dot : ℕ → Bool
dot c = c == b'.'

-- `[0-9]{6}-[0-9]{4}\.[0-9]`, a test for each byte.
abbrev pub id_shape : List (ℕ → Bool)
id_shape =
    is_digit ∷ is_digit ∷ is_digit ∷ is_digit ∷ is_digit ∷ is_digit ∷ dash ∷ is_digit ∷ is_digit
    ∷ is_digit ∷ is_digit ∷ dot ∷ is_digit ∷ []

unfoldable pub has_shape : List (ℕ → Bool) → Text → Bool
has_shape [] s = true
has_shape (p ∷ ps) [] = false
has_shape (p ∷ ps) (c ∷ s) = p c && has_shape ps s

-- The scan id that a text starts with, with all digits after its dot.
unfoldable pub id_at : Text → Option Text
unfolding has_shape take_while
id_at s = if has_shape id_shape s then some (take 12 s ++ take_while is_digit (drop 12 s)) else none

abbrev pub drop_colon : Text → Text
drop_colon [] = []
drop_colon (c ∷ s) = if c == b':' then s else c ∷ s

abbrev pub starts_space : Text → Bool
starts_space [] = false
starts_space (c ∷ s) = re_space c

-- `scanIDRe` at the start of a text.
unfoldable pub scan_id_here : Text → Option Text
unfolding id_at drop_while after_label
scan_id_here s = elim (after_label (codes "SCAN ID") s) [
  | some t ↦ id_at (drop_while re_space (drop_colon t))
  | none ↦ elim (after_label (codes "--REPORT") s) [
    | some t ↦ if starts_space t then id_at (drop_while re_space t) else none
    | none ↦ none
  ]
]

-- The leftmost match.
unfoldable pub scan_id_in : Text → Option Text
unfolding scan_id_here
scan_id_in [] = none
scan_id_in (c ∷ s) =
    let rest = scan_id_in s in elim (scan_id_here (c ∷ s)) [ some t ↦ some t | none ↦ rest ]

-- Which of the two flags, with its target, the scan is run with; a written list has a file name.
pub data Target : Type 0 where
  no_target list_unwritable : Target
  listed_in : (name content : Text) → Target
  whole : Text → Target

abbrev pub is_full : ScanMode → Bool
is_full full = true
is_full _ = false

abbrev pub list_target : Text → Option Text → Target
list_target content none = list_unwritable
list_target content (some name) = listed_in name content

abbrev pub has_paths : List Text → Bool
has_paths [] = false
has_paths (p ∷ ps) = true

abbrev pub ended : Option Text → Option ScanProblem
ended none = none
ended (some e) = some (engine_error e)

-- Both streams of the scan.
abbrev pub combined : ExecResult → Text
combined r = r.stdout ++ r.stderr

module _ (env : Environment) (req : ScanRequest) where
  unfoldable pub scan_command : (flags : List Text) → Command
  scan_command flags = record {
    engine = slug;
    scan_id = req.scan_id;
    path = binary_or env.binary_path slug;
    args =
        codes "--config-option"
        ∷ codes "quarantine_hits=0,quarantine_clean=0,quarantine_suspend_user=0"
        ∷ (env.extra_args ++ flags);
    dir = req.root;
  }

  unfoldable pub report_command : Text → Command
  report_command id = record {
    engine = slug ++ codes "-report";
    scan_id = req.scan_id;
    path = binary_or env.binary_path slug;
    args = codes "--report" ∷ id ∷ codes "dump" ∷ [];
    dir = req.root;
  }

-- `write` is the file that is created for a list's content, if it can be.
module _ (req : ScanRequest) where
  abbrev pub unscannable : ℕ
  unscannable = if has_paths req.paths then length (refused_paths req.paths) else 0

  unfoldable pub target : (Text → Option Text) → Target
  unfolding target_list
  target write =
      if has_paths req.paths
      then list_target (target_list req.paths) (write (target_list req.paths))
      else if is_full req.mode
      then whole req.root
      else no_target

module _ (req : ScanRequest) (started finished : Time) where
  -- The result before a report is read.
  unfoldable pub output : ScanStatus → (unscannable : ℕ) → (raw_ref : Text) → RawOutput
  output status n ref = record {
    engine_version = [];
    scan_id = req.scan_id;
    root = req.root;
    mode = req.mode;
    stdout = [];
    exit_code = 0;
    started_at = started;
    finished_at = finished;
    status = status;
    err = none;
    raw_ref = ref;
    paths_requested = length req.paths;
    unscannable_paths = n;
    truncated = false;
  }

  unfoldable pub scan_stopped :
      ScanStatus
      → (unscannable : ℕ) → (raw_ref : Text) → Option ScanProblem
      → List Command
      → List Text
      → Scanned ScanProblem
  unfolding output
  scan_stopped status n ref why cs ls = record {
    out = output status n ref;
    problem = why;
    ran = cs;
    lists = ls;
  }

-- The environment holds a runner. `started` and `finished` are readings of the clock, `first` and
-- `second` the runs of the scan and of the report's dump.
module _ (env : Environment) (req : ScanRequest) (write : Text → Option Text)
    (started finished : Time) (first second : Command → ExecResult) where
  -- After the dump of the report with this id.
  unfoldable pub after_report :
      Text → (raw_ref : Text) → List Command → List Text → ExecResult → Scanned ScanProblem
  unfolding scan_stopped exec_abstains trim_space
  after_report id ref cs ls r =
      if exec_abstains r
      then scan_stopped req started finished r.status (unscannable req) ref (ended r.err) cs ls
      else if is_empty (trim_space r.stdout)
      then scan_stopped req started finished failed (unscannable req) ref (some (empty_report id))
          cs ls
      else record {
        out = record (output req started finished completed (unscannable req) ref) {
          stdout = r.stdout;
          exit_code = r.exit_code;
        };
        problem = none;
        ran = cs;
        lists = ls;
      }

  unfoldable pub dump : Text → Command → List Text → ExecResult → Scanned ScanProblem
  unfolding after_report report_command
  dump id c ls r =
      let report = second (report_command env req id) in
      after_report id (if is_empty report.raw_ref then r.raw_ref else report.raw_ref)
        (c ∷ report_command env req id ∷ []) ls report

  unfoldable pub with_scan_id : Option Text → Command → List Text → ExecResult → Scanned ScanProblem
  unfolding dump scan_stopped
  with_scan_id none c ls r =
      scan_stopped req started finished failed (unscannable req) r.raw_ref
        (some (no_scan_id r.exit_code)) (c ∷ []) ls
  with_scan_id (some id) c ls r = dump id c ls r

  unfoldable pub gated : Option ScanProblem → Command → List Text → ExecResult → Scanned ScanProblem
  unfolding with_scan_id scan_stopped scan_id_in
  gated (some why) c ls r =
      scan_stopped req started finished failed (unscannable req) r.raw_ref (some why) (c ∷ []) ls
  gated none c ls r = with_scan_id (scan_id_in (combined r)) c ls r

  unfoldable pub after_first : Command → List Text → ExecResult → Scanned ScanProblem
  unfolding gated scan_stopped exec_abstains access_gate_reason
  after_first c ls r =
      if exec_abstains r
      then scan_stopped req started finished r.status (unscannable req) r.raw_ref (ended r.err)
          (c ∷ []) ls
      else gated (access_gate_reason (combined r)) c ls r

  unfoldable pub run_target : Target → Scanned ScanProblem
  unfolding after_first scan_command scan_stopped
  run_target no_target = scan_stopped req started finished failed 0 [] (some no_targets) [] []
  run_target list_unwritable =
      scan_stopped req started finished failed 0 [] (some no_target_list) [] []
  run_target (listed_in name content) =
      let c = scan_command env req (codes "-f" ∷ name ∷ []) in
      after_first c (content ∷ []) (first c)
  run_target (whole root) =
      let c = scan_command env req (codes "-a" ∷ root ∷ []) in after_first c [] (first c)

  unfoldable pub scan : Scanned ScanProblem
  unfolding run_target target
  scan = run_target (target req write)
