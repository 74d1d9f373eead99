-- ===== src/Cycle/Run.antt =====
-- `Run` of cycle.go and `persist` of persist.go: the phases of a cycle, with every early return.
-- Of the files only those that `act` touches are in the world: the lock file, the saved baseline, the target lists
-- and the raw output that a cycle also writes are left to the components that write them.
use sentinel_host.Prelude.{
  ℕ, Bool, true, false, not, ◌&&◌, Option, none, some, List, [], ◌∷◌, ◌++◌, Text, codes, is_empty,
  any_of, ltb, if◌then◌else◌,
}
use sentinel_host.Schema.Enums.{ScanStatus, completed, partially, failed, ScanMode, incremental}
use sentinel_host.Schema.Types.{Finding, ScanReport, Verdict, Counts}
use sentinel_host.Schema.Validate.{mode_unset}
use sentinel_host.Reach.Classify.{Classifier, new}
use sentinel_host.Verdict.Collect.{get}
use sentinel_host.Verdict.Votes.{Engine}
use sentinel_host.Verdict.Decide.{Input, Env}
use sentinel_host.Verdict.Consolidate.{consolidate}
use sentinel_host.Quarantine.World.{World}
use sentinel_host.Baseline.Compare.{Known}
use sentinel_host.Cycle.Act.{General, Effect, Runner, act}
use sentinel_host.Cycle.Gather.{Account, Collected, collect_targets, no_roots}
use sentinel_host.Cycle.Engines.{
  Fleet, EngineOutcome, enabled_slugs, run_engines, outcomes, reports, any_engine_voted,
}

pub record Options : Type 0 where
  pub mode : ScanMode
  pub paths : List Text
  pub dry_run : Bool
  pub skip_lock : Bool

-- A row that `persist` writes.
pub data Save : Type 0 where
  save_finding : Finding → Save
  save_verdict : Verdict → Save

-- What a cycle runs with: the configuration, the components, and what the outside answers.
pub record Setup : Type 0 where
  pub fleet : Fleet
  pub account : Account
  pub baseline : Known
  pub env : Env
  pub engine : Engine
  pub whitelist : List Text
  pub document_roots : List Text
  -- The document roots that the control panel's records name.
  pub discovered : List Text
  pub trash_dirs : List Text
  pub general : General
  pub runner : Runner
  pub scan_id : ScanMode → Text
  pub finding_id : Text → Finding → Text
  -- The errors of the lock, of the directories, of the record of the scan, and of a row.
  pub lock_err : Option Text
  pub dirs_err : Option Text
  pub start_err : Option Text
  pub save_fails : Save → Bool
  pub baseline_saves : Bool

unfoldable pub or_mode : ScanMode → ScanMode
or_mode m = if mode_unset m then incremental else m

abbrev pub list_or : List Text → List Text → List Text
list_or [] ys = ys
list_or (x ∷ xs) ys = x ∷ xs

unfoldable pub reach_classifier : Setup → Classifier
reach_classifier s =
    new s.env.absolute (list_or s.document_roots (list_or s.discovered s.fleet.roots)) s.trash_dirs

-- The finding with its id.
abbrev pub with_id : (Text → Finding → Text) → Text → Finding → Finding
with_id finding_id scan f = if is_empty f.id then record f { id = finding_id scan f } else f

unfoldable pub finding_rows : (Text → Finding → Text) → Text → List Finding → List Save
finding_rows finding_id scan [] = []
finding_rows finding_id scan (f ∷ fs) =
    save_finding (with_id finding_id scan f) ∷ finding_rows finding_id scan fs

unfoldable pub verdict_rows : List Verdict → List Save
verdict_rows [] = []
verdict_rows (v ∷ vs) = save_verdict v ∷ verdict_rows vs

unfoldable pub report_rows : (Text → Finding → Text) → List ScanReport → List Save
unfolding finding_rows
report_rows finding_id [] = []
report_rows finding_id (r ∷ rs) =
    finding_rows finding_id r.scan_id r.findings ++ report_rows finding_id rs

-- The rows that `persist` writes; it goes on after an error, and fails if any row failed.
unfoldable pub persist_rows : Setup → List ScanReport → List Verdict → List Save
unfolding report_rows verdict_rows
persist_rows s rs vs = report_rows s.finding_id rs ++ verdict_rows vs

pub data CycleError : Type 0 where
  no_root nothing_walked not_persisted : CycleError
  locked no_data_dirs not_started : Text → CycleError

pub record Summary : Type 0 where
  pub scan_id : Text
  pub mode : ScanMode
  pub files_considered : ℕ
  pub files_scanned : ℕ
  pub skipped_counts : Counts
  pub engines : List EngineOutcome
  pub abstentions : List (Text × Text)
  pub verdicts : List Verdict

-- What a call of `Run` does: its results, the status that the record of the scan was closed with (if it was),
-- the baseline that was saved, the world after the actions, and what was told to the store and the channels.
pub record Ran : Type 0 where
  pub summary : Summary
  pub error : Option CycleError
  pub finished : Option ScanStatus
  pub saved : Option Known
  pub world : World
  pub effects : List Effect
  pub announced : Bool

abbrev pub empty_summary : Setup → ScanMode → Summary
empty_summary s mode = record {
  scan_id = s.scan_id mode;
  mode = mode;
  files_considered = 0;
  files_scanned = 0;
  skipped_counts = [];
  engines = [];
  abstentions = [];
  verdicts = [];
}

-- A return with an error; `closed` says how the record of the scan was closed.
abbrev pub stopped : Summary → World → CycleError → Option ScanStatus → Ran
stopped sum w e closed = record {
  summary = sum;
  error = some e;
  finished = closed;
  saved = none;
  world = w;
  effects = [];
  announced = false;
}

abbrev pub count_of : Option ℕ → ℕ
count_of none = 0
count_of (some n) = n

unfoldable pub was_truncated : Counts → Bool
was_truncated m = ltb 0 (count_of (get (codes "truncated") m))

-- The status of a cycle that went through.
unfoldable pub final_status : Counts → List EngineOutcome → ScanStatus
final_status skipped os =
    if not (any_engine_voted os)
    then partially
    else if was_truncated skipped
    then partially
    else completed

abbrev pub keep_if : Bool → Option Known → Option Known
keep_if b o = if b then o else none

-- Phase 6: the baseline is saved only if some engine voted.
unfoldable pub saved_baseline : Setup → Option Known → List EngineOutcome → Option Known
saved_baseline s b os = keep_if (any_engine_voted os && s.baseline_saves) b

-- Phases 5 and 6, on the summary of the phases before.
unfoldable pub run_acting : Setup → Options → Option Known → Summary → World → Ran
unfolding final_status saved_baseline
run_acting s o b sum w =
    let acted = act s.runner s.general o.dry_run sum.verdicts w in
    record {
      summary = record sum { verdicts = acted.verdicts };
      error = none;
      finished = some (final_status sum.skipped_counts sum.engines);
      saved = saved_baseline s b sum.engines;
      world = acted.world;
      effects = acted.effects;
      announced = true;
    }

-- What the consensus is asked.
unfoldable pub consensus_input : Setup → Text → List ScanReport → Input
unfolding reach_classifier
consensus_input s scan rs = record {
  scan_id = scan;
  reports = rs;
  expected_engines = enabled_slugs s.fleet;
  whitelist = s.whitelist;
  reach = some (reach_classifier s);
  now = s.fleet.now;
}

-- Phase 4 and the rest; the test says whether a row failed.
unfoldable pub run_persisted : Setup → Options → Option Known → Summary → World → Bool → Ran
run_persisted s o b sum w true = stopped sum w not_persisted (some partially)
run_persisted s o b sum w false = run_acting s o b sum w

-- Phases 2 to 4, then the rest.
unfoldable pub run_collected : Setup → Options → ScanMode → Summary → World → Collected → Ran
unfolding consensus_input persist_rows
run_collected s o mode sum w c =
    let runs = run_engines s.fleet sum.scan_id mode c.scan_paths in
    let agreed = consolidate s.env s.engine (consensus_input s sum.scan_id (reports runs)) in
    let sum' : Summary = record sum {
      files_considered = c.files_considered;
      files_scanned = c.files_scanned;
      skipped_counts = c.skipped_counts;
      engines = outcomes runs;
      abstentions = agreed.abstentions;
      verdicts = agreed.verdicts;
    } in
    run_persisted s o c.baseline sum' w
      (any_of s.save_fails (persist_rows s (reports runs) agreed.verdicts))

-- Phase 1 and the rest, after the record of the scan was opened.
unfoldable pub run_targets : Setup → Options → ScanMode → Summary → World → Option Collected → Ran
run_targets s o mode sum w none = stopped sum w nothing_walked (some failed)
run_targets s o mode sum w (some c) = run_collected s o mode sum w c

abbrev pub lock_error : Setup → Options → Option Text
lock_error s o = if o.skip_lock then none else s.lock_err

unfoldable pub run_guarded :
    Setup → Options → ScanMode → World → (lock dirs start : Option Text) → Ran
run_guarded s o mode w (some e) dirs start = stopped (empty_summary s mode) w (locked e) none
run_guarded s o mode w none (some e) start = stopped (empty_summary s mode) w (no_data_dirs e) none
run_guarded s o mode w none none (some e) = stopped (empty_summary s mode) w (not_started e) none
run_guarded s o mode w none none none =
    run_targets s o mode (empty_summary s mode) w
      (collect_targets s.account s.baseline s.fleet.roots mode o.paths)

unfoldable pub run : Setup → Options → World → Ran
unfolding or_mode
run s o w =
    if no_roots s.fleet.roots
    then stopped (empty_summary s (or_mode o.mode)) w no_root none
    else run_guarded s o (or_mode o.mode) w (lock_error s o) s.dirs_err s.start_err
