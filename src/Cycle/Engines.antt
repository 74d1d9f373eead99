-- ===== src/Cycle/Engines.antt =====
-- `runEngines` and `runEngineBatches` of cycle.go. The log and the durations are left out.
use sentinel_host.Prelude.{
  ℕ, Bool, true, false, not, ◌&&◌, Option, none, some, List, [], ◌∷◌, ◌++◌, Text, is_empty, length,
  select, any_of, if◌then◌else◌,
}
use sentinel_host.Prelude.Int.{ℤ}
use sentinel_host.Prelude.Float.{Float64, FloatOps}
use sentinel_host.Schema.Enums.{ScanStatus, completed, killed, ScanMode, counts_as_vote}
use sentinel_host.Schema.Types.{
  ScanReport, Time, Counts, abstains, schema_version_now, failed_report, no_usage,
}
use sentinel_host.Verdict.Collect.{get, keys, sort_texts}
use sentinel_host.Exec.Batch.{new_batcher, Run, Calls, each}
use sentinel_host.Adapter.Safe.{
  panics, ProbeResult, Adapter, Failure, safe_scope_aware, safe_probe, safe_scan_and_parse,
}
use sentinel_host.Cycle.Merge.{merge_reports}

-- `config.Engine`, the part that a cycle reads.
pub record EngineConfig : Type 0 where
  pub enabled : Bool
  pub weight : Float64

abbrev pub is_enabled : Option EngineConfig → Bool
is_enabled none = false
is_enabled (some e) = e.enabled

-- What the engines of a cycle are run with: the registry, the configuration, and the readings of the clock.
pub record Fleet : Type 0 where
  pub registry : List (Text × Adapter)
  pub engines : List (Text × EngineConfig)
  pub roots : List Text
  pub batch_size : ℤ
  pub batch_pause : ℤ
  pub max_file_size_bytes : ℕ
  -- When the engine starts and ends on a batch.
  pub started : List Text → Time
  pub finished : List Text → Time
  pub now : Time
  -- The error of the context when so many batches have run, before a batch and in a pause.
  pub cancelled : ℕ → Option Text
  pub pause_cancelled : ℕ → Option Text
  -- The arithmetic of a merge, and the formatted texts.
  pub ops : FloatOps
  pub say : Text → Failure → Text
  pub say_probe : Text → Text
  pub batches_failed : List Text → ℕ → Text

unfoldable pub engine_enabled : Fleet → Text → Bool
engine_enabled c slug = is_enabled (get slug c.engines)

-- `Registry.Slugs` and `enabledSlugs`.
unfoldable pub slugs : Fleet → List Text
slugs c = sort_texts (keys c.registry)

unfoldable pub enabled_slugs : Fleet → List Text
enabled_slugs c = sort_texts (select (engine_enabled c) (keys c.engines))

-- A method of a missing adapter panics.
abbrev pub nil_adapter : Adapter
nil_adapter = record {
  info = panics [];
  probe = panics [];
  scan = λ r. panics [];
  parse = λ r. panics [];
}

abbrev pub or_nil : Option Adapter → Adapter
or_nil none = nil_adapter
or_nil (some a) = a

abbrev pub first_root : List Text → Text
first_root [] = []
first_root (r ∷ rs) = r

module _ (c : Fleet) (scan : Text) (mode : ScanMode) where
  unfoldable pub run_batch : Adapter → Text → List Text → ScanReport
  run_batch a version batch =
      let rep =
        safe_scan_and_parse c.say
          (record {
            scan_id = scan;
            root = first_root c.roots;
            paths = batch;
            mode = mode;
            max_file_size_bytes = c.max_file_size_bytes;
          })
          (c.started batch) (c.finished batch) a in
      if is_empty rep.engine_version then record rep { engine_version = version } else rep

  abbrev pub batch_calls : Adapter → Text → Calls Text (List ScanReport) Text
  batch_calls a version = record {
    ctx_err = λ partials. (partials, c.cancelled (length partials));
    fn = λ batch partials. (partials ++ run_batch a version batch ∷ [], none);
    take_pause = λ partials. (partials, c.pause_cancelled (length partials));
  }

  -- A cancelled engine is a report that it was killed; what ran still counts.
  abbrev pub close_batches : Text → Run (List ScanReport) Text → List ScanReport
  close_batches slug (partials, none) = partials
  close_batches slug (partials, some e) =
      partials ++ failed_report scan slug killed (some e) c.now c.now ∷ []

  unfoldable pub run_engine_batches : Adapter → Text → List Text → Text → List ScanReport
  run_engine_batches a slug targets version =
      if safe_scope_aware a.info
      then close_batches slug
          (each (batch_calls a version) (new_batcher c.batch_size c.batch_pause) targets [])
      else run_batch a version targets ∷ []

  -- Nothing changed: a completed report without findings.
  abbrev pub idle_report : Text → Text → ScanReport
  idle_report slug version = record {
    schema_version = schema_version_now;
    scan_id = scan;
    engine = slug;
    engine_version = version;
    signatures_updated_at = 0;
    started_at = c.now;
    finished_at = c.now;
    scope = record {
      root = first_root c.roots;
      mode = mode;
      files_considered = 0;
      files_scanned = 0;
      skipped_reason_counts = [];
      note_counts = [];
    };
    status = completed;
    error = [];
    resource_usage = no_usage;
    findings = [];
    clean_files = [];
    raw_ref = [];
  }

pub record EngineOutcome : Type 0 where
  pub slug : Text
  pub available : Bool
  pub reason : Text
  pub status : ScanStatus
  pub findings : ℕ
  pub skipped : Counts
  pub notes : Counts

-- What an engine leaves behind: its outcome, its report if there is one, and whether the report was saved and
-- announced as failed.
pub record EngineRun : Type 0 where
  pub outcome : EngineOutcome
  pub report : Option ScanReport
  pub saved : Bool
  pub announced : Bool

abbrev pub no_answer : Text → Text → EngineRun
no_answer slug reason = record {
  outcome = record {
    slug = slug;
    available = false;
    reason = reason;
    status = ScanStatus.unknown [];
    findings = 0;
    skipped = [];
    notes = [];
  };
  report = none;
  saved = false;
  announced = false;
}

abbrev pub idle : Text → ScanReport → EngineRun
idle slug r = record {
  outcome = record {
    slug = slug;
    available = true;
    reason = [];
    status = completed;
    findings = 0;
    skipped = [];
    notes = [];
  };
  report = some r;
  saved = false;
  announced = false;
}

abbrev pub answered : Text → ScanReport → EngineRun
answered slug merged = record {
  outcome = record {
    slug = slug;
    available = true;
    reason = if abstains merged then merged.error else [];
    status = merged.status;
    findings = length merged.findings;
    skipped = merged.scope.skipped_reason_counts;
    notes = merged.scope.note_counts;
  };
  report = some merged;
  saved = true;
  announced = abstains merged;
}

abbrev pub no_targets : List Text → Bool
no_targets [] = true
no_targets (t ∷ ts) = false

-- One round of the loop, for an enabled engine and its probe.
unfoldable pub run_probed :
    Fleet → Text → ScanMode → Adapter → List Text → Text → ProbeResult → EngineRun
run_probed c scan mode a targets slug probe =
    if not probe.available
    then no_answer slug probe.reason
    else if no_targets targets
    then idle slug (idle_report c scan mode slug probe.version)
    else answered slug (
        merge_reports c.ops c.batches_failed scan slug probe.version
          (run_engine_batches c scan mode a slug targets probe.version) (first_root c.roots) mode)

unfoldable pub run_engine : Fleet → Text → ScanMode → List Text → Text → EngineRun
run_engine c scan mode targets slug =
    let a = or_nil (get slug c.registry) in
    run_probed c scan mode a targets slug (safe_probe c.say_probe a.probe)

unfoldable pub run_slugs : Fleet → Text → ScanMode → List Text → List Text → List EngineRun
run_slugs c scan mode targets [] = []
run_slugs c scan mode targets (s ∷ ss) =
    if engine_enabled c s
    then run_engine c scan mode targets s ∷ run_slugs c scan mode targets ss
    else run_slugs c scan mode targets ss

unfoldable pub run_engines : Fleet → Text → ScanMode → List Text → List EngineRun
run_engines c scan mode targets = run_slugs c scan mode targets (slugs c)

abbrev pub outcomes : List EngineRun → List EngineOutcome
outcomes [] = []
outcomes (r ∷ rs) = r.outcome ∷ outcomes rs

abbrev pub add_report : Option ScanReport → List ScanReport → List ScanReport
add_report none rs = rs
add_report (some r) rs = r ∷ rs

abbrev pub reports : List EngineRun → List ScanReport
reports [] = []
reports (r ∷ rs) = add_report r.report (reports rs)

abbrev pub voted : EngineOutcome → Bool
voted o = o.available && counts_as_vote o.status

unfoldable pub any_engine_voted : List EngineOutcome → Bool
any_engine_voted os = any_of voted os
