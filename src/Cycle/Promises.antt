-- ===== src/Cycle/Promises.antt =====
-- What a cycle promises at its end: the status, the baseline, and the announcement.
use sentinel_host.Prelude.{
  Bool, true, false, Option, none, some, List, Text, ◌≡◌, refl, arith, if_cases,
}
use sentinel_host.Schema.Enums.{ScanStatus, completed, partially, failed, ScanMode}
use sentinel_host.Schema.Types.{Counts}
use sentinel_host.Quarantine.World.{World}
use sentinel_host.Baseline.Compare.{Known}
use sentinel_host.Cycle.Gather.{Collected, no_roots}
use sentinel_host.Cycle.Engines.{EngineOutcome, any_engine_voted}
use sentinel_host.Cycle.Run.{
  Options, Setup, CycleError, Summary, Ran, was_truncated, final_status, saved_baseline, run_acting,
  run_persisted, run_collected, run_targets, lock_error, run_guarded, or_mode, run, stopped,
  empty_summary,
}

-- The end of a cycle is honest: a status of `completed` and a new baseline both need an engine that voted; a
-- completed cycle was not cut short and has no error; and a cycle that was announced is closed.
abbrev pub Honest : Ran → Type 0
Honest r =
    ((r.finished ≡ some completed)
      → (any_engine_voted r.summary.engines ≡ true)
        × (was_truncated r.summary.skipped_counts ≡ false)
        × (r.error ≡ none))
    × ((b : Known)
        → r.saved ≡ some b
        → (any_engine_voted r.summary.engines ≡ true) × (r.error ≡ none))
    × ((r.announced ≡ true) → (r.error ≡ none))

stopped-Honest :
    (sum : Summary) (w : World) (e : CycleError) (closed : Option ScanStatus)
    → ¬ (closed ≡ some completed)
    → Honest (stopped sum w e closed)
stopped-Honest sum w e closed h =
    ((λ q. absurd (h q)), (λ b q. absurd (cc q)), (λ q. absurd (cc q)))

final_status-completed :
    (skipped : Counts) (os : List EngineOutcome)
    → final_status skipped os ≡ completed
    → (any_engine_voted os ≡ true) × (was_truncated skipped ≡ false)
unfolding final_status
final_status-completed skipped os h = ground arith

saved_baseline-voted :
    (s : Setup) (b : Option Known) (os : List EngineOutcome) (k : Known)
    → saved_baseline s b os ≡ some k
    → any_engine_voted os ≡ true
unfolding saved_baseline
saved_baseline-voted s b os k h = ground arith

run_acting-Honest :
    (s : Setup) (o : Options) (b : Option Known) (sum : Summary) (w : World)
    → Honest (run_acting s o b sum w)
unfolding run_acting
run_acting-Honest s o b sum w = (
  (λ q.
      let (voted, whole) = final_status-completed sum.skipped_counts sum.engines (cc q) in
      (voted, whole, refl)),
  (λ k q. (saved_baseline-voted s b sum.engines k q, refl)),
  (λ q. refl),
)

run_persisted-Honest :
    (s : Setup) (o : Options) (b : Option Known) (sum : Summary) (w : World) (failing : Bool)
    → Honest (run_persisted s o b sum w failing)
unfolding run_persisted
run_persisted-Honest s o b sum w true = stopped-Honest sum w _ (some partially) (λ q. cc q)
run_persisted-Honest s o b sum w false = run_acting-Honest s o b sum w

run_collected-Honest :
    (s : Setup) (o : Options) (mode : ScanMode) (sum : Summary) (w : World) (c : Collected)
    → Honest (run_collected s o mode sum w c)
unfolding run_collected
run_collected-Honest s o mode sum w c = run_persisted-Honest s o c.baseline _ w _

run_targets-Honest :
    (s : Setup) (o : Options) (mode : ScanMode) (sum : Summary) (w : World) (c : Option Collected)
    → Honest (run_targets s o mode sum w c)
unfolding run_targets
run_targets-Honest s o mode sum w none = stopped-Honest sum w _ (some failed) (λ q. cc q)
run_targets-Honest s o mode sum w (some c) = run_collected-Honest s o mode sum w c

run_guarded-Honest :
    (s : Setup) (o : Options) (mode : ScanMode) (w : World) (lock dirs start : Option Text)
    → Honest (run_guarded s o mode w lock dirs start)
unfolding run_guarded
run_guarded-Honest s o mode w (some e) dirs start =
    stopped-Honest (empty_summary s mode) w _ none (λ q. cc q)
run_guarded-Honest s o mode w none (some e) start =
    stopped-Honest (empty_summary s mode) w _ none (λ q. cc q)
run_guarded-Honest s o mode w none none (some e) =
    stopped-Honest (empty_summary s mode) w _ none (λ q. cc q)
run_guarded-Honest s o mode w none none none =
    run_targets-Honest s o mode (empty_summary s mode) w _

-- A cycle in which no engine voted is never recorded as completed and never advances the baseline: if
-- the record of the scan is closed as `completed`, some engine voted, the walk was not truncated and
-- there is no error; if a baseline is saved, some engine voted and there is no error; and only a cycle without
-- error is announced.
pub run-Honest : (s : Setup) (o : Options) (w : World) → Honest (run s o w)
unfolding run
run-Honest s o w =
    if_cases Honest (no_roots s.fleet.roots) _ _
      (λ _. stopped-Honest (empty_summary s (or_mode o.mode)) w _ none (λ q. cc q))
      (λ _. run_guarded-Honest s o (or_mode o.mode) w (lock_error s o) s.dirs_err s.start_err)
