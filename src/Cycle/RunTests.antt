-- ===== src/Cycle/RunTests.antt =====
-- A cycle of one engine over an account with one changed file.
use sentinel_host.Prelude.{
  text_apart, ℕ, true, false, none, some, List, [], ◌∷◌, Text, codes, refl, ◌⊎◌, inl, inr, In,
  arith,
}
use sentinel_host.Prelude.Int.{pos}
use sentinel_host.Prelude.Float.{one_f}
use sentinel_host.Schema.Enums.{completed, incremental}
use sentinel_host.Verdict.Collect.{keys, collect_abstentions}
use sentinel_host.Adapter.Safe.{returns, panics, Adapter}
use sentinel_host.Baseline.Compare.{Entry, Known}
use sentinel_host.Cycle.Tests.{ops, summary, batch, runner, general, start}
use sentinel_host.Cycle.Gather.{Account, Walked, collect_incremental}
use sentinel_host.Cycle.Found.{collect_incremental-finds}
use sentinel_host.Cycle.Engines.{Fleet}
use sentinel_host.Cycle.Roll.{Votes, collect_abstentions-Votes}
use sentinel_host.Cycle.Run.{Options, Setup, run}
use sentinel_host.Cycle.Promises.{Honest, run-Honest}

abbrev file_at : Text → ℕ → Entry
file_at path time = record {
  path = path;
  size = 3;
  m_time = time;
  sha256 = [];
  perms = codes "0644";
}

abbrev changed : Entry
changed = file_at (codes "/w/a.php") 9

abbrev known : Known
known = (codes "/w/a.php", record (file_at (codes "/w/a.php") 5) { sha256 = codes "aa" }) ∷ []

abbrev account : Account
account = record {
  walk = λ root.
      some
        (record { entries = changed ∷ []; skipped_counts = []; truncated = false; considered = 1 });
  hash = λ p. some (codes "bb");
  alive = 10;
}

abbrev walked : Walked
walked = record { all = changed ∷ []; skipped_counts = []; considered = 1; walked = 1 }

collect_incremental-finds_example :
    In (codes "/w/a.php") (collect_incremental account known walked).scan_paths
collect_incremental-finds_example =
    collect_incremental-finds account known walked changed (codes "bb") ((λ i. i), tt) (omega arith)
      (inl refl) refl
      (inr (omega arith), ((λ q. cc q), (λ q. cc q), text_apart (codes "bb") (codes "aa") refl))

-- An engine whose driver panics in its scan.
abbrev broken : Adapter
broken = record {
  info = returns (record { slug = codes "pmf"; scope_aware = true });
  probe = returns (record {
    available = true;
    reason = [];
    version = codes "1";
    binary_path = [];
    signatures_updated_at = 0;
    installable = false;
  });
  scan = λ r. panics (codes "nil");
  parse = λ r. panics (codes "nil");
}

abbrev fleet : Fleet
fleet = record {
  registry = (codes "pmf", broken) ∷ [];
  engines = (codes "pmf", record { enabled = true; weight = one_f }) ∷ [];
  roots = codes "/w" ∷ [];
  batch_size = pos 100;
  batch_pause = pos 0;
  max_file_size_bytes = 1000;
  started = λ b. 1;
  finished = λ b. 2;
  now = 3;
  cancelled = λ n. none;
  pause_cancelled = λ n. none;
  ops = ops;
  say = λ slug f. codes "it failed";
  say_probe = λ p. codes "it panicked";
  batches_failed = summary;
}

abbrev one_target : List Text
one_target = codes "/w/a.php" ∷ []

collect_abstentions-Votes_example :
    Votes (codes "pmf") (batch completed ∷ [])
    ⊎ In (codes "pmf") (
        keys
          (collect_abstentions (λ r. codes "it failed") (batch completed ∷ []) (codes "pmf" ∷ [])))
collect_abstentions-Votes_example =
    collect_abstentions-Votes (λ r. codes "it failed") (batch completed ∷ []) (codes "pmf" ∷ [])
      (codes "pmf") (inl refl)

abbrev setup : Setup
setup = record {
  fleet = fleet;
  account = account;
  baseline = known;
  env = record {
    ops = ops;
    digest = λ t. t;
    absolute = λ p. p;
    status_reason = λ r. codes "the engine failed";
    clock = 7;
  };
  engine = record {
    cfg = record {
      confirmed_at = one_f;
      likely_at = one_f;
      suspicious_at = one_f;
      saturation = one_f;
      signature_multiplier = one_f;
      heuristic_multiplier = one_f;
      anomaly_multiplier = one_f;
    };
    weights = (codes "pmf", one_f) ∷ [];
  };
  whitelist = [];
  document_roots = [];
  discovered = [];
  trash_dirs = [];
  general = general;
  runner = runner;
  scan_id = λ m. codes "s";
  finding_id = λ s f. codes "f";
  lock_err = none;
  dirs_err = none;
  start_err = none;
  save_fails = λ s. false;
  baseline_saves = true;
}

abbrev dry : Options
dry = record { mode = incremental; paths = []; dry_run = true; skip_lock = false }

run-Honest_example : Honest (run setup dry start)
run-Honest_example = run-Honest setup dry start
