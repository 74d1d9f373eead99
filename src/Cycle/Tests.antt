-- ===== src/Cycle/Tests.antt =====
-- A merge and an automatic action at concrete inputs.
use sentinel_host.Prelude.{
  ℕ, true, false, none, some, List, [], ◌∷◌, Text, codes, text_apart, ◌≡◌, refl, ◌≢◌, inr, any_of,
  if◌then◌else◌,
}
use sentinel_host.Prelude.Float.{FloatOps, one_f}
use sentinel_host.Schema.Enums.{
  ScanStatus, completed, timeout, full, status_valid, confirmed, nothing,
}
use sentinel_host.Schema.Types.{ScanReport, Verdict, abstains, no_scope, no_usage}
use sentinel_host.Quarantine.World.{File, regular, World, Answers, Vault}
use sentinel_host.Cycle.Merge.{merge_reports, all_findings, all_clean}
use sentinel_host.Cycle.MergeLaws.{merge_reports-votes, merge_reports-unknown_status}
use sentinel_host.Cycle.Act.{General, Runner, act}
use sentinel_host.Cycle.Touches.{act-files}

abbrev pub ops : FloatOps
ops = record { add = λ a b. b; mul = λ a b. b; quot = λ a b. a }

abbrev pub summary : List Text → ℕ → Text
summary errors n = codes "some batches failed"

abbrev pub batch : ScanStatus → ScanReport
batch status = record {
  schema_version = codes "1.0";
  scan_id = codes "s";
  engine = codes "maldet";
  engine_version = [];
  signatures_updated_at = 0;
  started_at = 3;
  finished_at = 4;
  scope = no_scope;
  status = status;
  error = [];
  resource_usage = no_usage;
  findings = [];
  clean_files = codes "ab12" ∷ [];
  raw_ref = [];
}

abbrev batches : List ScanReport
batches = batch timeout ∷ []

merge_reports-votes_example :
    let out =
      merge_reports ops summary
        (codes "s")
        (codes "maldet")
        []
        (batch completed ∷ batches)
        []
        full in
    let all : List ScanReport = batch completed ∷ batches in
    (abstains out ≡ any_of abstains all)
    × (out.findings ≡ (if any_of abstains all then [] else all_findings all))
    × (out.clean_files ≡ (if any_of abstains all then [] else all_clean all))
unfolding status_valid
merge_reports-votes_example =
    merge_reports-votes ops summary (codes "s") (codes "maldet") [] (batch completed) batches []
      full (refl, (refl, tt))

merge_reports-unknown_status_example :
    let p = batch (ScanStatus.unknown (codes "odd")) in
    (abstains p ≡ true)
    × (abstains (merge_reports ops summary (codes "s") (codes "maldet") [] (p ∷ []) [] full)
        ≡ false)
merge_reports-unknown_status_example =
    merge_reports-unknown_status ops summary (codes "s") (codes "maldet") []
      (batch (ScanStatus.unknown (codes "odd"))) [] full (codes "odd") refl

abbrev shell : File
shell = record {
  bytes = 60 ∷ [];
  kind = regular;
  mode = 420;
  owner = codes "u";
  m_time = 50;
  other_links = 0;
}

abbrev fine : Answers
fine = record {
  readable = true;
  stat_works = true;
  links_work = true;
  new_ref = some (codes "q1");
  dir_works = true;
  copy_opens = true;
  copy_works = true;
  copy_bytes = shell.bytes;
  appears = none;
  chmod_works = true;
  chtimes_works = true;
  insert_works = true;
  update_works = true;
  remove_works = true;
  cleanup_works = true;
}

abbrev vault : Vault
vault = record {
  sha = λ bytes. 104 ∷ bytes;
  place = λ ref. 118 ∷ ref;
  expressible = λ p. true;
  within_roots = λ p. true;
  has_roots = true;
  now = 100;
  retention_until = 200;
  self = codes "u";
}

abbrev pub runner : Runner
runner = record {
  vault = vault;
  now = 100;
  answers = λ id. fine;
  explain_error = λ e. codes "it failed";
}

-- The grace period is over.
abbrev pub general : General
general = record {
  observation_mode = false;
  grace_period_days = 7;
  first_run_at = 1;
  add_days = λ t n. t;
  format_date = λ t. [];
}

abbrev bad_path : Text
bad_path = codes "x.php"

abbrev pub other_path : Text
other_path = codes "y.php"

abbrev bad : Verdict
bad = record {
  schema_version = codes "1.0";
  verdict_id = codes "v1";
  file_sha256 = vault.sha shell.bytes;
  file_path = bad_path;
  file_location = [];
  file_size = 1;
  level = confirmed;
  score = one_f;
  votes = [];
  abstentions = [];
  clean_reason = [];
  action_taken = nothing;
  action_at = 0;
  action_error = [];
  quarantine_ref = [];
  acknowledged_by_user = false;
  acknowledged_at = 0;
  scan_id = codes "s";
  created_at = 9;
}

abbrev pub start : World
start = record { files = λ q. some shell; items = [] }

away : bad_path ≢ other_path
away = text_apart bad_path other_path refl

pub outside : (ref : Text) → runner.vault.place ref ≢ other_path
outside ref = text_apart (118 ∷ ref) other_path refl

-- The gate is open, and the only eligible verdict is on another path.
act-files_example : (act runner general false (bad ∷ []) start).world.files other_path ≡ some shell
act-files_example =
    act-files runner general false (bad ∷ []) start other_path outside (inr (inr ((λ e. away), tt)))
