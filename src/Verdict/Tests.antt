-- ===== src/Verdict/Tests.antt =====
-- The consensus at concrete inputs: two engines, one file that both flag, and one silent engine.
use sentinel_host.Prelude.{
  true, false, none, List, [], ◌∷◌, map, Text, codes, is_empty, ◌≡◌, refl, ◌↔◌, inl, In,
}
use sentinel_host.Prelude.Float.{FloatOps, zero_f, one_f}
use sentinel_host.PathMatch.Glob.{segment_match}
use sentinel_host.PathMatch.Segments.{which_matches, matches, match_segments}
use sentinel_host.Schema.Enums.{
  malware, webshell, high, signature, completed, failed, ScanStatus, confirmed, nothing,
}
use sentinel_host.Schema.Types.{
  Finding, ScanReport, Verdict, actionable, abstains, no_scope, no_usage,
}
use sentinel_host.Verdict.Collect.{
  keys, collect_abstentions, distinct_paths, is_official, group_by_sha, groupable, official_hashes,
}
use sentinel_host.Verdict.Votes.{Engine, build_votes, score, level_of, sum_votes}
use sentinel_host.Verdict.Decide.{Input, Env, consolidate_file}
use sentinel_host.Verdict.Consolidate.{consolidate, findings_of}
use sentinel_host.Verdict.Targets.{target, targets}
use sentinel_host.Verdict.Complete.{consolidate-covers}
use sentinel_host.Verdict.Silence.{forget, voting, consolidate-voting}
use sentinel_host.Verdict.Outcome.{MayBeServed, consolidate_file-acts}

-- Exact for the operands that occur below: 0 + x, 1 * x and x / 1.
abbrev ops : FloatOps
ops = record { add = λ a b. b; mul = λ a b. b; quot = λ a b. a }

abbrev env : Env
env = record {
  ops = ops;
  digest = λ t. t;
  absolute = λ p. p;
  status_reason = λ r. codes "the engine failed";
  clock = 7;
}

-- Weights of 1 for two engines; the bit patterns of 0.75, 0.5 and 0.25 as thresholds.
abbrev engine : Engine
engine = record {
  cfg = record {
    confirmed_at = 0x3FE8000000000000;
    likely_at = 0x3FE0000000000000;
    suspicious_at = 0x3FD0000000000000;
    saturation = one_f;
    signature_multiplier = one_f;
    heuristic_multiplier = one_f;
    anomaly_multiplier = one_f;
  };
  weights = (codes "maldet", one_f) ∷ (codes "amwscan", one_f) ∷ [];
}

abbrev shell_path : Text
shell_path = codes "/home/u/public_html/x.php"

abbrev finding_by : Text → Finding
finding_by slug = record {
  schema_version = codes "1.0";
  id = codes "f";
  kind = malware;
  engine = slug;
  engine_version = [];
  rule = codes "php.shell";
  rule_ref = [];
  file = record {
    path = shell_path;
    size_bytes = 12;
    sha256 = codes "ab12";
    md5 = [];
    m_time = 5;
    owner = codes "u";
    perms = codes "0644";
    location = [];
  };
  category = webshell;
  severity = high;
  confidence = signature;
  matched_content = [];
  matched_offset = 0;
  component = none;
  scan_id = codes "s";
  detected_at = 6;
}

abbrev report_of : Text → ScanStatus → List Finding → ScanReport
report_of slug status fs = record {
  schema_version = codes "1.0";
  scan_id = codes "s";
  engine = slug;
  engine_version = [];
  signatures_updated_at = 0;
  started_at = 1;
  finished_at = 2;
  scope = no_scope;
  status = status;
  error = [];
  resource_usage = no_usage;
  findings = fs;
  clean_files = [];
  raw_ref = [];
}

abbrev flagged : Finding
flagged = finding_by (codes "maldet")

abbrev both : List Finding
both = flagged ∷ finding_by (codes "amwscan") ∷ []

abbrev voter : ScanReport
voter = report_of (codes "maldet") completed both

abbrev broken : ScanReport
broken = report_of (codes "pmf") failed (finding_by (codes "pmf") ∷ [])

abbrev input : Input
input = record {
  scan_id = codes "s";
  reports = voter ∷ broken ∷ [];
  expected_engines = codes "maldet" ∷ codes "wpchecksums" ∷ [];
  whitelist = codes "**/allowed/**" ∷ [];
  reach = none;
  now = 9;
}

-- The file is listed once, and both abstentions are recorded.
one_verdict : targets (consolidate env engine input).verdicts ≡ (codes "ab12", shell_path) ∷ []
unfolding consolidate group_by_sha distinct_paths consolidate_file abstains groupable is_official
    official_hashes which_matches matches match_segments segment_match
one_verdict = refl

silent_ones :
    keys (consolidate env engine input).abstentions ≡ codes "pmf" ∷ codes "wpchecksums" ∷ []
unfolding consolidate collect_abstentions abstains
silent_ones = refl

consolidate-covers_example :
    (v : Verdict) × In v (consolidate env engine input).verdicts
    × (target v ≡ (codes "ab12", shell_path))
    × (v.votes ≡ build_votes ops engine (findings_of (codes "ab12") (group_by_sha input.reports)))
unfolding abstains groupable
consolidate-covers_example =
    consolidate-covers env engine input voter flagged (inl refl) refl (inl refl) refl refl

consolidate-voting_example :
    map forget (consolidate env engine input).verdicts
    ≡ map forget (consolidate env engine (voting input)).verdicts
consolidate-voting_example = consolidate-voting env engine input

consolidate_file-acts_example :
    let v = consolidate_file env engine input (codes "ab12") both shell_path [] [] in
    let s = score ops engine (sum_votes ops zero_f (build_votes ops engine both)) in
    ((v.action_taken ≡ nothing) × (actionable v ≡ true)) ↔ (
      (is_official [] (codes "ab12") ≡ false)
      × (level_of engine s ≡ confirmed)
      × MayBeServed env none shell_path
      × (is_empty (which_matches input.whitelist shell_path) ≡ true))
consolidate_file-acts_example =
    consolidate_file-acts env engine input (codes "ab12") both shell_path [] []
