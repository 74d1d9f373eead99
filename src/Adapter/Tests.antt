-- ===== src/Adapter/Tests.antt =====
-- A driver that panics, and one that reports a finding.
use sentinel_host.Prelude.{[], ◌∷◌, codes, ◌⊎◌}
use sentinel_host.Schema.Enums.{incremental}
use sentinel_host.Adapter.Safe.{panics, ScanRequest, Adapter, safe_scan_and_parse}
use sentinel_host.Adapter.Outcomes.{Empty, Succeeded, safe_scan_and_parse-Succeeded}

abbrev request : ScanRequest
request = record {
  scan_id = codes "s";
  root = codes "/w";
  paths = codes "/w/a.php" ∷ [];
  mode = incremental;
  max_file_size_bytes = 1000;
}

abbrev broken : Adapter
broken = record {
  info = panics (codes "nil");
  probe = panics (codes "nil");
  scan = λ r. panics (codes "nil");
  parse = λ r. panics (codes "nil");
}

safe_scan_and_parse-Succeeded_example :
    let r = safe_scan_and_parse (λ slug f. codes "it failed") request 1 2 broken in
    Empty r ⊎ Succeeded (λ slug f. codes "it failed") request 1 2 broken r
safe_scan_and_parse-Succeeded_example =
    safe_scan_and_parse-Succeeded (λ slug f. codes "it failed") request 1 2 broken
