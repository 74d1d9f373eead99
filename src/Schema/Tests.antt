-- ===== src/Schema/Tests.antt =====
-- A report that passes the checks.
use sentinel_host.Prelude.{none, [], ◌∷◌, codes, ◌≡◌, refl, codes}
use sentinel_host.Schema.Enums.{
  malware, webshell, high, signature, completed, full, status_valid, counts_as_vote, mode_valid,
  kind_valid, category_valid, severity_valid, confidence_valid,
}
use sentinel_host.Schema.Types.{Finding, ScanReport, effective_kind, no_usage}
use sentinel_host.Schema.Validate.{
  validate_report, compatible_version, findings_problems, validate_finding, target_problems,
  is_sha256, clean_problems,
}

abbrev finding : Finding
finding = record {
  schema_version = codes "1.0";
  id = codes "f";
  kind = malware;
  engine = codes "pmf";
  engine_version = [];
  rule = codes "php.shell";
  rule_ref = [];
  file = record {
    path = codes "/w/x.php";
    size_bytes = 12;
    sha256 = codes "0123456789abcdef0123456789abcdef0123456789abcdef0123456789abcdef";
    md5 = [];
    m_time = 5;
    owner = codes "u";
    perms = codes "0644";
    location = [];
  };
  category = webshell;
  severity = high;
  confidence = signature;
  matched_content = [];
  matched_offset = 0;
  component = none;
  scan_id = codes "s";
  detected_at = 6;
}

abbrev report : ScanReport
report = record {
  schema_version = codes "1.0";
  scan_id = codes "s";
  engine = codes "pmf";
  engine_version = [];
  signatures_updated_at = 0;
  started_at = 1;
  finished_at = 2;
  scope = record {
    root = codes "/w";
    mode = full;
    files_considered = 1;
    files_scanned = 1;
    skipped_reason_counts = [];
    note_counts = [];
  };
  status = completed;
  error = [];
  resource_usage = no_usage;
  findings = finding ∷ [];
  clean_files = [];
  raw_ref = [];
}

valid : validate_report report ≡ []
unfolding validate_report compatible_version status_valid counts_as_vote mode_valid
    findings_problems validate_finding kind_valid effective_kind category_valid severity_valid
    confidence_valid target_problems is_sha256 clean_problems
valid = refl
