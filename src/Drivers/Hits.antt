-- ===== src/Drivers/Hits.antt =====
-- What the drivers put into a finding: the metadata of the flagged file, read by the driver itself.
use sentinel_host.Prelude.{
  ℕ, Option, none, some, [], ◌∷◌, ◌++◌, Text, codes, text_eq, is_empty, if◌then◌else◌,
}
use sentinel_host.Schema.Enums.{Category, Severity, Confidence, malware}
use sentinel_host.Schema.Types.{Finding, ScanReport, Counts, Time, is_zero_time, schema_version_now}
use sentinel_host.Cycle.Merge.{add_count}
use sentinel_host.Adapter.Paths.{RawOutput}

-- `FileStat`; what the driver's `stat` gives is a parameter of its model.
pub record FileStat : Type 0 where
  pub sha256 : Text
  pub size : ℕ
  pub perms : Text
  pub m_time : Time

-- `!ok || st.SHA256 == ""`.
unfoldable pub hashed : Option FileStat → Option FileStat
hashed none = none
hashed (some st) = if is_empty st.sha256 then none else some st

-- What a rule table says of a rule.
pub record Mapping : Type 0 where
  pub category : Category
  pub severity : Severity
  pub confidence : Confidence

abbrev pub vanished : Text
vanished = codes "vanished_before_hashing"

abbrev pub count_of : Text → Counts → ℕ
count_of k [] = 0
count_of k ((j, n) ∷ m) = if text_eq j k then n else count_of k m

unfoldable pub skip : Text → ScanReport → ScanReport
skip why r = record r {
  scope = record r.scope { skipped_reason_counts = add_count why 1 r.scope.skipped_reason_counts };
}

-- `+=`; for a key that is not in the map yet also `=`.
unfoldable pub note : Text → ℕ → ScanReport → ScanReport
note why n r = record r {
  scope = record r.scope { note_counts = add_count why n r.scope.note_counts };
}

unfoldable pub with_finding : Finding → ScanReport → ScanReport
with_finding f r = record r { findings = r.findings ++ f ∷ [] }

-- A parser's result: the report so far, and why it is refused.
pub record Parsed (E : Type 0) : Type 0 where
  pub report : ScanReport
  pub problem : Option E

-- `sc.Err`.
pub data ReadError : Type 0 where
  line_too_long : ReadError

-- `raw.FinishedAt`, or the clock's reading where it is zero.
abbrev pub detected : RawOutput → Time → Time
detected raw now = if is_zero_time raw.finished_at then now else raw.finished_at

-- The finding of a rule in a file, as the three drivers write it.
unfoldable pub rule_finding :
    (slug ref rule path content : Text) (line : ℕ) → RawOutput → Time → FileStat → Mapping → Finding
rule_finding slug ref rule path content line raw now st m = record {
  schema_version = schema_version_now;
  id = [];
  kind = malware;
  engine = slug;
  engine_version = raw.engine_version;
  rule = rule;
  rule_ref = ref;
  file = record {
    path = path;
    size_bytes = st.size;
    sha256 = st.sha256;
    md5 = [];
    m_time = st.m_time;
    owner = [];
    perms = st.perms;
    location = [];
  };
  category = m.category;
  severity = m.severity;
  confidence = m.confidence;
  matched_content = content;
  matched_offset = line;
  component = none;
  scan_id = raw.scan_id;
  detected_at = detected raw now;
}
