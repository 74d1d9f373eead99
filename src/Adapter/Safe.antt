-- ===== src/Adapter/Safe.antt =====
-- safe.go: the shield around a driver. A call of it returns or panics.
use sentinel_host.Prelude.{
  ℕ, Bool, true, false, not, ◌&&◌, Option, none, some, List, [], ◌∷◌, Text, codes, is_empty,
  if◌then◌else◌,
}
use sentinel_host.Schema.Enums.{ScanStatus, failed, completed, ScanMode, counts_as_vote}
use sentinel_host.Schema.Types.{ScanReport, Time, is_zero_time, schema_version_now, failed_report}
use sentinel_host.Schema.Validate.{ReportProblem, mode_unset, validate_report}
use sentinel_host.Adapter.Paths.{RawOutput}

pub data Call (A : Type 0) : Type 0 where
  returns : A → Call A
  panics : Text → Call A

-- A value and an error, as Go functions return them.
pub data WithError (A : Type 0) : Type 0 where
  with_err : A → Option Text → WithError A

pub record Info : Type 0 where
  pub slug : Text
  pub scope_aware : Bool

pub record ScanRequest : Type 0 where
  pub scan_id : Text
  pub root : Text
  pub paths : List Text
  pub mode : ScanMode
  pub max_file_size_bytes : ℕ

pub record ProbeResult : Type 0 where
  pub available : Bool
  pub reason : Text
  pub version : Text
  pub binary_path : Text
  pub signatures_updated_at : Time
  pub installable : Bool

-- The interface `Adapter`, as far as a cycle calls it.
pub record Adapter : Type 0 where
  pub info : Call Info
  pub probe : Call ProbeResult
  pub scan : ScanRequest → Call (WithError RawOutput)
  pub parse : RawOutput → Call (WithError ScanReport)

-- Why a report is replaced; `say` formats it for a slug.
pub data Failure : Type 0 where
  panicked unreadable : Text → Failure
  invalid : List ReportProblem → Failure

abbrev pub slug_or_unknown : Text → Text
slug_or_unknown s = if is_empty s then codes "unknown" else s

unfoldable pub safe_slug : Call Info → Text
safe_slug (returns i) = slug_or_unknown i.slug
safe_slug (panics p) = codes "unknown"

-- `safeInfo` of cycle.go: without trustworthy information an engine counts as scope-aware.
unfoldable pub safe_scope_aware : Call Info → Bool
safe_scope_aware (returns i) = i.scope_aware
safe_scope_aware (panics p) = true

abbrev pub status_unset : ScanStatus → Bool
status_unset (ScanStatus.unknown t) = is_empty t
status_unset _ = false

unfoldable pub status_or : ScanStatus → ScanStatus → ScanStatus
status_or s fallback = if status_unset s then fallback else s

unfoldable pub or_err : Option Text → Text → Text
or_err none msg = msg
or_err (some e) msg = e

abbrev pub text_or : Text → Text → Text
text_or t fallback = if is_empty t then fallback else t

abbrev pub time_or : Time → Time → Time
time_or t fallback = if is_zero_time t then fallback else t

-- What the driver may have forgotten.
unfoldable pub fill :
    Text → ScanRequest → RawOutput → (started now : Time) → ScanReport → ScanReport
unfolding status_or
fill slug req raw started now r = record r {
  schema_version = text_or r.schema_version schema_version_now;
  scan_id = text_or r.scan_id req.scan_id;
  engine = text_or r.engine slug;
  status = status_or r.status completed;
  started_at = time_or r.started_at started;
  finished_at = time_or r.finished_at now;
  raw_ref = text_or r.raw_ref raw.raw_ref;
  scope = record r.scope {
    root = text_or r.scope.root req.root;
    mode = if mode_unset r.scope.mode then req.mode else r.scope.mode;
  };
}

-- `say` formats a failure; `started` and `now` are the readings of the clock.
module _ (say : Text → Failure → Text) (req : ScanRequest) (started now : Time) where
  unfoldable pub fail : Text → ScanStatus → Text → ScanReport
  fail slug status msg = failed_report req.scan_id slug status (some msg) started now

  unfoldable pub check_valid : Text → ScanReport → List ReportProblem → ScanReport
  check_valid slug r [] = r
  check_valid slug r (p ∷ ps) = fail slug failed (say slug (invalid (p ∷ ps)))

  unfoldable pub after_parse : Text → RawOutput → Call (WithError ScanReport) → ScanReport
  after_parse slug raw (panics p) = fail slug failed (say slug (panicked p))
  after_parse slug raw (returns (with_err r (some e))) = fail slug failed (say slug (unreadable e))
  after_parse slug raw (returns (with_err r none)) =
      check_valid slug (fill slug req raw started now r)
        (validate_report (fill slug req raw started now r))

  unfoldable pub after_scan : Adapter → Text → Call (WithError RawOutput) → ScanReport
  after_scan a slug (panics p) = fail slug failed (say slug (panicked p))
  after_scan a slug (returns (with_err raw (some e))) = fail slug (status_or raw.status failed) e
  after_scan a slug (returns (with_err raw none)) =
      if not (status_unset raw.status) && not (counts_as_vote raw.status)
      then fail slug raw.status (or_err raw.err (codes "the engine did not complete"))
      else after_parse slug raw (a.parse raw)

  unfoldable pub safe_scan_and_parse : Adapter → ScanReport
  unfolding safe_slug
  safe_scan_and_parse a = after_scan a (safe_slug a.info) (a.scan req)

unfoldable pub unavailable : Text → ProbeResult
unavailable reason = record {
  available = false;
  reason = reason;
  version = [];
  binary_path = [];
  signatures_updated_at = 0;
  installable = false;
}

-- An unavailable engine always has a reason; `say` formats the panic.
unfoldable pub safe_probe : (Text → Text) → Call ProbeResult → ProbeResult
unfolding unavailable
safe_probe say (panics p) = unavailable (say p)
safe_probe say (returns r) =
    if not r.available && is_empty r.reason
    then record r { reason = codes "unavailable (the adapter did not report a reason)" }
    else r
