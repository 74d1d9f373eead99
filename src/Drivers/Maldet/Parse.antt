-- ===== src/Drivers/Maldet/Parse.antt =====
-- internal/adapter/maldet/maldet.go: `Parse` and `looksLikeMaldetReport`.
use sentinel_host.Prelude.{
  ℕ, ◌+◌, Bool, true, false, not, ◌||◌, Option, none, some, List, [], ◌∷◌, Text, codes, is_empty,
  ltb, leb, ◌==◌, if◌then◌else◌,
}
use sentinel_host.Sched.Cron.{trim_space}
use sentinel_host.Schema.Types.{ScanReport, Time}
use sentinel_host.Adapter.Paths.{RawOutput, new_scan_report}
use sentinel_host.Drivers.Lines.{scan_fails, has_substring}
use sentinel_host.Drivers.Hits.{FileStat, note, Parsed}
use sentinel_host.Drivers.Accounts.{accounted}
use sentinel_host.Drivers.Maldet.Report.{slug, ReportTotals, Walk, scan_report_lines}

abbrev pub markers : List Text
markers =
    codes "SCAN ID:"
    ∷ codes "TOTAL HITS:"
    ∷ codes "TOTAL FILES:"
    ∷ codes "Linux Malware Detect"
    ∷ codes "FILE HIT LIST:"
    ∷ []

unfoldable pub seen : Text → List Text → ℕ
unfolding has_substring
seen text [] = 0
seen text (m ∷ ms) = (if has_substring text m then 1 else 0) + seen text ms

unfoldable pub looks_like_maldet_report : Text → Bool
unfolding seen
looks_like_maldet_report text = leb 2 (seen text markers)

-- Why a report is refused, with the numbers that the message names.
pub data Refusal : Type 0 where
  empty_output off_format unreadable : Refusal
  truncated : (declared listed : ℕ) → Refusal
  acted : (cleaned moved : ℕ) → Refusal

unfoldable pub with_files : Option ℕ → ScanReport → ScanReport
with_files none r = r
with_files (some n) r =
    if ltb 0 n
    then record r { scope = record r.scope { files_considered = n; files_scanned = n } }
    else r

unfoldable pub is_short : Option ℕ → ScanReport → Bool
unfolding accounted
is_short none r = false
is_short (some n) r = not (n == accounted r)

abbrev pub or_zero : Option ℕ → ℕ
or_zero none = 0
or_zero (some n) = n

unfoldable pub finish : ReportTotals → ScanReport → Parsed Refusal
unfolding is_short accounted note
finish t r =
    if is_short t.declared_hits r
    then record { report = r; problem = some (truncated (or_zero t.declared_hits) (accounted r)) }
    else if ltb 0 t.cleaned || ltb 0 t.maldet_quarantined
    then record { report = r; problem = some (acted t.cleaned t.maldet_quarantined) }
    else record {
      report =
          if ltb 0 t.unknown_families
          then note (codes "unknown_signature_family") t.unknown_families r
          else r;
      problem = none;
    }

module _ (stat : Text → Option FileStat) (raw : RawOutput) (now : Time) where
  unfoldable pub after_walk : Bool → Walk stat raw now → Parsed Refusal
  unfolding finish with_files
  after_walk true w = record { report = w.report; problem = some unreadable }
  after_walk false w = finish w.totals (with_files w.totals.files w.report)

  unfoldable pub parse : Parsed Refusal
  unfolding after_walk scan_report_lines scan_fails new_scan_report trim_space
      looks_like_maldet_report
  parse =
      let text = trim_space raw.stdout in
      let start = new_scan_report slug raw in
      if is_empty text
      then record { report = start; problem = some empty_output }
      else if not (looks_like_maldet_report text)
      then record { report = start; problem = some off_format }
      else after_walk (scan_fails text) (scan_report_lines stat raw now text start)
