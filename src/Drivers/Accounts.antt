-- ===== src/Drivers/Accounts.antt =====
-- What a report accounts for: its findings, and the files that were gone before they could be hashed.
use sentinel_host.Prelude.{
  ℕ, ◌+◌, ◌≡◌, List, [], ◌∷◌, Text, text_eq_refl, length, length-append, arith, if_cases, ltb, refl,
}
use sentinel_host.Schema.Types.{ScanReport, Finding, Counts}
use sentinel_host.Cycle.Merge.{add_count}
use sentinel_host.Adapter.Paths.{RawOutput, new_scan_report, skipped_paths}
use sentinel_host.Drivers.Hits.{vanished, count_of, skip, with_finding}

-- The findings and the hits whose file was gone.
unfoldable pub accounted : ScanReport → ℕ
accounted r = length r.findings + count_of vanished r.scope.skipped_reason_counts

count-add_count : (k : Text) (m : List (Text × ℕ)) → count_of k (add_count k 1 m) ≡ count_of k m + 1
count-add_count k [] = ground (arith, text_eq_refl k)
count-add_count k ((j, n) ∷ m) = ground (arith, count-add_count k m)

pub skip-accounted : (r : ScanReport) → accounted (skip vanished r) ≡ accounted r + 1
unfolding accounted skip
skip-accounted r = omega (arith, count-add_count vanished r.scope.skipped_reason_counts)

pub finding-accounted :
    (f : Finding) (r : ScanReport) → accounted (with_finding f r) ≡ accounted r + 1
unfolding accounted with_finding
finding-accounted f r = omega (arith, length-append r.findings (f ∷ []))

pub start-accounted : (slug : Text) (raw : RawOutput) → accounted (new_scan_report slug raw) ≡ 0
unfolding accounted new_scan_report skipped_paths
start-accounted slug raw =
    if_cases (λ (m : Counts). 0 + count_of vanished m ≡ 0) (ltb 0 raw.unscannable_paths) _ []
      (λ _. refl) (λ _. refl)
