-- ===== src/Cycle/MergeLaws.antt =====
-- A merged report abstains as soon as one batch did, and otherwise holds the findings of all batches.
use mathlib.Core.List.{append-nil, append_assoc}
use sentinel_host.Prelude.{
  ℕ, Bool, true, false, ◌||◌, List, [], ◌∷◌, ◌++◌, Text, any_of, if◌then◌else◌, ◌≡◌, sym, ◌∙◌,
  arith, All,
}
use sentinel_host.Prelude.Float.{FloatOps}
use sentinel_host.Schema.Enums.{ScanStatus, ScanMode, counts_as_vote, status_valid}
use sentinel_host.Schema.Types.{ScanReport, abstains}
use sentinel_host.Cycle.Merge.{
  worst_status, merge_one, merge_all, start_report, close_report, merge_reports, all_findings,
  all_clean,
}

-- The status is one of the five of the schema.
abbrev pub HasStatus : ScanReport → Type 0
HasStatus p = status_valid p.status ≡ true

worst_status-valid :
    (a b : ScanStatus)
    → status_valid a ≡ true
    → status_valid b ≡ true
    → status_valid (worst_status a b) ≡ true
unfolding worst_status
worst_status-valid a b ha hb = ground arith

worst_status-votes :
    (a b : ScanStatus)
    → status_valid b ≡ true
    → counts_as_vote b ≡ false
    → counts_as_vote (worst_status a b) ≡ false
unfolding worst_status counts_as_vote status_valid
worst_status-votes a b hb h = ground arith

module _ (ops : FloatOps) where
  merge_one-abstains :
      (first : Bool) (out p : ScanReport)
      → HasStatus p
      → abstains (merge_one ops first out p) ≡ (abstains out || abstains p)
  unfolding merge_one
  merge_one-abstains first out p hp = ground (arith, worst_status-votes out.status p.status hp)

  merge_one-status :
      (first : Bool) (out p : ScanReport)
      → HasStatus out
      → HasStatus p
      → HasStatus (merge_one ops first out p)
  unfolding merge_one
  merge_one-status first out p ho hp = ground (arith, worst_status-valid out.status p.status ho hp)

  merge_all-abstains :
      (first : Bool) (out : ScanReport) (ps : List ScanReport)
      → All HasStatus ps
      → abstains (merge_all ops first out ps) ≡ (abstains out || any_of abstains ps)
  unfolding merge_all
  merge_all-abstains first out [] h = ground arith
  merge_all-abstains first out (p ∷ ps) h = ground (
    arith,
    merge_all-abstains false (merge_one ops first out p) ps h.1,
    merge_one-abstains first out p h.0,
  )

  merge_all-holds :
      (first : Bool) (out : ScanReport) (ps : List ScanReport)
      → ((merge_all ops first out ps).findings ≡ out.findings ++ all_findings ps)
        × ((merge_all ops first out ps).clean_files ≡ out.clean_files ++ all_clean ps)
  unfolding merge_all merge_one
  merge_all-holds first out [] = (sym (append-nil out.findings), sym (append-nil out.clean_files))
  merge_all-holds first out (p ∷ ps) =
      let (a, b) = merge_all-holds false (merge_one ops first out p) ps in
      (
        a ∙ append_assoc out.findings p.findings (all_findings ps),
        b ∙ append_assoc out.clean_files p.clean_files (all_clean ps),
      )

-- What the merged report holds: if some batch abstained, it abstains and holds neither findings nor clean
-- hashes; otherwise it counts as a vote and holds those of every batch, in order. The batches, of
-- which there is at least one, have statuses of the schema.
pub merge_reports-votes :
    (ops : FloatOps) (batches_failed : List Text → ℕ → Text) (scan slug version : Text)
    (p : ScanReport) (ps : List ScanReport) (root : Text) (mode : ScanMode)
    → All HasStatus (p ∷ ps)
    → let out = merge_reports ops batches_failed scan slug version (p ∷ ps) root mode in
      (abstains out ≡ any_of abstains (p ∷ ps))
      × (out.findings ≡ (if any_of abstains (p ∷ ps) then [] else all_findings (p ∷ ps)))
      × (out.clean_files ≡ (if any_of abstains (p ∷ ps) then [] else all_clean (p ∷ ps)))
unfolding merge_reports close_report
merge_reports-votes ops batches_failed scan slug version p ps root mode h =
    let start = start_report scan slug version root mode in
    ground
      (arith, merge_all-abstains ops true start (p ∷ ps) h, merge_all-holds ops true start (p ∷ ps))

-- A batch whose status is none of the schema's abstains, but the report that is merged from it alone counts
-- as a vote.
pub merge_reports-unknown_status :
    (ops : FloatOps) (batches_failed : List Text → ℕ → Text) (scan slug version : Text)
    (p : ScanReport) (root : Text) (mode : ScanMode) (t : Text)
    → p.status ≡ ScanStatus.unknown t
    → (abstains p ≡ true)
      × (abstains (merge_reports ops batches_failed scan slug version (p ∷ []) root mode) ≡ false)
unfolding merge_reports close_report merge_all merge_one worst_status
merge_reports-unknown_status ops batches_failed scan slug version p root mode t h = ground arith
