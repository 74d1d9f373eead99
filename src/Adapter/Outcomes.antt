-- ===== src/Adapter/Outcomes.antt =====
-- What `SafeScanAndParse` can come to.
use sentinel_host.Prelude.{
  true, not, ◌&&◌, Option, none, some, List, [], ◌∷◌, Text, ◌≡◌, refl, ap, ◌∙◌, ◌⊎◌, inl, inr,
  arith, if_cases,
}
use sentinel_host.Schema.Enums.{ScanStatus, failed, counts_as_vote}
use sentinel_host.Schema.Types.{ScanReport, Time, abstains, failed_report}
use sentinel_host.Schema.Validate.{ReportProblem, validate_report}
use sentinel_host.Adapter.Paths.{RawOutput}
use sentinel_host.Adapter.Safe.{
  Call, returns, panics, WithError, with_err, ScanRequest, Adapter, Failure, status_unset,
  safe_slug, fill, fail, check_valid, after_parse, after_scan, safe_scan_and_parse,
}

failed_report-abstains :
    (scan slug : Text) (status : ScanStatus) (err : Option Text) (started now : Time)
    → abstains (failed_report scan slug status err started now) ≡ true
unfolding abstains failed_report counts_as_vote
failed_report-abstains scan slug status err started now = ground arith

-- The report of a run that did not succeed: it abstains and carries nothing.
abbrev pub Empty : ScanReport → Type 0
Empty r = (abstains r ≡ true) × (r.findings ≡ []) × (r.clean_files ≡ [])

module _ (say : Text → Failure → Text) (req : ScanRequest) (started now : Time) where
  fail-Empty :
      (slug : Text) (status : ScanStatus) (msg : Text)
      → Empty (fail say req started now slug status msg)
  unfolding fail failed_report
  fail-Empty slug status msg =
      (failed_report-abstains req.scan_id slug status (some msg) started now, refl, refl)

  -- A run that succeeded: the driver scanned and parsed without an error, and the report satisfies the
  -- schema once it is filled in.
  abbrev pub Succeeded : Adapter → ScanReport → Type 0
  Succeeded a r =
      (raw : RawOutput) × (p : ScanReport) × (a.scan req ≡ returns (with_err raw none))
      × (a.parse raw ≡ returns (with_err p none))
      × ((status_unset raw.status ≡ true) ⊎ (counts_as_vote raw.status ≡ true))
      × (r ≡ fill (safe_slug a.info) req raw started now p)
      × (validate_report r ≡ [])

  check_valid_cases :
      (slug : Text) (r : ScanReport) (ps : List ReportProblem)
      → validate_report r ≡ ps
      → Empty (check_valid say req started now slug r ps)
        ⊎ ((check_valid say req started now slug r ps ≡ r) × (validate_report r ≡ []))
  unfolding check_valid
  check_valid_cases slug r [] e = inr (refl, e)
  check_valid_cases slug r (p ∷ ps) e = inl (fail-Empty slug failed _)

  after_parse_cases :
      (slug : Text) (raw : RawOutput) (c : Call (WithError ScanReport))
      → Empty (after_parse say req started now slug raw c)
        ⊎ ((p : ScanReport) × (c ≡ returns (with_err p none))
            × (after_parse say req started now slug raw c ≡ fill slug req raw started now p)
            × (validate_report (fill slug req raw started now p) ≡ []))
  unfolding after_parse
  after_parse_cases slug raw (panics q) = inl (fail-Empty slug failed _)
  after_parse_cases slug raw (returns (with_err p (some e))) = inl (fail-Empty slug failed _)
  after_parse_cases slug raw (returns (with_err p none)) =
      let r = fill slug req raw started now p in
      elim (check_valid_cases slug r (validate_report r) refl) [
        | inl e ↦ inl e
        | inr c ↦ inr (p, refl, c.0, c.1)
      ]

  after_scan_cases :
      (a : Adapter) (c : Call (WithError RawOutput))
      → a.scan req ≡ c
      → Empty (after_scan say req started now a (safe_slug a.info) c)
        ⊎ Succeeded a (after_scan say req started now a (safe_slug a.info) c)
  unfolding after_scan
  after_scan_cases a (panics q) h = inl (fail-Empty _ failed _)
  after_scan_cases a (returns (with_err raw (some e))) h = inl (fail-Empty _ _ e)
  after_scan_cases a (returns (with_err raw none)) h =
      if_cases (λ r. Empty r ⊎ Succeeded a r)
        (not (status_unset raw.status) && not (counts_as_vote raw.status)) _ _
        (λ _. inl (fail-Empty _ raw.status _))
        (λ t. elim (after_parse_cases (safe_slug a.info) raw (a.parse raw)) [
          | inl e ↦ inl e
          | inr (p, q, r, v) ↦ inr (raw, p, h, q, ground arith, r, ap validate_report r ∙ v)
        ])

  -- Whatever a driver does (it panics, it fails, it times out, it returns what nobody can read), the
  -- cycle gets a report that abstains and carries no findings and no clean files; any other report comes
  -- from a scan and a parse without error, and satisfies the schema.
  pub safe_scan_and_parse-Succeeded :
      (a : Adapter) → let r = safe_scan_and_parse say req started now a in Empty r ⊎ Succeeded a r
  unfolding safe_scan_and_parse
  safe_scan_and_parse-Succeeded a = after_scan_cases a (a.scan req) refl
