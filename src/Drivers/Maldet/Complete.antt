-- ===== src/Drivers/Maldet/Complete.antt =====
-- What `Parse` makes of a maldet report, against what the report lists.
use sentinel_host.Prelude.{
  ℕ, ◌+◌, true, false, not, ◌||◌, ◌≡◌, refl, sym, ◌∙◌, Option, none, some, List, [], ◌∷◌, Text,
  length, arith, All, Option-cases, inl, inr, if_cases, is_empty, ltb,
}
use sentinel_host.Sched.Cron.{trim_space}
use sentinel_host.Schema.Types.{ScanReport, Time}
use sentinel_host.Adapter.Paths.{RawOutput, new_scan_report}
use sentinel_host.Drivers.Lines.{scan_lines, scan_fails}
use sentinel_host.Drivers.Hits.{FileStat, Parsed, note}
use sentinel_host.Drivers.Accounts.{accounted, start-accounted}
use sentinel_host.Drivers.Maldet.Report.{
  slug, ReportTotals, no_totals, Walk, scan_report_lines, Hit, Line, arrow,
}
use sentinel_host.Drivers.Maldet.Parse.{
  Refusal, with_files, is_short, finish, after_walk, parse, looks_like_maldet_report,
}
use sentinel_host.Drivers.Maldet.Listed.{
  lines_of, listed_hits, declared, cleaned_files, moved, found_in, Read, walk-Read,
}

-- The lines of a report, and the hits of its list.
abbrev pub report_lines : RawOutput → List Line
report_lines raw = lines_of (scan_lines (trim_space raw.stdout))

abbrev pub report_hits : RawOutput → List Hit
report_hits raw = listed_hits false (report_lines raw)

-- A declared number is the one that is there; a report may declare none.
abbrev pub Declares : Option ℕ → ℕ → Type 0
Declares none k = Unit
Declares (some n) k = n ≡ k

with_files-findings : (o : Option ℕ) (r : ScanReport) → (with_files o r).findings ≡ r.findings
unfolding with_files
with_files-findings none r = refl
with_files-findings (some n) r =
    if_cases (λ (s : ScanReport). s.findings ≡ r.findings) (ltb 0 n) _ r (λ _. refl) (λ _. refl)

pub with_files-accounted :
    (o : Option ℕ) (r : ScanReport) → accounted (with_files o r) ≡ accounted r
unfolding with_files accounted
with_files-accounted none r = refl
with_files-accounted (some n) r =
    if_cases (λ (s : ScanReport). accounted s ≡ accounted r) (ltb 0 n) _ r (λ _. refl) (λ _. refl)

-- What `finish` accepts.
record Accepts (t : ReportTotals) (r : ScanReport) (p : Parsed Refusal) : Type 0 where
  pub kept : p.report.findings ≡ r.findings
  pub declares : Declares t.declared_hits (accounted r)
  pub cleans : t.cleaned ≡ 0
  pub moves : t.maldet_quarantined ≡ 0

is_short-Declares :
    (o : Option ℕ) (r : ScanReport) → is_short o r ≡ false → Declares o (accounted r)
unfolding is_short
is_short-Declares none r h = tt
is_short-Declares (some n) r h = ground arith

finish-Accepts :
    (t : ReportTotals) (r : ScanReport) → (finish t r).problem ≡ none → Accepts t r (finish t r)
unfolding finish note
finish-Accepts t r =
    if_cases (λ (p : Parsed Refusal). p.problem ≡ none → Accepts t r p) (is_short t.declared_hits r)
      _ _ (λ _ e. absurd (cc e))
      (λ whole.
        if_cases (λ (p : Parsed Refusal). p.problem ≡ none → Accepts t r p)
          (ltb 0 t.cleaned || ltb 0 t.maldet_quarantined) _ _ (λ _ e. absurd (cc e))
          (λ quiet _. record {
            kept =
                if_cases (λ (s : ScanReport). s.findings ≡ r.findings) (ltb 0 t.unknown_families) _
                  r (λ _. refl) (λ _. refl);
            declares = is_short-Declares t.declared_hits r whole;
            cleans = ground arith;
            moves = ground arith;
          }))

-- A hit that maldet says it moved has an arrow in its path.
abbrev pub Unmoved : Hit → Type 0
Unmoved h = arrow h.path ≡ none

moved-Unmoved : (hs : List Hit) → moved hs ≡ 0 → All Unmoved hs
moved-Unmoved [] e = tt
moved-Unmoved (h ∷ hs) e = elim (Option-cases (arrow h.path)) [
  | inl n ↦ (n, moved-Unmoved hs (omega (arith, e)))
  | inr (o, n) ↦ absurd (one≢zero (moved hs) (rw n at e))
]
  where
    one≢zero : (k : ℕ) → 1 + k ≡ 0 → ⊥
    one≢zero k e = omega (arith, e)

module _ (stat : Text → Option FileStat) (raw : RawOutput) (now : Time) where
  abbrev pub walked : Walk stat raw now
  walked = scan_report_lines stat raw now (trim_space raw.stdout) (new_scan_report slug raw)

  pub walked-Read :
      Read stat raw now
        (record { in_hit_list = false; totals = no_totals; report = new_scan_report slug raw })
        walked
        (report_lines raw)
  unfolding scan_report_lines
  walked-Read = walk-Read stat raw now (scan_lines (trim_space raw.stdout)) _

  -- A report against what maldet wrote: a finding for each listed hit whose file is still there, the
  -- declared number of hits is the number listed, and maldet neither cleaned nor moved a file.
  pub record Complete (r : ScanReport) : Type 0 where
    pub found : r.findings ≡ found_in stat raw now (report_hits raw)
    pub declares : Declares (declared none (report_lines raw)) (length (report_hits raw))
    pub cleans : cleaned_files 0 (report_lines raw) ≡ 0
    pub moves : All Unmoved (report_hits raw)

  parse-cases :
      (P : Parsed Refusal → Type 0)
      → ((r : ScanReport) (e : Refusal) → P (record { report = r; problem = some e }))
      → P (finish walked.totals (with_files walked.totals.files walked.report))
      → P (parse stat raw now)
  unfolding parse after_walk
  parse-cases P refused ended =
      if_cases P (is_empty (trim_space raw.stdout)) _ _ (λ _. refused _ _)
        (λ _.
          if_cases P (not (looks_like_maldet_report (trim_space raw.stdout))) _ _ (λ _. refused _ _)
            (λ _.
              elim (scan_fails (trim_space raw.stdout))
                as (λ b. P (after_walk stat raw now b walked)) [
                  | true ↦ refused _ _
                  | false ↦ ended
                ]))

  Accepts-Complete :
      (p : Parsed Refusal)
      → Accepts walked.totals (with_files walked.totals.files walked.report) p
      → Complete p.report
  unfolding new_scan_report
  Accepts-Complete p a =
      let r = walked-Read in
      let total : accounted (with_files walked.totals.files walked.report)
          ≡ length (report_hits raw) =
        omega (
          arith,
          with_files-accounted walked.totals.files walked.report,
          r.counted,
          start-accounted,
        ) in
      record {
        found = a.kept ∙ with_files-findings walked.totals.files walked.report ∙ r.found;
        declares = rw (r.declares, total) at a.declares;
        cleans = sym r.cleans ∙ a.cleans;
        moves = moved-Unmoved (report_hits raw) (omega (arith, r.moves, a.moves));
      }

  -- An accepted report is complete: its findings are, in order, those of the listed hits whose file can
  -- still be read, the number of hits it declares is the number it lists, and it declares no cleaned
  -- file and lists no moved one.
  pub parse-Complete : (parse stat raw now).problem ≡ none → Complete (parse stat raw now).report
  parse-Complete =
      parse-cases (λ p. p.problem ≡ none → Complete p.report) (λ r e h. absurd (cc h))
        (λ h. Accepts-Complete _ (finish-Accepts _ _ h))
