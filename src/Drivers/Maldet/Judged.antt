-- ===== src/Drivers/Maldet/Judged.antt =====
-- Which maldet reports `Parse` refuses, by what they list and declare.
use sentinel_host.Prelude.{
  ℕ, ◌==◌, true, false, ◌||◌, ◌≡◌, refl, ap, ◌∙◌, Option, none, some, [], ◌∷◌, Text, length, arith,
  if_cases, if◌then◌else◌, is_empty, ltb,
}
use sentinel_host.Sched.Cron.{trim_space}
use sentinel_host.Schema.Types.{ScanReport, Time}
use sentinel_host.Adapter.Paths.{RawOutput}
use sentinel_host.Drivers.Lines.{scan_fails, has_substring}
use sentinel_host.Drivers.Hits.{FileStat, Parsed}
use sentinel_host.Drivers.Accounts.{accounted, start-accounted}
use sentinel_host.Drivers.Maldet.Report.{slug, ReportTotals, Walk}
use sentinel_host.Drivers.Maldet.Parse.{
  Refusal, truncated, acted, with_files, is_short, finish, after_walk, parse,
  looks_like_maldet_report, or_zero, seen,
}
use sentinel_host.Drivers.Maldet.Listed.{declared, cleaned_files, moved}
use sentinel_host.Drivers.Maldet.Complete.{
  report_lines, report_hits, walked, walked-Read, with_files-accounted,
}

abbrev pub acted_if : (cleaned moved : ℕ) → Option Refusal
acted_if c m = if ltb 0 c || ltb 0 m then some (acted c m) else none

-- The refusal of a report that declares hits and cleaned files, and lists and moves hits.
abbrev pub judged : Option ℕ → (listed cleaned moved : ℕ) → Option Refusal
judged none k c m = acted_if c m
judged (some n) k c m = if n == k then acted_if c m else some (truncated n k)

short-judged :
    (o : Option ℕ) (r : ScanReport) (c m : ℕ)
    → is_short o r ≡ true
    → some (truncated (or_zero o) (accounted r)) ≡ judged o (accounted r) c m
unfolding is_short
short-judged none r c m h = absurd (cc h)
short-judged (some n) r c m h = ground arith

whole-judged :
    (o : Option ℕ) (r : ScanReport) (c m : ℕ)
    → is_short o r ≡ false
    → acted_if c m ≡ judged o (accounted r) c m
unfolding is_short
whole-judged none r c m h = refl
whole-judged (some n) r c m h = ground arith

acted_if-some : (c m : ℕ) → (ltb 0 c || ltb 0 m) ≡ true → some (acted c m) ≡ acted_if c m
acted_if-some c m e = ground arith

acted_if-none : (c m : ℕ) → (ltb 0 c || ltb 0 m) ≡ false → none ≡ acted_if c m
acted_if-none c m e = ground arith

abbrev Judged : ReportTotals → ScanReport → Parsed Refusal → Type 0
Judged t r p = p.problem ≡ judged t.declared_hits (accounted r) t.cleaned t.maldet_quarantined

finish-Judged : (t : ReportTotals) (r : ScanReport) → Judged t r (finish t r)
unfolding finish
finish-Judged t r =
    if_cases (Judged t r) (is_short t.declared_hits r) _ _
      (short-judged t.declared_hits r t.cleaned t.maldet_quarantined)
      (λ h.
        let w = whole-judged t.declared_hits r t.cleaned t.maldet_quarantined h in
        if_cases (Judged t r) (ltb 0 t.cleaned || ltb 0 t.maldet_quarantined) _ _
          (λ e. acted_if-some t.cleaned t.maldet_quarantined e ∙ w)
          (λ e. acted_if-none t.cleaned t.maldet_quarantined e ∙ w))

looks_like-is_empty : (t : Text) → looks_like_maldet_report t ≡ true → is_empty t ≡ false
unfolding looks_like_maldet_report seen has_substring
looks_like-is_empty [] h = absurd (cc h)
looks_like-is_empty (c ∷ t) h = refl

module _ (stat : Text → Option FileStat) (raw : RawOutput) (now : Time) where
  after_walk-false :
      (w : Walk stat raw now)
      → after_walk stat raw now false w ≡ finish w.totals (with_files w.totals.files w.report)
  unfolding after_walk
  after_walk-false w = refl

  parse-finish :
      looks_like_maldet_report (trim_space raw.stdout) ≡ true
      → scan_fails (trim_space raw.stdout) ≡ false
      → parse stat raw now
        ≡ finish
            (walked stat raw now).totals
            (with_files (walked stat raw now).totals.files (walked stat raw now).report)
  unfolding parse
  parse-finish h k =
      rw (looks_like-is_empty (trim_space raw.stdout) h, h, k)
        (after_walk-false (walked stat raw now))

  -- A report of maldet's shape whose lines fit the buffer is refused exactly where its last declared
  -- number of hits is not the number of hits it lists, or where it declares cleaned files or lists moved
  -- ones; the refusal names these numbers.
  pub parse-judged :
      looks_like_maldet_report (trim_space raw.stdout) ≡ true
      → scan_fails (trim_space raw.stdout) ≡ false
      → (parse stat raw now).problem
        ≡ judged
            (declared none (report_lines raw))
            (length (report_hits raw))
            (cleaned_files 0 (report_lines raw))
            (moved (report_hits raw))
  parse-judged h k =
      let r = walked-Read stat raw now in
      let w = walked stat raw now in
      let n : accounted (with_files w.totals.files w.report) ≡ length (report_hits raw) = omega (
        arith,
        with_files-accounted w.totals.files w.report,
        r.counted,
        start-accounted slug raw,
      ) in
      let m : w.totals.maldet_quarantined ≡ moved (report_hits raw) = omega (arith, r.moves) in
      ap (λ (p : Parsed Refusal). p.problem) (parse-finish h k)
      ∙ (rw (r.declares, n, r.cleans, m) at
          (finish-Judged w.totals (with_files w.totals.files w.report)))
