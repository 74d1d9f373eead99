-- ===== src/Drivers/Pmf/Matched.antt =====
-- What yara's output lists, told without the loop's state, and that the loop reads it so.
use sentinel_host.Prelude.{
  ℕ, ◌+◌, Bool, true, false, ◌≡◌, refl, sym, ap, ◌∙◌, Option, none, some, List, [], ◌∷◌, ◌++◌, Text,
  length, arith, if_cases, ltb, if◌then◌else◌,
}
use mathlib.Core.Path.{subst}
use mathlib.Core.List.{append-nil, append_assoc}
use sentinel_host.Schema.Types.{ScanReport, Finding, Time}
use sentinel_host.Adapter.Paths.{RawOutput, new_scan_report}
use sentinel_host.Drivers.Lines.{scan_lines, scan_fails}
use sentinel_host.Drivers.Hits.{FileStat, hashed, skip, note, with_finding, line_too_long}
use sentinel_host.Drivers.Accounts.{accounted, skip-accounted, finding-accounted, start-accounted}
use sentinel_host.Drivers.Pmf.Parse.{
  slug, Line, junk, string_at, rule_match, read_line, StringLine, Pending, fresh, add_string,
  match_finding, add_match, Walk, settle, flush, with_string, step, walk, finish, parse,
}

abbrev pub lines_of : List Text → List Line
lines_of [] = []
lines_of (l ∷ ls) = read_line l ∷ lines_of ls

-- The strings before the next match.
abbrev pub strings_after : List Line → List StringLine
strings_after [] = []
strings_after (junk ∷ ls) = strings_after ls
strings_after (string_at s ∷ ls) = s ∷ strings_after ls
strings_after (rule_match r p ∷ ls) = []

abbrev pub snippets_of : List StringLine → List Text
snippets_of [] = []
snippets_of (s ∷ ss) = s.snippet ∷ snippets_of ss

-- The offset of the first string, where a match has none yet.
abbrev pub offset_from : List Text → ℕ → List StringLine → ℕ
offset_from [] n [] = n
offset_from [] n (s ∷ ss) = s.offset
offset_from (t ∷ ts) n ss = n

-- A match with its strings and these after them.
abbrev pub with_strings : List StringLine → Pending → Pending
with_strings ss p = record p {
  strings = p.strings ++ snippets_of ss;
  offset = offset_from p.strings p.offset ss;
}

offset_from-nothing : (ts : List Text) (n : ℕ) → offset_from ts n [] ≡ n
offset_from-nothing [] n = refl
offset_from-nothing (t ∷ ts) n = refl

with_strings-nothing : (p : Pending) → with_strings [] p ≡ p
with_strings-nothing p = rw (append-nil p.strings, offset_from-nothing p.strings p.offset) refl

with_strings-add_string :
    (s : StringLine) (ss : List StringLine) (ts : List Text) (p : Pending)
    → p.strings ≡ ts
    → with_strings ss (add_string s p) ≡ with_strings (s ∷ ss) p
unfolding add_string
with_strings-add_string s ss [] p e = rw e refl
with_strings-add_string s ss (t ∷ ts) p e =
    rw (e, append_assoc (t ∷ ts) (s.snippet ∷ []) (snippets_of ss)) refl

-- Each match with the strings that follow it; strings before the first match belong to none.
abbrev pub listed_matches : List Line → List Pending
listed_matches [] = []
listed_matches (junk ∷ ls) = listed_matches ls
listed_matches (string_at s ∷ ls) = listed_matches ls
listed_matches (rule_match r p ∷ ls) =
    with_strings (strings_after ls) (fresh r p) ∷ listed_matches ls

-- The matches of the lines after a state.
abbrev pub from_current : Option Pending → List Line → List Pending
from_current none ls = listed_matches ls
from_current (some p) ls = with_strings (strings_after ls) p ∷ listed_matches ls

module _ (stat : Text → Option FileStat) (raw : RawOutput) (now : Time) where
  abbrev pub stat_of : Pending → Option FileStat
  stat_of p = hashed (stat p.path)

  abbrev pub cons_finding : Pending → Option FileStat → List Finding → List Finding
  cons_finding p none fs = fs
  cons_finding p (some st) fs = match_finding stat raw now p st ∷ fs

  -- One finding for each match whose file can be read and hashed, in the order of the output.
  abbrev pub found_in : List Pending → List Finding
  found_in [] = []
  found_in (p ∷ ps) = cons_finding p (stat_of p) (found_in ps)

  record Read (w v : Walk stat raw now) (ps : List Pending) : Type 0 where
    pub found : v.report.findings ≡ w.report.findings ++ found_in ps
    pub counted : accounted v.report ≡ accounted w.report + length ps

  add_match-accounted :
      (p : Pending) (o : Option FileStat) (r : ScanReport)
      → accounted (add_match stat raw now p o r) ≡ accounted r + 1
  unfolding add_match
  add_match-accounted p none r = skip-accounted r
  add_match-accounted p (some st) r = finding-accounted (match_finding stat raw now p st) r

  add_match-findings :
      (p : Pending) (o : Option FileStat) (r : ScanReport) (fs : List Finding)
      → (add_match stat raw now p o r).findings ++ fs ≡ r.findings ++ cons_finding p o fs
  unfolding add_match skip with_finding
  add_match-findings p none r fs = refl
  add_match-findings p (some st) r fs =
      append_assoc r.findings (match_finding stat raw now p st ∷ []) fs

  settle-Read :
      (c : Option Pending) (w v : Walk stat raw now) (ps : List Pending)
      → Read (settle stat raw now c w) v ps
      → Read w v (from_current c [] ++ ps)
  settle-Read none w v ps r = r
  settle-Read (some p) w v ps r = record {
    found =
        subst (λ q. v.report.findings ≡ w.report.findings ++ found_in (q ∷ ps))
          (sym (with_strings-nothing p))
          (r.found ∙ add_match-findings p (stat_of p) w.report (found_in ps));
    counted = omega (arith, r.counted, add_match-accounted p (stat_of p) w.report);
  }

  Read-nothing : (w : Walk stat raw now) → Read w w []
  Read-nothing w = record { found = sym (append-nil w.report.findings); counted = omega arith }

  nil-end : (c : Option Pending) → from_current c [] ++ [] ≡ from_current c []
  nil-end none = refl
  nil-end (some p) = refl

  match-from :
      (c : Option Pending) (r p : Text) (ls : List Line)
      → from_current c [] ++ from_current (some (fresh r p)) ls
        ≡ from_current c (rule_match r p ∷ ls)
  match-from none r p ls = refl
  match-from (some q) r p ls = refl

  junk-from : (c : Option Pending) (ls : List Line) → from_current c ls ≡ from_current c (junk ∷ ls)
  junk-from none ls = refl
  junk-from (some q) ls = refl

  string-from :
      (s : StringLine) (c : Option Pending) (ls : List Line)
      → from_current (with_string stat raw now s c) ls ≡ from_current c (string_at s ∷ ls)
  string-from s none ls = refl
  string-from s (some q) ls =
      ap (λ (r : Pending). r ∷ listed_matches ls)
        (with_strings-add_string s (strings_after ls) q.strings q refl)

  step-Read :
      (l : Line) (w v : Walk stat raw now) (ls : List Line)
      → Read (step stat raw now w l) v (from_current (step stat raw now w l).current ls)
      → Read w v (from_current w.current (l ∷ ls))
  unfolding step flush
  step-Read junk w v ls r = rw (junk-from w.current ls) at r
  step-Read (string_at s) w v ls r =
      let same : Read w v (from_current (with_string stat raw now s w.current) ls) = record {
        found = r.found;
        counted = r.counted;
      } in
      rw (string-from s w.current ls) at same
  step-Read (rule_match rule path) w v ls r = rw (match-from w.current rule path ls) at (
      settle-Read w.current w v (from_current (some (fresh rule path)) ls)
        (record { found = r.found; counted = r.counted }))

  walk-Read :
      (ls : List Text) (w : Walk stat raw now)
      → Read w (flush stat raw now (walk stat raw now w ls)) (from_current w.current (lines_of ls))
  unfolding walk flush
  walk-Read [] w =
      rw (nil-end w.current) at
        (settle-Read w.current w _ [] (Read-nothing (settle stat raw now w.current w)))
  walk-Read (l ∷ ls) w =
      step-Read (read_line l) w _ (lines_of ls) (walk-Read ls (step stat raw now w (read_line l)))

  finish-findings :
      (b : Bool) (w : Walk stat raw now)
      → (finish stat raw now b w).report.findings ≡ w.report.findings
  unfolding finish note
  finish-findings true w = refl
  finish-findings false w =
      if_cases (λ (r : ScanReport). r.findings ≡ w.report.findings) (ltb 0 w.unknown) _ w.report
        (λ _. refl) (λ _. refl)

  finish-accounted :
      (b : Bool) (w : Walk stat raw now)
      → accounted (finish stat raw now b w).report ≡ accounted w.report
  unfolding finish note accounted
  finish-accounted true w = refl
  finish-accounted false w =
      if_cases (λ (r : ScanReport). accounted r ≡ accounted w.report) (ltb 0 w.unknown) _ w.report
        (λ _. refl) (λ _. refl)

  finish-problem :
      (b : Bool) (w : Walk stat raw now)
      → (finish stat raw now b w).problem ≡ (if b then some line_too_long else none)
  unfolding finish
  finish-problem true w = refl
  finish-problem false w = refl

  -- The matches of yara's output.
  abbrev pub output_matches : List Pending
  output_matches = listed_matches (lines_of (scan_lines raw.stdout))

  pub parse-listed_matches :
      ((parse stat raw now).report.findings ≡ found_in output_matches)
      × (accounted (parse stat raw now).report ≡ length output_matches)
      × ((parse stat raw now).problem
          ≡ (if scan_fails raw.stdout then some line_too_long else none))
  unfolding parse new_scan_report
  parse-listed_matches =
      let w : Walk stat raw now = record {
        current = none;
        unknown = 0;
        report = new_scan_report slug raw;
      } in
      let v = flush stat raw now (walk stat raw now w (scan_lines raw.stdout)) in
      let r = walk-Read (scan_lines raw.stdout) w in
      (
        finish-findings (scan_fails raw.stdout) v ∙ r.found,
        omega (
          arith,
          finish-accounted (scan_fails raw.stdout) v,
          r.counted,
          start-accounted slug raw,
        ),
        finish-problem (scan_fails raw.stdout) v,
      )
