-- ===== src/Drivers/Amwscan/Matched.antt =====
-- What an AMWScan report lists, told without the loop's state, and that the loop reads it so.
use sentinel_host.Prelude.{
  ℕ, Bool, true, false, not, ◌&&◌, ◌≡◌, refl, sym, ap, ◌∙◌, Option, none, some, List, [], ◌∷◌, ◌++◌,
  Text, codes, if_cases, ltb, if◌then◌else◌, is_empty, Bool-cases, inl, inr,
}
use mathlib.Core.Path.{subst}
use mathlib.Core.List.{append-nil, append_assoc}
use sentinel_host.Sched.Cron.{trim_space}
use sentinel_host.Schema.Types.{ScanReport, Finding, Time}
use sentinel_host.Adapter.Paths.{RawOutput, new_scan_report, path_is_expressible}
use sentinel_host.Drivers.Lines.{scan_lines, scan_fails, has_substring}
use sentinel_host.Drivers.Hits.{FileStat, hashed, skip, note, with_finding, Parsed}
use sentinel_host.Drivers.Amwscan.Lines.{Line, junk, file_header, tag, finding, read_line}
use sentinel_host.Drivers.Amwscan.Parse.{
  Refusal, Pending, fresh, add_tag, is_allowed, rule_finding_in, add_match, Walk, settle,
  settle_current, emit, open_file, with_tag, step, walk, finish, walk_start, parse,
}

abbrev pub lines_of : List Text → List Line
lines_of [] = []
lines_of (l ∷ ls) = read_line l ∷ lines_of ls

-- The tags before the next finding or header.
abbrev pub tags_after : List Line → List Text
tags_after [] = []
tags_after (junk ∷ ls) = tags_after ls
tags_after (tag t ∷ ls) = t ∷ tags_after ls
tags_after (file_header p ∷ ls) = []
tags_after (finding r e n ∷ ls) = []

-- The first text that is not empty.
abbrev pub first_text : List Text → Text
first_text [] = []
first_text ([] ∷ ts) = first_text ts
first_text ((c ∷ t) ∷ ts) = c ∷ t

-- The snippet that a rule has, or else the first of the tags.
abbrev pub with_tags : List Text → Pending → Pending
with_tags ts p = record p { snippet = first_text (p.snippet ∷ ts) }

first_text-only : (s : Text) → first_text (s ∷ []) ≡ s
first_text-only [] = refl
first_text-only (c ∷ s) = refl

with_tags-nothing : (p : Pending) → with_tags [] p ≡ p
with_tags-nothing p = rw (first_text-only p.snippet) refl

with_tags-add_tag :
    (t s : Text) (ts : List Text) (p : Pending)
    → p.snippet ≡ s
    → with_tags ts (add_tag t p) ≡ with_tags (t ∷ ts) p
unfolding add_tag
with_tags-add_tag t [] ts p e = rw e refl
with_tags-add_tag t (c ∷ s) ts p e = rw e refl

-- The path that a header opens: none where it cannot be the path of a scanned file.
unfoldable pub opened : Text → Text
opened p = if path_is_expressible p then p else []

-- The rules that lines report, each with the path of the header before it and its tags; the first path
-- is that of the header before the lines.
abbrev pub entries : Text → List Line → List (Text × Pending)
entries f [] = []
entries f (junk ∷ ls) = entries f ls
entries f (tag t ∷ ls) = entries f ls
entries f (file_header p ∷ ls) = entries (opened p) ls
entries f (finding r e n ∷ ls) = (f, with_tags (tags_after ls) (fresh r e n)) ∷ entries f ls

abbrev pub from_current : Text → Option Pending → List Line → List (Text × Pending)
from_current f none ls = entries f ls
from_current f (some p) ls = (f, with_tags (tags_after ls) p) ∷ entries f ls

module _ (stat : Text → Option FileStat) (targets : List Text) (raw : RawOutput) (now : Time) where
  -- The file of an entry, where the path was asked for and the file can be read and hashed.
  unfoldable pub stat_of : Text → Option FileStat
  stat_of f = if is_empty f then none else if is_allowed targets f then hashed (stat f) else none

  abbrev pub cons_finding : Text → Pending → Option FileStat → List Finding → List Finding
  cons_finding f p none fs = fs
  cons_finding f p (some st) fs = rule_finding_in stat targets raw now f p st ∷ fs

  abbrev pub found_in : List (Text × Pending) → List Finding
  found_in [] = []
  found_in ((f, p) ∷ es) = cons_finding f p (stat_of f) (found_in es)

  abbrev Found :
      Walk stat targets raw now → Walk stat targets raw now → List (Text × Pending) → Type 0
  Found w v es = v.report.findings ≡ w.report.findings ++ found_in es

  add_match-findings :
      (f : Text) (p : Pending) (o : Option FileStat) (r : ScanReport) (fs : List Finding)
      → (add_match stat targets raw now f p o r).findings ++ fs
        ≡ r.findings ++ cons_finding f p o fs
  unfolding add_match skip with_finding
  add_match-findings f p none r fs = refl
  add_match-findings f p (some st) r fs =
      append_assoc r.findings (rule_finding_in stat targets raw now f p st ∷ []) fs

  settle-findings :
      (f : Text) (p : Pending) (w : Walk stat targets raw now) (fs : List Finding)
      → (settle stat targets raw now f p w).report.findings ++ fs
        ≡ w.report.findings ++ cons_finding f p (stat_of f) fs
  unfolding settle note stat_of
  settle-findings f p w fs = elim (Bool-cases (is_empty f)) [
    | inl e ↦ rw e refl
    | inr e ↦ elim (Bool-cases (is_allowed targets f)) [
      | inl a ↦ rw (e, a) (add_match-findings f p (hashed (stat f)) w.report fs)
      | inr a ↦ rw (e, a) refl
    ]
  ]

  settle-file :
      (f : Text) (p : Pending) (w : Walk stat targets raw now)
      → (settle stat targets raw now f p w).current_file ≡ w.current_file
  unfolding settle
  settle-file f p w =
      if_cases Same (is_empty f) _ _ (λ _. refl)
        (λ _. if_cases Same (not (is_allowed targets f)) _ _ (λ _. refl) (λ _. refl))
    where
      Same : Walk stat targets raw now → Type 0
      Same v = v.current_file ≡ w.current_file

  -- The walk after a state, up to the end of the lines.
  emit-Found :
      (c : Option Pending) (w v : Walk stat targets raw now) (es : List (Text × Pending))
      → Found (settle_current stat targets raw now c w) v es
      → Found w v (from_current w.current_file c [] ++ es)
  emit-Found none w v es r = r
  emit-Found (some p) w v es r =
      subst (λ q. Found w v ((w.current_file, q) ∷ es)) (sym (with_tags-nothing p))
        (r ∙ settle-findings w.current_file p w (found_in es))

  emit-file :
      (c : Option Pending) (w : Walk stat targets raw now)
      → (settle_current stat targets raw now c w).current_file ≡ w.current_file
  emit-file none w = refl
  emit-file (some p) w = settle-file w.current_file p w

  open_file-findings :
      (p : Text) (w : Walk stat targets raw now)
      → (open_file stat targets raw now p w).report.findings ≡ w.report.findings
  unfolding open_file skip
  open_file-findings p w =
      if_cases (λ (v : Walk stat targets raw now). v.report.findings ≡ w.report.findings)
        (path_is_expressible p) _ _ (λ _. refl) (λ _. refl)

  open_file-file :
      (p : Text) (w : Walk stat targets raw now)
      → (open_file stat targets raw now p w).current_file ≡ opened p
  unfolding open_file opened
  open_file-file p w = elim (Bool-cases (path_is_expressible p)) [
    | inl e ↦ rw e refl
    | inr e ↦ rw e refl
  ]

  settle-current :
      (f : Text) (p : Pending) (w : Walk stat targets raw now)
      → (settle stat targets raw now f p w).current ≡ none
  unfolding settle
  settle-current f p w =
      if_cases Closed (is_empty f) _ _ (λ _. refl)
        (λ _. if_cases Closed (not (is_allowed targets f)) _ _ (λ _. refl) (λ _. refl))
    where
      Closed : Walk stat targets raw now → Type 0
      Closed v = v.current ≡ none

  emit-current :
      (c : Option Pending) (w : Walk stat targets raw now)
      → w.current ≡ c
      → (settle_current stat targets raw now c w).current ≡ none
  emit-current none w e = e
  emit-current (some p) w e = settle-current w.current_file p w

  open_file-current :
      (p : Text) (w : Walk stat targets raw now)
      → (open_file stat targets raw now p w).current ≡ w.current
  unfolding open_file
  open_file-current p w =
      if_cases (λ (v : Walk stat targets raw now). v.current ≡ w.current) (path_is_expressible p) _
        _ (λ _. refl) (λ _. refl)

  header-Found :
      (p : Text) (w v : Walk stat targets raw now) (ls : List Line)
      → (let u = open_file stat targets raw now p w in
          Found u v (from_current u.current_file u.current ls))
      → w.current ≡ none
      → Found w v (entries (opened p) ls)
  header-Found p w v ls r e =
      rw (open_file-findings p w, open_file-file p w, open_file-current p w, e) at r

  end-from : (f : Text) (c : Option Pending) → from_current f c [] ++ [] ≡ from_current f c []
  end-from f none = refl
  end-from f (some p) = refl

  junk-from :
      (f : Text) (c : Option Pending) (ls : List Line)
      → from_current f c ls ≡ from_current f c (junk ∷ ls)
  junk-from f none ls = refl
  junk-from f (some q) ls = refl

  tag-from :
      (f t : Text) (c : Option Pending) (ls : List Line)
      → from_current f (with_tag stat targets raw now t c) ls ≡ from_current f c (tag t ∷ ls)
  tag-from f t none ls = refl
  tag-from f t (some q) ls =
      ap (λ (r : Pending). (f, r) ∷ entries f ls)
        (with_tags-add_tag t q.snippet (tags_after ls) q refl)

  header-from :
      (f p : Text) (c : Option Pending) (ls : List Line)
      → from_current f c [] ++ entries (opened p) ls ≡ from_current f c (file_header p ∷ ls)
  header-from f p none ls = refl
  header-from f p (some q) ls = refl

  finding-from :
      (f r e : Text) (n : ℕ) (c : Option Pending) (ls : List Line)
      → from_current f c [] ++ from_current f (some (fresh r e n)) ls
        ≡ from_current f c (finding r e n ∷ ls)
  finding-from f r e n none ls = refl
  finding-from f r e n (some q) ls = refl

  step-Found :
      (l : Line) (w v : Walk stat targets raw now) (ls : List Line)
      → (let u = step stat targets raw now w l in
          Found u v (from_current u.current_file u.current ls))
      → Found w v (from_current w.current_file w.current (l ∷ ls))
  unfolding step emit
  step-Found junk w v ls r = rw (junk-from w.current_file w.current ls) at r
  step-Found (tag t) w v ls r =
      let same : Found w v
          (from_current w.current_file (with_tag stat targets raw now t w.current) ls) =
        r in
      rw (tag-from w.current_file t w.current ls) at same
  step-Found (file_header p) w v ls r =
      let u = settle_current stat targets raw now w.current w in
      rw (header-from w.current_file p w.current ls) at (
        emit-Found w.current w v (entries (opened p) ls)
          (header-Found p u v ls r (emit-current w.current w refl)))
  step-Found (finding rule extra n) w v ls r =
      rw (finding-from w.current_file rule extra n w.current ls) at (
        emit-Found w.current w v (from_current w.current_file (some (fresh rule extra n)) ls)
          (rw (emit-file w.current w) at r))

  walk-Found :
      (ls : List Text) (w : Walk stat targets raw now)
      → Found w
          (emit stat targets raw now (walk stat targets raw now w ls))
          (from_current w.current_file w.current (lines_of ls))
  unfolding walk emit
  walk-Found [] w =
      let u = settle_current stat targets raw now w.current w in
      rw (end-from w.current_file w.current) at
        (emit-Found w.current w u [] (sym (append-nil u.report.findings)))
  walk-Found (l ∷ ls) w =
      step-Found (read_line l) w
        (emit stat targets raw now
          (walk stat targets raw now (step stat targets raw now w (read_line l)) ls))
        (lines_of ls) (walk-Found ls (step stat targets raw now w (read_line l)))

  finish-findings :
      (b : Bool) (w : Walk stat targets raw now)
      → (finish stat targets raw now b w).report.findings ≡ w.report.findings
  unfolding finish note
  finish-findings true w = refl
  finish-findings false w =
      if_cases (λ (r : ScanReport). r.findings ≡ w.report.findings) (ltb 0 w.unknown) _ w.report
        (λ _. refl) (λ _. refl)

  -- The rules that the report lists under its headers.
  abbrev pub report_entries : List (Text × Pending)
  report_entries = entries [] (lines_of (scan_lines (trim_space raw.stdout)))

  abbrev FoundIf : Parsed Refusal → Type 0
  FoundIf p = p.problem ≡ none → p.report.findings ≡ found_in report_entries

  pub parse-entries :
      (parse stat targets raw now).problem ≡ none
      → (parse stat targets raw now).report.findings ≡ found_in report_entries
  unfolding parse new_scan_report
  parse-entries =
      let text = trim_space raw.stdout in
      let w : Walk stat targets raw now = walk_start stat targets raw now in
      let v = emit stat targets raw now (walk stat targets raw now w (scan_lines text)) in
      if_cases FoundIf (is_empty text) _ _ (λ _ h. absurd (cc h))
        (λ _.
          if_cases FoundIf
            (not (has_substring text (codes "Scan date:"))
              && not (has_substring text (codes "File:")))
            _ _ (λ _ h. absurd (cc h))
            (λ _ h. finish-findings (scan_fails text) v ∙ walk-Found (scan_lines text) w))
