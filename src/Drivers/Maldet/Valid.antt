-- ===== src/Drivers/Maldet/Valid.antt =====
-- The findings of a maldet report are findings of the schema, and what confidence they carry.
use sentinel_host.Prelude.{
  ℕ, Bool, true, false, not, ◌≡◌, refl, Option, none, some, List, [], ◌∷◌, ◌++◌, ◌&&◌, ◌==◌, Text,
  codes, arith, is_empty, All, if_cases, trim, and_parts, has_prefix,
}
use sentinel_host.Schema.Enums.{category_valid, severity_valid, confidence_valid}
use sentinel_host.Schema.Types.{Finding, Time, is_zero_time}
use sentinel_host.Schema.Snippets.{sanitize_snippet-Printable}
use sentinel_host.Schema.Validate.{is_sha256}
use sentinel_host.Config.Alerts.{to_lower}
use sentinel_host.Schema.Checked.{Attributed}
use sentinel_host.Sched.Cron.{trim_space}
use sentinel_host.Adapter.Paths.{RawOutput}
use sentinel_host.Drivers.Lines.{re_space, to_upper, take_while, drop_while, has_substring}
use sentinel_host.Drivers.Hits.{FileStat}
use sentinel_host.Drivers.Valid.{Hashes, hashed-At, rule_finding-Attributed}
use sentinel_host.Drivers.Maldet.Rules.{
  Family, family_table, find_family, classify, category_of, severity_of, confidence_for_type,
}
use sentinel_host.Drivers.Maldet.Report.{
  slug, rule_ref, Hit, Line, blank, junk, list_start, list_end, hits_total, files_total,
  cleaned_total, listed, hit_path, hit_name, hit_line, marker_line, read_line, or_else, is_alnum,
  total_line, original, arrow, hit_finding,
}
use sentinel_host.Drivers.Maldet.Parse.{parse}
use sentinel_host.Drivers.Maldet.Listed.{lines_of, listed_hits, found_in, cons_finding, stat_of}
use sentinel_host.Drivers.Maldet.Complete.{report_hits, parse-Complete}
use sentinel_host.Drivers.Lines.{scan_lines}

abbrev Named : Hit → Type 0
Named h = is_empty h.signature ≡ false

abbrev NamedSome : Option Hit → Type 0
NamedSome none = Unit
NamedSome (some h) = Named h

abbrev NamedLine : Line → Type 0
NamedLine (listed h) = Named h
NamedLine _ = Unit

hit_path-Named : (t g s : Text) → NamedSome (hit_path t g s)
unfolding hit_path
hit_path-Named t g [] = tt
hit_path-Named t g (c ∷ s) =
    if_cases NamedSome
      (not (is_empty t) && (not (is_empty g) && (c == b':' && not (is_empty (trim re_space s))))) _
      none (λ e. named e) (λ _. tt)
  where
    named :
        (not (is_empty t) && (not (is_empty g) && (c == b':' && not (is_empty (trim re_space s)))))
          ≡ true
        → is_empty g ≡ false
    named e = ground arith

hit_name-Named : (t s : Text) → NamedSome (hit_name t s)
unfolding hit_name
hit_name-Named t [] = tt
hit_name-Named t (c ∷ s) =
    if_cases NamedSome (c == b'}') _ none (λ _. hit_path-Named t _ _) (λ _. tt)

hit_line-Named : (l : Text) → NamedSome (hit_line l)
unfolding hit_line
hit_line-Named [] = tt
hit_line-Named (c ∷ s) =
    if_cases NamedSome (c == b'{') _ none
      (λ _. hit_name-Named (take_while is_alnum s) (drop_while is_alnum s)) (λ _. tt)

or_else-Named :
    (o : Option (Option ℕ)) (f : Option ℕ → Line) (l : Line)
    → ((n : Option ℕ) → NamedLine (f n))
    → NamedLine l
    → NamedLine (or_else o f l)
or_else-Named none f l h k = k
or_else-Named (some n) f l h k = h n

hit-NamedLine :
    (o : Option Hit) → NamedSome o → NamedLine (elim o [ none ↦ junk | some h ↦ listed h ])
hit-NamedLine none k = tt
hit-NamedLine (some h) k = k

marker_line-Named : (l : Text) → NamedLine (marker_line l)
unfolding marker_line
marker_line-Named l =
    if_cases NamedLine (has_prefix (to_upper l) (codes "FILE HIT LIST")) list_start _ (λ _. tt)
      (λ _.
        if_cases NamedLine (has_prefix l (codes "=====")) list_end _ (λ _. tt)
          (λ _. hit-NamedLine (hit_line l) (hit_line-Named l)))

read_line-Named : (l : Text) → NamedLine (read_line l)
unfolding read_line
read_line-Named l =
    if_cases NamedLine (is_empty l) blank _ (λ _. tt)
      (λ _.
        or_else-Named (total_line (codes "TOTAL HITS:") l) hits_total _ (λ _. tt)
          (or_else-Named (total_line (codes "TOTAL FILES:") l) files_total _ (λ _. tt)
            (or_else-Named (total_line (codes "TOTAL CLEANED:") l) cleaned_total (marker_line l)
              (λ _. tt) (marker_line-Named l))))

listed_hits-Named : (b : Bool) (ls : List Line) → All NamedLine ls → All Named (listed_hits b ls)
listed_hits-Named b [] h = tt
listed_hits-Named b (list_start ∷ ls) (h, hs) = listed_hits-Named true ls hs
listed_hits-Named b (list_end ∷ ls) (h, hs) = listed_hits-Named false ls hs
listed_hits-Named true (listed x ∷ ls) (h, hs) = (h, listed_hits-Named true ls hs)
listed_hits-Named false (listed x ∷ ls) (h, hs) = listed_hits-Named false ls hs
listed_hits-Named b (blank ∷ ls) (h, hs) = listed_hits-Named b ls hs
listed_hits-Named b (junk ∷ ls) (h, hs) = listed_hits-Named b ls hs
listed_hits-Named b (hits_total n ∷ ls) (h, hs) = listed_hits-Named b ls hs
listed_hits-Named b (files_total n ∷ ls) (h, hs) = listed_hits-Named b ls hs
listed_hits-Named b (cleaned_total n ∷ ls) (h, hs) = listed_hits-Named b ls hs

lines_of-Named : (ls : List Text) → All NamedLine (lines_of ls)
lines_of-Named [] = tt
lines_of-Named (l ∷ ls) = (read_line-Named (trim_space l), lines_of-Named ls)

abbrev KnownFamily : Option Family → Type 0
KnownFamily o = (category_valid (category_of o) ≡ true) × (severity_valid (severity_of o) ≡ true)

find_family-Known :
    (name : Text) (fs : List Family)
    → All (λ f. KnownFamily (some f)) fs
    → KnownFamily (find_family name fs)
unfolding find_family category_of severity_of category_valid severity_valid
find_family-Known name [] h = (refl, refl)
find_family-Known name (f ∷ fs) (h, hs) =
    if_cases KnownFamily (has_substring name f.fragment) (some f) (find_family name fs) (λ _. h)
      (λ _. find_family-Known name fs hs)

abbrev all_known : List Family → Bool
all_known [] = true
all_known (f ∷ fs) = (category_valid f.category && severity_valid f.severity) && all_known fs

all_known-Known : (fs : List Family) → all_known fs ≡ true → All (λ f. KnownFamily (some f)) fs
unfolding category_of severity_of
all_known-Known [] h = tt
all_known-Known (f ∷ fs) h =
    let (a, b) =
      and_parts (category_valid f.category && severity_valid f.severity) (all_known fs) h in
    (and_parts (category_valid f.category) (severity_valid f.severity) a, all_known-Known fs b)

table-Known : All (λ f. KnownFamily (some f)) family_table
unfolding category_valid severity_valid
table-Known = all_known-Known family_table refl

classify-Known : (name : Text) → KnownFamily (classify name)
unfolding classify
classify-Known name = find_family-Known (to_lower name) family_table table-Known

confidence_for_type-Known : (t : Text) → confidence_valid (confidence_for_type t) ≡ true
unfolding confidence_for_type confidence_valid
confidence_for_type-Known t = ground arith

module _ (stat : Text → Option FileStat) (raw : RawOutput) (now : Time) (hs : Hashes stat)
    (clock : is_zero_time now ≡ false) where
  hit_finding-Attributed :
      (h : Hit) (st : FileStat)
      → Named h
      → is_empty (original (arrow h.path) h.path) ≡ false
      → is_sha256 st.sha256 ≡ true
      → Attributed slug (hit_finding stat raw now h st)
  unfolding hit_finding
  hit_finding-Attributed h st n p x =
      rule_finding-Attributed slug rule_ref h.signature (original (arrow h.path) h.path) _ 0 raw now
        st _ refl n p (sanitize_snippet-Printable (b'{' ∷ (h.sig_type ++ b'}' ∷ h.signature))).1
        clock x
        (
          (classify-Known h.signature).0,
          (classify-Known h.signature).1,
          confidence_for_type-Known h.sig_type,
        )

  cons_finding-Attributed :
      (h : Hit) (o : Option FileStat) (fs : List Finding)
      → Named h
      → stat_of stat raw now h ≡ o
      → All (Attributed slug) fs
      → All (Attributed slug) (cons_finding stat raw now h o fs)
  cons_finding-Attributed h none fs n e k = k
  cons_finding-Attributed h (some st) fs n e k =
      let (p, x) = hashed-At stat hs (original (arrow h.path) h.path) st e in
      (hit_finding-Attributed h st n p x, k)

  found_in-Attributed :
      (xs : List Hit) → All Named xs → All (Attributed slug) (found_in stat raw now xs)
  found_in-Attributed [] n = tt
  found_in-Attributed (h ∷ xs) (n, ns) =
      cons_finding-Attributed h (stat_of stat raw now h) (found_in stat raw now xs) n refl
        (found_in-Attributed xs ns)

  -- Every finding of an accepted report passes the schema's checks and names maldet, whatever the
  -- report's text is, so that no line of it can make the report invalid: the driver reads the clock, and
  -- its `stat` gives SHA-256 hashes and no file for the empty path.
  pub parse-Attributed :
      (parse stat raw now).problem ≡ none
      → All (Attributed slug) (parse stat raw now).report.findings
  parse-Attributed h = rw (parse-Complete stat raw now h).found (
      found_in-Attributed (report_hits raw)
        (listed_hits-Named false _ (lines_of-Named (scan_lines (trim_space raw.stdout)))))
