-- ===== src/Drivers/Pmf/Valid.antt =====
-- The findings of yara's output are findings of the schema.
use sentinel_host.Prelude.{
  true, false, ◌||◌, ◌≡◌, refl, Option, none, some, List, [], ◌∷◌, Text, is_empty, All, if_cases,
  arith,
}
use sentinel_host.Schema.Enums.{category_valid, severity_valid, confidence_valid}
use sentinel_host.Schema.Types.{Finding, Time, is_zero_time}
use sentinel_host.Schema.Validate.{is_sha256}
use sentinel_host.Schema.Snippets.{sanitize_snippet-Printable}
use sentinel_host.Schema.Checked.{Attributed}
use sentinel_host.Sched.Cron.{trim_space, cut}
use sentinel_host.Adapter.Paths.{RawOutput}
use sentinel_host.Drivers.Lines.{scan_lines}
use sentinel_host.Drivers.Hits.{FileStat}
use sentinel_host.Drivers.Valid.{Hashes, hashed-At, rule_finding-Attributed, look_up-Known}
use sentinel_host.Drivers.Pmf.Rules.{rule_table, classify}
use sentinel_host.Drivers.Pmf.Parse.{
  slug, rule_ref, Line, junk, string_at, rule_match, match_line, string_or, string_line, read_line,
  StringLine, Pending, fresh, add_string, join_parts, match_finding, parse,
}
use sentinel_host.Drivers.Pmf.Matched.{
  lines_of, strings_after, with_strings, listed_matches, found_in, cons_finding, stat_of,
  output_matches, parse-listed_matches,
}

abbrev Named : Pending → Type 0
Named p = is_empty p.rule ≡ false

abbrev NamedLine : Line → Type 0
NamedLine (rule_match r p) = is_empty r ≡ false
NamedLine _ = Unit

match_line-Named : (o : Option (Text × Text)) → NamedLine (match_line o)
unfolding match_line
match_line-Named none = tt
match_line-Named (some (r, p)) =
    if_cases NamedLine (is_empty r || is_empty p) junk (rule_match r (trim_space p)) (λ _. tt)
      (λ e. ground arith)

string_or-Named : (o : Option StringLine) (l : Line) → NamedLine l → NamedLine (string_or o l)
string_or-Named none l h = h
string_or-Named (some s) l h = tt

read_line-Named : (l : Text) → NamedLine (read_line l)
unfolding read_line
read_line-Named l =
    if_cases NamedLine (is_empty (trim_space l)) junk _ (λ _. tt)
      (λ _. string_or-Named (string_line l) (match_line (cut 32 l)) (match_line-Named (cut 32 l)))

with_strings-Named : (ss : List StringLine) (p : Pending) → Named p → Named (with_strings ss p)
unfolding add_string
with_strings-Named [] p h = h
with_strings-Named (s ∷ ss) p h = with_strings-Named ss (add_string s p) h

listed_matches-Named : (ls : List Line) → All NamedLine ls → All Named (listed_matches ls)
listed_matches-Named [] h = tt
listed_matches-Named (junk ∷ ls) (h, hs) = listed_matches-Named ls hs
listed_matches-Named (string_at s ∷ ls) (h, hs) = listed_matches-Named ls hs
listed_matches-Named (rule_match r p ∷ ls) (h, hs) =
    (with_strings-Named (strings_after ls) (fresh r p) h, listed_matches-Named ls hs)

lines_of-Named : (ls : List Text) → All NamedLine (lines_of ls)
lines_of-Named [] = tt
lines_of-Named (l ∷ ls) = (read_line-Named l, lines_of-Named ls)

module _ (stat : Text → Option FileStat) (raw : RawOutput) (now : Time) (hs : Hashes stat)
    (clock : is_zero_time now ≡ false) where
  match_finding-Attributed :
      (p : Pending) (st : FileStat)
      → Named p
      → is_empty p.path ≡ false
      → is_sha256 st.sha256 ≡ true
      → Attributed slug (match_finding stat raw now p st)
  unfolding match_finding classify category_valid severity_valid confidence_valid
  match_finding-Attributed p st n q x =
      rule_finding-Attributed slug rule_ref p.rule p.path _ p.offset raw now st _ refl n q
        (sanitize_snippet-Printable (join_parts p.strings)).1 clock x
        (look_up-Known rule_table (trim_space p.rule) refl)

  cons_finding-Attributed :
      (p : Pending) (o : Option FileStat) (fs : List Finding)
      → Named p
      → stat_of stat raw now p ≡ o
      → All (Attributed slug) fs
      → All (Attributed slug) (cons_finding stat raw now p o fs)
  cons_finding-Attributed p none fs n e k = k
  cons_finding-Attributed p (some st) fs n e k =
      let (q, x) = hashed-At stat hs p.path st e in (match_finding-Attributed p st n q x, k)

  found_in-Attributed :
      (ps : List Pending) → All Named ps → All (Attributed slug) (found_in stat raw now ps)
  found_in-Attributed [] n = tt
  found_in-Attributed (p ∷ ps) (n, ns) =
      cons_finding-Attributed p (stat_of stat raw now p) (found_in stat raw now ps) n refl
        (found_in-Attributed ps ns)

  -- Every finding of yara's output passes the schema's checks and names the engine, whatever the output
  -- is: the driver reads the clock, and its `stat` gives SHA-256 hashes and no file for the empty path.
  pub output_matches-Attributed : All (Attributed slug) (parse stat raw now).report.findings
  output_matches-Attributed = rw (parse-listed_matches stat raw now).0 (
      found_in-Attributed (output_matches stat raw now)
        (listed_matches-Named _ (lines_of-Named (scan_lines raw.stdout))))
