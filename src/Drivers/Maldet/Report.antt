-- ===== src/Drivers/Maldet/Report.antt =====
-- internal/adapter/maldet/maldet.go: `scanReportLines`.
use sentinel_host.Prelude.{
  ℕ, ◌+◌, Bool, true, false, not, ◌&&◌, ◌||◌, Option, none, some, List, [], ◌∷◌, ◌++◌, Text, codes,
  is_empty, has_prefix, trim, leb, ◌==◌, if◌then◌else◌,
}
use sentinel_host.Prelude.Int.{ℤ, pos, atoi, is_digit}
use sentinel_host.Sched.Cron.{trim_space}
use sentinel_host.Schema.Types.{ScanReport, Finding, Time}
use sentinel_host.Schema.Snippet.{sanitize_snippet}
use sentinel_host.Adapter.Paths.{RawOutput}
use sentinel_host.Drivers.Lines.{
  scan_lines, to_upper, upper_byte, before, re_space, take_while, drop_while,
}
use sentinel_host.Drivers.Hits.{FileStat, hashed, vanished, skip, with_finding, rule_finding}
use sentinel_host.Drivers.Maldet.Rules.{confidence_for_type, classify, category_of, severity_of}

abbrev pub slug : Text
slug = codes "maldet"

abbrev pub rule_ref : Text
rule_ref = codes "https://www.rfxn.com/projects/linux-malware-detect/"

abbrev pub is_alnum : ℕ → Bool
is_alnum c = is_digit c || ((leb b'a' c && leb c b'z') || (leb b'A' c && leb c b'Z'))

-- What follows a label that the line starts with, in any case.
unfoldable pub after_label : (label line : Text) → Option Text
after_label [] line = some line
after_label (l ∷ ls) [] = none
after_label (l ∷ ls) (c ∷ s) =
    let rest = after_label ls s in if upper_byte c == l then rest else none

unfoldable pub natural : Option ℤ → Option ℕ
natural (some (pos n)) = some n
natural _ = none

-- The outer option is whether the line holds the label and digits, the inner one whether these fit.
unfoldable pub total_after : Option Text → Option (Option ℕ)
unfolding take_while drop_while natural
total_after none = none
total_after (some s) =
    let ds = take_while is_digit (drop_while re_space s) in
    if is_empty ds then none else some (natural (atoi ds))

unfoldable pub total_line : (label line : Text) → Option (Option ℕ)
unfolding after_label total_after
total_line label line = total_after (after_label label line)

pub record Hit : Type 0 where
  pub sig_type : Text
  pub signature : Text
  pub path : Text

-- After the name: spaces, a colon, spaces, the path.
unfoldable pub hit_path : (sig_type signature rest : Text) → Option Hit
hit_path t g [] = none
hit_path t g (c ∷ s) =
    if not (is_empty t) && (not (is_empty g) && (c == b':' && not (is_empty (trim re_space s))))
    then some (record { sig_type = t; signature = g; path = trim re_space s })
    else none

abbrev name_byte : ℕ → Bool
name_byte c = not (re_space c || c == b':')

unfoldable pub hit_name : (sig_type rest : Text) → Option Hit
unfolding hit_path take_while drop_while
hit_name t [] = none
hit_name t (c ∷ s) =
    if c == b'}'
    then hit_path t (take_while name_byte s) (drop_while re_space (drop_while name_byte s))
    else none

-- `hitRe` on a line with no space at its ends: `{TYPE}name : path`.
unfoldable pub hit_line : Text → Option Hit
unfolding hit_name take_while drop_while
hit_line [] = none
hit_line (c ∷ s) =
    if c == b'{' then hit_name (take_while is_alnum s) (drop_while is_alnum s) else none

-- What a line is, by the first test that takes it.
pub data Line : Type 0 where
  blank list_start list_end junk : Line
  hits_total files_total cleaned_total : Option ℕ → Line
  listed : Hit → Line

unfoldable pub marker_line : Text → Line
unfolding to_upper hit_line
marker_line l =
    if has_prefix (to_upper l) (codes "FILE HIT LIST")
    then list_start
    else if has_prefix l (codes "=====")
    then list_end
    else elim (hit_line l) [ none ↦ junk | some h ↦ listed h ]

abbrev pub or_else : Option (Option ℕ) → (Option ℕ → Line) → Line → Line
or_else none f l = l
or_else (some n) f l = f n

unfoldable pub read_line : Text → Line
unfolding marker_line total_line
read_line l =
    if is_empty l
    then blank
    else or_else (total_line (codes "TOTAL HITS:") l) hits_total (
        or_else (total_line (codes "TOTAL FILES:") l) files_total
          (or_else (total_line (codes "TOTAL CLEANED:") l) cleaned_total (marker_line l)))

-- The numbers that a report declares; `none` is the -1 of the source.
pub record ReportTotals : Type 0 where
  pub declared_hits : Option ℕ
  pub files : Option ℕ
  pub cleaned : ℕ
  pub unknown_families : ℕ
  pub maldet_quarantined : ℕ

abbrev pub no_totals : ReportTotals
no_totals = record {
  declared_hits = none;
  files = none;
  cleaned = 0;
  unknown_families = 0;
  maldet_quarantined = 0;
}

abbrev pub or_kept : Option ℕ → Option ℕ → Option ℕ
or_kept none old = old
or_kept (some n) old = some n

-- The file before it was moved, where maldet says it moved one.
unfoldable pub original : Option Text → Text → Text
unfolding trim_space
original none p = p
original (some orig) p = trim_space orig

abbrev pub arrow : Text → Option Text
arrow p = before (codes "=>") p

abbrev pub one_if_some {ℓ} : {A : Type ℓ} → Option A → ℕ
one_if_some none = 0
one_if_some (some a) = 1

abbrev pub one_if_none {ℓ} : {A : Type ℓ} → Option A → ℕ
one_if_none none = 1
one_if_none (some a) = 0

unfoldable pub count_hit : Hit → ReportTotals → ReportTotals
unfolding before classify
count_hit h t = record t {
  maldet_quarantined = t.maldet_quarantined + one_if_some (arrow h.path);
  unknown_families = t.unknown_families + one_if_none (classify h.signature);
}

-- `stat` reads and hashes a file; `now` is the clock's reading.
module _ (stat : Text → Option FileStat) (raw : RawOutput) (now : Time) where
  unfoldable pub hit_finding : Hit → FileStat → Finding
  unfolding rule_finding original sanitize_snippet confidence_for_type
  hit_finding h st =
      rule_finding slug rule_ref h.signature (original (arrow h.path) h.path)
        (sanitize_snippet (b'{' ∷ (h.sig_type ++ b'}' ∷ h.signature))) 0 raw now st
        (record {
          category = category_of (classify h.signature);
          severity = severity_of (classify h.signature);
          confidence = confidence_for_type h.sig_type;
        })

  unfoldable pub add_hit : Hit → Option FileStat → ScanReport → ScanReport
  unfolding skip with_finding
  add_hit h none r = skip vanished r
  add_hit h (some st) r = with_finding (hit_finding h st) r

  pub record Walk : Type 0 where
    pub in_hit_list : Bool
    pub totals : ReportTotals
    pub report : ScanReport

  unfoldable pub step : Walk → Line → Walk
  unfolding count_hit add_hit hashed original
  step w blank = w
  step w junk = w
  step w (hits_total n) = record w {
    totals = record w.totals { declared_hits = or_kept n w.totals.declared_hits };
  }
  step w (files_total n) = record w {
    totals = record w.totals { files = or_kept n w.totals.files };
  }
  step w (cleaned_total n) = record w {
    totals = record w.totals { cleaned = elim n [ none ↦ w.totals.cleaned | some k ↦ k ] };
  }
  step w list_start = record w { in_hit_list = true }
  step w list_end = record w { in_hit_list = false }
  step w (listed h) =
      if w.in_hit_list
      then record w {
        totals = count_hit h w.totals;
        report = add_hit h (hashed (stat (original (arrow h.path) h.path))) w.report;
      }
      else w

  unfoldable pub walk : Walk → List Text → Walk
  unfolding step trim_space read_line
  walk w [] = w
  walk w (l ∷ ls) = walk (step w (read_line (trim_space l))) ls

  unfoldable pub scan_report_lines : Text → ScanReport → Walk
  unfolding walk scan_lines
  scan_report_lines text r =
      walk (record { in_hit_list = false; totals = no_totals; report = r }) (scan_lines text)
