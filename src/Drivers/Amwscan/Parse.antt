-- ===== src/Drivers/Amwscan/Parse.antt =====
-- internal/adapter/amwscan/amwscan.go: `Parse`, with `allowedTargets`.
use sentinel_host.Prelude.{
  ℕ, ◌+◌, Bool, true, false, not, ◌&&◌, Option, none, some, List, [], ◌∷◌, ◌++◌, Text, codes,
  text_eq, is_empty, any_of, ltb, if◌then◌else◌,
}
use sentinel_host.Sched.Cron.{trim_space}
use sentinel_host.Schema.Types.{ScanReport, Finding, Time}
use sentinel_host.Schema.Snippet.{sanitize_snippet}
use sentinel_host.Adapter.Paths.{RawOutput, new_scan_report, path_is_expressible}
use sentinel_host.Drivers.Lines.{scan_lines, scan_fails, has_substring}
use sentinel_host.Drivers.Hits.{
  FileStat, hashed, vanished, skip, note, with_finding, Parsed, Mapping, rule_finding,
}
use sentinel_host.Drivers.Tables.{mapping_or}
use sentinel_host.Drivers.Amwscan.Rules.{classify}
use sentinel_host.Drivers.Amwscan.Lines.{Line, junk, file_header, tag, finding, read_line}

abbrev pub slug : Text
slug = codes "amwscan"

abbrev pub rule_ref : Text
rule_ref = codes "https://github.com/marcocesarato/PHP-Antimalware-Scanner"

pub data Refusal : Type 0 where
  empty_output off_format unreadable : Refusal

-- `pending`; `extra` is the token in parentheses.
pub record Pending : Type 0 where
  pub rule : Text
  pub extra : Text
  pub line : ℕ
  pub snippet : Text

abbrev pub fresh : (rule extra : Text) → ℕ → Pending
fresh rule extra n = record { rule = rule; extra = extra; line = n; snippet = [] }

-- Only the first tag is kept.
unfoldable pub add_tag : Text → Pending → Pending
add_tag t p = if is_empty p.snippet then record p { snippet = t } else p

unfoldable pub evidence : Pending → Text
evidence p =
    p.rule
    ++ ((if is_empty p.extra then [] else codes " (" ++ (p.extra ++ codes ")"))
        ++ (if is_empty p.snippet then [] else codes " => " ++ p.snippet))

abbrev pub outside_scope : Text
outside_scope = codes "outside_requested_scope"

abbrev pub forged_path : Text
forged_path = codes "forged_report_path"

-- The set of `allowedTargets`: no list, or an empty one, allows every path. `targets` is the list that
-- `Scan` left in the raw output.
unfoldable pub is_allowed : (targets : List Text) → Text → Bool
is_allowed [] p = true
is_allowed (t ∷ ts) p = any_of (λ q. text_eq q p) (t ∷ ts)

abbrev pub one_if_unknown : Option Mapping → ℕ
one_if_unknown none = 1
one_if_unknown (some m) = 0

module _ (stat : Text → Option FileStat) (targets : List Text) (raw : RawOutput) (now : Time) where
  unfoldable pub rule_finding_in : Text → Pending → FileStat → Finding
  unfolding rule_finding sanitize_snippet evidence classify mapping_or
  rule_finding_in path p st =
      rule_finding slug rule_ref p.rule path (sanitize_snippet (evidence p)) p.line raw now st
        (mapping_or (classify p.rule p.extra))

  unfoldable pub add_match : Text → Pending → Option FileStat → ScanReport → ScanReport
  unfolding skip with_finding
  add_match path p none r = skip vanished r
  add_match path p (some st) r = with_finding (rule_finding_in path p st) r

  pub record Walk : Type 0 where
    pub current_file : Text
    pub current : Option Pending
    pub unknown : ℕ
    pub report : ScanReport

  -- A pending rule of a file.
  unfoldable pub settle : Text → Pending → Walk → Walk
  unfolding is_allowed hashed note classify
  settle path p w =
      if is_empty path
      then record w { current = none }
      else if not (is_allowed targets path)
      then record w { current = none; report = note outside_scope 1 w.report }
      else record w {
        current = none;
        unknown = w.unknown + one_if_unknown (classify p.rule p.extra);
        report = add_match path p (hashed (stat path)) w.report;
      }

  abbrev pub settle_current : Option Pending → Walk → Walk
  settle_current none w = w
  settle_current (some p) w = settle w.current_file p w

  unfoldable pub emit : Walk → Walk
  unfolding settle add_match
  emit w = settle_current w.current w

  -- A header whose path could not have been asked for is forged, and what follows it has no file.
  unfoldable pub open_file : Text → Walk → Walk
  unfolding path_is_expressible skip
  open_file p w =
      if path_is_expressible p
      then record w { current_file = p }
      else record w { current_file = []; report = skip forged_path w.report }

  abbrev pub with_tag : Text → Option Pending → Option Pending
  with_tag t none = none
  with_tag t (some p) = some (add_tag t p)

  unfoldable pub step : Walk → Line → Walk
  unfolding emit open_file add_tag
  step w junk = w
  step w (file_header p) = open_file p (emit w)
  step w (finding rule extra n) = record (emit w) { current = some (fresh rule extra n) }
  step w (tag t) = record w { current = with_tag t w.current }

  unfoldable pub walk : Walk → List Text → Walk
  unfolding step read_line
  walk w [] = w
  walk w (l ∷ ls) = walk (step w (read_line l)) ls

  unfoldable pub finish : Bool → Walk → Parsed Refusal
  unfolding note
  finish true w = record { report = w.report; problem = some unreadable }
  finish false w = record {
    report = if ltb 0 w.unknown then note (codes "unknown_rule") w.unknown w.report else w.report;
    problem = none;
  }

  abbrev pub walk_start : Walk
  walk_start = record {
    current_file = [];
    current = none;
    unknown = 0;
    report = new_scan_report slug raw;
  }

  unfoldable pub parse : Parsed Refusal
  unfolding trim_space has_substring walk emit finish new_scan_report scan_lines scan_fails
  parse =
      let text = trim_space raw.stdout in
      if is_empty text
      then record { report = new_scan_report slug raw; problem = some empty_output }
      else if not (has_substring text (codes "Scan date:"))
          && not (has_substring text (codes "File:"))
      then record { report = new_scan_report slug raw; problem = some off_format }
      else finish (scan_fails text) (emit (walk walk_start (scan_lines text)))
