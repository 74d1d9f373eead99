-- ===== src/Drivers/Pmf/Parse.antt =====
-- internal/adapter/pmf/pmf.go: `Parse`, for the output of yara.
use sentinel_host.Prelude.{
  ℕ, ◌+◌, ◌-◌, ◌*◌, Bool, true, false, not, ◌&&◌, ◌||◌, Option, none, some, List, [], ◌∷◌, ◌++◌,
  Text, codes, is_empty, has_prefix, drop, ltb, leb, ◌==◌, if◌then◌else◌,
}
use sentinel_host.Prelude.Int.{is_digit}
use sentinel_host.Sched.Cron.{trim_space, cut}
use sentinel_host.Schema.Types.{ScanReport, Finding, Time}
use sentinel_host.Schema.Snippet.{sanitize_snippet}
use sentinel_host.Adapter.Paths.{RawOutput, new_scan_report}
use sentinel_host.Drivers.Lines.{scan_lines, scan_fails, re_space, take_while, drop_while}
use sentinel_host.Drivers.Hits.{
  FileStat, hashed, vanished, skip, note, with_finding, Parsed, ReadError, line_too_long,
  rule_finding,
}
use sentinel_host.Drivers.Tables.{mapping_or}
use sentinel_host.Drivers.Pmf.Rules.{classify}

abbrev pub slug : Text
slug = codes "php-malware-finder"

abbrev pub rule_ref : Text
rule_ref = codes "https://github.com/jvoisin/php-malware-finder"

abbrev is_hex_digit : ℕ → Bool
is_hex_digit c = is_digit c || ((leb b'a' c && leb c b'f') || (leb b'A' c && leb c b'F'))

abbrev hex_value : ℕ → ℕ
hex_value c = if is_digit c then c - b'0' else if leb b'a' c then c - 87 else c - 55

unfoldable pub hex_number : ℕ → Text → ℕ
hex_number acc [] = acc
hex_number acc (c ∷ s) = hex_number (acc * 16 + hex_value c) s

-- `strconv.ParseInt(s, 16, 64)` on hexadecimal digits; what does not fit is an error, and the offset
-- stays 0.
unfoldable pub offset_of : Text → ℕ
unfolding hex_number
offset_of s = if ltb (hex_number 0 s) 0x8000000000000000 then hex_number 0 s else 0

-- A matched string: where it is, and what it is.
pub record StringLine : Type 0 where
  pub offset : ℕ
  pub snippet : Text

abbrev drop_one_space : Text → Text
drop_one_space [] = []
drop_one_space (c ∷ s) = if re_space c then s else c ∷ s

-- After `0x…:`, the name of the string up to a colon, and the snippet.
unfoldable pub named_string : ℕ → Option (Text × Text) → Option StringLine
named_string off none = none
named_string off (some (name, s)) = some (record { offset = off; snippet = drop_one_space s })

unfoldable pub after_offset : Text → Text → Option StringLine
unfolding named_string offset_of cut
after_offset hex [] = none
after_offset hex (c ∷ s) =
    if not (is_empty hex) && c == b':' then named_string (offset_of hex) (cut b':' s) else none

-- `stringLineRe`.
unfoldable pub string_line : Text → Option StringLine
unfolding after_offset take_while drop_while
string_line l =
    if has_prefix l (codes "0x")
    then after_offset (take_while is_hex_digit (drop 2 l)) (drop_while is_hex_digit (drop 2 l))
    else none

pub data Line : Type 0 where
  junk : Line
  string_at : StringLine → Line
  rule_match : (rule path : Text) → Line

-- A line `RULE PATH`.
unfoldable pub match_line : Option (Text × Text) → Line
unfolding trim_space
match_line none = junk
match_line (some (rule, path)) =
    if is_empty rule || is_empty path then junk else rule_match rule (trim_space path)

abbrev pub string_or : Option StringLine → Line → Line
string_or none l = l
string_or (some s) l = string_at s

unfoldable pub read_line : Text → Line
unfolding match_line string_line cut trim_space
read_line l =
    if is_empty (trim_space l) then junk else string_or (string_line l) (match_line (cut 32 l))

pub record Pending : Type 0 where
  pub rule : Text
  pub path : Text
  pub strings : List Text
  pub offset : ℕ

abbrev pub fresh : (rule path : Text) → Pending
fresh rule path = record { rule = rule; path = path; strings = []; offset = 0 }

abbrev first_offset : List Text → ℕ → ℕ → ℕ
first_offset [] new old = new
first_offset (s ∷ ss) new old = old

unfoldable pub add_string : StringLine → Pending → Pending
add_string s p = record p {
  strings = p.strings ++ s.snippet ∷ [];
  offset = first_offset p.strings s.offset p.offset;
}

-- `strings.Join(parts, " | ")`.
unfoldable pub join_parts : List Text → Text
join_parts [] = []
join_parts (s ∷ []) = s
join_parts (s ∷ t ∷ ss) = s ++ (codes " | " ++ join_parts (t ∷ ss))

abbrev pub one_if_unknown : {A : Type 0} → Option A → ℕ
one_if_unknown none = 1
one_if_unknown (some m) = 0

module _ (stat : Text → Option FileStat) (raw : RawOutput) (now : Time) where
  unfoldable pub match_finding : Pending → FileStat → Finding
  unfolding rule_finding sanitize_snippet join_parts classify mapping_or
  match_finding p st =
      rule_finding slug rule_ref p.rule p.path (sanitize_snippet (join_parts p.strings)) p.offset
        raw now st (mapping_or (classify p.rule))

  unfoldable pub add_match : Pending → Option FileStat → ScanReport → ScanReport
  unfolding skip with_finding
  add_match p none r = skip vanished r
  add_match p (some st) r = with_finding (match_finding p st) r

  pub record Walk : Type 0 where
    pub current : Option Pending
    pub unknown : ℕ
    pub report : ScanReport

  abbrev pub settle : Option Pending → Walk → Walk
  settle none w = w
  settle (some p) w = record {
    current = none;
    unknown = w.unknown + one_if_unknown (classify p.rule);
    report = add_match p (hashed (stat p.path)) w.report;
  }

  unfoldable pub flush : Walk → Walk
  unfolding add_match hashed classify
  flush w = settle w.current w

  abbrev pub with_string : StringLine → Option Pending → Option Pending
  with_string s none = none
  with_string s (some p) = some (add_string s p)

  unfoldable pub step : Walk → Line → Walk
  unfolding flush add_string
  step w junk = w
  step w (string_at s) = record w { current = with_string s w.current }
  step w (rule_match rule path) = record (flush w) { current = some (fresh rule path) }

  unfoldable pub walk : Walk → List Text → Walk
  unfolding step read_line
  walk w [] = w
  walk w (l ∷ ls) = walk (step w (read_line l)) ls

  unfoldable pub finish : Bool → Walk → Parsed ReadError
  unfolding note
  finish true w = record { report = w.report; problem = some line_too_long }
  finish false w = record {
    report = if ltb 0 w.unknown then note (codes "unknown_rule") w.unknown w.report else w.report;
    problem = none;
  }

  -- An empty output is no error here: yara prints nothing where no rule matches.
  unfoldable pub parse : Parsed ReadError
  unfolding walk flush finish new_scan_report scan_lines scan_fails
  parse = finish (scan_fails raw.stdout) (
      flush (
        walk (record { current = none; unknown = 0; report = new_scan_report slug raw })
          (scan_lines raw.stdout)))
