-- ===== src/Drivers/Amwscan/Lines.antt =====
-- internal/adapter/amwscan/amwscan.go: the lines of a report, by the regular expressions of `Parse`.
use sentinel_host.Prelude.{
  ℕ, Bool, true, false, not, ◌&&◌, ◌||◌, Option, none, some, [], ◌∷◌, Text, codes, is_empty,
  has_prefix, drop, trim, leb, ◌==◌, if◌then◌else◌,
}
use sentinel_host.Prelude.Int.{ℤ, pos, atoi, is_digit}
use sentinel_host.Sched.Cron.{trim_space, cut}
use sentinel_host.Drivers.Lines.{re_space, take_while, drop_while}

abbrev last_byte : Text → Option Text
last_byte [] = none
last_byte (c ∷ []) = some (c ∷ [])
last_byte (c ∷ d ∷ s) = last_byte (d ∷ s)

-- `\s*(.+?)\s*$`: the group. Of spaces alone it is the last.
unfoldable pub trimmed_group : Text → Option Text
trimmed_group s = let t = trim re_space s in if is_empty t then last_byte s else some t

-- What a finding line ends in: a detail in parentheses and a line number, each of which may be missing.
pub record Tail : Type 0 where
  pub detail : Text
  pub number : Text

abbrev tail_end : Text → Tail → Option Tail
tail_end s t = if is_empty (drop_while re_space s) then some t else none

-- After `[line`: spaces, digits, and what follows the bracket.
abbrev closed_number : Text → Text → Option (Text × Text)
closed_number ds [] = none
closed_number ds (c ∷ s) = if not (is_empty ds) && c == b']' then some (ds, s) else none

abbrev line_number : Text → Option (Text × Text)
line_number [] = none
line_number (c ∷ s) =
    if re_space c
    then closed_number (take_while is_digit (drop_while re_space s))
        (drop_while is_digit (drop_while re_space s))
    else none

abbrev with_number : Text → Text → Option (Text × Text) → Option Tail
with_number detail s none = tail_end s (record { detail = detail; number = [] })
with_number detail s (some (ds, rest)) = tail_end rest (record { detail = detail; number = ds })

unfoldable pub after_detail : (detail rest : Text) → Option Tail
unfolding take_while drop_while
after_detail detail rest =
    let s = drop_while re_space rest in
    with_number detail s (if has_prefix s (codes "[line") then line_number (drop 5 s) else none)

abbrev with_detail : Text → Option (Text × Text) → Option Tail
with_detail s none = after_detail [] s
with_detail s (some (detail, rest)) = after_detail detail rest

abbrev in_parens : Text → Option (Text × Text)
in_parens [] = none
in_parens (c ∷ s) = if c == b'(' then cut b')' s else none

-- `\s*(?:\(([^)]*)\))?\s*(?:\[line\s+(\d+)\])?\s*$`.
unfoldable pub tail_of : Text → Option Tail
unfolding after_detail cut
tail_of s = let t = drop_while re_space s in with_detail t (in_parens t)

abbrev no_tail : Tail
no_tail = record { detail = []; number = [] }

abbrev cons_rule : ℕ → Option Tail → Text × Tail → Text × Tail
cons_rule c none (rule, t) = (c ∷ rule, t)
cons_rule c (some t) more = (c ∷ [], t)

-- The shortest rule, of at least one byte, that such a tail follows.
unfoldable pub rule_then_tail : Text → Text × Tail
unfolding tail_of
rule_then_tail [] = ([], no_tail)
rule_then_tail (c ∷ s) = let more = rule_then_tail s in cons_rule c (tail_of s) more

-- After `[!]`: spaces alone still are a rule, of one space.
unfoldable pub after_mark : Text → Option (Text × Tail)
unfolding rule_then_tail
after_mark [] = none
after_mark (c ∷ s) = some (rule_then_tail (drop_while re_space (c ∷ s)))

abbrev mark : Text → Option (Text × Tail)
mark s =
    if has_prefix s (codes "[!]") || has_prefix s (codes "[*]") then after_mark (drop 3 s) else none

-- `findingRe`: the rule as it is trimmed afterwards, and its tail.
unfoldable pub finding_line : Text → Option (Text × Tail)
unfolding after_mark
finding_line l =
    let s = drop_while re_space l in
    if has_prefix s (codes "=>") then mark (drop_while re_space (drop 2 s)) else none

-- `tagRe`.
unfoldable pub tag_line : Text → Option Text
unfolding trimmed_group
tag_line [] = none
tag_line (c ∷ l) =
    let s = drop_while re_space (c ∷ l) in
    if re_space c && has_prefix s (codes "=>") then trimmed_group (drop 2 s) else none

abbrev is_letter : ℕ → Bool
is_letter c = (leb b'a' c && leb c b'z') || (leb b'A' c && leb c b'Z')

abbrev colon_end : Text → Bool
colon_end [] = false
colon_end (c ∷ s) = c == b':' && is_empty (drop_while re_space s)

-- `sectionRe`.
unfoldable pub is_section : Text → Bool
is_section [] = false
is_section (c ∷ s) = is_letter c && colon_end (drop_while (λ b. is_letter b || b == 32) s)

abbrev after_word : Text → Text → Text → Option Text
after_word word l s = if has_prefix l word then trimmed_group s else none

-- A line of the report, by the first expression that takes it; `junk` changes nothing.
pub data Line : Type 0 where
  junk : Line
  file_header tag : Text → Line
  finding : (rule detail : Text) → ℕ → Line

-- `strconv.ParseInt` on digits, 0 for what does not fit.
unfoldable pub line_value : Option ℤ → ℕ
line_value (some (pos n)) = n
line_value _ = 0

abbrev tag_or_junk : Option Text → Line
tag_or_junk none = junk
tag_or_junk (some t) = tag (trim_space t)

abbrev finding_or : Option (Text × Tail) → Line → Line
finding_or none l = l
finding_or (some (rule, t)) l =
    finding (trim_space rule) (trim_space t.detail) (line_value (atoi t.number))

abbrev header_or : Option Text → Line → Line
header_or none l = l
header_or (some p) l = file_header p

abbrev is_some_text : Option Text → Bool
is_some_text none = false
is_some_text (some t) = true

unfoldable pub read_line : Text → Line
unfolding finding_line tag_line is_section line_value trim_space trimmed_group
read_line l =
    if is_empty (trim_space l)
    then junk
    else if is_some_text (after_word (codes "Scan date:") l (drop 10 l))
    then junk
    else header_or (after_word (codes "File:") l (drop 5 l))
        (finding_or (finding_line l) (if is_section l then junk else tag_or_junk (tag_line l)))
