-- ===== src/Sched/Cron.antt =====
-- cron.go. White space is that of ASCII. `int` has 64 bits, and its sum wraps around.
use sentinel_host.Prelude.{
  ℕ, zero, suc, Bool, true, false, not, ◌||◌, ◌&&◌, ◌+◌, ◌-◌, Option, none, some, List, [], ◌∷◌,
  ◌++◌, Text, text_eq, is_empty, codes, split, trim, length, any_of, ltb, leb, ◌==◌, if◌then◌else◌,
}
use sentinel_host.Prelude.Int.{ℤ, pos, negsuc, le_int, lt_int, atoi}

pub record Schedule : Type 0 where
  pub minutes : List ℤ
  pub hours : List ℤ
  pub days : List ℤ
  pub months : List ℤ
  pub weekdays : List ℤ

-- `v + step` for a step that is not negative.
unfoldable pub add_wrapped : ℤ → ℕ → ℤ
add_wrapped (pos a) step =
    if ltb (a + step) 0x8000000000000000
    then pos (a + step)
    else negsuc (0x10000000000000000 - (a + step) - 1)
add_wrapped (negsuc a) step = if leb step a then negsuc (a - step) else pos (step - a - 1)

-- `for v := start; v <= end; v += step`, for at most `fuel` rounds.
unfoldable pub values_from : ℕ → ℤ → ℤ → ℕ → List ℤ
values_from zero v end step = []
values_from (suc fuel) v end step = elim (le_int v end) [
  | true ↦ v ∷ values_from fuel (add_wrapped v step) end step
  | false ↦ []
]

abbrev pub eq_int : ℤ → ℤ → Bool
eq_int a b = le_int a b && le_int b a

abbrev pub contains : List ℤ → ℤ → Bool
contains vs v = any_of (λ x. eq_int x v) vs

-- `if !seen[v] { … out = append(out, v) }` for all values.
unfoldable pub append_new : List ℤ → List ℤ → List ℤ
append_new out [] = out
append_new out (v ∷ vs) = append_new (if contains out v then out else out ++ v ∷ []) vs

abbrev pub is_space : ℕ → Bool
is_space c = c == 32 || (leb 9 c && leb c 13)

-- `strings.TrimSpace`.
unfoldable pub trim_space : Text → Text
unfolding trim
trim_space s = trim is_space s

-- `strings.Cut` at one byte: before, after, and whether it was found.
abbrev pub cons_before : ℕ → Option (Text × Text) → Option (Text × Text)
cons_before c none = none
cons_before c (some (a, b)) = some (c ∷ a, b)

unfoldable pub cut : ℕ → Text → Option (Text × Text)
cut sep [] = none
cut sep (c ∷ s) = let rest = cut sep s in if c == sep then some ([], s) else cons_before c rest

-- The step of a part, which must be positive, and what stands before it.
unfoldable pub positive_step : Option ℤ → Option ℕ
positive_step (some (pos (suc n))) = some (suc n)
positive_step _ = none

unfoldable pub step_of : Text → Option (Text × Text) → Option (Text × ℕ)
step_of part none = some (part, 1)
step_of part (some (base, p)) = elim (positive_step (atoi p)) [
  | none ↦ none
  | some n ↦ some (base, n)
]

abbrev pub both : Option ℤ → Option ℤ → Option (ℤ × ℤ)
both (some a) (some b) = some (a, b)
both (some a) none = none
both none b = none

unfoldable pub bounds_of : Text → ℕ → ℕ → Option (Text × Text) → Option (ℤ × ℤ)
unfolding trim_space
bounds_of part min max (some (a, b)) = both (atoi (trim_space a)) (atoi (trim_space b))
bounds_of part min max none = both (atoi part) (atoi part)

unfoldable pub range_of : Text → ℕ → ℕ → Option (ℤ × ℤ)
unfolding bounds_of cut
range_of part min max =
    if text_eq part (codes "*")
    then some (pos min, pos max)
    else bounds_of part min max (cut b'-' part)

-- Enough rounds for 60 values.
abbrev pub rounds : ℕ
rounds = 128

unfoldable pub checked_values : ℕ → ℕ → ℕ → Option (ℤ × ℤ) → Option (List ℤ)
unfolding values_from
checked_values min max step none = none
checked_values min max step (some (start, end)) =
    if lt_int start (pos min) || (lt_int (pos max) end || lt_int end start)
    then none
    else some (values_from rounds start end step)

unfoldable pub stepped_values : ℕ → ℕ → Option (Text × ℕ) → Option (List ℤ)
unfolding range_of checked_values
stepped_values min max none = none
stepped_values min max (some (part, step)) = checked_values min max step (range_of part min max)

-- The values of one part of a list.
unfoldable pub part_values : ℕ → ℕ → Text → Option (List ℤ)
unfolding stepped_values step_of cut
part_values min max part =
    if is_empty part then none else stepped_values min max (step_of part (cut b'/' part))

unfoldable pub parse_parts : ℕ → ℕ → List ℤ → List Text → Option (List ℤ)
unfolding part_values append_new trim_space
parse_parts min max out [] = some out
parse_parts min max out (part ∷ parts) = elim (part_values min max (trim_space part)) [
  | none ↦ none
  | some vs ↦ parse_parts min max (append_new out vs) parts
]

abbrev pub non_empty : Option (List ℤ) → Option (List ℤ)
non_empty none = none
non_empty (some []) = none
non_empty (some (v ∷ vs)) = some (v ∷ vs)

unfoldable pub parse_field : Text → ℕ → ℕ → Option (List ℤ)
unfolding parse_parts split
parse_field field min max = non_empty (parse_parts min max [] (split b',' field))

-- `strings.Fields`: the parts between white space.
abbrev pub add_byte : ℕ → Bool → List Text → List Text
add_byte c starts [] = (c ∷ []) ∷ []
add_byte c true (p ∷ ps) = (c ∷ []) ∷ p ∷ ps
add_byte c false (p ∷ ps) = (c ∷ p) ∷ ps

abbrev pub starts_space : Text → Bool
starts_space [] = true
starts_space (c ∷ s) = is_space c

unfoldable pub fields : Text → List Text
fields [] = []
fields (c ∷ s) =
    let rest = fields s in if is_space c then rest else add_byte c (starts_space s) rest

abbrev pub schedule_of :
    Option (List ℤ)
    → Option (List ℤ)
    → Option (List ℤ)
    → Option (List ℤ)
    → Option (List ℤ)
    → Option Schedule
schedule_of (some mi) (some h) (some d) (some mo) (some w) =
    some (record { minutes = mi; hours = h; days = d; months = mo; weekdays = w })
schedule_of _ _ _ _ _ = none

unfoldable pub parse_fields : List Text → Option Schedule
unfolding parse_field
parse_fields (mi ∷ h ∷ d ∷ mo ∷ w ∷ []) =
    schedule_of (parse_field mi 0 59) (parse_field h 0 23) (parse_field d 1 31)
      (parse_field mo 1 12) (parse_field w 0 6)
parse_fields _ = none

unfoldable pub parse_cron : Text → Option Schedule
unfolding parse_fields fields
parse_cron expr = parse_fields (fields expr)

-- The fields of a `time.Time` that a schedule reads.
pub record Moment : Type 0 where
  pub minute : ℕ
  pub hour : ℕ
  pub day : ℕ
  pub month : ℕ
  pub weekday : ℕ

unfoldable pub schedule_matches : Schedule → Moment → Bool
schedule_matches s t =
    let day_restricted = ltb (length s.days) 31 in
    let week_restricted = ltb (length s.weekdays) 7 in
    let day_matches = contains s.days (pos t.day) in
    let week_matches = contains s.weekdays (pos t.weekday) in
    if not (contains s.minutes (pos t.minute))
      || (not (contains s.hours (pos t.hour)) || not (contains s.months (pos t.month)))
    then false
    else if day_restricted && week_restricted
    then day_matches || week_matches
    else if day_restricted
    then day_matches
    else if week_restricted
    then week_matches
    else true
