-- ===== src/Drivers/Lines.antt =====
-- The reading of an engine's output that the drivers share: the lines of a `bufio.Scanner` whose buffer
-- is 4 MiB, and the functions of `strings` and the regular expressions' classes. Of the letters and
-- spaces outside ASCII none is folded or trimmed here.
use sentinel_host.Prelude.{
  ℕ, ◌-◌, Bool, ◌||◌, Option, none, some, List, [], ◌∷◌, map, Text, has_prefix, split, leb, ◌==◌,
  any_of, length, if◌then◌else◌,
}

abbrev pub max_line : ℕ
max_line = 0x400000

-- A line that fills the buffer before its end is found.
abbrev pub too_long : Text → Bool
too_long l = leb max_line (length l)

-- `bufio.ScanLines` drops one carriage return at the end.
unfoldable pub drop_cr : Text → Text
drop_cr [] = []
drop_cr (c ∷ []) = if c == 13 then [] else c ∷ []
drop_cr (c ∷ d ∷ s) = c ∷ drop_cr (d ∷ s)

-- The lines before the first that is too long.
unfoldable pub readable : List Text → List Text
unfolding drop_cr
readable [] = []
readable (l ∷ ls) = if too_long l then [] else drop_cr l ∷ readable ls

-- The lines that `sc.Scan` gives. Where the text ends in a line feed this list ends in an empty line
-- that `Scan` does not give; the drivers skip empty lines.
unfoldable pub scan_lines : Text → List Text
unfolding readable
scan_lines t = readable (split 10 t)

-- `sc.Err() != nil`.
unfoldable pub scan_fails : Text → Bool
scan_fails t = any_of too_long (split 10 t)

abbrev pub upper_byte : ℕ → ℕ
upper_byte c = if leb b'a' c then (if leb c b'z' then c - 32 else c) else c

-- `strings.ToUpper`.
unfoldable pub to_upper : Text → Text
to_upper s = map upper_byte s

-- `strings.Contains`.
unfoldable pub has_substring : Text → Text → Bool
has_substring [] t = has_prefix [] t
has_substring (c ∷ s) t = has_prefix (c ∷ s) t || has_substring s t

abbrev pub cons_some : ℕ → Option Text → Option Text
cons_some c none = none
cons_some c (some t) = some (c ∷ t)

-- What stands before the first `sep`, as `strings.Cut` finds it.
unfoldable pub before : Text → Text → Option Text
before sep [] = if has_prefix [] sep then some [] else none
before sep (c ∷ s) =
    let rest = before sep s in if has_prefix (c ∷ s) sep then some [] else cons_some c rest

-- The class `\s`.
abbrev pub re_space : ℕ → Bool
re_space c = c == 32 || (c == 9 || (c == 10 || (c == 12 || c == 13)))

-- The longest start whose bytes pass a test, and what comes after it.
unfoldable pub take_while : (ℕ → Bool) → Text → Text
take_while p [] = []
take_while p (c ∷ s) = let rest = take_while p s in if p c then c ∷ rest else []

unfoldable pub drop_while : (ℕ → Bool) → Text → Text
drop_while p [] = []
drop_while p (c ∷ s) = let rest = drop_while p s in if p c then rest else c ∷ s
