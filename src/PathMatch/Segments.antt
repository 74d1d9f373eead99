-- ===== src/PathMatch/Segments.antt =====
-- `Match`, `MatchAny`, `WhichMatches` and `matchSegments`.
use sentinel_host.Prelude.{
  ℕ, Bool, true, false, List, [], ◌∷◌, map, Text, text_eq, split, trim, ◌==◌, if◌then◌else◌,
}
use sentinel_host.PathMatch.Glob.{slash, segment_match}

abbrev pub backslash : ℕ
backslash = 92

abbrev pub any_depth : Text
any_depth = b'*' ∷ b'*' ∷ []

-- `for i := 0; i <= len(path); i++`: does `g` accept some suffix?
unfoldable pub some_suffix : (List Text → Bool) → List Text → Bool
some_suffix g [] = g []
some_suffix g (x ∷ xs) = let rest = some_suffix g xs in if g (x ∷ xs) then true else rest

abbrev no_more : List Text → Bool
no_more [] = true
no_more (p ∷ ps) = false

-- A pattern segment that is not `**` takes one path segment.
unfoldable pub one_segment : Text → (List Text → Bool) → List Text → Bool
one_segment p g [] = false
one_segment p g (x ∷ path) = if segment_match p x then g path else false

unfoldable pub match_segments : List Text → List Text → Bool
unfolding some_suffix one_segment
match_segments [] path = no_more path
match_segments (p ∷ ps) path =
    let deep = some_suffix (λ s. match_segments ps s) path in
    let plain = one_segment p (λ s. match_segments ps s) path in
    if text_eq p any_depth then (if no_more ps then true else deep) else plain

abbrev pub is_slash : ℕ → Bool
is_slash c = c == slash

-- `strings.Split(strings.Trim(s, "/"), "/")`.
unfoldable pub segments : Text → List Text
unfolding split trim
segments s = split slash (trim is_slash s)

-- `strings.ReplaceAll` of a backslash by a slash.
abbrev pub forward : ℕ → ℕ
forward c = if c == backslash then slash else c

-- On Linux `filepath.ToSlash` leaves the path alone.
unfoldable pub matches : Text → Text → Bool
unfolding segments
matches pattern' path = match_segments (segments (map forward pattern')) (segments path)

unfoldable pub match_any : List Text → Text → Bool
match_any [] path = false
match_any (p ∷ ps) path = let rest = match_any ps path in if matches p path then true else rest

unfoldable pub which_matches : List Text → Text → Text
which_matches [] path = []
which_matches (p ∷ ps) path = let rest = which_matches ps path in if matches p path then p else rest
