-- ===== src/PathMatch/Tests.antt =====
-- Runs of the pattern matcher, and its theorems at concrete inputs.
use sentinel_host.Prelude.{true, false, [], ◌∷◌, List, Text, codes, ◌≡◌, refl, ◌↔◌}
use sentinel_host.PathMatch.Glob.{segment_match}
use sentinel_host.PathMatch.Segments.{any_depth, match_segments, matches, segments}
use sentinel_host.PathMatch.Relation.{Matches, match_segments_iff}

star_in_segment : segment_match (codes "*.ph[p-t]") (codes "x.php") ≡ true
unfolding segment_match
star_in_segment = refl

negated_class : segment_match (codes "[^a-c]?") (codes "bz") ≡ false
unfolding segment_match
negated_class = refl

cache_anywhere :
    matches (codes "**/wp-content/cache/**") (codes "/home/u/wp-content/cache/a/b.php") ≡ true
unfolding matches match_segments segment_match segments
cache_anywhere = refl

directory_itself : matches (codes "a/**") (codes "/a/") ≡ true
unfolding matches match_segments segment_match segments
directory_itself = refl

other_directory : matches (codes "**\\cache\\**") (codes "/home/u/cached/x") ≡ false
unfolding matches match_segments segment_match segments
other_directory = refl

abbrev cache_rule : List Text
cache_rule = any_depth ∷ codes "cache" ∷ []

abbrev cache_dir : List Text
cache_dir = codes "home" ∷ codes "cache" ∷ []

match_segments_iff_example :
    (match_segments cache_rule cache_dir ≡ true) ↔ Matches cache_rule cache_dir
match_segments_iff_example = match_segments_iff cache_rule cache_dir

abbrev rules : List Text
rules = codes "**/a.php" ∷ codes "**/cache/**" ∷ []
