-- ===== src/PathMatch/Rules.antt =====
-- Rules that a user of the patterns relies on: `dir/**` covers the directory and all below it, and
-- `WhichMatches` names the first rule that matches.
use sentinel_host.Prelude.{
  true, false, List, [], ◌∷◌, ◌++◌, Text, ◌≡◌, refl, ◌⊎◌, inl, inr, Bool-cases, All,
}
use mathlib.Core.List.{append-nil}
use sentinel_host.PathMatch.Segments.{any_depth, match_segments, matches, match_any, which_matches}
use sentinel_host.PathMatch.Relation.{Matches, done, nothing, deeper, segment, match_segments_iff}

rest_any : (s : List Text) → Matches (any_depth ∷ []) s
rest_any [] = nothing refl done
rest_any (x ∷ s) = deeper refl (rest_any s)

below-Matches :
    {ps s : List Text} (t : List Text) → Matches ps s → Matches (ps ++ any_depth ∷ []) (s ++ t)
below-Matches t done = rest_any t
below-Matches t (nothing h m) = nothing h (below-Matches t m)
below-Matches t (deeper h m) = deeper h (below-Matches t m)
below-Matches t (segment h fits m) = segment h fits (below-Matches t m)

-- If the segments `s` match the pattern `ps`, then `ps` followed by `**` matches `s` with anything
-- below it, and `s` itself.
match_segments-below :
    (ps s t : List Text)
    → match_segments ps s ≡ true
    → (match_segments (ps ++ any_depth ∷ []) (s ++ t) ≡ true)
      × (match_segments (ps ++ any_depth ∷ []) s ≡ true)
match_segments-below ps s t h =
    let m = (match_segments_iff ps s).0 h in
    (
      (match_segments_iff _ _).1 (below-Matches t m),
      (match_segments_iff _ _).1 (rw append-nil at (below-Matches [] m)),
    )

-- The rules before `p` do not match, and `p` does.
pub data First (path : Text) (p : Text) : List Text → Type 0 where
  here : {ps : List Text} → matches p path ≡ true → First path p (p ∷ ps)
  later :
      {q : Text} {ps : List Text} → matches q path ≡ false → First path p ps → First path p (q ∷ ps)

-- `WhichMatches` returns the first pattern of the list that matches the path, and the empty text when
-- none does; `MatchAny` says which of the two it is.
which_matches-First :
    (ps : List Text) (path : Text)
    → ((match_any ps path ≡ true) × First path (which_matches ps path) ps)
      ⊎ ((match_any ps path ≡ false)
          × (which_matches ps path ≡ [])
          × All (λ p. matches p path ≡ false) ps)
unfolding match_any which_matches
which_matches-First [] path = inr (refl, refl, tt)
which_matches-First (p ∷ ps) path = elim (Bool-cases (matches p path)) [
  | inl h ↦ inl (rw h, rw h (here h))
  | inr h ↦ elim (which_matches-First ps path) [
    | inl (a, f) ↦ inl (rw h a, rw h (later h f))
    | inr (a, e, none_fits) ↦ inr (rw h a, rw h e, (h, none_fits))
  ]
]
