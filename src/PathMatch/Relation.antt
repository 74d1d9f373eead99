-- ===== src/PathMatch/Relation.antt =====
-- What it means for a list of path segments to match a pattern, with no search order in it, and that
-- `matchSegments` decides it.
use sentinel_host.Prelude.{
  Bool, true, false, List, [], ◌∷◌, Text, text_eq, ◌≡◌, refl, ◌↔◌, inl, inr, Bool-cases, arith,
}
use sentinel_host.PathMatch.Glob.{segment_match}
use sentinel_host.PathMatch.Segments.{any_depth, some_suffix, one_segment, match_segments}

pub data Matches : List Text → List Text → Type 0 where
  done : Matches [] []
  nothing :
      {p : Text} {ps s : List Text} → text_eq p any_depth ≡ true → Matches ps s → Matches (p ∷ ps) s
  deeper :
      {p : Text} {ps s : List Text} {x : Text}
      → text_eq p any_depth ≡ true
      → Matches (p ∷ ps) s
      → Matches (p ∷ ps) (x ∷ s)
  segment :
      {p : Text} {ps s : List Text} {x : Text}
      → text_eq p any_depth ≡ false
      → segment_match p x ≡ true
      → Matches ps s
      → Matches (p ∷ ps) (x ∷ s)

-- A trailing `**` takes everything that is left.
Matches-rest : (p : Text) (s : List Text) → text_eq p any_depth ≡ true → Matches (p ∷ []) s
Matches-rest p [] h = nothing h done
Matches-rest p (x ∷ s) h = deeper h (Matches-rest p s h)

some_suffix_sound :
    (p : Text) (ps : List Text) (g : List Text → Bool)
    → text_eq p any_depth ≡ true
    → ((s : List Text) → g s ≡ true → Matches ps s)
    → (s : List Text) → some_suffix g s ≡ true
    → Matches (p ∷ ps) s
unfolding some_suffix
some_suffix_sound p ps g h sound [] e = nothing h (sound [] e)
some_suffix_sound p ps g h sound (x ∷ s) e = elim (Bool-cases (g (x ∷ s))) [
  | inl here ↦ nothing h (sound (x ∷ s) here)
  | inr later ↦ deeper h (some_suffix_sound p ps g h sound s (rw later at e))
]

one_segment_sound :
    (p : Text) (ps : List Text) (g : List Text → Bool)
    → text_eq p any_depth ≡ false
    → ((s : List Text) → g s ≡ true → Matches ps s)
    → (s : List Text) → one_segment p g s ≡ true
    → Matches (p ∷ ps) s
unfolding one_segment
one_segment_sound p ps g h sound [] e = absurd (cc)
one_segment_sound p ps g h sound (x ∷ s) e = elim (Bool-cases (segment_match p x)) [
  | inl fits ↦ segment h fits (sound s (rw fits at e))
  | inr misses ↦ absurd (cc (rw misses at e))
]

match_segments_sound : (ps s : List Text) → match_segments ps s ≡ true → Matches ps s
unfolding match_segments
match_segments_sound [] [] e = done
match_segments_sound [] (x ∷ s) e = absurd (cc)
match_segments_sound (p ∷ []) s e = elim (Bool-cases (text_eq p any_depth)) [
  | inl h ↦ Matches-rest p s h
  | inr h ↦ one_segment_sound p [] _ h (match_segments_sound []) s (rw h at e)
]
match_segments_sound (p ∷ q ∷ ps) s e = elim (Bool-cases (text_eq p any_depth)) [
  | inl h ↦ some_suffix_sound p (q ∷ ps) _ h (match_segments_sound (q ∷ ps)) s (rw h at e)
  | inr h ↦ one_segment_sound p (q ∷ ps) _ h (match_segments_sound (q ∷ ps)) s (rw h at e)
]

some_suffix_complete :
    (p : Text) (ps : List Text) (g : List Text → Bool)
    → text_eq p any_depth ≡ true
    → ((s : List Text) → Matches ps s → g s ≡ true)
    → {s : List Text} → Matches (p ∷ ps) s
    → some_suffix g s ≡ true
unfolding some_suffix
some_suffix_complete p ps g h complete {s = []} (nothing _ m) = complete [] m
some_suffix_complete p ps g h complete {s = x ∷ s} (nothing _ m) = rw (complete (x ∷ s) m)
some_suffix_complete p ps g h complete (deeper _ m) =
    ground (arith, some_suffix_complete p ps g h complete m)
some_suffix_complete p ps g h complete (segment e _ _) = absurd (cc)

one_segment_complete :
    (p : Text) (ps : List Text) (g : List Text → Bool)
    → text_eq p any_depth ≡ false
    → ((s : List Text) → Matches ps s → g s ≡ true)
    → {s : List Text} → Matches (p ∷ ps) s
    → one_segment p g s ≡ true
unfolding one_segment
one_segment_complete p ps g h complete (nothing e m) = absurd (cc)
one_segment_complete p ps g h complete (deeper e m) = absurd (cc)
one_segment_complete p ps g h complete (segment _ fits m) = rw fits (complete _ m)

match_segments_complete : (ps s : List Text) → Matches ps s → match_segments ps s ≡ true
unfolding match_segments
match_segments_complete [] s done = refl
match_segments_complete (p ∷ []) s m = elim (Bool-cases (text_eq p any_depth)) [
  | inl h ↦ rw h
  | inr h ↦ rw h (one_segment_complete p [] _ h (match_segments_complete []) m)
]
match_segments_complete (p ∷ q ∷ ps) s m = elim (Bool-cases (text_eq p any_depth)) [
  | inl h ↦ rw h (some_suffix_complete p (q ∷ ps) _ h (match_segments_complete (q ∷ ps)) m)
  | inr h ↦ rw h (one_segment_complete p (q ∷ ps) _ h (match_segments_complete (q ∷ ps)) m)
]

-- `matchSegments` answers true exactly when the segments match the pattern in the sense of the
-- relation `Matches`, where `**` takes any number of segments, none included, and any other pattern
-- segment takes one.
pub match_segments_iff : (ps s : List Text) → (match_segments ps s ≡ true) ↔ Matches ps s
match_segments_iff ps s = (match_segments_sound ps s, match_segments_complete ps s)
