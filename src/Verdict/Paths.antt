-- ===== src/Verdict/Paths.antt =====
-- `distinctPaths`: each path that the findings name, once and in order.
use sentinel_host.Prelude.{
  true, false, ◌||◌, List, [], ◌∷◌, Text, is_empty, text_eq, text_eq_iff, ◌≡◌, refl, ◌↔◌, ◌⊎◌, inl,
  inr, Bool-cases, arith, In, Distinct, any_of, any_of_intro,
}
use sentinel_host.Schema.Types.{Finding}
use sentinel_host.Verdict.Collect.{new_paths, distinct_paths}
use sentinel_host.Verdict.Sorting.{
  Ascending, sort_texts-Ascending, sort_texts-In, In-sort_texts, sort_texts-Distinct,
}

-- A finding that names the path.
abbrev pub Named : Text → List Finding → Type 0
Named p [] = ⊥
Named p (f ∷ fs) = ((f.file.path ≡ p) × (is_empty p ≡ false)) ⊎ Named p fs

seen_before :
    (p q : Text) (seen : List Text)
    → In p seen
    → p ≡ q
    → (is_empty q || any_of (λ p. text_eq p q) seen) ≡ true
seen_before p q seen i h =
    ground (arith, any_of_intro (λ p. text_eq p q) p seen i ((text_eq_iff p q).1 h))

new_paths-fresh :
    (p : Text) (seen : List Text) (fs : List Finding) → In p (new_paths seen fs) → ¬ In p seen
unfolding new_paths
new_paths-fresh p seen [] m = absurd m
new_paths-fresh p seen (f ∷ fs) m =
    let q = f.file.path in
    elim (Bool-cases (is_empty q || any_of (λ p. text_eq p q) seen)) [
      | inl e ↦ new_paths-fresh p seen fs (rw e at m)
      | inr e ↦ elim (let m' : In p (q ∷ new_paths (q ∷ seen) fs) = rw e at m in m') [
        | inl h ↦ λ i. cc (e, seen_before p q seen i h)
        | inr k ↦ λ i. new_paths-fresh p (q ∷ seen) fs k (inr i)
      ]
    ]

new_paths-Distinct : (seen : List Text) (fs : List Finding) → Distinct (new_paths seen fs)
unfolding new_paths
new_paths-Distinct seen [] = tt
new_paths-Distinct seen (f ∷ fs) = ground (
  arith,
  new_paths-Distinct seen fs,
  new_paths-Distinct (f.file.path ∷ seen) fs,
  λ (m : In f.file.path (new_paths (f.file.path ∷ seen) fs)).
      new_paths-fresh f.file.path (f.file.path ∷ seen) fs m (inl refl),
)

new_paths-Named :
    (p : Text) (seen : List Text) (fs : List Finding) → In p (new_paths seen fs) → Named p fs
unfolding new_paths
new_paths-Named p seen [] m = m
new_paths-Named p seen (f ∷ fs) m =
    ground (arith, new_paths-Named p seen fs, new_paths-Named p (f.file.path ∷ seen) fs)

seen_member : (q : Text) (seen : List Text) → any_of (λ p. text_eq p q) seen ≡ true → In q seen
seen_member q [] h = absurd (cc)
seen_member q (s ∷ seen) h = ground (arith, text_eq_iff s q, seen_member q seen)

Named-new_paths :
    (p : Text) (seen : List Text) (fs : List Finding)
    → Named p fs
    → In p seen ⊎ In p (new_paths seen fs)
unfolding new_paths
Named-new_paths p seen [] h = absurd h
Named-new_paths p seen (f ∷ fs) h = ground (
  arith,
  Named-new_paths p seen fs,
  Named-new_paths p (f.file.path ∷ seen) fs,
  seen_member f.file.path seen,
)

-- The paths of a group are in order, each stands there once, and they are exactly the paths, other
-- than the empty one, that some finding of the group names.
pub distinct_paths-exact :
    (fs : List Finding)
    → Ascending (distinct_paths fs)
      × Distinct (distinct_paths fs)
      × ((p : Text) → In p (distinct_paths fs) ↔ Named p fs)
unfolding distinct_paths
distinct_paths-exact fs = (
  sort_texts-Ascending (new_paths [] fs),
  sort_texts-Distinct (new_paths [] fs) (new_paths-Distinct [] fs),
  λ p. (
    (λ m. new_paths-Named p [] fs (sort_texts-In p (new_paths [] fs) m)),
    (λ h.
        In-sort_texts p (new_paths [] fs)
          (elim (Named-new_paths p [] fs h) [ inl none_seen ↦ absurd none_seen | inr m ↦ m ])),
  ),
)
