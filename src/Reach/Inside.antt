-- ===== src/Reach/Inside.antt =====
-- What `under` decides, and when a location makes the tool hold back.
use mathlib.Core.List.{append_assoc}
use sentinel_host.Prelude.{
  true, false, List, [], ◌∷◌, ◌++◌, Text, text_eq, text_eq_iff, has_prefix, is_empty, ◌≡◌, refl,
  sym, ◌∙◌, ◌↔◌, ◌⊎◌, inl, inr, Bool-cases, arith, any_of, All, ◌==◌,
}
use sentinel_host.PathMatch.Glob.{slash}
use sentinel_host.Reach.Classify.{
  Classifier, reachable, under, normalize, in_trash, is_nil, location_of,
}

has_prefix_iff : (s t : Text) → (has_prefix s t ≡ true) ↔ ((rest : Text) × (s ≡ t ++ rest))
has_prefix_iff s [] = ((λ h. (s, refl)), (λ h. refl))
has_prefix_iff [] (d ∷ t) = ((λ h. absurd (cc)), (λ h. absurd (let q = h.1 in cc q)))
has_prefix_iff (c ∷ s) (d ∷ t) =
    let (to, from) = has_prefix_iff s t in
    (
      (λ h. elim (Bool-cases (c == d)) [
        | inl e ↦
            let (rest, q) = to (ground arith) in
            let same : c ≡ d = ground arith in (rest, cc (same, q))
        | inr e ↦ absurd (ground arith)
      ]),
      (λ (rest, q).
          let same : c ≡ d = cc q in
          let tail : s ≡ t ++ rest = cc q in let k = from (rest, tail) in ground arith),
    )

-- The path is the directory, or the directory followed by a slash and anything.
abbrev pub Inside : Text → Text → Type 0
Inside p dir = (p ≡ dir) ⊎ ((rest : Text) × (p ≡ dir ++ slash ∷ rest))

-- `under` decides whether a path is a directory or something inside it: a directory whose name only
-- begins like it is not meant.
under-Inside : (p dir : Text) → (under p dir ≡ true) ↔ Inside p dir
unfolding under
under-Inside p dir =
    let (to, from) = has_prefix_iff p (dir ++ slash ∷ []) in
    let (same, eq) = text_eq_iff p dir in
    (
      (λ h. elim (Bool-cases (text_eq p dir)) [
        | inl e ↦ inl (same e)
        | inr e ↦
            let (rest, q) = to (ground arith) in inr (rest, q ∙ append_assoc dir (slash ∷ []) rest)
      ]),
      (λ h. elim h [
        | inl q ↦ ground (arith, eq q)
        | inr (rest, q) ↦
            let k = from (rest, q ∙ sym (append_assoc dir (slash ∷ []) rest)) in ground arith
      ]),
    )

outside-All :
    (p : Text) (roots : List Text)
    → (any_of (λ root. under p root) roots ≡ false) ↔ All (λ root. ¬ Inside p root) roots
outside-All p [] = ((λ h. tt), (λ h. refl))
outside-All p (r ∷ roots) =
    let (to, from) = outside-All p roots in
    let (inside, decided) = under-Inside p r in
    (
      (λ h. (
        (λ i. let k = decided i in cc (k, h)),
        to (elim (Bool-cases (under p r)) [ inl e ↦ absurd (ground arith) | inr e ↦ ground arith ]),
      )),
      (λ h. elim (Bool-cases (under p r)) [
        | inl e ↦ absurd (h.0 (inside e))
        | inr e ↦ let rest = from h.1 in ground arith
      ]),
    )

-- A location makes the tool hold back exactly when the path, normalised, is not empty and either lies in
-- a trash, or document roots are configured and it is inside none of them.
pub location_of-Inside :
    (absolute : Text → Text) (c : Classifier) (path : Text)
    → let p = normalize absolute path in
      (reachable (location_of absolute c path) ≡ false) ↔ (
        (is_empty p ≡ false)
        × ((in_trash absolute c p ≡ true)
            ⊎ ((is_nil absolute c.doc_roots ≡ false) × All (λ root. ¬ Inside p root) c.doc_roots)))
unfolding location_of reachable
location_of-Inside absolute c path =
    let p = normalize absolute path in
    let (to, from) = outside-All p c.doc_roots in ground (arith, to, from)
