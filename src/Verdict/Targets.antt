-- ===== src/Verdict/Targets.antt =====
-- The targets of verdicts (a content and a path), and where the findings of a group stand.
use sentinel_host.Prelude.{
  false, List, [], ◌∷◌, ◌++◌, Text, is_empty, text_eq, text_eq_iff, ◌≡◌, refl, sym, ap, inl, inr,
  Bool-cases, arith, In, Distinct, In-append, if◌then◌else◌,
}
use sentinel_host.Schema.Types.{Finding, Verdict}
use sentinel_host.Verdict.Collect.{keys}
use sentinel_host.Verdict.Consolidate.{findings_of, for_paths}
use sentinel_host.Verdict.Groups.{Grouped}
use sentinel_host.Verdict.Paths.{Named}

pub Grouped-key :
    (f : Finding) (k : Text) (m : List (Text × List Finding)) → Grouped f k m → In k (keys m)
Grouped-key f k [] h = h
Grouped-key f k ((j, fs) ∷ m) (inl h) = inl (sym h.0)
Grouped-key f k ((j, fs) ∷ m) (inr h) = inr (Grouped-key f k m h)

pub findings_of-cons :
    (k j : Text) (fs : List Finding) (m : List (Text × List Finding))
    → findings_of k ((j, fs) ∷ m) ≡ (if text_eq j k then fs else findings_of k m)
findings_of-cons k j fs m = ground arith

pub Grouped-findings :
    (f : Finding) (k : Text) (m : List (Text × List Finding))
    → Distinct (keys m)
    → Grouped f k m
    → In f (findings_of k m)
Grouped-findings f k [] d h = absurd h
Grouped-findings f k ((j, fs) ∷ m) d (inl h) =
    rw (findings_of-cons k j fs m) (rw ((text_eq_iff j k).1 h.0) h.1)
Grouped-findings f k ((j, fs) ∷ m) d (inr h) = elim (Bool-cases (text_eq j k)) [
  | inl e ↦ absurd (d.0 (rw ((text_eq_iff j k).0 e) (Grouped-key f k m h)))
  | inr e ↦ rw (findings_of-cons k j fs m) (rw e (Grouped-findings f k m d.1 h))
]

pub for_paths-In :
    (g : Text → Verdict) (p : Text) (ps : List Text) → In p ps → In (g p) (for_paths g ps)
for_paths-In g p [] h = h
for_paths-In g p (q ∷ ps) (inl e) = inl (ap g e)
for_paths-In g p (q ∷ ps) (inr h) = inr (for_paths-In g p ps h)

pub In-Named :
    (f : Finding) (fs : List Finding)
    → In f fs
    → is_empty f.file.path ≡ false
    → Named f.file.path fs
In-Named f [] h e = h
In-Named f (g ∷ fs) (inl q) e = inl (ap (λ (x : Finding). x.file.path) (sym q), e)
In-Named f (g ∷ fs) (inr h) e = inr (In-Named f fs h e)

-- The content and the path of a verdict.
abbrev pub target : Verdict → Text × Text
target v = (v.file_sha256, v.file_path)

abbrev pub targets : List Verdict → List (Text × Text)
targets [] = []
targets (v ∷ vs) = target v ∷ targets vs

pub targets-append : (vs ws : List Verdict) → targets (vs ++ ws) ≡ targets vs ++ targets ws
targets-append [] ws = refl
targets-append (v ∷ vs) ws = ap (λ t. target v ∷ t) (targets-append vs ws)

pub Distinct-append :
    {A : Type 0} (xs ys : List A)
    → Distinct xs
    → Distinct ys
    → ((a : A) → In a xs → ¬ In a ys)
    → Distinct (xs ++ ys)
Distinct-append [] ys dx dy apart = dy
Distinct-append (x ∷ xs) ys dx dy apart = (
  (λ m. elim (In-append x xs ys m) [ inl h ↦ dx.0 h | inr h ↦ apart x (inl refl) h ]),
  Distinct-append xs ys dx.1 dy (λ a m. apart a (inr m)),
)
