-- ===== src/Verdict/Groups.antt =====
-- The groups of findings with one content: what they hold, and that a report which abstains adds
-- nothing.
use sentinel_host.Prelude.{
  Bool, true, false, not, List, [], ◌∷◌, ◌++◌, Text, text_eq, text_eq_iff, ◌≡◌, refl, ap, ◌⊎◌, inl,
  inr, Bool-cases, arith, In, Distinct, select, In-append_left, In-append_right,
}
use sentinel_host.Schema.Types.{Finding, ScanReport, abstains}
use sentinel_host.Verdict.Collect.{
  keys, append_at, groupable, group_findings, group_reports, group_by_sha, official_hashes,
}

-- A report that counts as a vote.
abbrev pub votes : ScanReport → Bool
votes r = not (abstains r)

group_reports-select :
    (out : List (Text × List Finding)) (rs : List ScanReport)
    → group_reports out (select votes rs) ≡ group_reports out rs
unfolding group_reports
group_reports-select out [] = refl
group_reports-select out (r ∷ rs) = elim (Bool-cases (abstains r)) [
  | inl e ↦ rw e (group_reports-select out rs)
  | inr e ↦ rw e (rw e (group_reports-select (group_findings out r.findings) rs))
]

-- Leaving out the reports that abstain changes no group.
pub group_by_sha-select : (rs : List ScanReport) → group_by_sha (select votes rs) ≡ group_by_sha rs
unfolding group_by_sha
group_by_sha-select rs = group_reports-select [] rs

pub official_hashes-select :
    (rs : List ScanReport) → official_hashes (select votes rs) ≡ official_hashes rs
unfolding official_hashes
official_hashes-select [] = refl
official_hashes-select (r ∷ rs) = elim (Bool-cases (abstains r)) [
  | inl e ↦ rw e (official_hashes-select rs)
  | inr e ↦ rw e (rw e (ap (λ t. r.clean_files ++ t) (official_hashes-select rs)))
]

-- The finding stands in the group of the key.
abbrev pub Grouped : Finding → Text → List (Text × List Finding) → Type 0
Grouped f k [] = ⊥
Grouped f k ((j, fs) ∷ m) = ((j ≡ k) × In f fs) ⊎ Grouped f k m

append_at_self :
    (k : Text) (f : Finding) (m : List (Text × List Finding)) → Grouped f k (append_at k f m)
append_at_self k f [] = inl (refl, inl refl)
append_at_self k f ((j, fs) ∷ m) = elim (Bool-cases (text_eq j k)) [
  | inl e ↦ rw e (inl ((text_eq_iff j k).0 e, In-append_right f fs (f ∷ []) (inl refl)))
  | inr e ↦ rw e (inr (append_at_self k f m))
]

append_at-keeps :
    (k : Text) (g f : Finding) (l : Text) (m : List (Text × List Finding))
    → Grouped f l m
    → Grouped f l (append_at k g m)
append_at-keeps k g f l [] h = absurd h
append_at-keeps k g f l ((j, fs) ∷ m) (inl h) = elim (Bool-cases (text_eq j k)) [
  | inl e ↦ rw e (inl (h.0, In-append_left f fs (g ∷ []) h.1))
  | inr e ↦ rw e (inl h)
]
append_at-keeps k g f l ((j, fs) ∷ m) (inr h) = elim (Bool-cases (text_eq j k)) [
  | inl e ↦ rw e (inr h)
  | inr e ↦ rw e (inr (append_at-keeps k g f l m h))
]

group_findings-keeps :
    (f : Finding) (l : Text) (m : List (Text × List Finding)) (fs : List Finding)
    → Grouped f l m
    → Grouped f l (group_findings m fs)
unfolding group_findings
group_findings-keeps f l m [] h = h
group_findings-keeps f l m (g ∷ fs) h = elim (Bool-cases (groupable g)) [
  | inl e ↦ rw e (
      group_findings-keeps f l (append_at g.file.sha256 g m) fs
        (append_at-keeps g.file.sha256 g f l m h))
  | inr e ↦ rw e (group_findings-keeps f l m fs h)
]

group_findings-In :
    (f : Finding) (m : List (Text × List Finding)) (fs : List Finding)
    → In f fs
    → groupable f ≡ true
    → Grouped f f.file.sha256 (group_findings m fs)
unfolding group_findings
group_findings-In f m [] h e = absurd h
group_findings-In f m (g ∷ fs) (inl q) e =
    rw (← q) (rw e (group_findings-keeps f f.file.sha256 _ fs (append_at_self f.file.sha256 f m)))
group_findings-In f m (g ∷ fs) (inr h) e = elim (Bool-cases (groupable g)) [
  | inl d ↦ rw d (group_findings-In f (append_at g.file.sha256 g m) fs h e)
  | inr d ↦ rw d (group_findings-In f m fs h e)
]

group_reports-keeps :
    (f : Finding) (l : Text) (m : List (Text × List Finding)) (rs : List ScanReport)
    → Grouped f l m
    → Grouped f l (group_reports m rs)
unfolding group_reports
group_reports-keeps f l m [] h = h
group_reports-keeps f l m (r ∷ rs) h = elim (Bool-cases (abstains r)) [
  | inl e ↦ rw e (group_reports-keeps f l m rs h)
  | inr e ↦ rw e (
      group_reports-keeps f l (group_findings m r.findings) rs
        (group_findings-keeps f l m r.findings h))
]

group_reports-In :
    (f : Finding) (r : ScanReport) (m : List (Text × List Finding)) (rs : List ScanReport)
    → In r rs
    → abstains r ≡ false
    → In f r.findings
    → groupable f ≡ true
    → Grouped f f.file.sha256 (group_reports m rs)
unfolding group_reports
group_reports-In f r m [] h a i e = absurd h
group_reports-In f r m (s ∷ rs) (inl q) a i e =
    rw (← q)
      (rw a (group_reports-keeps f f.file.sha256 _ rs (group_findings-In f m r.findings i e)))
group_reports-In f r m (s ∷ rs) (inr h) a i e = elim (Bool-cases (abstains s)) [
  | inl d ↦ rw d (group_reports-In f r m rs h a i e)
  | inr d ↦ rw d (group_reports-In f r (group_findings m s.findings) rs h a i e)
]

-- A malware finding with a hash, in a report that votes, stands in the group of its hash.
pub group_by_sha-In :
    (f : Finding) (r : ScanReport) (rs : List ScanReport)
    → In r rs
    → abstains r ≡ false
    → In f r.findings
    → groupable f ≡ true
    → Grouped f f.file.sha256 (group_by_sha rs)
unfolding group_by_sha
group_by_sha-In f r rs h a i e = group_reports-In f r [] rs h a i e

append_at-keys :
    (x k : Text) (f : Finding) (m : List (Text × List Finding))
    → In x (keys (append_at k f m))
    → (x ≡ k) ⊎ In x (keys m)
append_at-keys x k f [] h = h
append_at-keys x k f ((j, fs) ∷ m) h = ground (arith, append_at-keys x k f m)

append_at-Distinct :
    (k : Text) (f : Finding) (m : List (Text × List Finding))
    → Distinct (keys m)
    → Distinct (keys (append_at k f m))
append_at-Distinct k f [] d = ((λ h. h), tt)
append_at-Distinct k f ((j, fs) ∷ m) d = elim (Bool-cases (text_eq j k)) [
  | inl e ↦ rw e d
  | inr e ↦ rw e (
    (λ h. elim (append_at-keys j k f m h) [
      | inl q ↦ cc (e, (text_eq_iff j k).1 q)
      | inr i ↦ d.0 i
    ]),
    append_at-Distinct k f m d.1,
  )
]

group_findings-Distinct :
    (m : List (Text × List Finding)) (fs : List Finding)
    → Distinct (keys m)
    → Distinct (keys (group_findings m fs))
unfolding group_findings
group_findings-Distinct m [] d = d
group_findings-Distinct m (g ∷ fs) d = elim (Bool-cases (groupable g)) [
  | inl e ↦ rw e (
      group_findings-Distinct (append_at g.file.sha256 g m) fs
        (append_at-Distinct g.file.sha256 g m d))
  | inr e ↦ rw e (group_findings-Distinct m fs d)
]

group_reports-Distinct :
    (m : List (Text × List Finding)) (rs : List ScanReport)
    → Distinct (keys m)
    → Distinct (keys (group_reports m rs))
unfolding group_reports
group_reports-Distinct m [] d = d
group_reports-Distinct m (r ∷ rs) d = elim (Bool-cases (abstains r)) [
  | inl e ↦ rw e (group_reports-Distinct m rs d)
  | inr e ↦ rw e (
      group_reports-Distinct (group_findings m r.findings) rs
        (group_findings-Distinct m r.findings d))
]

-- No hash is the key of two groups.
pub group_by_sha-Distinct : (rs : List ScanReport) → Distinct (keys (group_by_sha rs))
unfolding group_by_sha
group_by_sha-Distinct rs = group_reports-Distinct [] rs tt
