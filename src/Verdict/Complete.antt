-- ===== src/Verdict/Complete.antt =====
-- `Consolidate` as a whole: no flagged file is lost, none is listed twice, and an engine that abstains
-- has no influence.
use mathlib.Core.Path.{subst}
use sentinel_host.Prelude.{
  true, false, List, [], ◌∷◌, Text, is_empty, ◌≡◌, ap, ◌∙◌, inl, inr, arith, In, Distinct,
  In-append_left, In-append_right, In-append,
}
use sentinel_host.Schema.Types.{Finding, ScanReport, Verdict, abstains}
use sentinel_host.Verdict.Collect.{
  keys, groupable, group_by_sha, official_hashes, distinct_paths, sort_texts, sorted_keys,
  collect_abstentions,
}
use sentinel_host.Verdict.Votes.{Engine, build_votes}
use sentinel_host.Verdict.Decide.{Input, Env, consolidate_file}
use sentinel_host.Verdict.Consolidate.{
  findings_of, for_paths, at_now, verdicts_on, verdicts_for, consolidate,
}
use sentinel_host.Verdict.Outcome.{consolidate_file-level}
use sentinel_host.Verdict.Sorting.{In-sort_texts, sort_texts-Distinct}
use sentinel_host.Verdict.Groups.{group_by_sha-In, group_by_sha-Distinct}
use sentinel_host.Verdict.Paths.{distinct_paths-exact}
use sentinel_host.Verdict.Targets.{
  Grouped-key, Grouped-findings, for_paths-In, In-Named, target, targets, targets-append,
  Distinct-append,
}

module _ (env : Env) (e : Engine) where
  consolidate_file-target :
      (in' : Input) (sha : Text) (fs : List Finding) (path : Text)
      (official abstentions : List Text)
      → target (consolidate_file env e in' sha fs path official abstentions) ≡ (sha, path)
  unfolding consolidate_file
  consolidate_file-target in' sha fs path official abstentions = ground arith

  verdicts_for-In :
      (in' : Input) (groups : List (Text × List Finding)) (official abstentions : List Text)
      (sha : Text) (shas : List Text) (v : Verdict)
      → In sha shas
      → In v (verdicts_on env e in' sha (findings_of sha groups) official abstentions)
      → In v (verdicts_for env e in' groups official abstentions shas)
  unfolding verdicts_for
  verdicts_for-In in' groups official abstentions sha [] v h m = absurd h
  verdicts_for-In in' groups official abstentions sha (s ∷ shas) v (inl q) m =
      In-append_left v (verdicts_on env e in' s (findings_of s groups) official abstentions) _
        (rw (← q) m)
  verdicts_for-In in' groups official abstentions sha (s ∷ shas) v (inr h) m =
      In-append_right v (verdicts_on env e in' s (findings_of s groups) official abstentions) _
        (verdicts_for-In in' groups official abstentions sha shas v h m)

  -- No flagged file is lost. For every malware finding with a hash and a path, in a report that
  -- counts as a vote, there is a verdict on that content at that path, and it carries the votes of
  -- all findings of the content.
  pub consolidate-covers :
      (in' : Input) (r : ScanReport) (f : Finding)
      → In r in'.reports
      → abstains r ≡ false
      → In f r.findings
      → groupable f ≡ true
      → is_empty f.file.path ≡ false
      → (v : Verdict) × In v (consolidate env e in').verdicts
        × (target v ≡ (f.file.sha256, f.file.path))
        × (v.votes ≡ build_votes env.ops e (findings_of f.file.sha256 (group_by_sha in'.reports)))
  unfolding consolidate verdicts_on
  consolidate-covers in' r f hr ha hf hg hp =
      let sha = f.file.sha256 in
      let groups = group_by_sha in'.reports in
      let fs = findings_of sha groups in
      let official = official_hashes in'.reports in
      let silent =
        sort_texts
          (keys (collect_abstentions env.status_reason in'.reports in'.expected_engines)) in
      let g = group_by_sha-In f r in'.reports hr ha hf hg in
      let mf : In f fs = Grouped-findings f sha groups (group_by_sha-Distinct in'.reports) g in
      let mp = ((distinct_paths-exact fs).2 f.file.path).1 (In-Named f fs mf hp) in
      let now = at_now env in' in
      let v = consolidate_file env e now sha fs f.file.path official silent in
      (
        v,
        verdicts_for-In in' groups official silent sha (sorted_keys groups) v
            (In-sort_texts sha (keys groups) (Grouped-key f sha groups g))
            (for_paths-In (λ p. consolidate_file env e now sha fs p official silent) f.file.path
              (distinct_paths fs) mp),
        consolidate_file-target now sha fs f.file.path official silent,
        (consolidate_file-level env e now sha fs f.file.path official silent).0,
      )

  for_paths-targets :
      (in' : Input) (sha : Text) (fs : List Finding) (official abstentions : List Text)
      (x : Text × Text) (ps : List Text)
      → In x
          (targets (for_paths (λ p. consolidate_file env e in' sha fs p official abstentions) ps))
      → (x.0 ≡ sha) × In x.1 ps
  for_paths-targets in' sha fs official abstentions x [] m = absurd m
  for_paths-targets in' sha fs official abstentions x (p ∷ ps) (inl q) =
      let t = q ∙ consolidate_file-target in' sha fs p official abstentions in
      (ap (λ (y : Text × Text). y.0) t, inl (ap (λ (y : Text × Text). y.1) t))
  for_paths-targets in' sha fs official abstentions x (p ∷ ps) (inr m) =
      let (a, b) = for_paths-targets in' sha fs official abstentions x ps m in (a, inr b)

  for_paths-Distinct :
      (in' : Input) (sha : Text) (fs : List Finding) (official abstentions : List Text)
      (ps : List Text)
      → Distinct ps
      → Distinct
          (targets (for_paths (λ p. consolidate_file env e in' sha fs p official abstentions) ps))
  for_paths-Distinct in' sha fs official abstentions [] d = tt
  for_paths-Distinct in' sha fs official abstentions (p ∷ ps) d = (
    (λ m.
        let (a, b) = for_paths-targets in' sha fs official abstentions _ ps m in
        d.0 (
          subst (λ y. In y ps)
            (ap (λ (y : Text × Text). y.1)
              (consolidate_file-target in' sha fs p official abstentions))
            b)),
    for_paths-Distinct in' sha fs official abstentions ps d.1,
  )

  verdicts_for-targets :
      (in' : Input) (groups : List (Text × List Finding)) (official abstentions : List Text)
      (x : Text × Text) (shas : List Text)
      → In x (targets (verdicts_for env e in' groups official abstentions shas))
      → In x.0 shas
  unfolding verdicts_for verdicts_on
  verdicts_for-targets in' groups official abstentions x [] m = m
  verdicts_for-targets in' groups official abstentions x (s ∷ shas) m =
      elim (In-append x
        (targets (verdicts_on env e in' s (findings_of s groups) official abstentions)) _
        (rw targets-append at m)) [
          | inl h ↦
              inl
                (for_paths-targets (at_now env in') s (findings_of s groups) official abstentions x
                  _ h).0
          | inr h ↦ inr (verdicts_for-targets in' groups official abstentions x shas h)
        ]

  verdicts_for-Distinct :
      (in' : Input) (groups : List (Text × List Finding)) (official abstentions : List Text)
      (shas : List Text)
      → Distinct shas
      → Distinct (targets (verdicts_for env e in' groups official abstentions shas))
  unfolding verdicts_for verdicts_on
  verdicts_for-Distinct in' groups official abstentions [] d = tt
  verdicts_for-Distinct in' groups official abstentions (s ∷ shas) d = rw targets-append (
      Distinct-append _ _
        (for_paths-Distinct (at_now env in') s (findings_of s groups) official abstentions _
          (distinct_paths-exact (findings_of s groups)).1)
        (verdicts_for-Distinct in' groups official abstentions shas d.1)
        (λ x m k. d.0 (
          subst (λ y. In y shas)
            (for_paths-targets (at_now env in') s (findings_of s groups) official abstentions x _
              m).0
            (verdicts_for-targets in' groups official abstentions x shas k))))

  -- No content is judged twice at one path: the pairs of hash and path of the verdicts are different.
  pub consolidate-Distinct : (in' : Input) → Distinct (targets (consolidate env e in').verdicts)
  unfolding consolidate
  consolidate-Distinct in' =
      verdicts_for-Distinct in' (group_by_sha in'.reports) _ _
        (sorted_keys (group_by_sha in'.reports))
        (sort_texts-Distinct (keys (group_by_sha in'.reports)) (group_by_sha-Distinct in'.reports))
