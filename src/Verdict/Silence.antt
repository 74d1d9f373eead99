-- ===== src/Verdict/Silence.antt =====
-- Engines that abstain: they are all recorded, and none of them moves a verdict.
use mathlib.Core.Path.{subst}
use mathlib.Core.List.{map-append}
use sentinel_host.Prelude.{
  true, false, List, [], ◌∷◌, map, Text, text_eq_iff, ◌≡◌, refl, sym, ap, ◌∙◌, ◌↔◌, ◌⊎◌, inl, inr,
  Bool-cases, arith, In, any_of, select,
}
use sentinel_host.Schema.Types.{Finding, ScanReport, Verdict, abstains}
use sentinel_host.Verdict.Collect.{
  put, keys, group_by_sha, official_hashes, distinct_paths, sorted_keys, engine_is, no_report,
  reason_of, reported_abstentions, silent_abstentions, collect_abstentions,
}
use sentinel_host.Verdict.Votes.{Engine}
use sentinel_host.Verdict.Decide.{Input, Env, consolidate_file}
use sentinel_host.Verdict.Consolidate.{
  findings_of, for_paths, at_now, verdicts_on, verdicts_for, consolidate,
}
use sentinel_host.Verdict.Groups.{votes, group_by_sha-select, official_hashes-select}

-- A verdict without its list of abstentions.
abbrev pub forget : Verdict → Verdict
forget v = record v { abstentions = [] }

-- The input without the reports that abstain.
abbrev pub voting : Input → Input
voting in' = record in' { reports = select votes in'.reports }

module _ (env : Env) (e : Engine) (in' : Input) where
  consolidate_file-forget :
      (sha : Text) (fs : List Finding) (p : Text) (official a b : List Text)
      → forget (consolidate_file env e (at_now env in') sha fs p official a)
        ≡ forget (consolidate_file env e (at_now env (voting in')) sha fs p official b)
  unfolding consolidate_file at_now
  consolidate_file-forget sha fs p official a b = ground arith

  for_paths-forget :
      (sha : Text) (fs : List Finding) (official a b : List Text) (ps : List Text)
      → map forget (for_paths (λ p. consolidate_file env e (at_now env in') sha fs p official a) ps)
        ≡ map forget (
            for_paths
              (λ p. consolidate_file env e (at_now env (voting in')) sha fs p official b)
              ps)
  for_paths-forget sha fs official a b [] = refl
  for_paths-forget sha fs official a b (p ∷ ps) =
      cc (consolidate_file-forget sha fs p official a b, for_paths-forget sha fs official a b ps)

  verdicts_for-forget :
      (groups : List (Text × List Finding)) (official a b : List Text) (shas : List Text)
      → map forget (verdicts_for env e in' groups official a shas)
        ≡ map forget (verdicts_for env e (voting in') groups official b shas)
  unfolding verdicts_for verdicts_on
  verdicts_for-forget groups official a b [] = refl
  verdicts_for-forget groups official a b (s ∷ shas) =
      let fs = findings_of s groups in
      map-append forget
        (for_paths (λ p. consolidate_file env e (at_now env in') s fs p official a)
          (distinct_paths fs))
        _
      ∙ (cc (
        for_paths-forget s fs official a b (distinct_paths fs),
        verdicts_for-forget groups official a b shas,
      )
          ∙ sym (
              map-append forget
                (for_paths (λ p. consolidate_file env e (at_now env (voting in')) s fs p official b)
                  (distinct_paths fs))
                _))

  -- An engine that abstains has no influence on any verdict: without its reports the verdicts are the
  -- same, one by one, but for the list of the engines that abstained.
  pub consolidate-voting :
      map forget (consolidate env e in').verdicts
      ≡ map forget (consolidate env e (voting in')).verdicts
  unfolding consolidate
  consolidate-voting =
      rw (group_by_sha-select in'.reports, official_hashes-select in'.reports)
        (verdicts_for-forget (group_by_sha in'.reports) (official_hashes in'.reports) _ _
          (sorted_keys (group_by_sha in'.reports)))

put-keys :
    (x k : Text) (v : Text) (m : List (Text × Text))
    → In x (keys (put k v m)) ↔ ((x ≡ k) ⊎ In x (keys m))
put-keys x k v m = (to m, from m)
  where
    to : (m : List (Text × Text)) → In x (keys (put k v m)) → (x ≡ k) ⊎ In x (keys m)
    to [] h = h
    to ((j, w) ∷ m) h = ground (arith, to m)

    from : (m : List (Text × Text)) → ((x ≡ k) ⊎ In x (keys m)) → In x (keys (put k v m))
    from [] h = h
    from ((j, w) ∷ m) h = ground (arith, from m, text_eq_iff j k)

-- The engine has a report that abstains.
abbrev pub Abstained : Text → List ScanReport → Type 0
Abstained x [] = ⊥
Abstained x (r ∷ rs) = ((x ≡ r.engine) × (abstains r ≡ true)) ⊎ Abstained x rs

module _ (status_reason : ScanReport → Text) where
  reported-keys :
      (x : Text) (m : List (Text × Text)) (rs : List ScanReport)
      → In x (keys (reported_abstentions status_reason m rs)) ↔ (In x (keys m) ⊎ Abstained x rs)
  unfolding reported_abstentions
  reported-keys x m [] = (inl, λ h. elim h [ inl a ↦ a | inr b ↦ absurd b ])
  reported-keys x m (r ∷ rs) = elim (Bool-cases (abstains r)) [
    | inl e ↦
        let m' = put r.engine (reason_of status_reason r) m in
        let (to, from) = reported-keys x m' rs in
        let (split', join) = put-keys x r.engine (reason_of status_reason r) m in
        rw e (
          (λ h. elim (to h) [
            | inl k ↦ elim (split' k) [ inl q ↦ inr (inl (q, refl)) | inr i ↦ inl i ]
            | inr a ↦ inr (inr a)
          ]),
          (λ h. from (elim h [
            | inl i ↦ inl (join (inr i))
            | inr (inl c) ↦ inl (join (inl c.0))
            | inr (inr a) ↦ inr a
          ])),
        )
    | inr e ↦
        let (to, from) = reported-keys x m rs in
        rw e (
          (λ h. elim (to h) [ inl k ↦ inl k | inr a ↦ inr (inr a) ]),
          (λ h.
              from
                (elim h [ inl i ↦ inl i | inr (inl c) ↦ absurd (cc (c.1)) | inr (inr a) ↦ inr a ])),
        )
  ]

  silent-keys :
      (x : Text) (reports : List ScanReport) (m : List (Text × Text)) (slugs : List Text)
      → In x (keys (silent_abstentions reports m slugs))
        ↔ (In x (keys m) ⊎ (In x slugs × (any_of (engine_is x) reports ≡ false)))
  unfolding silent_abstentions
  silent-keys x reports m [] = (inl, λ h. elim h [ inl a ↦ a | inr b ↦ absurd b.0 ])
  silent-keys x reports m (s ∷ slugs) = elim (Bool-cases (any_of (engine_is s) reports)) [
    | inl e ↦
        let (to, from) = silent-keys x reports m slugs in
        rw e (
          (λ h. elim (to h) [ inl k ↦ inl k | inr c ↦ inr (inr c.0, c.1) ]),
          (λ h. from (elim h [
            | inl i ↦ inl i
            | inr (inl q, c) ↦ absurd (cc (e, c, ap (λ t. any_of (engine_is t) reports) q))
            | inr (inr i, c) ↦ inr (i, c)
          ])),
        )
    | inr e ↦
        let (to, from) = silent-keys x reports (put s no_report m) slugs in
        let (split', join) = put-keys x s no_report m in
        rw e (
          (λ h. elim (to h) [
            | inl k ↦ elim (split' k) [
              | inl q ↦ inr (inl q, subst (λ t. any_of (engine_is t) reports ≡ false) (sym q) e)
              | inr i ↦ inl i
            ]
            | inr c ↦ inr (inr c.0, c.1)
          ]),
          (λ h. from (elim h [
            | inl i ↦ inl (join (inr i))
            | inr (inl q, c) ↦ inl (join (inl q))
            | inr (inr i, c) ↦ inr (i, c)
          ])),
        )
  ]

  -- The abstentions name exactly the engines with a report that abstains and the expected engines
  -- with no report at all.
  pub collect_abstentions_iff :
      (x : Text) (reports : List ScanReport) (expected : List Text)
      → In x (keys (collect_abstentions status_reason reports expected))
        ↔ (Abstained x reports ⊎ (In x expected × (any_of (engine_is x) reports ≡ false)))
  unfolding collect_abstentions
  collect_abstentions_iff x reports expected =
      let (to, from) = reported-keys x [] reports in
      let (out, back) =
        silent-keys x reports (reported_abstentions status_reason [] reports) expected in
      (
        (λ h. elim (out h) [
          | inl k ↦ elim (to k) [ inl none_yet ↦ absurd none_yet | inr a ↦ inl a ]
          | inr c ↦ inr c
        ]),
        (λ h. back (elim h [ inl a ↦ inl (from (inr a)) | inr c ↦ inr c ])),
      )
