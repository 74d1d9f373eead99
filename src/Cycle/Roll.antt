-- ===== src/Cycle/Roll.antt =====
-- The roll of a cycle's engines: who is accounted for, and what counts as a vote.
use sentinel_host.Prelude.{
  Bool, true, false, not, ◌||◌, Option, none, some, List, [], ◌∷◌, Text, text_eq, text_eq_iff, ◌≡◌,
  refl, sym, ◌⊎◌, inl, inr, Bool-cases, arith, In, select, any_of,
}
use sentinel_host.Schema.Enums.{counts_as_vote, ScanMode}
use sentinel_host.Schema.Types.{ScanReport, abstains}
use sentinel_host.Adapter.Safe.{ProbeResult, Adapter}
use sentinel_host.Verdict.Collect.{keys, collect_abstentions, engine_is}
use sentinel_host.Verdict.Silence.{Abstained, collect_abstentions_iff}
use sentinel_host.Cycle.Engines.{
  Fleet, EngineRun, engine_enabled, slugs, run_probed, run_engine, run_slugs, run_engines, outcomes,
  reports, voted, any_engine_voted, add_report,
}

abbrev pub outcome_slugs : List EngineRun → List Text
outcome_slugs [] = []
outcome_slugs (r ∷ rs) = r.outcome.slug ∷ outcome_slugs rs

-- The vote of a report, if there is one.
abbrev pub report_votes : Option ScanReport → Bool
report_votes none = false
report_votes (some r) = not (abstains r)

module _ (c : Fleet) (scan : Text) (mode : ScanMode) (targets : List Text) where
  run_probed-slug :
      (a : Adapter) (slug : Text) (p : ProbeResult)
      → (run_probed c scan mode a targets slug p).outcome.slug ≡ slug
  unfolding run_probed
  run_probed-slug a slug p = ground arith

  run_probed-voted :
      (a : Adapter) (slug : Text) (p : ProbeResult)
      → let r = run_probed c scan mode a targets slug p in voted r.outcome ≡ report_votes r.report
  unfolding run_probed abstains counts_as_vote
  run_probed-voted a slug p = ground arith

  run_engine-slug : (slug : Text) → (run_engine c scan mode targets slug).outcome.slug ≡ slug
  unfolding run_engine
  run_engine-slug slug = run_probed-slug _ slug _

  run_engine-voted :
      (slug : Text)
      → let r = run_engine c scan mode targets slug in voted r.outcome ≡ report_votes r.report
  unfolding run_engine
  run_engine-voted slug = run_probed-voted _ slug _

  run_slugs-slugs :
      (ss : List Text)
      → outcome_slugs (run_slugs c scan mode targets ss) ≡ select (engine_enabled c) ss
  unfolding run_slugs
  run_slugs-slugs [] = refl
  run_slugs-slugs (s ∷ ss) = ground (arith, run_slugs-slugs ss, run_engine-slug s)

  reports-add :
      (o : Option ScanReport) (rs : List ScanReport)
      → any_of (λ r. not (abstains r)) (add_report o rs)
        ≡ (report_votes o || any_of (λ r. not (abstains r)) rs)
  reports-add none rs = refl
  reports-add (some r) rs = refl

  run_slugs-voted :
      (ss : List Text)
      → any_of voted (outcomes (run_slugs c scan mode targets ss))
        ≡ any_of (λ r. not (abstains r)) (reports (run_slugs c scan mode targets ss))
  unfolding run_slugs
  run_slugs-voted [] = refl
  run_slugs-voted (s ∷ ss) =
      let rest = run_slugs c scan mode targets ss in
      ground (
        arith,
        run_slugs-voted ss,
        run_engine-voted s,
        reports-add (run_engine c scan mode targets s).report (reports rest),
      )

  -- No enabled engine is missing from the summary of a cycle: the outcomes name the registered engines
  -- that are enabled, in order and each as often as the registry does, whatever the engines do; and an engine
  -- counts as having voted in the summary exactly when some report for the consensus does not abstain.
  pub run_engines-slugs :
      let runs = run_engines c scan mode targets in
      (outcome_slugs runs ≡ select (engine_enabled c) (slugs c))
      × (any_engine_voted (outcomes runs) ≡ any_of (λ r. not (abstains r)) (reports runs))
  unfolding run_engines any_engine_voted
  run_engines-slugs = (run_slugs-slugs (slugs c), run_slugs-voted (slugs c))

-- A report of the engine that does not abstain.
abbrev pub Votes : Text → List ScanReport → Type 0
Votes slug [] = ⊥
Votes slug (r ∷ rs) = ((r.engine ≡ slug) × (abstains r ≡ false)) ⊎ Votes slug rs

reported :
    (slug : Text) (rs : List ScanReport)
    → any_of (engine_is slug) rs ≡ true
    → Abstained slug rs ⊎ Votes slug rs
reported slug [] h = absurd (cc h)
reported slug (r ∷ rs) h = elim (Bool-cases (text_eq r.engine slug)) [
  | inl e ↦
      let same = (text_eq_iff r.engine slug).0 e in
      elim (Bool-cases (abstains r)) [
        | inl a ↦ inl (inl (sym same, a))
        | inr v ↦ inr (inl (same, v))
      ]
  | inr e ↦ elim (reported slug rs (ground arith)) [ inl a ↦ inl (inr a) | inr v ↦ inr (inr v) ]
]

-- Every expected engine is accounted for: it has a report that votes, or it is recorded among the
-- abstentions with a reason.
pub collect_abstentions-Votes :
    (status_reason : ScanReport → Text) (rs : List ScanReport) (expected : List Text) (slug : Text)
    → In slug expected
    → Votes slug rs ⊎ In slug (keys (collect_abstentions status_reason rs expected))
collect_abstentions-Votes status_reason rs expected slug i =
    let back = (collect_abstentions_iff status_reason slug rs expected).1 in
    elim (Bool-cases (any_of (engine_is slug) rs)) [
      | inl h ↦ elim (reported slug rs h) [ inl a ↦ inr (back (inl a)) | inr v ↦ inl v ]
      | inr h ↦ inr (back (inr (i, h)))
    ]
