-- ===== src/Verdict/Consolidate.antt =====
-- `Consolidate`: one verdict for each path of each content.
use sentinel_host.Prelude.{ℕ, none, some, List, [], ◌∷◌, ◌++◌, Text, length, if◌then◌else◌}
use sentinel_host.Schema.Types.{Finding, Verdict, is_zero_time}
use sentinel_host.Verdict.Collect.{
  get, keys, sort_texts, sorted_keys, collect_abstentions, official_hashes, group_by_sha,
  distinct_paths, distinct_texts,
}
use sentinel_host.Verdict.Votes.{Engine}
use sentinel_host.Verdict.Decide.{Input, Env, consolidate_file}

pub record Outcome : Type 0 where
  pub verdicts : List Verdict
  pub abstentions : List (Text × Text)
  pub clean_file_count : ℕ

abbrev pub findings_of : Text → List (Text × List Finding) → List Finding
findings_of sha m = elim (get sha m) [ none ↦ [] | some fs ↦ fs ]

abbrev pub for_paths : (Text → Verdict) → List Text → List Verdict
for_paths g [] = []
for_paths g (p ∷ ps) = g p ∷ for_paths g ps

-- A zero time is replaced by the clock's reading.
unfoldable pub at_now : Env → Input → Input
at_now env in' = record in' { now = if is_zero_time in'.now then env.clock else in'.now }

module _ (env : Env) (e : Engine) (in' : Input) where
  -- The inner loop: the verdicts on one content.
  unfoldable pub verdicts_on : Text → List Finding → List Text → List Text → List Verdict
  verdicts_on sha fs official abstentions =
      for_paths (λ p. consolidate_file env e (at_now env in') sha fs p official abstentions)
        (distinct_paths fs)

  unfoldable pub verdicts_for :
      List (Text × List Finding) → List Text → List Text → List Text → List Verdict
  verdicts_for groups official abstentions [] = []
  verdicts_for groups official abstentions (sha ∷ shas) =
      verdicts_on sha (findings_of sha groups) official abstentions
      ++ verdicts_for groups official abstentions shas

  unfoldable pub consolidate : Outcome
  unfolding verdicts_for verdicts_on at_now
  consolidate =
      let groups = group_by_sha in'.reports in
      let abstentions = collect_abstentions env.status_reason in'.reports in'.expected_engines in
      record {
        verdicts =
            verdicts_for groups (official_hashes in'.reports) (sort_texts (keys abstentions))
              (sorted_keys groups);
        abstentions = abstentions;
        clean_file_count = length (distinct_texts (official_hashes in'.reports));
      }
