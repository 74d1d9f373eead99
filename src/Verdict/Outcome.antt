-- ===== src/Verdict/Outcome.antt =====
-- What decides the verdict on a file: the score, the level, the veto, and when the tool may act by itself.
use sentinel_host.Prelude.{
  true, false, Option, none, some, List, Text, is_empty, ◌≡◌, ◌↔◌, arith, if◌then◌else◌, ◌≤◌,
}
use sentinel_host.Prelude.Float.{
  Float64, FloatOps, zero_f, one_f, le_f, is_nan, not_lt_f, le_f_trans, zero_real, one_real,
  zero_one_le,
}
use sentinel_host.PathMatch.Segments.{which_matches}
use sentinel_host.Reach.Classify.{Classifier, location_of, reachable}
use sentinel_host.Schema.Enums.{confirmed, clean, level_rank, nothing}
use sentinel_host.Schema.Types.{Finding, Verdict, actionable}
use sentinel_host.Verdict.Collect.{is_official}
use sentinel_host.Verdict.Votes.{Engine, build_votes, sum_votes, score, level_of, saturation_of}
use sentinel_host.Verdict.Decide.{Input, Env, consolidate_file}

-- Whatever the sum of the weights, a score that is not NaN lies between 0 and 1.
pub score-unit_interval :
    (ops : FloatOps) (e : Engine) (sum : Float64)
    → is_nan (ops.quot sum (saturation_of e)) ≡ false
    → (le_f zero_f (score ops e sum) ≡ true) × (le_f (score ops e sum) one_f ≡ true)
unfolding score
score-unit_interval ops e sum h =
    let s = ops.quot sum (saturation_of e) in
    ground (arith, not_lt_f one_f s, not_lt_f s zero_f, zero_one_le, zero_real, one_real)

-- A higher score never gives a lower level.
level_of_mono :
    (e : Engine) (s t : Float64)
    → le_f s t ≡ true
    → level_rank (level_of e s) ≤ level_rank (level_of e t)
unfolding level_of level_rank
level_of_mono e s t h = ground (
  arith,
  le_f_trans e.cfg.confirmed_at s t,
  le_f_trans e.cfg.likely_at s t,
  le_f_trans e.cfg.suspicious_at s t,
)

-- No location makes the tool hold back: none is configured, or the path may be served.
abbrev pub MayBeServed : Env → Option Classifier → Text → Type 0
MayBeServed env none path = Unit
MayBeServed env (some c) path = reachable (location_of env.absolute c path) ≡ true

module _ (env : Env) (e : Engine) (in' : Input) (sha : Text) (fs : List Finding) (path : Text)
    (official abstentions : List Text) where
  abbrev verdict : Verdict
  verdict = consolidate_file env e in' sha fs path official abstentions

  abbrev voted_score : Float64
  voted_score = score env.ops e (sum_votes env.ops zero_f (build_votes env.ops e fs))

  -- The votes are always kept, and the level and the score are those of the votes unless the content
  -- is official, when they are `clean` and 0: neither the location nor the whitelist changes them.
  pub consolidate_file-level :
      (verdict.votes ≡ build_votes env.ops e fs)
      × (verdict.level ≡ (if is_official official sha then clean else level_of e voted_score))
      × (verdict.score ≡ (if is_official official sha then zero_f else voted_score))
  unfolding consolidate_file
  consolidate_file-level = ground arith

  -- The verdict lets the tool act by itself (nothing is recorded as done, and it is actionable)
  -- exactly when the content is not official, its votes give `confirmed`, the path may be served by
  -- the web, and no rule of the whitelist matches it.
  pub consolidate_file-acts : ((verdict.action_taken ≡ nothing) × (actionable verdict ≡ true)) ↔ (
      (is_official official sha ≡ false)
      × (level_of e voted_score ≡ confirmed)
      × MayBeServed env in'.reach path
      × (is_empty (which_matches in'.whitelist path) ≡ true))
  unfolding consolidate_file actionable
  consolidate_file-acts = ground arith
