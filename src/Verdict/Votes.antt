-- ===== src/Verdict/Votes.antt =====
-- `buildVotes`, the score and the level. Weights are `float64`: the comparisons are those of IEEE 754,
-- and the arithmetic is a parameter.
use sentinel_host.Prelude.{
  Bool, true, Option, none, some, List, [], ◌∷◌, Text, text_eq, text_lt, if◌then◌else◌,
}
use sentinel_host.Prelude.Float.{Float64, FloatOps, zero_f, one_f, two_f, lt_f, le_f, eq_f}
use sentinel_host.Schema.Enums.{
  Confidence, signature, heuristic, anomaly, Level, confirmed, likely, suspicious, clean,
}
use sentinel_host.Schema.Types.{Finding, Vote}
use sentinel_host.Verdict.Collect.{get}

-- `config.VerdictConfig`, the part that the consensus reads.
pub record VerdictConfig : Type 0 where
  pub confirmed_at : Float64
  pub likely_at : Float64
  pub suspicious_at : Float64
  pub saturation : Float64
  pub signature_multiplier : Float64
  pub heuristic_multiplier : Float64
  pub anomaly_multiplier : Float64

pub record Engine : Type 0 where
  pub cfg : VerdictConfig
  pub weights : List (Text × Float64)

-- A missing key reads as 0.
unfoldable pub weight_of : Engine → Text → Float64
weight_of e slug = elim (get slug e.weights) [ none ↦ zero_f | some w ↦ w ]

unfoldable pub confidence_multiplier : Engine → Confidence → Float64
confidence_multiplier e signature = e.cfg.signature_multiplier
confidence_multiplier e heuristic = e.cfg.heuristic_multiplier
confidence_multiplier e anomaly = e.cfg.anomaly_multiplier
confidence_multiplier e (Confidence.unknown t) = e.cfg.anomaly_multiplier

-- The comparison that sorts the votes: the strongest first, then by engine.
unfoldable pub vote_before : Vote → Vote → Bool
vote_before v w =
    if eq_f v.effective_weight w.effective_weight
    then text_lt v.engine w.engine
    else lt_f w.effective_weight v.effective_weight

abbrev pub insert_vote : Vote → List Vote → List Vote
insert_vote v [] = v ∷ []
insert_vote v (w ∷ ws) = if vote_before w v then w ∷ insert_vote v ws else v ∷ w ∷ ws

abbrev pub sort_votes : List Vote → List Vote
sort_votes [] = []
sort_votes (v ∷ vs) = insert_vote v (sort_votes vs)

-- The map `best`: one vote for each engine; a vote carries its key.
abbrev pub vote_for : Text → List Vote → Option Vote
vote_for slug [] = none
vote_for slug (v ∷ vs) = if text_eq v.engine slug then some v else vote_for slug vs

abbrev pub put_vote : Vote → List Vote → List Vote
put_vote v [] = v ∷ []
put_vote v (w ∷ ws) = if text_eq w.engine v.engine then v ∷ ws else w ∷ put_vote v ws

abbrev pub improves : Option Vote → Float64 → Bool
improves none effective = true
improves (some current) effective = lt_f current.effective_weight effective

-- The ceiling of the sum, 2 when none is configured.
unfoldable pub saturation_of : Engine → Float64
saturation_of e = if le_f e.cfg.saturation zero_f then two_f else e.cfg.saturation

module _ (ops : FloatOps) where
  unfoldable pub make_vote : Engine → Finding → Vote
  unfolding weight_of confidence_multiplier
  make_vote e f = record {
    engine = f.engine;
    finding_id = f.id;
    weight = weight_of e f.engine;
    confidence = f.confidence;
    effective_weight = ops.mul (weight_of e f.engine) (confidence_multiplier e f.confidence);
    rule = f.rule;
    category = f.category;
  }

  -- One round of the loop.
  unfoldable pub add_finding : Engine → List Vote → Finding → List Vote
  add_finding e best f =
      if le_f (weight_of e f.engine) zero_f
      then best
      else if improves (vote_for f.engine best) (make_vote e f).effective_weight
      then put_vote (make_vote e f) best
      else best

  unfoldable pub best_votes : Engine → List Vote → List Finding → List Vote
  best_votes e best [] = best
  best_votes e best (f ∷ fs) = best_votes e (add_finding e best f) fs

  unfoldable pub build_votes : Engine → List Finding → List Vote
  build_votes e fs = sort_votes (best_votes e [] fs)

  unfoldable pub sum_votes : Float64 → List Vote → Float64
  sum_votes acc [] = acc
  sum_votes acc (v ∷ vs) = sum_votes (ops.add acc v.effective_weight) vs

  unfoldable pub score : Engine → Float64 → Float64
  unfolding saturation_of
  score e sum =
      let s = ops.quot sum (saturation_of e) in
      if lt_f one_f s then one_f else if lt_f s zero_f then zero_f else s

unfoldable pub level_of : Engine → Float64 → Level
level_of e s =
    if le_f e.cfg.confirmed_at s
    then confirmed
    else if le_f e.cfg.likely_at s
    then likely
    else if le_f e.cfg.suspicious_at s
    then suspicious
    else clean
