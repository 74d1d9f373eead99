-- ===== src/Verdict/Decide.antt =====
-- `consolidateFile`: the verdict on one file, with the veto of the official checksum, the location and
-- the whitelist.
use sentinel_host.Prelude.{
  false, not, ◌&&◌, Option, none, some, List, [], ◌∷◌, ◌++◌, Text, codes, is_empty, if◌then◌else◌,
}
use sentinel_host.Prelude.Float.{FloatOps, zero_f}
use sentinel_host.PathMatch.Segments.{which_matches}
use sentinel_host.Reach.Classify.{
  Classifier, Location, location_of, location_text, reachable, explain,
}
use sentinel_host.Schema.Enums.{
  clean, is_clean, nothing, skipped_official, skipped_not_reachable, skipped_whitelist,
}
use sentinel_host.Schema.Types.{Finding, ScanReport, Verdict, Time, schema_version_now}
use sentinel_host.Verdict.Collect.{is_official, size_at}
use sentinel_host.Verdict.Votes.{Engine, build_votes, sum_votes, score, level_of}

pub record Input : Type 0 where
  pub scan_id : Text
  pub reports : List ScanReport
  pub expected_engines : List Text
  pub whitelist : List Text
  pub reach : Option Classifier
  pub now : Time

-- What the package takes from Go's library: the arithmetic of `float64`, the first twelve digits of
-- the SHA-256 of a text in hexadecimal, absolute paths, a formatted status,
-- and the reading of the clock.
pub record Env : Type 0 where
  pub ops : FloatOps
  pub digest : Text → Text
  pub absolute : Text → Text
  pub status_reason : ScanReport → Text
  pub clock : Time

abbrev pub official_match : Text
official_match = codes "official_checksum_match"

module _ (env : Env) where
  unfoldable pub verdict_id : Text → Text → Text → Text
  verdict_id scan sha path = codes "v_" ++ env.digest (scan ++ b':' ∷ (sha ++ b':' ∷ path))

  -- The verdict by the votes alone.
  unfoldable pub scored : Engine → Input → Text → List Finding → Text → List Text → Verdict
  unfolding verdict_id size_at
  scored e in' sha fs path abstentions =
      let votes = build_votes env.ops e fs in
      let s = score env.ops e (sum_votes env.ops zero_f votes) in
      record {
        schema_version = schema_version_now;
        verdict_id = verdict_id in'.scan_id sha path;
        file_sha256 = sha;
        file_path = path;
        file_location = [];
        file_size = size_at fs path;
        level = level_of e s;
        score = s;
        votes = votes;
        abstentions = abstentions;
        clean_reason = [];
        action_taken = nothing;
        action_at = 0;
        action_error = [];
        quarantine_ref = [];
        acknowledged_by_user = false;
        acknowledged_at = 0;
        scan_id = in'.scan_id;
        created_at = in'.now;
      }

  unfoldable pub veto : Verdict → Verdict
  veto v = record v {
    level = clean;
    score = zero_f;
    clean_reason = official_match;
    action_taken = skipped_official;
  }

  abbrev pub note_location : Location → Verdict → Verdict
  note_location loc v =
      let w = record v { file_location = location_text loc } in
      if not (reachable loc) && not (is_clean v.level)
      then record w {
        action_taken = skipped_not_reachable;
        action_error = codes "not acted on automatically: " ++ explain loc;
      }
      else w

  unfoldable pub locate : Option Classifier → Text → Verdict → Verdict
  unfolding location_text reachable explain
  locate none path v = v
  locate (some c) path v = note_location (location_of env.absolute c path) v

unfoldable pub protect : List Text → Text → Verdict → Verdict
protect whitelist path v =
    let rule = which_matches whitelist path in
    if not (is_empty rule) && not (is_clean v.level)
    then record v {
      action_taken = skipped_whitelist;
      action_error = codes "protected by the whitelist rule: " ++ rule;
    }
    else v

module _ (env : Env) where
  unfoldable pub consolidate_file :
      Engine → Input → Text → List Finding → Text → List Text → List Text → Verdict
  unfolding scored veto locate protect
  consolidate_file e in' sha fs path official abstentions =
      let v = scored env e in' sha fs path abstentions in
      if is_official official sha
      then veto env v
      else protect in'.whitelist path (locate env in'.reach path v)
