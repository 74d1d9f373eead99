-- ===== src/Cycle/Act.antt =====
-- `act` and `quarantineOne` of persist.go, and the gate of config/defaults.go that they ask.
use sentinel_host.Prelude.{
  ℕ, Bool, true, false, not, ◌||◌, List, [], ◌∷◌, ◌++◌, Text, codes, ltb, ◌==◌, if◌then◌else◌,
}
use sentinel_host.Schema.Enums.{
  Level, confirmed, likely, suspicious, clean, ActionTaken, quarantined, recommended, rescan_needed,
  action_failed, is_nothing,
}
use sentinel_host.Schema.Types.{Verdict, Time, is_zero_time, actionable}
use sentinel_host.Quarantine.World.{
  QuarantineItem, World, Answers, Vault, VaultError, hash_mismatch, Result, ok, err,
}
use sentinel_host.Quarantine.Vault.{quarantine}

-- The part of `config.General` that the gate reads, and `AddDate` and a date's format of Go's library.
pub record General : Type 0 where
  pub observation_mode : Bool
  pub grace_period_days : ℕ
  pub first_run_at : Time
  pub add_days : Time → ℕ → Time
  pub format_date : Time → Text

unfoldable pub in_grace_period : General → Time → Bool
in_grace_period g now =
    if g.grace_period_days == 0
    then false
    else if is_zero_time g.first_run_at
    then true
    else ltb now (g.add_days g.first_run_at g.grace_period_days)

unfoldable pub grace_period_ends_at : General → Time
grace_period_ends_at g =
    if g.grace_period_days == 0 || is_zero_time g.first_run_at
    then 0
    else g.add_days g.first_run_at g.grace_period_days

unfoldable pub automatic_action_allowed : General → Time → Bool × Text
unfolding in_grace_period grace_period_ends_at
automatic_action_allowed g now =
    if g.observation_mode
    then (false, codes "observation mode is on")
    else if in_grace_period g now
    then (
      false,
      if is_zero_time (grace_period_ends_at g)
          then codes "grace period active (the first cycle has not been recorded yet)"
          else codes "grace period active until " ++ g.format_date (grace_period_ends_at g),
    )
    else (true, [])

-- The decision of `act`: the gate, closed by a dry run.
unfoldable pub may_act : General → Time → Bool → Bool × Text
unfolding automatic_action_allowed
may_act g now dry_run =
    if dry_run
    then (false, codes "running in simulation mode (--dry-run)")
    else automatic_action_allowed g now

-- What a step tells the store and the channels; the log is left out.
pub data Effect : Type 0 where
  update : (id : Text) → ActionTaken → (ref reason : Text) → Effect
  confirmed_event likely_event suspicious_event : Verdict → Effect
  quarantined_event : QuarantineItem → Effect
  failed_event : (id path reason : Text) → Effect

-- `emitVerdict`.
unfoldable pub emit_verdict : Verdict → Level → List Effect
emit_verdict v confirmed = confirmed_event v ∷ []
emit_verdict v likely = likely_event v ∷ []
emit_verdict v suspicious = suspicious_event v ∷ []
emit_verdict v clean = []
emit_verdict v (Level.unknown t) = []

pub record Step : Type 0 where
  pub verdict : Verdict
  pub world : World
  pub effects : List Effect

-- What the runner holds: the vault, the clock, the answers for each verdict, and the text of an error.
pub record Runner : Type 0 where
  pub vault : Vault
  pub now : Time
  pub answers : Text → Answers
  pub explain_error : VaultError → Text

abbrev pub refused : Runner → ActionTaken → VaultError → Verdict → Verdict
refused r action e v = record v {
  action_taken = action;
  action_at = r.now;
  action_error = r.explain_error e;
}

-- `errors.Is(err, ErrHashMismatch)`.
abbrev pub is_mismatch : VaultError → Bool
is_mismatch hash_mismatch = true
is_mismatch _ = false

-- The `switch` of `quarantineOne` on the result.
unfoldable pub after_quarantine : Runner → Verdict → World → Result QuarantineItem → Step
after_quarantine r v w (ok item) = record {
  verdict = record v { action_taken = quarantined; action_at = r.now; quarantine_ref = item.ref };
  world = w;
  effects = update v.verdict_id quarantined item.ref [] ∷ quarantined_event item ∷ [];
}
after_quarantine r v w (err e) =
    if is_mismatch e
    then record {
      verdict = refused r rescan_needed e v;
      world = w;
      effects = update v.verdict_id rescan_needed [] (r.explain_error e) ∷ [];
    }
    else record {
      verdict = refused r action_failed e v;
      world = w;
      effects =
          update v.verdict_id action_failed [] (r.explain_error e)
          ∷ failed_event v.verdict_id v.file_path (r.explain_error e)
          ∷ [];
    }

unfoldable pub quarantine_one : Runner → Verdict → World → Step
quarantine_one r v w =
    let done =
      quarantine r.vault (r.answers v.verdict_id) v.verdict_id v.file_path v.file_sha256 w in
    after_quarantine r v done.0 done.1

-- One round of the loop, before the verdict is emitted.
unfoldable pub decide_action : Runner → Bool → Text → Verdict → World → Step
decide_action r allowed reason v w =
    let still : Step = record { verdict = v; world = w; effects = [] } in
    if not (is_nothing v.action_taken)
    then still
    else if not (actionable v)
    then still
    else if not allowed
    then record {
      verdict = record v { action_taken = recommended; action_at = r.now; action_error = reason };
      world = w;
      effects = update v.verdict_id recommended [] reason ∷ [];
    }
    else quarantine_one r v w

pub record Acted : Type 0 where
  pub verdicts : List Verdict
  pub world : World
  pub effects : List Effect

unfoldable pub act_loop : Runner → Bool → Text → List Verdict → World → Acted
act_loop r allowed reason [] w = record { verdicts = []; world = w; effects = [] }
act_loop r allowed reason (v ∷ vs) w =
    let s = decide_action r allowed reason v w in
    let rest = act_loop r allowed reason vs s.world in
    record {
      verdicts = s.verdict ∷ rest.verdicts;
      world = rest.world;
      effects = s.effects ++ (emit_verdict s.verdict s.verdict.level ++ rest.effects);
    }

unfoldable pub act : Runner → General → Bool → List Verdict → World → Acted
act r g dry_run vs w = let gate = may_act g r.now dry_run in act_loop r gate.0 gate.1 vs w
