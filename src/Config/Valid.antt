-- ===== src/Config/Valid.antt =====
-- What a configuration that passes the validation is known to hold.
use mathlib.Core.Path.{subst}
use sentinel_host.Prelude.{
  ℕ, zero, suc, Bool, true, false, not, ◌||◌, ◌&&◌, ◌+◌, Option, none, some, List, [], ◌∷◌, ◌++◌,
  Text, codes, text_eq, text_eq_iff, is_empty, any_of, ◌==◌, ◌≡◌, ◌≢◌, refl, sym, inl, inr,
  and_parts, arith, In, Distinct, All, if◌then◌else◌,
}
use sentinel_host.Prelude.Int.{ℤ, pos, negsuc}
use sentinel_host.Prelude.Float.{Float64, lt_f, le_f, zero_f, one_f}
use sentinel_host.Schema.Validate.{gather}
use sentinel_host.Sched.Cron.{cut}
use sentinel_host.Cycle.Engines.{EngineConfig}
use sentinel_host.Config.Types.{WebhookConfig, WebConfig, Config}
use sentinel_host.Config.Validate.{
  Field, named, ConfigProblem, general_checks, limits_checks, thresholds_checks, quarantine_checks,
  engines_checks, listen_checks, fatal_if, has_errors, not_positive, is_negative, is_zero_int,
  is_nil, outside_unit, root_problems, roots_problems, general_problems, limits_problems,
  thresholds_problems, quarantine_problems, count_enabled, engines_problems, listen_problems,
  web_problems,
}
use sentinel_host.Config.Alerts.{
  one_of, hook_field, known_events, events_problems, webhook_checks, webhook_problems,
  webhooks_problems, config_checks, validate,
}

abbrev Quiet : List ConfigProblem → Type 0
Quiet ps = has_errors ps ≡ false

Quiet-append : (xs ys : List ConfigProblem) → Quiet (xs ++ ys) → Quiet xs × Quiet ys
Quiet-append [] ys h = (refl, h)
Quiet-append (x ∷ xs) ys h = ground (arith, Quiet-append xs ys)

Quiet-gather : (pss : List (List ConfigProblem)) → Quiet (gather pss) → All Quiet pss
Quiet-gather [] h = tt
Quiet-gather (ps ∷ pss) h = let (a, b) = Quiet-append ps (gather pss) h in (a, Quiet-gather pss b)

fatal_if-false : (b : Bool) (f : Field) → Quiet (fatal_if b f) → b ≡ false
fatal_if-false true f h = absurd (cc h)
fatal_if-false false f h = refl

-- A root that may be walked.
abbrev pub Walkable : Text → Type 0
Walkable r = (is_empty r ≡ false) × (text_eq r (codes "/") ≡ false)

roots_problems-Walkable : (i : ℕ) (rs : List Text) → Quiet (roots_problems i rs) → All Walkable rs
unfolding roots_problems
roots_problems-Walkable i [] h = tt
roots_problems-Walkable i (r ∷ rs) h =
    let (one, rest) = Quiet-append (root_problems i r) (roots_problems (i + 1) rs) h in
    (ground (arith, one), roots_problems-Walkable (i + 1) rs rest)

count_enabled-some :
    (es : List (Text × EngineConfig))
    → (count_enabled es == 0) ≡ false
    → any_of (λ e. e.1.enabled) es ≡ true
unfolding count_enabled
count_enabled-some [] h = absurd (cc h)
count_enabled-some ((slug, e) ∷ es) h = ground (arith, count_enabled-some es)

not-false : (b : Bool) → not b ≡ false → b ≡ true
not-false true h = refl
not-false false h = absurd (cc h)

abbrev pub hook_ids : List WebhookConfig → List Text
hook_ids [] = []
hook_ids (w ∷ ws) = w.id ∷ hook_ids ws

-- The webhook has an id, and its events are among those that are dispatched.
abbrev pub Subscribes : WebhookConfig → Type 0
Subscribes w = (is_empty w.id ≡ false) × All (λ e. one_of known_events e ≡ true) w.events

events_problems-known :
    (i : ℕ) (es : List Text)
    → Quiet (events_problems i es)
    → All (λ e. one_of known_events e ≡ true) es
unfolding events_problems
events_problems-known i [] h = tt
events_problems-known i (e ∷ es) h =
    let field = hook_field i (codes "events") in
    let (one, rest) =
      Quiet-append (fatal_if (not (one_of known_events e)) field) (events_problems i es) h in
    let known = fatal_if-false (not (one_of known_events e)) field one in
    (not-false (one_of known_events e) known, events_problems-known i es rest)

one_of-false : (t : Text) (ts : List Text) → one_of ts t ≡ false → ¬ In t ts
one_of-false t [] h i = i
one_of-false t (x ∷ ts) h (inl q) =
    let same : text_eq x t ≡ true = (text_eq_iff x t).1 (sym q) in ground (arith, same)
one_of-false t (x ∷ ts) h (inr i) = one_of-false t ts (ground arith) i

-- At least 1.
abbrev pub Positive : ℤ → Type 0
Positive (pos (suc n)) = Unit
Positive (pos zero) = ⊥
Positive (negsuc n) = ⊥

-- Neither below 0 nor above 1.
abbrev pub InUnit : Float64 → Type 0
InUnit v = (lt_f v zero_f ≡ false) × (lt_f one_f v ≡ false)

not_positive-Positive : (z : ℤ) → not_positive z ≡ false → Positive z
not_positive-Positive (pos (suc n)) h = tt
not_positive-Positive (pos zero) h = absurd (cc h)
not_positive-Positive (negsuc n) h = absurd (cc h)

outside_unit-InUnit : (v : Float64) → outside_unit v ≡ false → InUnit v
outside_unit-InUnit v h = parts (lt_f v zero_f) (lt_f one_f v) h
  where
    parts : (a b : Bool) → (a || b) ≡ false → (a ≡ false) × (b ≡ false)
    parts true b h = absurd (cc h)
    parts false b h = (refl, h)

is_empty-cons : (t : Text) → is_empty t ≡ false → t ≢ []
is_empty-cons [] h e = cc h
is_empty-cons (c ∷ t) h e = cc e

is_nil-cons : (ts : List Text) → is_nil ts ≡ false → ts ≢ []
is_nil-cons [] h e = cc h
is_nil-cons (t ∷ ts) h e = cc e

module _ (scheme : Text → Option Text) where
  webhook_problems-Subscribes :
      (i : ℕ) (seen : List Text) (w : WebhookConfig)
      → Quiet (webhook_problems scheme i seen w)
      → Subscribes w × (one_of seen w.id ≡ false)
  unfolding webhook_problems
  webhook_problems-Subscribes i seen w h =
      let parts = Quiet-gather (webhook_checks scheme i seen w) h in
      let fine =
        fatal_if-false (is_empty w.id || one_of seen w.id) (hook_field i (codes "id")) parts.0 in
      ((ground arith, events_problems-known i w.events parts.1.1.1.1.1.0), ground arith)

  webhooks_problems-Distinct :
      (i : ℕ) (seen : List Text) (ws : List WebhookConfig)
      → Quiet (webhooks_problems scheme i seen ws)
      → All Subscribes ws × Distinct (hook_ids ws) × ((t : Text) → In t seen → ¬ In t (hook_ids ws))
  unfolding webhooks_problems
  webhooks_problems-Distinct i seen [] h = (tt, tt, (λ t j k. k))
  webhooks_problems-Distinct i seen (w ∷ ws) h =
      let next = if is_empty w.id then seen else w.id ∷ seen in
      let (one, rest) =
        Quiet-append (webhook_problems scheme i seen w) (webhooks_problems scheme (i + 1) next ws)
          h in
      let (fine, fresh) = webhook_problems-Subscribes i seen w one in
      let more : Quiet (webhooks_problems scheme (i + 1) (w.id ∷ seen) ws) =
        subst (λ b. Quiet (webhooks_problems scheme (i + 1) (if b then seen else w.id ∷ seen) ws))
          fine.0 rest in
      let (all, apart, unseen) = webhooks_problems-Distinct (i + 1) (w.id ∷ seen) ws more in
      (
        (fine, all),
        (unseen w.id (inl refl), apart),
        (λ t j k. elim k [
          | inl q ↦ one_of-false w.id seen fresh (subst (λ x. In x seen) q j)
          | inr k' ↦ unseen t (inr j) k'
        ]),
      )

  -- What the validation lets through: the parts that cycles, engines, the vault, the alerts and the panel read.
  -- The comparisons of floats are those of IEEE 754, so of a NaN only the tests on the thresholds know.
  pub record Admitted (c : Config) : Type 0 where
    pub roots : c.general.roots ≢ []
    pub walkable : All Walkable c.general.roots
    pub data_dir : c.general.data_dir ≢ []
    pub file_size : Positive c.limits.max_file_size_mb
    pub engine_timeout : Positive c.limits.engine_timeout
    pub batch_size : Positive c.limits.batch_size
    pub max_depth : Positive c.limits.max_depth
    pub saturation : le_f c.verdict.saturation zero_f ≡ false
    pub likely_below : lt_f c.verdict.likely_at c.verdict.confirmed_at ≡ true
    pub suspicious_below : lt_f c.verdict.suspicious_at c.verdict.likely_at ≡ true
    pub multipliers :
        InUnit c.verdict.signature_multiplier
        × InUnit c.verdict.heuristic_multiplier
        × InUnit c.verdict.anomaly_multiplier
    pub retention : (c.quarantine.auto_purge ≡ true) → Positive c.quarantine.retention_days
    pub extension : c.quarantine.neutralized_extension ≢ []
    pub engine_on : any_of (λ e. e.1.enabled) c.engines ≡ true
    pub webhooks : All Subscribes c.webhooks × Distinct (hook_ids c.webhooks)
    pub session_ttl : (c.web.enabled ≡ true) → Positive c.web.session_ttl
    pub login_limit : (c.web.enabled ≡ true) → Positive c.web.login_rate_limit

  listen_problems-limit :
      (w : WebConfig) (o : Option (Text × Text))
      → Quiet (listen_problems w o)
      → Positive w.session_ttl × Positive w.login_rate_limit
  unfolding listen_problems
  listen_problems-limit w none h = absurd (cc h)
  listen_problems-limit w (some (host, port)) h =
      let parts = Quiet-gather (listen_checks w host) h in
      (
        not_positive-Positive w.session_ttl (
            fatal_if-false (not_positive w.session_ttl) (named (codes "web.session_ttl"))
              parts.1.0),
        not_positive-Positive w.login_rate_limit (
            fatal_if-false (not_positive w.login_rate_limit) (named (codes "web.login_rate_limit"))
              parts.1.1.0),
      )

  web_problems-limit :
      (w : WebConfig)
      → Quiet (web_problems w)
      → w.enabled ≡ true
      → Positive w.session_ttl × Positive w.login_rate_limit
  unfolding web_problems
  web_problems-limit w h e =
      let empty = fatal_if (is_empty w.listen) (named (codes "web.listen")) in
      let parsed = listen_problems w (cut b':' w.listen) in
      let (on, rest) =
        Quiet-append empty parsed
          (subst (λ b. Quiet (if not b then [] else empty ++ parsed)) e h) in
      listen_problems-limit w (cut b':' w.listen) rest

  -- A purge needs a retention of at least a day.
  purge_positive :
      (on : Bool) (days : ℤ)
      → is_negative days ≡ false
      → (on && is_zero_int days) ≡ false
      → on ≡ true
      → not_positive days ≡ false
  purge_positive on (negsuc n) a b e = absurd (cc a)
  purge_positive on (pos zero) a b e = absurd (ground arith)
  purge_positive on (pos (suc n)) a b e = ground arith

  -- What a configuration without errors holds.
  pub validate-Admitted : (c : Config) → has_errors (validate scheme c) ≡ false → Admitted c
  unfolding validate general_problems limits_problems thresholds_problems quarantine_problems
      engines_problems
  validate-Admitted c h =
      let parts = Quiet-gather (config_checks scheme c) h in
      let general = Quiet-gather (general_checks c.general) parts.0 in
      let limits = Quiet-gather (limits_checks c.limits) parts.1.0 in
      let verdict = Quiet-gather (thresholds_checks c.verdict) parts.1.1.0 in
      let vault = Quiet-gather (quarantine_checks c.quarantine) parts.1.1.1.0 in
      let engines = Quiet-gather (engines_checks c.engines) parts.1.1.1.1.0 in
      let (hooks, apart, unseen) =
        webhooks_problems-Distinct 0 [] c.webhooks parts.1.1.1.1.1.1.1.0 in
      let upper = lt_f c.verdict.likely_at c.verdict.confirmed_at in
      let lower = lt_f c.verdict.suspicious_at c.verdict.likely_at in
      let ordered =
        not-false (upper && lower)
          (fatal_if-false (not (upper && lower)) (named (codes "verdict")) verdict.1.1.1.1.0) in
      let (top, low) = and_parts upper lower ordered in
      let fine = λ (z : ℤ) (f : Field) (q : Quiet (fatal_if (not_positive z) f)).
        not_positive-Positive z (fatal_if-false (not_positive z) f q) in
      let unit = λ (x : Float64) (f : Field) (q : Quiet (fatal_if (outside_unit x) f)).
        outside_unit-InUnit x (fatal_if-false (outside_unit x) f q) in
      let written = λ (x : Text) (f : Field) (q : Quiet (fatal_if (is_empty x) f)).
        is_empty-cons x (fatal_if-false (is_empty x) f q) in
      record {
        roots =
            is_nil-cons c.general.roots
              (fatal_if-false (is_nil c.general.roots) (named (codes "general.roots")) general.0);
        walkable = roots_problems-Walkable 0 c.general.roots general.1.0;
        data_dir = written c.general.data_dir (named (codes "general.data_dir")) general.1.1.0;
        file_size =
            fine c.limits.max_file_size_mb (named (codes "limits.max_file_size_mb")) limits.1.1.0;
        engine_timeout =
            fine c.limits.engine_timeout (named (codes "limits.engine_timeout")) limits.1.1.1.0;
        batch_size =
            fine c.limits.batch_size (named (codes "limits.batch_size")) limits.1.1.1.1.1.0;
        max_depth = fine c.limits.max_depth (named (codes "limits.max_depth")) limits.1.1.1.1.1.1.0;
        saturation =
            fatal_if-false (le_f c.verdict.saturation zero_f) (named (codes "verdict.saturation"))
              verdict.0;
        likely_below = top;
        suspicious_below = low;
        multipliers = (
          unit c.verdict.signature_multiplier (named (codes "verdict.signature_multiplier"))
              verdict.1.1.1.1.1.0,
          unit c.verdict.heuristic_multiplier (named (codes "verdict.heuristic_multiplier"))
              verdict.1.1.1.1.1.1.0,
          unit c.verdict.anomaly_multiplier (named (codes "verdict.anomaly_multiplier"))
              verdict.1.1.1.1.1.1.1.0,
        );
        retention = λ on. not_positive-Positive c.quarantine.retention_days (
            purge_positive c.quarantine.auto_purge c.quarantine.retention_days
              (fatal_if-false (is_negative c.quarantine.retention_days)
                (named (codes "quarantine.retention_days")) vault.0)
              (fatal_if-false (c.quarantine.auto_purge && is_zero_int c.quarantine.retention_days)
                (named (codes "quarantine.auto_purge")) vault.1.0)
              on);
        extension =
            written c.quarantine.neutralized_extension
              (named (codes "quarantine.neutralized_extension")) vault.1.1.1.0;
        engine_on =
            count_enabled-some c.engines
              (fatal_if-false (count_enabled c.engines == 0) (named (codes "engines")) engines.1.0);
        webhooks = (hooks, apart);
        session_ttl = λ on. (web_problems-limit c.web parts.1.1.1.1.1.1.1.1.0 on).0;
        login_limit = λ on. (web_problems-limit c.web parts.1.1.1.1.1.1.1.1.0 on).1;
      }
