-- ===== src/Web/Settings.antt =====
-- internal/web/patch.go, and of api.go and server.go mask, handleConfigPut and mutateConfig: the changes
-- that the panel makes to the configuration. Of a patch those fields are modelled whose setting is part
-- of `Config`, and of the configuration shown by the panel its secrets.
use sentinel_host.Prelude.{
  Bool, false, Option, none, some, List, [], ◌∷◌, Text, codes, text_eq, is_empty, if◌then◌else◌,
}
use sentinel_host.Prelude.Int.{ℤ}
use sentinel_host.Prelude.Float.{Float64, zero_f}
use sentinel_host.Cycle.Engines.{EngineConfig}
use sentinel_host.Config.Types.{Config, EmailConfig, WebhookConfig}
use sentinel_host.Config.Validate.{has_errors}
use sentinel_host.Config.Alerts.{validate}

abbrev pub stars : Text
stars = codes "********"

unfoldable pub mask : Text → Text
mask v = if is_empty v then [] else stars

-- A field that the patch does not have is left alone.
unfoldable pub set_field {ℓ} : {A : Type ℓ} → Option A → A → A
set_field none a = a
set_field (some b) a = b

pub record EnginePatch : Type 0 where
  pub enabled : Option Bool
  pub weight : Option Float64

pub record EmailPatch : Type 0 where
  pub enabled : Option Bool
  pub host : Option Text
  pub port : Option ℤ
  pub password : Option Text
  pub tls : Option Text
  pub from : Option Text
  pub to : Option (List Text)
  pub levels : Option (List Text)

-- `webhookPatch` has the fields of the configuration's webhook.
pub record ConfigPatch : Type 0 where
  pub observation_mode : Option Bool
  pub grace_period_days : Option ℤ
  pub roots : Option (List Text)
  pub nice : Option ℤ
  pub max_file_size_mb : Option ℤ
  pub engine_timeout : Option Text
  pub batch_size : Option ℤ
  pub confirmed_at : Option Float64
  pub likely_at : Option Float64
  pub suspicious_at : Option Float64
  pub saturation : Option Float64
  pub retention_days : Option ℤ
  pub auto_purge : Option Bool
  pub engines : List (Text × EnginePatch)
  pub email : Option EmailPatch
  pub webhooks : Option (List WebhookConfig)

-- A masked password does not replace the real one.
unfoldable pub set_password : Option Text → Text → Text
set_password none old = old
set_password (some p) old = if text_eq p stars then old else p

unfoldable pub patch_email : Option EmailPatch → EmailConfig → EmailConfig
unfolding set_field set_password
patch_email none e = e
patch_email (some p) e = record e {
  enabled = set_field p.enabled e.enabled;
  host = set_field p.host e.host;
  port = set_field p.port e.port;
  password = set_password p.password e.password;
  tls = set_field p.tls e.tls;
  from = set_field p.from e.from;
  to = set_field p.to e.to;
  levels = set_field p.levels e.levels;
}

unfoldable pub patch_engine : EnginePatch → EngineConfig → EngineConfig
unfolding set_field
patch_engine p e = record {
  enabled = set_field p.enabled e.enabled;
  weight = set_field p.weight e.weight;
}

abbrev no_engine : EngineConfig
no_engine = record { enabled = false; weight = zero_f }

-- `c.Engines[slug] = e`, of what is there or of the zero value.
unfoldable pub patch_slug :
    Text → EnginePatch → List (Text × EngineConfig) → List (Text × EngineConfig)
unfolding patch_engine
patch_slug s p [] = (s, patch_engine p no_engine) ∷ []
patch_slug s p ((t, e) ∷ es) =
    let rest = patch_slug s p es in
    if text_eq s t then (t, patch_engine p e) ∷ es else (t, e) ∷ rest

unfoldable pub patch_engines :
    List (Text × EnginePatch) → List (Text × EngineConfig) → List (Text × EngineConfig)
unfolding patch_slug
patch_engines [] es = es
patch_engines ((s, p) ∷ ps) es = patch_engines ps (patch_slug s p es)

-- The secret of an id in the map that is filled from the webhooks, so that a later one replaces an
-- earlier one; a missing key reads as the empty text.
unfoldable pub previous_secret : Text → List WebhookConfig → Text → Text
previous_secret id [] found = found
previous_secret id (w ∷ ws) found =
    previous_secret id ws (if text_eq w.id id then w.secret else found)

unfoldable pub keep_secret : List WebhookConfig → WebhookConfig → WebhookConfig
unfolding previous_secret
keep_secret old w = record w {
  secret = if text_eq w.secret stars then previous_secret w.id old [] else w.secret;
}

unfoldable pub keep_secrets : List WebhookConfig → List WebhookConfig → List WebhookConfig
unfolding keep_secret
keep_secrets old [] = []
keep_secrets old (w ∷ ws) = keep_secret old w ∷ keep_secrets old ws

unfoldable pub patch_webhooks :
    Option (List WebhookConfig) → List WebhookConfig → List WebhookConfig
unfolding keep_secrets
patch_webhooks none old = old
patch_webhooks (some ws) old = keep_secrets old ws

-- A duration that cannot be read is ignored.
unfoldable pub set_duration : (Text → Option ℤ) → Option Text → ℤ → ℤ
unfolding set_field
set_duration read none d = d
set_duration read (some t) d = set_field (read t) d

-- `read` is `time.ParseDuration`.
unfoldable pub apply : (read : Text → Option ℤ) → ConfigPatch → Config → Config
unfolding set_field set_duration patch_engines patch_email patch_webhooks
apply read p c = record c {
  general = record c.general {
    observation_mode = set_field p.observation_mode c.general.observation_mode;
    grace_period_days = set_field p.grace_period_days c.general.grace_period_days;
    roots = set_field p.roots c.general.roots;
  };
  limits = record c.limits {
    nice = set_field p.nice c.limits.nice;
    max_file_size_mb = set_field p.max_file_size_mb c.limits.max_file_size_mb;
    engine_timeout = set_duration read p.engine_timeout c.limits.engine_timeout;
    batch_size = set_field p.batch_size c.limits.batch_size;
  };
  verdict = record c.verdict {
    confirmed_at = set_field p.confirmed_at c.verdict.confirmed_at;
    likely_at = set_field p.likely_at c.verdict.likely_at;
    suspicious_at = set_field p.suspicious_at c.verdict.suspicious_at;
    saturation = set_field p.saturation c.verdict.saturation;
  };
  quarantine = record c.quarantine {
    retention_days = set_field p.retention_days c.quarantine.retention_days;
    auto_purge = set_field p.auto_purge c.quarantine.auto_purge;
  };
  engines = patch_engines p.engines c.engines;
  email = patch_email p.email c.email;
  webhooks = patch_webhooks p.webhooks c.webhooks;
}

-- The secrets of `handleConfigGet`.
unfoldable pub shown_webhooks : List WebhookConfig → List WebhookConfig
unfolding mask
shown_webhooks [] = []
shown_webhooks (w ∷ ws) = record w { secret = mask w.secret } ∷ shown_webhooks ws

pub data PutAnswer : Type 0 where
  bad_request busy invalid not_saved done : PutAnswer

-- What else decides: whether a cycle holds the configuration, and whether the file can be written.
pub record PutOutside : Type 0 where
  pub locked : Bool
  pub saved : Bool

-- Inside `mutateConfig`: the answer and the configuration that is published.
unfoldable pub publish :
    (Text → Option Text) → PutOutside → (updated old : Config) → PutAnswer × Config
publish scheme o c old =
    if has_errors (validate scheme c)
    then (invalid, old)
    else if o.saved
    then (done, c)
    else (not_saved, old)

-- `handleConfigPut` with `mutateConfig`; `none` is a body that cannot be read.
unfoldable pub handle_config_put :
    (scheme : Text → Option Text) (read : Text → Option ℤ)
    → PutOutside
    → Option ConfigPatch
    → Config
    → PutAnswer × Config
unfolding publish apply
handle_config_put scheme read o none old = (bad_request, old)
handle_config_put scheme read o (some p) old =
    if o.locked then (busy, old) else publish scheme o (apply read p old) old
