-- ===== src/Config/Alerts.antt =====
-- validate.go: the e-mail and the webhooks, and the whole validation. `scheme` is what url.Parse says of a URL
-- (none for an error). Upper case is that of ASCII.
use sentinel_host.Prelude.{
  ℕ, Bool, true, false, not, ◌||◌, ◌&&◌, ◌+◌, Option, none, some, List, [], ◌∷◌, ◌++◌, map, Text,
  codes, text_eq, is_empty, any_of, leb, if◌then◌else◌,
}
use sentinel_host.Prelude.Int.{pos, lt_int}
use sentinel_host.Schema.Validate.{gather}
use sentinel_host.Config.Types.{EmailConfig, WebhookConfig, Config}
use sentinel_host.Config.Validate.{
  Field, named, under, ConfigProblem, error_at, fatal_if, warn_if, not_positive, is_nil,
  general_problems, limits_problems, thresholds_problems, quarantine_problems, engines_problems,
  markers_problems, web_problems,
}

-- `strings.ToLower`.
abbrev pub lower_byte : ℕ → ℕ
lower_byte c = if leb b'A' c && leb c b'Z' then c + 32 else c

unfoldable pub to_lower : Text → Text
to_lower s = map lower_byte s

abbrev pub one_of : List Text → Text → Bool
one_of known t = any_of (λ k. text_eq k t) known

unfoldable pub uses_smtp : EmailConfig → Bool
unfolding to_lower
uses_smtp e =
    if text_eq (to_lower e.transport) (codes "smtp")
    then true
    else if text_eq (to_lower e.transport) (codes "sendmail")
    then false
    else not (is_empty e.host)

abbrev pub transports : List Text
transports = [] ∷ codes "auto" ∷ codes "smtp" ∷ codes "sendmail" ∷ []

abbrev pub tls_values : List Text
tls_values = codes "starttls" ∷ codes "tls" ∷ codes "none" ∷ []

abbrev pub mail_levels : List Text
mail_levels = codes "confirmed" ∷ codes "likely" ∷ codes "suspicious" ∷ []

unfoldable pub levels_problems : List Text → List ConfigProblem
levels_problems [] = []
levels_problems (l ∷ ls) =
    fatal_if (not (one_of mail_levels l)) (named (codes "alerts.email.levels"))
    ++ levels_problems ls

unfoldable pub email_problems : EmailConfig → List ConfigProblem
unfolding uses_smtp levels_problems to_lower
email_problems e =
    if not e.enabled
    then []
    else gather (
        fatal_if (uses_smtp e && (not_positive e.port || lt_int (pos 65535) e.port))
          (named (codes "alerts.email.port"))
        ∷ fatal_if (not (one_of transports (to_lower e.transport)))
            (named (codes "alerts.email.transport"))
        ∷ fatal_if
            (not (is_empty e.transport)
              && (not (text_eq (to_lower e.transport) (codes "auto"))
                  && (is_empty e.host && text_eq (to_lower e.transport) (codes "smtp"))))
            (named (codes "alerts.email.host"))
        ∷ fatal_if (is_empty e.from) (named (codes "alerts.email.from"))
        ∷ fatal_if (is_nil e.to) (named (codes "alerts.email.to"))
        ∷ fatal_if (not (one_of tls_values e.tls)) (named (codes "alerts.email.tls"))
        ∷ warn_if (text_eq e.tls (codes "none") && not (is_empty e.password))
            (named (codes "alerts.email.tls"))
        ∷ levels_problems e.levels
        ∷ warn_if (is_nil e.levels) (named (codes "alerts.email.levels"))
        ∷ [])

abbrev pub known_events : List Text
known_events =
    codes "verdict.confirmed"
    ∷ codes "verdict.likely"
    ∷ codes "verdict.suspicious"
    ∷ codes "quarantine.action"
    ∷ codes "scan.completed"
    ∷ codes "engine.failed"
    ∷ []

abbrev pub known_webhook_formats : List Text
known_webhook_formats = codes "raw" ∷ codes "slack" ∷ codes "discord" ∷ []

unfoldable pub format_or_default : WebhookConfig → Text
format_or_default w = if is_empty w.format then codes "raw" else w.format

abbrev pub hook_field : ℕ → Text → Field
hook_field i name = under (codes "alerts.webhooks") i name

unfoldable pub events_problems : ℕ → List Text → List ConfigProblem
events_problems i [] = []
events_problems i (e ∷ es) =
    fatal_if (not (one_of known_events e)) (hook_field i (codes "events")) ++ events_problems i es

unfoldable pub scheme_problems : ℕ → WebhookConfig → Option Text → List ConfigProblem
scheme_problems i w none = error_at (hook_field i (codes "url")) ∷ []
scheme_problems i w (some scheme) =
    if not (text_eq scheme (codes "http")) && not (text_eq scheme (codes "https"))
    then error_at (hook_field i (codes "url")) ∷ []
    else warn_if (text_eq scheme (codes "http") && w.enabled) (hook_field i (codes "url"))

unfoldable pub secret_problems : ℕ → WebhookConfig → List ConfigProblem
unfolding format_or_default
secret_problems i w =
    let raw = text_eq (format_or_default w) (codes "raw") in
    if w.enabled && (is_empty w.secret && raw)
    then warn_if true (hook_field i (codes "secret"))
    else warn_if (w.enabled && (not (is_empty w.secret) && not raw)) (hook_field i (codes "secret"))

module _ (scheme : Text → Option Text) where
  abbrev pub url_problems : ℕ → WebhookConfig → List ConfigProblem
  url_problems i w =
      if is_empty w.url
      then error_at (hook_field i (codes "url")) ∷ []
      else scheme_problems i w (scheme w.url)

  abbrev pub webhook_checks : ℕ → List Text → WebhookConfig → List (List ConfigProblem)
  webhook_checks i seen w =
      fatal_if (is_empty w.id || one_of seen w.id) (hook_field i (codes "id"))
      ∷ url_problems i w
      ∷ fatal_if (not (one_of known_webhook_formats (format_or_default w)))
          (hook_field i (codes "format"))
      ∷ secret_problems i w
      ∷ warn_if (w.enabled && is_nil w.events) (hook_field i (codes "events"))
      ∷ events_problems i w.events
      ∷ []

  unfoldable pub webhook_problems : ℕ → List Text → WebhookConfig → List ConfigProblem
  unfolding scheme_problems secret_problems events_problems
  webhook_problems i seen w = gather (webhook_checks i seen w)

  -- The ids seen are those that are not empty.
  unfoldable pub webhooks_problems : ℕ → List Text → List WebhookConfig → List ConfigProblem
  unfolding webhook_problems
  webhooks_problems i seen [] = []
  webhooks_problems i seen (w ∷ ws) =
      webhook_problems i seen w
      ++ webhooks_problems (i + 1) (if is_empty w.id then seen else w.id ∷ seen) ws

  abbrev pub config_checks : Config → List (List ConfigProblem)
  config_checks c =
      general_problems c.general
      ∷ limits_problems c.limits
      ∷ thresholds_problems c.verdict
      ∷ quarantine_problems c.quarantine
      ∷ engines_problems c.engines
      ∷ markers_problems c.planted_markers
      ∷ email_problems c.email
      ∷ webhooks_problems 0 [] c.webhooks
      ∷ web_problems c.web
      ∷ []

  unfoldable pub validate : Config → List ConfigProblem
  unfolding webhooks_problems email_problems general_problems limits_problems thresholds_problems
      quarantine_problems engines_problems markers_problems web_problems
  validate c = gather (config_checks c)
