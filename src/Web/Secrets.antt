-- ===== src/Web/Secrets.antt =====
-- What a change from the panel leaves alone.
use sentinel_host.Prelude.{
  ◌≡◌, refl, sym, ◌∙◌, ◌⊎◌, inl, inr, ap, Option, none, some, List, [], ◌∷◌, Text, text_eq,
  text_eq_refl, text_ne, if_cases, In, Distinct, if◌then◌else◌,
}
use mathlib.Core.Path.{subst}
use sentinel_host.Prelude.Int.{ℤ}
use sentinel_host.Config.Types.{Config, WebhookConfig}
use sentinel_host.Config.Validate.{has_errors}
use sentinel_host.Config.Alerts.{validate}
use sentinel_host.Config.Valid.{Admitted, validate-Admitted}
use sentinel_host.Web.Settings.{
  stars, mask, previous_secret, keep_secret, keep_secrets, shown_webhooks, PutOutside, PutAnswer,
  done, ConfigPatch, apply, publish, handle_config_put,
}

abbrev pub ids : List WebhookConfig → List Text
ids [] = []
ids (w ∷ ws) = w.id ∷ ids ws

-- An id that comes no more keeps the secret that was found.
previous_secret-absent :
    (id : Text) (ws : List WebhookConfig) (found : Text)
    → ¬ In id (ids ws)
    → previous_secret id ws found ≡ found
unfolding previous_secret
previous_secret-absent id [] found n = refl
previous_secret-absent id (w ∷ ws) found n =
    rw (text_ne w.id id (λ e. n (inl (sym e))))
      (previous_secret-absent id ws found (λ m. n (inr m)))

previous_secret-here :
    (v : WebhookConfig) (ws : List WebhookConfig) (found : Text)
    → ¬ In v.id (ids ws)
    → previous_secret v.id (v ∷ ws) found ≡ v.secret
unfolding previous_secret
previous_secret-here v ws found n =
    rw (text_eq_refl v.id) (previous_secret-absent v.id ws v.secret n)

previous_secret-In :
    (w : WebhookConfig) (ws : List WebhookConfig) (found : Text)
    → In w ws
    → Distinct (ids ws)
    → previous_secret w.id ws found ≡ w.secret
unfolding previous_secret
previous_secret-In w [] found m d = absurd m
previous_secret-In w (v ∷ ws) found (inl e) (n, d) =
    subst (λ (u : WebhookConfig). previous_secret u.id (v ∷ ws) found ≡ u.secret) (sym e)
      (previous_secret-here v ws found n)
previous_secret-In w (v ∷ ws) found (inr m) (n, d) = previous_secret-In w ws _ m d

masked-kept : (s p : Text) → p ≡ s → (if text_eq (mask s) stars then p else mask s) ≡ s
unfolding mask
masked-kept [] p e = refl
masked-kept (c ∷ s) p e = e

keep_secret-mask :
    (old : List WebhookConfig) (w : WebhookConfig)
    → previous_secret w.id old [] ≡ w.secret
    → keep_secret old (record w { secret = mask w.secret }) ≡ w
unfolding keep_secret
keep_secret-mask old w e =
    ap (λ s. record w { secret = s }) (masked-kept w.secret (previous_secret w.id old []) e)

kept-all :
    (old ws : List WebhookConfig)
    → Distinct (ids old)
    → ((w : WebhookConfig) → In w ws → In w old)
    → keep_secrets old (shown_webhooks ws) ≡ ws
unfolding keep_secrets shown_webhooks
kept-all old [] d h = refl
kept-all old (w ∷ ws) d h =
    ap (λ v. v ∷ keep_secrets old (shown_webhooks ws))
      (keep_secret-mask old w (previous_secret-In w old [] (h w (inl refl)) d))
    ∙ ap (λ r. w ∷ r) (kept-all old ws d (λ v m. h v (inr m)))

-- The webhooks that the panel shows, sent back as they are, leave every webhook with its secret, where
-- their ids are distinct.
pub keep_secrets-shown_webhooks :
    (ws : List WebhookConfig) → Distinct (ids ws) → keep_secrets ws (shown_webhooks ws) ≡ ws
keep_secrets-shown_webhooks ws d = kept-all ws ws d (λ w m. m)

-- What is published after a change: what was there, or, where the answer says so, a configuration that the
-- validation lets through.
abbrev pub Published : (Text → Option Text) → Config → PutAnswer × Config → Type 0
Published scheme old r = (r.1 ≡ old) ⊎ ((r.0 ≡ done) × Admitted scheme r.1)

module _ (scheme : Text → Option Text) (read : Text → Option ℤ) where
  publish-Published :
      (o : PutOutside) (c old : Config) → Published scheme old (publish scheme o c old)
  unfolding publish
  publish-Published o c old =
      if_cases (Published scheme old) (has_errors (validate scheme c)) _ _ (λ _. inl refl)
        (λ e.
          if_cases (Published scheme old) o.saved _ _
            (λ _. inr (refl, validate-Admitted scheme c e)) (λ _. inl refl))

  -- A change from the panel leaves the published configuration as it was; or it is answered as done, and what
  -- is published has roots, none of them empty or `/`, a data directory and an extension for the vault; positive
  -- sizes of files and batches, depth and engine timeout; thresholds in their strict order, multipliers neither
  -- below 0 nor above 1, and a saturation that does not compare as 0 or less (a NaN compares as none of
  -- these, and passes as a multiplier or as the saturation); an automatic purge only after a day or more; an engine that is
  -- enabled; webhooks with distinct ids, not empty, and known events; and, where the panel is on, a positive
  -- life of sessions and a positive limit of logins.
  pub handle_config_put-Published :
      (o : PutOutside) (p : Option ConfigPatch) (old : Config)
      → Published scheme old (handle_config_put scheme read o p old)
  unfolding handle_config_put
  handle_config_put-Published o none old = inl refl
  handle_config_put-Published o (some p) old =
      if_cases (Published scheme old) o.locked _ _ (λ _. inl refl)
        (λ _. publish-Published o (apply read p old) old)
