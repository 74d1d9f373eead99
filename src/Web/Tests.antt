-- ===== src/Web/Tests.antt =====
-- Three wrong passwords within three seconds, at a limit of two; a forged host; a webhook's secret.
use sentinel_host.Prelude.{
  ℕ, true, false, some, List, [], ◌∷◌, ◌*◌, ◌≤◌, Text, codes, ◌≡◌, refl, arith,
}
use sentinel_host.Web.Login.{second, Counters, Panel, Request, handle_login, too_many}
use sentinel_host.Config.Types.{WebhookConfig}
use sentinel_host.Web.Origin.{
  OriginRequest, forwarded, require_same_origin, require_same_origin-forwarded,
}
use sentinel_host.Web.Settings.{keep_secrets, shown_webhooks}
use sentinel_host.Web.Secrets.{keep_secrets-shown_webhooks}
use sentinel_host.Web.Limit.{serve, tries_before, serve_bounded}

abbrev panel : Panel
panel = record { per_min = 2; password_hash = some (codes "hash"); verify = λ password hash. false }

abbrev visitor : Text
visitor = codes "203.0.113.9"

abbrev try_at : ℕ → Request
try_at n = record {
  ip = visitor;
  now = n * second;
  password = some (codes "guess");
  query_works = true;
  write_works = true;
}

abbrev nobody : Counters
nobody q = []

abbrev three : List Request
three = try_at 100 ∷ try_at 101 ∷ try_at 102 ∷ []

serve_bounded_example :
    tries_before (103 * second) (serve panel visitor three nobody []).1 ≤ panel.per_min
serve_bounded_example =
    serve_bounded panel visitor three nobody (103 * second)
      (omega arith, refl, refl, (omega arith, refl, refl, (omega arith, refl, refl, tt)))
      (omega arith) (omega arith)

third_refused :
    (handle_login panel
      (try_at 102)
      (serve panel visitor (try_at 100 ∷ try_at 101 ∷ []) nobody []).0).0
    ≡ too_many
unfolding serve handle_login
third_refused = refl

-- A request to purge, made by a page on another host that also wrote a forwarded host.
abbrev purge_request : OriginRequest
purge_request = record {
  method = codes "POST";
  sec_fetch_site = [];
  origin = codes "https://evil.example";
  host = codes "127.0.0.1:8443";
  forwarded_hosts = [];
}

forged_host_refused :
    require_same_origin
      (forwarded purge_request (codes "evil.example" ∷ []) (codes "panel.example:443"))
    ≡ false
unfolding require_same_origin
forged_host_refused = refl

require_same_origin-forwarded_example :
    require_same_origin
      (forwarded purge_request (codes "evil.example" ∷ []) (codes "panel.example"))
    ≡ require_same_origin (forwarded purge_request [] (codes "panel.example"))
require_same_origin-forwarded_example =
    require_same_origin-forwarded purge_request (codes "evil.example" ∷ []) (codes "panel.example")

abbrev hook : WebhookConfig
hook = record {
  id = codes "w1";
  enabled = true;
  url = codes "https://example.org/hook";
  secret = codes "s3cret";
  events = [];
  format = [];
}

keep_secrets-shown_webhooks_example :
    keep_secrets (hook ∷ []) (shown_webhooks (hook ∷ [])) ≡ hook ∷ []
keep_secrets-shown_webhooks_example = keep_secrets-shown_webhooks (hook ∷ []) ((λ m. absurd m), tt)
