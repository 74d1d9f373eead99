-- ===== src/Config/Tests.antt =====
-- The default configuration with one root, one webhook and the panel; and one whose saturation is no number.
use sentinel_host.Prelude.{true, false, none, some, Option, [], ◌∷◌, Text, codes, ◌≡◌, refl}
use sentinel_host.Prelude.Int.{ℤ, pos}
use sentinel_host.Prelude.Float.{Float64, one_f, le_f, lt_f, eq_f, is_nan, rank}
use sentinel_host.Verdict.Votes.{VerdictConfig}
use sentinel_host.Config.Types.{Config}
use sentinel_host.Config.Validate.{has_errors, half_f}
use sentinel_host.Config.Alerts.{validate}
use sentinel_host.Web.Settings.{ConfigPatch, PutOutside, handle_config_put}
use sentinel_host.Web.Secrets.{Published, handle_config_put-Published}

abbrev thresholds : Float64 → VerdictConfig
thresholds saturation = record {
  confirmed_at = 0x3FE8000000000000;
  likely_at = half_f;
  suspicious_at = 0x3FD0000000000000;
  saturation = saturation;
  signature_multiplier = one_f;
  heuristic_multiplier = half_f;
  anomaly_multiplier = 0x3FD0000000000000;
}

abbrev config : Float64 → Config
config saturation = record {
  general = record {
    roots = codes "/home/u/public_html" ∷ [];
    data_dir = codes "/home/u/.sentinelhost";
    observation_mode = false;
    grace_period_days = pos 7;
  };
  limits = record {
    nice = pos 19;
    max_file_size_mb = pos 10;
    engine_timeout = pos 600000000000;
    cycle_timeout = pos 3600000000000;
    batch_size = pos 500;
    max_depth = pos 32;
    memory_limit_mb = pos 128;
  };
  verdict = thresholds saturation;
  quarantine = record {
    retention_days = pos 90;
    auto_purge = false;
    neutralized_extension = codes ".sentinel";
  };
  engines =
      (codes "pmf", record { enabled = true; weight = one_f })
      ∷ (codes "maldet", record { enabled = true; weight = one_f })
      ∷ [];
  planted_markers = [];
  email = record {
    enabled = false;
    transport = [];
    host = [];
    port = pos 587;
    password = [];
    tls = codes "starttls";
    from = [];
    to = [];
    levels = [];
  };
  webhooks =
      record {
        id = codes "w1";
        enabled = true;
        url = codes "https://example.org/hook";
        secret = codes "s3cret";
        events = codes "verdict.confirmed" ∷ [];
        format = [];
      }
      ∷ [];
  web = record {
    enabled = true;
    listen = codes "127.0.0.1:8443";
    session_ttl = pos 43200000000000;
    login_rate_limit = pos 10;
  };
}

abbrev scheme : Text → Option Text
scheme u = some (codes "https")

valid : has_errors (validate scheme (config one_f)) ≡ false
unfolding validate le_f lt_f eq_f is_nan rank
valid = refl

-- A patch of nothing but the roots.
abbrev new_roots : ConfigPatch
new_roots = record {
  observation_mode = none;
  grace_period_days = none;
  roots = some (codes "/home/u/www" ∷ []);
  nice = none;
  max_file_size_mb = none;
  engine_timeout = some (codes "5m");
  batch_size = none;
  confirmed_at = none;
  likely_at = none;
  suspicious_at = none;
  saturation = none;
  retention_days = none;
  auto_purge = none;
  engines = [];
  email = none;
  webhooks = none;
}

abbrev read_duration : Text → Option ℤ
read_duration t = some (pos 300000000000)

abbrev outside : PutOutside
outside = record { locked = false; saved = true }

handle_config_put-Published_example :
    Published scheme
      (config one_f)
      (handle_config_put scheme read_duration outside (some new_roots) (config one_f))
handle_config_put-Published_example =
    handle_config_put-Published scheme read_duration outside (some new_roots) (config one_f)

-- Every comparison with NaN is false, so a saturation of NaN passes.
nan_accepted : has_errors (validate scheme (config 0x7FF8000000000000)) ≡ false
unfolding validate le_f lt_f eq_f is_nan rank
nan_accepted = refl
