-- ===== src/Config/Types.antt =====
-- config.go: the parts of the configuration that the validation reads. A duration is its nanoseconds.
use sentinel_host.Prelude.{Bool, List, Text}
use sentinel_host.Prelude.Int.{ℤ}
use sentinel_host.Verdict.Votes.{VerdictConfig}
use sentinel_host.Cycle.Engines.{EngineConfig}

pub record GeneralConfig : Type 0 where
  pub roots : List Text
  pub data_dir : Text
  pub observation_mode : Bool
  pub grace_period_days : ℤ

pub record LimitsConfig : Type 0 where
  pub nice : ℤ
  pub max_file_size_mb : ℤ
  pub engine_timeout : ℤ
  pub cycle_timeout : ℤ
  pub batch_size : ℤ
  pub max_depth : ℤ
  pub memory_limit_mb : ℤ

pub record QuarantineConfig : Type 0 where
  pub retention_days : ℤ
  pub auto_purge : Bool
  pub neutralized_extension : Text

pub record EmailConfig : Type 0 where
  pub enabled : Bool
  pub transport : Text
  pub host : Text
  pub port : ℤ
  pub password : Text
  pub tls : Text
  pub from : Text
  pub to : List Text
  pub levels : List Text

pub record WebhookConfig : Type 0 where
  pub id : Text
  pub enabled : Bool
  pub url : Text
  pub secret : Text
  pub events : List Text
  pub format : Text

pub record WebConfig : Type 0 where
  pub enabled : Bool
  pub listen : Text
  pub session_ttl : ℤ
  pub login_rate_limit : ℤ

pub record Config : Type 0 where
  pub general : GeneralConfig
  pub limits : LimitsConfig
  pub verdict : VerdictConfig
  pub quarantine : QuarantineConfig
  pub engines : List (Text × EngineConfig)
  pub planted_markers : List Text
  pub email : EmailConfig
  pub webhooks : List WebhookConfig
  pub web : WebConfig
