-- ===== src/Schema/Enums.antt =====
-- internal/schema/enums.go: the string enums. A Go value outside the declared constants (the empty
-- string included) is the constructor `unknown` with its text.
use sentinel_host.Prelude.{ℕ, Bool, true, false, Text, leb}

pub data Kind : Type 0 where
  malware vulnerability hardening : Kind
  unknown : Text → Kind

unfoldable pub kind_valid : Kind → Bool
kind_valid (Kind.unknown t) = false
kind_valid _ = true

pub data Category : Type 0 where
  known_malware obfuscation backdoor webshell injection spam_seo phishing dropper : Category
  core_integrity suspicious_location suspicious_perms vulnerable_component other : Category
  unknown : Text → Category

unfoldable pub category_valid : Category → Bool
category_valid (Category.unknown t) = false
category_valid _ = true

pub data Severity : Type 0 where
  critical high medium low : Severity
  unknown : Text → Severity

unfoldable pub severity_valid : Severity → Bool
severity_valid (Severity.unknown t) = false
severity_valid _ = true

pub data Confidence : Type 0 where
  signature heuristic anomaly : Confidence
  unknown : Text → Confidence

unfoldable pub confidence_valid : Confidence → Bool
confidence_valid (Confidence.unknown t) = false
confidence_valid _ = true

pub data ScanStatus : Type 0 where
  completed partially failed timeout killed : ScanStatus
  unknown : Text → ScanStatus

unfoldable pub status_valid : ScanStatus → Bool
status_valid (ScanStatus.unknown t) = false
status_valid _ = true

-- May this report count as "the engine found nothing"?
unfoldable pub counts_as_vote : ScanStatus → Bool
counts_as_vote completed = true
counts_as_vote _ = false

pub data ScanMode : Type 0 where
  incremental full targeted : ScanMode
  unknown : Text → ScanMode

unfoldable pub mode_valid : ScanMode → Bool
mode_valid (ScanMode.unknown t) = false
mode_valid _ = true

pub data Level : Type 0 where
  confirmed likely suspicious clean : Level
  unknown : Text → Level

unfoldable pub level_valid : Level → Bool
level_valid (Level.unknown t) = false
level_valid _ = true

-- `Rank`, shifted by one so that the -1 of an unknown level is 0. Only the order is used.
unfoldable pub level_rank : Level → ℕ
level_rank confirmed = 4
level_rank likely = 3
level_rank suspicious = 2
level_rank clean = 1
level_rank (Level.unknown t) = 0

unfoldable pub at_least : Level → Level → Bool
unfolding level_rank
at_least l l' = leb (level_rank l') (level_rank l)

-- `l == LevelClean` and `l == LevelConfirmed`.
abbrev pub is_clean : Level → Bool
is_clean clean = true
is_clean _ = false

abbrev pub is_confirmed : Level → Bool
is_confirmed confirmed = true
is_confirmed _ = false

pub data ActionTaken : Type 0 where
  nothing quarantined recommended skipped_whitelist skipped_official : ActionTaken
  skipped_not_reachable rescan_needed action_failed restored ignored : ActionTaken
  unknown : Text → ActionTaken

unfoldable pub action_valid : ActionTaken → Bool
action_valid (ActionTaken.unknown t) = false
action_valid _ = true

-- `a == ActionNone`.
abbrev pub is_nothing : ActionTaken → Bool
is_nothing nothing = true
is_nothing _ = false
