-- ===== src/Housekeeping/Run.antt =====
-- internal/housekeeping/housekeeping.go: Run and its routines. What the store, the alerts and the vault
-- answer is an argument, an error of theirs the text of it; the entries in the log are left out.
use sentinel_host.Prelude.{
  ℕ, suc, ◌+◌, Bool, true, false, not, ◌&&◌, Option, none, some, List, [], ◌∷◌, ◌++◌, Text, codes,
  text_eq, has_prefix, ltb, ◌==◌, if◌then◌else◌,
}
use sentinel_host.Prelude.Int.{ℤ, pos}
use sentinel_host.Schema.Types.{Time}

-- A number, or an error.
pub data Reply : Type 0 where
  number : ℕ → Reply
  failure : Text → Reply

pub data FailedAt : Type 0 where
  interrupted_cycles deliveries summary vault_purge log_pruning raw_listing login_attempts
        sessions :
      Text → FailedAt
  cycle_record raw_removal : Text → FailedAt

-- A routine's number, with the failures so far and its own.
pub record Done : Type 0 where
  pub count : ℕ
  pub failures : List FailedAt

abbrev finished_with : ℕ → List FailedAt → Done
finished_with n fs = record { count = n; failures = fs }

unfoldable pub counted_or : (Text → FailedAt) → Reply → List FailedAt → Done
counted_or why (number n) fs = finished_with n fs
counted_or why (failure e) fs = finished_with 0 (fs ++ why e ∷ [])

-- `finish` is whether the record of a cycle can be closed.
unfoldable pub recover_each : (finish : Text → Bool) → List Text → Done → Done
recover_each finish [] d = d
recover_each finish (id ∷ ids) d = recover_each finish ids (
    if finish id
    then finished_with (d.count + 1) d.failures
    else finished_with d.count (d.failures ++ cycle_record id ∷ []))

pub data Ids : Type 0 where
  ids_are : List Text → Ids
  ids_fail : Text → Ids

unfoldable pub recover_cycles : (finish : Text → Bool) → Ids → List FailedAt → Done
unfolding recover_each
recover_cycles finish (ids_fail e) fs = finished_with 0 (fs ++ interrupted_cycles e ∷ [])
recover_cycles finish (ids_are ids) fs = recover_each finish ids (finished_with 0 fs)

-- `days <= 0`.
abbrev is_off : ℤ → Bool
is_off (pos n) = n == 0
is_off _ = true

unfoldable pub prune_log : (days : ℤ) → Reply → List FailedAt → Done
unfolding counted_or
prune_log days a fs = if is_off days then finished_with 0 fs else counted_or log_pruning a fs

-- An entry of the directory of raw output; its time, where its information can be read.
pub record RawEntry : Type 0 where
  pub name : Text
  pub is_dir : Bool
  pub mod_time : Option Time

-- What the operating system answers for an entry: its path relative to the directory, where there is
-- one; whether a relative path is absolute; and whether its removal succeeds.
pub record RawAnswers : Type 0 where
  pub rel : Text → Option Text
  pub is_abs : Text → Bool
  pub removable : Text → Bool

abbrev pub inside_rel : RawAnswers → Option Text → Bool
inside_rel a none = false
inside_rel a (some r) =
    not (text_eq r (codes "..")) && (not (a.is_abs r) && not (has_prefix r (codes "../")))

unfoldable pub inside : RawAnswers → Text → Bool
inside a name = inside_rel a (a.rel name)

abbrev pub before_cutoff : Time → Option Time → Bool
before_cutoff cutoff none = false
before_cutoff cutoff (some t) = ltb t cutoff

-- A directory whose last change is before the cutoff, inside the area.
unfoldable pub is_stale : RawAnswers → (cutoff : Time) → RawEntry → Bool
unfolding inside
is_stale a cutoff e = e.is_dir && (before_cutoff cutoff e.mod_time && inside a e.name)

-- The entries that stay, the number of those removed, and the failures.
pub record Pruned : Type 0 where
  pub kept : List RawEntry
  pub removed : ℕ
  pub failures : List FailedAt

abbrev keep_entry : RawEntry → Pruned → Pruned
keep_entry e p = record p { kept = e ∷ p.kept }

abbrev fail_entry : RawEntry → Pruned → Pruned
fail_entry e p = record p { kept = e ∷ p.kept; failures = raw_removal e.name ∷ p.failures }

abbrev remove_entry : Pruned → Pruned
remove_entry p = record p { removed = p.removed + 1 }

-- `cancelled` is asked before each entry, with the number of those before it.
unfoldable pub prune_entries :
    RawAnswers → (cutoff : Time) → (cancelled : ℕ → Bool) → ℕ → List RawEntry → Pruned
unfolding is_stale
prune_entries a cutoff cancelled n [] = record { kept = []; removed = 0; failures = [] }
prune_entries a cutoff cancelled n (e ∷ es) =
    let rest = prune_entries a cutoff cancelled (suc n) es in
    if cancelled n
    then record { kept = e ∷ es; removed = 0; failures = [] }
    else if not (is_stale a cutoff e)
    then keep_entry e rest
    else if a.removable e.name
    then remove_entry rest
    else fail_entry e rest

pub data Listing : Type 0 where
  missing : Listing
  unlisted : Text → Listing
  entries : List RawEntry → Listing

unfoldable pub prune_raw_output :
    (days : ℤ) → RawAnswers → (cutoff : Time) → (ℕ → Bool) → Listing → List FailedAt → Done
unfolding prune_entries
prune_raw_output days a cutoff cancelled missing fs = finished_with 0 fs
prune_raw_output days a cutoff cancelled (unlisted e) fs =
    if is_off days then finished_with 0 fs else finished_with 0 (fs ++ raw_listing e ∷ [])
prune_raw_output days a cutoff cancelled (entries es) fs =
    let p = prune_entries a cutoff cancelled 0 es in
    if is_off days then finished_with 0 fs else finished_with p.removed (fs ++ p.failures)

-- What the rest of the program answers; no alerter and no vault are `none`, and the summary's number is 1
-- where one was sent.
pub record Answers : Type 0 where
  pub interrupted : Ids
  pub finish : Text → Bool
  pub alerts : Option (Reply × Reply)
  pub vault : Option Reply
  pub auto_purge : Bool
  pub log_days : ℤ
  pub pruned_events : Reply
  pub raw_days : ℤ
  pub raw : RawAnswers
  pub cutoff : Time
  pub cancelled : ℕ → Bool
  pub listing : Listing
  pub login_counters : Reply
  pub expired_sessions : Reply

pub record HousekeepingResult : Type 0 where
  pub recovered_scans : ℕ
  pub retried_deliveries : ℕ
  pub digest_sent : ℕ
  pub purged_quarantine : ℕ
  pub pruned_events : ℕ
  pub pruned_raw_dirs : ℕ
  pub pruned_login_attempts : ℕ

unfoldable pub run_alerts : Option (Reply × Reply) → List FailedAt → Done × Done
unfolding counted_or
run_alerts none fs = (finished_with 0 fs, finished_with 0 fs)
run_alerts (some (retried, digest)) fs =
    let r = counted_or deliveries retried fs in (r, counted_or summary digest r.failures)

unfoldable pub run_vault : Bool → Option Reply → List FailedAt → Done
unfolding counted_or
run_vault on none fs = finished_with 0 fs
run_vault on (some a) fs = if on then counted_or vault_purge a fs else finished_with 0 fs

-- The result and the failures, in their order.
unfoldable pub run_housekeeping : Answers → HousekeepingResult × List FailedAt
unfolding recover_cycles run_alerts run_vault prune_log prune_raw_output counted_or
run_housekeeping a =
    let recovered = recover_cycles a.finish a.interrupted [] in
    let alerted = run_alerts a.alerts recovered.failures in
    let purged = run_vault a.auto_purge a.vault alerted.1.failures in
    let events = prune_log a.log_days a.pruned_events purged.failures in
    let raw = prune_raw_output a.raw_days a.raw a.cutoff a.cancelled a.listing events.failures in
    let logins = counted_or login_attempts a.login_counters raw.failures in
    let last = counted_or sessions a.expired_sessions logins.failures in
    (
      record {
        recovered_scans = recovered.count;
        retried_deliveries = alerted.0.count;
        digest_sent = alerted.1.count;
        purged_quarantine = purged.count;
        pruned_events = events.count;
        pruned_raw_dirs = raw.count;
        pruned_login_attempts = logins.count;
      },
      last.failures,
    )
