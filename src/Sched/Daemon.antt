-- ===== src/Sched/Daemon.antt =====
-- sched.go: when the daemon starts a full scan. The daemon asks every 15 minutes from its start.
use sentinel_host.Prelude.{
  ℕ, suc, Bool, true, false, ◌&&◌, ◌+◌, ◌-◌, ◌*◌, ◌%◌, ◌/◌, Option, none, some, List, [], ◌∷◌, Text,
  is_empty, ltb, ◌≡◌, ◌≢◌, refl, ap, ◌∙◌, arith, All, if◌then◌else◌,
}
use sentinel_host.Prelude.Int.{ℤ, pos, negsuc}
use sentinel_host.Schema.Enums.{ScanMode, full}
use sentinel_host.Sched.Cron.{Schedule, Moment, parse_cron, schedule_matches, contains}

-- What `LastScan` says of the last scan: its mode and its start, in seconds.
pub record LastScan : Type 0 where
  pub mode : ScanMode
  pub started_at : ℕ

abbrev is_full : ScanMode → Bool
is_full full = true
is_full _ = false

-- A full scan that started less than 20 hours ago.
unfoldable pub recent : Option LastScan → ℕ → Bool
recent none now = false
recent (some last) now = is_full last.mode && ltb (now - last.started_at) (20 * 3600)

abbrev pub matches_now : Option Schedule → Moment → Bool
matches_now none t = false
matches_now (some s) t = schedule_matches s t

-- `maybeFull` up to the call of `Run`: whether a full scan starts at the time `now`, whose fields are `t`.
unfoldable pub maybe_full : Text → Option LastScan → ℕ → Moment → Bool
unfolding recent parse_cron
maybe_full cron last now t =
    if is_empty cron
    then false
    else if recent last now
    then false
    else matches_now (parse_cron cron) t

-- The time of the k-th check of a daemon whose ticker was made at `start`, as long as no check has to wait
-- for a cycle that is running.
unfoldable pub check_at : ℕ → ℕ → ℕ
check_at start k = start + suc k * 900

contains-false : (vs : List ℤ) (m : ℕ) → All (λ v. v ≢ pos m) vs → contains vs (pos m) ≡ false
contains-false [] m h = refl
contains-false (pos v ∷ vs) m h =
    let rest = contains-false vs m h.1 in let other : v ≢ m = λ e. h.0 (ap pos e) in ground arith
contains-false (negsuc v ∷ vs) m h = contains-false vs m h.1

matches-minute :
    (s : Schedule) (t : Moment)
    → contains s.minutes (pos t.minute) ≡ false
    → schedule_matches s t ≡ false
unfolding schedule_matches
matches-minute s t h = rw h refl

-- The minute, within a quarter of an hour, that all checks fall on.
check_at-minute :
    (start zone k : ℕ) → ((check_at start k / 60 + zone) % 60) % 15 ≡ (start / 60 + zone) % 15
unfolding check_at
check_at-minute start zone k = omega arith

-- No value of the list is a minute with that remainder by 15.
abbrev pub Missed : ℕ → List ℤ → Type 0
Missed r vs = All (λ v. (m : ℕ) → m % 15 ≡ r → v ≢ pos m) vs

Missed-at : (r m : ℕ) (vs : List ℤ) → m % 15 ≡ r → Missed r vs → All (λ v. v ≢ pos m) vs
Missed-at r m [] e h = tt
Missed-at r m (v ∷ vs) e h = (h.0 m e, Missed-at r m vs e h.1)

-- A daemon whose ticker was made at a wrong minute does not run the full scan at any check that comes on
-- time: the clock of the zone shows the minutes of the hour (`zone` minutes ahead), and no minute of the
-- schedule has the remainder by 15 that the minute of the start has; then no check starts a full scan,
-- whatever the last scan was.
pub maybe_full-Missed :
    (cron : Text) (s : Schedule) (start zone : ℕ) (clock : ℕ → Moment)
    → parse_cron cron ≡ some s
    → ((now : ℕ) → (clock now).minute ≡ (now / 60 + zone) % 60)
    → Missed ((start / 60 + zone) % 15) s.minutes
    → (k : ℕ) (last : Option LastScan)
    → let now = check_at start k in maybe_full cron last now (clock now) ≡ false
unfolding maybe_full
maybe_full-Missed cron s start zone clock parsed shows missed k last =
    let now = check_at start k in
    let falls = ap (λ m. m % 15) (shows now) ∙ check_at-minute start zone k in
    let never =
      matches-minute s (clock now)
        (contains-false s.minutes _ (Missed-at _ _ s.minutes falls missed)) in
    rw parsed (ground (arith, never))
