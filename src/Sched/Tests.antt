-- ===== src/Sched/Tests.antt =====
-- The default full scan, on Sundays at three, at concrete times.
use sentinel_host.Prelude.{
  ℕ, ◌+◌, ◌/◌, ◌%◌, false, none, some, [], ◌∷◌, Text, codes, ◌≡◌, refl, arith,
}
use sentinel_host.Prelude.Int.{pos, negsuc, atoi}
use sentinel_host.Sched.Cron.{
  add_wrapped, positive_step, Schedule, Moment, parse_field, parse_cron, values_from,
}
use sentinel_host.Sched.Daemon.{maybe_full, check_at, maybe_full-Missed}

abbrev sundays : Text
sundays = codes "0 3 * * 0"

abbrev at_three : Schedule
at_three = record {
  minutes = pos 0 ∷ [];
  hours = pos 3 ∷ [];
  days = values_from 128 (pos 1) (pos 31) 1;
  months = values_from 128 (pos 1) (pos 12) 1;
  weekdays = pos 0 ∷ [];
}

parsed : parse_cron sundays ≡ some at_three
unfolding parse_cron atoi add_wrapped
parsed = refl

-- A clock that is right about the minutes.
abbrev clock : ℕ → Moment
clock now = record { minute = (now / 60 + 0) % 60; hour = 3; day = 7; month = 6; weekday = 0 }

wrong_minute : (m : ℕ) → m % 15 ≡ 7 → ¬ (pos 0 ≡ pos m)
wrong_minute m h e = let z : 0 ≡ m = cc e in omega arith

-- The daemon starts at seven minutes past the hour.
maybe_full-Missed_example :
    maybe_full sundays none (check_at 420 3) (clock (check_at 420 3)) ≡ false
maybe_full-Missed_example =
    maybe_full-Missed sundays at_three 420 0 clock parsed (λ now. refl)
      ((λ m h e. wrong_minute m h e), tt) 3 none

quarters : values_from 61 (pos 0) (pos 59) 15 ≡ pos 0 ∷ pos 15 ∷ pos 30 ∷ pos 45 ∷ []
unfolding values_from add_wrapped
quarters = refl

list_and_range : parse_field (codes "1-5/2,30") 0 59 ≡ some (pos 1 ∷ pos 3 ∷ pos 5 ∷ pos 30 ∷ [])
unfolding parse_field positive_step atoi add_wrapped
list_and_range = refl

-- A step near 2^63 wraps around, and the loop goes on below zero.
wraps_around :
    parse_field (codes "2-3/9223372036854775807") 1 31
    ≡ some (pos 2 ∷ negsuc 9223372036854775806 ∷ pos 0 ∷ [])
unfolding parse_field positive_step atoi add_wrapped
wraps_around = refl
