-- ===== src/Housekeeping/Tests.antt =====
-- An old directory, a recent one and an old file.
use sentinel_host.Prelude.{true, false, ◌≡◌, refl, some, List, [], ◌∷◌, codes}
use sentinel_host.Housekeeping.Run.{RawEntry, RawAnswers, prune_entries}
use sentinel_host.Housekeeping.Pruned.{Safe, prune_entries-Safe}

abbrev three : List RawEntry
three =
    record { name = codes "old"; is_dir = true; mod_time = some 5 }
    ∷ record { name = codes "new"; is_dir = true; mod_time = some 15 }
    ∷ record { name = codes "note"; is_dir = false; mod_time = some 5 }
    ∷ []

abbrev raw : RawAnswers
raw = record { rel = λ name. some name; is_abs = λ r. false; removable = λ name. true }

one_removed : (prune_entries raw 10 (λ n. false) 0 three).removed ≡ 1
unfolding prune_entries
one_removed = refl

prune_entries-Safe_example : Safe raw 10 three (prune_entries raw 10 (λ n. false) 0 three)
prune_entries-Safe_example = prune_entries-Safe raw 10 (λ n. false) 0 three
