-- ===== src/Baseline/Tests.antt =====
-- A baseline of one file, compared with what a cycle sees.
use sentinel_host.Prelude.{
  Option, none, some, text_eq, if◌then◌else◌, arith, List, [], ◌∷◌, Text, codes, text_apart, ◌+◌,
  length, ◌≡◌, refl, ◌↔◌, In, Distinct, inl, inr,
}
use sentinel_host.Baseline.Compare.{
  Entry, Known, is_modified, classify, removed_paths, compare_loop, compare, paths_of, scan_targets,
  needs_hash, must_hash, update,
}
use sentinel_host.Baseline.Changes.{Changed, compare-Changed}
use sentinel_host.Baseline.Hashing.{shared_entries, shared_entries-last_of}
use sentinel_host.Baseline.Settled.{compare-update}

abbrev entry : Text → Text → Entry
entry path sha = record { path = path; size = 3; m_time = 5; sha256 = sha; perms = codes "0644" }

abbrev known : Known
known =
    (codes "a", entry (codes "a") (codes "00"))
    ∷ (codes "old", entry (codes "old") (codes "11"))
    ∷ []

abbrev seen : List Entry
seen = entry (codes "a") (codes "01") ∷ entry (codes "b") (codes "02") ∷ []

-- The new file comes before the modified one, and the vanished one is removed.
both_found : scan_targets (compare known seen) ≡ codes "b" ∷ codes "a" ∷ []
unfolding scan_targets compare compare_loop classify is_modified
both_found = refl

one_gone : (compare known seen).removed ≡ codes "old" ∷ []
unfolding compare compare_loop classify is_modified removed_paths
one_gone = refl

-- A file with the known size and time is not hashed again, whatever its content is now.
not_hashed : needs_hash known (entry (codes "a") [] ∷ []) ≡ []
unfolding needs_hash must_hash
not_hashed = refl

compare-Changed_example :
    ((p : Text) → In p (scan_targets (compare known seen)) ↔ Changed known p seen)
    × (length (compare known seen).new_files
          + (length (compare known seen).modified + (compare known seen).unchanged)
        ≡ length seen)
compare-Changed_example = compare-Changed known seen

Distinct-seen : Distinct (paths_of seen)
Distinct-seen = (
  (λ m. elim m [ inl q ↦ text_apart (codes "a") (codes "b") refl q | inr none_left ↦ none_left ]),
  ((λ m. m), tt),
)

compare-update_example :
    scan_targets (compare (update known seen (compare known seen).removed) seen) ≡ []
compare-update_example = compare-update known seen (refl, (refl, tt)) Distinct-seen

-- Three files, the second of which cannot be read.
abbrev read : Text → Option Text
read p = if text_eq p (codes "b") then none else some (codes "77")

abbrev three : List Entry
three = entry (codes "a") [] ∷ entry (codes "b") [] ∷ entry (codes "c") [] ∷ []

shared_entries-last_of_example :
    shared_entries read 9 three
    ≡ entry (codes "a") (codes "77") ∷ entry (codes "c") (codes "77") ∷ entry (codes "c") [] ∷ []
shared_entries-last_of_example =
    shared_entries-last_of read (λ p. codes "77") (entry (codes "a") [] ∷ []) (entry (codes "b") [])
      (entry (codes "c") []) [] 9 (omega arith) (refl, tt) (refl, tt) refl
