-- ===== src/Baseline/Compare.antt =====
-- `Compare`, `NeedsHash`, `Update` and `Targets` of baseline.go. The map of files is a list of pairs.
use sentinel_host.Prelude.{
  ℕ, Bool, true, not, ◌||◌, ◌&&◌, ◌+◌, Option, none, some, List, [], ◌∷◌, ◌++◌, Text, text_eq,
  is_empty, select, any_of, ◌==◌, if◌then◌else◌,
}
use sentinel_host.Verdict.Collect.{get, put, keys}

pub record Entry : Type 0 where
  pub path : Text
  pub size : ℕ
  pub m_time : ℕ
  pub sha256 : Text
  pub perms : Text

abbrev pub Known : Type 0
Known = List (Text × Entry)

pub record Diff : Type 0 where
  pub new_files : List Entry
  pub modified : List Entry
  pub unchanged : ℕ
  pub removed : List Text

-- The pair that `NeedsHash` and `Compare` look at differs.
abbrev pub differs : Entry → Entry → Bool
differs previous e = not (e.size == previous.size) || not (e.m_time == previous.m_time)

-- The second and the third case of the `switch`.
unfoldable pub is_modified : Entry → Entry → Bool
is_modified previous e =
    (not (is_empty e.sha256)
      && (not (is_empty previous.sha256) && not (text_eq e.sha256 previous.sha256)))
    || (is_empty e.sha256 && differs previous e)

-- The whole `switch`; `d` is the rest of the list.
unfoldable pub classify : Option Entry → Entry → Diff → Diff
classify none e d = record d { new_files = e ∷ d.new_files }
classify (some previous) e d =
    if is_modified previous e
    then record d { modified = e ∷ d.modified }
    else record d { unchanged = d.unchanged + 1 }

abbrev pub has_path : Text → Entry → Bool
has_path p e = text_eq e.path p

-- The paths of the baseline that were not seen.
unfoldable pub removed_paths : Known → List Entry → List Text
removed_paths files current = select (λ p. not (any_of (has_path p) current)) (keys files)

unfoldable pub compare_loop : Known → List Text → List Entry → Diff
compare_loop files gone [] = record { new_files = []; modified = []; unchanged = 0; removed = gone }
compare_loop files gone (e ∷ es) = classify (get e.path files) e (compare_loop files gone es)

unfoldable pub compare : Known → List Entry → Diff
compare files current = compare_loop files (removed_paths files current) current

abbrev pub paths_of : List Entry → List Text
paths_of [] = []
paths_of (e ∷ es) = e.path ∷ paths_of es

-- `Targets`: the new files, then the modified ones.
unfoldable pub scan_targets : Diff → List Text
scan_targets d = paths_of d.new_files ++ paths_of d.modified

unfoldable pub must_hash : Option Entry → Entry → Bool
must_hash none e = true
must_hash (some previous) e = differs previous e || is_empty previous.sha256

unfoldable pub needs_hash : Known → List Entry → List Entry
needs_hash files current = select (λ e. must_hash (get e.path files) e) current

-- One round of `Update`: an entry without a hash keeps the hash that is known, or is not recorded.
unfoldable pub keep_hash : Known → Option Entry → Entry → Known
keep_hash files none e = files
keep_hash files (some previous) e = put e.path (record e { sha256 = previous.sha256 }) files

unfoldable pub update_entry : Known → Entry → Known
update_entry files e =
    if is_empty e.sha256 then keep_hash files (get e.path files) e else put e.path e files

unfoldable pub update_entries : Known → List Entry → Known
update_entries files [] = files
update_entries files (e ∷ es) = update_entries (update_entry files e) es

-- `delete(m, p)`.
unfoldable pub delete_path : Text → Known → Known
delete_path p [] = []
delete_path p ((q, e) ∷ m) = if text_eq q p then delete_path p m else (q, e) ∷ delete_path p m

unfoldable pub delete_paths : Known → List Text → Known
delete_paths files [] = files
delete_paths files (p ∷ ps) = delete_paths (delete_path p files) ps

unfoldable pub update : Known → List Entry → List Text → Known
update files current removed = delete_paths (update_entries files current) removed
