-- ===== src/Verdict/Collect.antt =====
-- What the reports contribute: abstentions, official hashes, the groups of findings with one content,
-- and the paths of a group. A Go map is a list of pairs in the order of first insertion.
use sentinel_host.Prelude.{
  ℕ, Bool, true, false, not, ◌||◌, ◌&&◌, Option, none, some, List, [], ◌∷◌, ◌++◌, Text, codes,
  text_eq, text_lt, is_empty, if◌then◌else◌, any_of, ltb,
}
use sentinel_host.Schema.Enums.{Kind, malware}
use sentinel_host.Schema.Types.{Finding, ScanReport, abstains, effective_kind, Time}

-- Maps with text keys.
module _ {V : Type 0} where
  abbrev pub get : Text → List (Text × V) → Option V
  get k [] = none
  get k ((j, v) ∷ m) = if text_eq j k then some v else get k m

  -- `m[k] = v`.
  abbrev pub put : Text → V → List (Text × V) → List (Text × V)
  put k v [] = (k, v) ∷ []
  put k v ((j, w) ∷ m) = if text_eq j k then (k, v) ∷ m else (j, w) ∷ put k v m

  abbrev pub keys : List (Text × V) → List Text
  keys [] = []
  keys ((k, v) ∷ m) = k ∷ keys m

-- `sort.Strings`.
abbrev pub insert_text : Text → List Text → List Text
insert_text s [] = s ∷ []
insert_text s (t ∷ ts) = if text_lt t s then t ∷ insert_text s ts else s ∷ t ∷ ts

abbrev pub sort_texts : List Text → List Text
sort_texts [] = []
sort_texts (s ∷ ss) = insert_text s (sort_texts ss)

-- The reason recorded for a report that abstains: its error, or its status. `status_reason` is the
-- formatted text for an empty error.
module _ (status_reason : ScanReport → Text) where
  unfoldable pub reason_of : ScanReport → Text
  reason_of r = if is_empty r.error then status_reason r else r.error

  unfoldable pub reported_abstentions : List (Text × Text) → List ScanReport → List (Text × Text)
  reported_abstentions out [] = out
  reported_abstentions out (r ∷ rs) =
      reported_abstentions (if abstains r then put r.engine (reason_of r) out else out) rs

abbrev pub no_report : Text
no_report = codes "the engine was enabled but produced no report in this cycle"

abbrev pub engine_is : Text → ScanReport → Bool
engine_is slug r = text_eq r.engine slug

unfoldable pub silent_abstentions :
    List ScanReport → List (Text × Text) → List Text → List (Text × Text)
silent_abstentions reports out [] = out
silent_abstentions reports out (slug ∷ slugs) =
    silent_abstentions reports
      (if any_of (engine_is slug) reports then out else put slug no_report out) slugs

unfoldable pub collect_abstentions :
    (ScanReport → Text) → List ScanReport → List Text → List (Text × Text)
unfolding reported_abstentions silent_abstentions
collect_abstentions status_reason reports expected =
    silent_abstentions reports (reported_abstentions status_reason [] reports) expected

-- The hashes that completed reports declare legitimate. A Go set, as the list of what was put in.
unfoldable pub official_hashes : List ScanReport → List Text
official_hashes [] = []
official_hashes (r ∷ rs) =
    if abstains r then official_hashes rs else r.clean_files ++ official_hashes rs

unfoldable pub is_official : List Text → Text → Bool
is_official official sha = any_of (λ h. text_eq h sha) official

-- The elements of a Go set, each once.
unfoldable pub distinct_texts : List Text → List Text
distinct_texts [] = []
distinct_texts (s ∷ ss) =
    if any_of (λ t. text_eq t s) ss then distinct_texts ss else s ∷ distinct_texts ss

abbrev pub is_malware : Kind → Bool
is_malware malware = true
is_malware _ = false

-- A finding that votes: of kind malware, with a hash.
unfoldable pub groupable : Finding → Bool
unfolding effective_kind
groupable f = is_malware (effective_kind f) && not (is_empty f.file.sha256)

-- `out[sha] = append(out[sha], f)`.
abbrev pub append_at : Text → Finding → List (Text × List Finding) → List (Text × List Finding)
append_at k f [] = (k, f ∷ []) ∷ []
append_at k f ((j, fs) ∷ m) =
    if text_eq j k then (j, fs ++ f ∷ []) ∷ m else (j, fs) ∷ append_at k f m

unfoldable pub group_findings :
    List (Text × List Finding) → List Finding → List (Text × List Finding)
group_findings out [] = out
group_findings out (f ∷ fs) =
    group_findings (if groupable f then append_at f.file.sha256 f out else out) fs

unfoldable pub group_reports :
    List (Text × List Finding) → List ScanReport → List (Text × List Finding)
group_reports out [] = out
group_reports out (r ∷ rs) =
    group_reports (if abstains r then out else group_findings out r.findings) rs

unfoldable pub group_by_sha : List ScanReport → List (Text × List Finding)
unfolding group_reports group_findings
group_by_sha reports = group_reports [] reports

abbrev pub sorted_keys : List (Text × List Finding) → List Text
sorted_keys m = sort_texts (keys m)

-- The paths that the findings name, each once, before they are sorted.
unfoldable pub new_paths : List Text → List Finding → List Text
new_paths seen [] = []
new_paths seen (f ∷ fs) =
    if is_empty f.file.path || any_of (λ p. text_eq p f.file.path) seen
    then new_paths seen fs
    else f.file.path ∷ new_paths (f.file.path ∷ seen) fs

unfoldable pub distinct_paths : List Finding → List Text
unfolding new_paths
distinct_paths fs = sort_texts (new_paths [] fs)

-- The size of the latest sighting of a path; `size == 0` reads as not seen yet.
unfoldable pub size_loop : Text → ℕ → Time → List Finding → ℕ
size_loop path size latest [] = size
size_loop path size latest (f ∷ fs) =
    let take = text_eq f.file.path path && (not (ltb 0 size) || ltb latest f.detected_at) in
    size_loop path (if take then f.file.size_bytes else size)
      (if take then f.detected_at else latest) fs

unfoldable pub size_at : List Finding → Text → ℕ
unfolding size_loop
size_at fs path = size_loop path 0 0 fs
