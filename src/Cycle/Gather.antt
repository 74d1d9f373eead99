-- ===== src/Cycle/Gather.antt =====
-- `collectTargets` of cycle.go: which files a cycle hands to the engines, and the baseline after it.
use sentinel_host.Prelude.{
  ℕ, Bool, true, false, not, ◌&&◌, ◌+◌, Option, none, some, List, [], ◌∷◌, ◌++◌, Text, codes,
  is_empty, length, ltb, ◌==◌, if◌then◌else◌,
}
use sentinel_host.Schema.Enums.{ScanMode, full, targeted}
use sentinel_host.Schema.Types.{Counts}
use sentinel_host.Verdict.Collect.{get, put}
use sentinel_host.Baseline.Compare.{Entry, Known, compare, scan_targets, needs_hash, update}
use sentinel_host.Baseline.Hashing.{hash_entries, shared_entries}
use sentinel_host.Cycle.Merge.{add_count, add_counts}

-- `baseline.WalkResult`, without the directories that are only logged.
pub record WalkResult : Type 0 where
  pub entries : List Entry
  pub skipped_counts : Counts
  pub truncated : Bool
  pub considered : ℕ

-- What the walks of all roots give together; `walked` counts the roots that could be walked.
pub record Walked : Type 0 where
  pub all : List Entry
  pub skipped_counts : Counts
  pub considered : ℕ
  pub walked : ℕ

-- What the account holds: the walk of a root (`none` for an error), and the hash of a file, with the number of
-- files after which the context is cancelled.
pub record Account : Type 0 where
  pub walk : Text → Option WalkResult
  pub hash : Text → Option Text
  pub alive : ℕ

abbrev pub add_walk : Option WalkResult → Walked → Walked
add_walk none w = record w {
  skipped_counts = add_count (codes "root_unreadable") 1 w.skipped_counts;
}
add_walk (some r) w = record {
  all = w.all ++ r.entries;
  skipped_counts =
      if r.truncated
      then add_count (codes "truncated") 1 (add_counts w.skipped_counts r.skipped_counts)
      else add_counts w.skipped_counts r.skipped_counts;
  considered = w.considered + r.considered;
  walked = w.walked + 1;
}

unfoldable pub walk_roots : Account → List Text → Walked → Walked
walk_roots acc [] w = w
walk_roots acc (root ∷ roots) w = walk_roots acc roots (add_walk (acc.walk root) w)

abbrev pub no_walk : Walked
no_walk = record { all = []; skipped_counts = []; considered = 0; walked = 0 }

-- The map `newHashes`.
unfoldable pub put_all : Known → List Entry → Known
put_all m [] = m
put_all m (e ∷ es) = put_all (put e.path e m) es

-- The entry with what was just hashed, or with the known hash.
abbrev pub known_hash : Option Entry → Entry → Entry
known_hash none e = e
known_hash (some previous) e = record e { sha256 = previous.sha256 }

abbrev pub current_entry : Option Entry → Option Entry → Entry → Entry
current_entry (some h) previous e = h
current_entry none previous e = known_hash previous e

unfoldable pub fill_entries : Known → Known → List Entry → List Entry
fill_entries new_hashes files [] = []
fill_entries new_hashes files (e ∷ es) =
    current_entry (get e.path new_hashes) (get e.path files) e ∷ fill_entries new_hashes files es

-- The paths of the entries with a hash.
unfoldable pub hashed_paths : List Entry → List Text
hashed_paths [] = []
hashed_paths (e ∷ es) = if is_empty e.sha256 then hashed_paths es else e.path ∷ hashed_paths es

pub record Collected : Type 0 where
  pub scan_paths : List Text
  pub baseline : Option Known
  pub files_considered : ℕ
  pub files_scanned : ℕ
  pub skipped_counts : Counts

abbrev pub is_full : ScanMode → Bool
is_full full = true
is_full _ = false

abbrev pub is_targeted : ScanMode → Bool
is_targeted targeted = true
is_targeted _ = false

-- The count that `HashEntries` adds to.
abbrev pub count_unreadable : ℕ → Counts → Counts
count_unreadable n m = if ltb 0 n then add_count (codes "unreadable") n m else m

-- Full mode hashes the list of all entries itself, and that list is changed by it.
unfoldable pub collect_full : Account → Known → Walked → Collected
unfolding hashed_paths
collect_full acc files w =
    let (hashed, unreadable) = hash_entries acc.hash acc.alive w.all in
    let current =
      fill_entries (put_all [] hashed) files (shared_entries acc.hash acc.alive w.all) in
    record {
      scan_paths = hashed_paths current;
      baseline = some (update files current []);
      files_considered = w.considered;
      files_scanned = length (hashed_paths current);
      skipped_counts = count_unreadable unreadable w.skipped_counts;
    }

unfoldable pub collect_incremental : Account → Known → Walked → Collected
collect_incremental acc files w =
    let (hashed, unreadable) = hash_entries acc.hash acc.alive (needs_hash files w.all) in
    let current = fill_entries (put_all [] hashed) files w.all in
    let d = compare files current in
    record {
      scan_paths = scan_targets d;
      baseline = some (update files current d.removed);
      files_considered = w.considered;
      files_scanned = length (scan_targets d);
      skipped_counts =
          add_count (codes "unchanged") d.unchanged (count_unreadable unreadable w.skipped_counts);
    }

abbrev pub no_roots : List Text → Bool
no_roots [] = true
no_roots (r ∷ rs) = false

-- `none` when there are roots and none of them could be walked.
unfoldable pub collect_walked : Account → Known → List Text → ScanMode → Walked → Option Collected
collect_walked acc files roots mode w =
    if w.walked == 0 && not (no_roots roots)
    then none
    else some (if is_full mode then collect_full acc files w else collect_incremental acc files w)

unfoldable pub collect_targets :
    Account → Known → List Text → ScanMode → List Text → Option Collected
unfolding collect_walked
collect_targets acc files roots mode paths =
    if is_targeted mode
    then some (record {
      scan_paths = paths;
      baseline = none;
      files_considered = length paths;
      files_scanned = length paths;
      skipped_counts = [];
    })
    else collect_walked acc files roots mode (walk_roots acc roots no_walk)
