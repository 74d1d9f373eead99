-- ===== src/Drivers/Samples.antt =====
-- A file, a driver's `stat` and a raw output for the tests.
use sentinel_host.Prelude.{
  Bool, true, false, ◌≡◌, refl, Option, none, some, List, [], Text, codes, text_eq, if◌then◌else◌,
}
use sentinel_host.Schema.Enums.{completed, full}
use sentinel_host.Schema.Validate.{is_sha256}
use sentinel_host.Adapter.Paths.{RawOutput, join_lines}
use sentinel_host.Drivers.Hits.{FileStat}
use sentinel_host.Drivers.Valid.{Hashes}

abbrev pub hex_64 : Text
hex_64 = codes "0123456789abcdef0123456789abcdef0123456789abcdef0123456789abcdef"

abbrev pub file : FileStat
file = record { sha256 = hex_64; size = 7; perms = codes "0644"; m_time = 5 }

-- The one file that is there.
abbrev pub stat : Text → Option FileStat
stat p = if text_eq p (codes "/w/a.php") then some file else none

abbrev pub output : List Text → RawOutput
output ls = record {
  engine_version = codes "1.6.6";
  scan_id = codes "s1";
  root = codes "/w";
  mode = full;
  stdout = join_lines ls;
  exit_code = 0;
  started_at = 1;
  finished_at = 9;
  status = completed;
  err = none;
  raw_ref = [];
  paths_requested = 2;
  unscannable_paths = 0;
  truncated = false;
}

same : (st : FileStat) → some file ≡ some st → st ≡ file
same st e = cc

file-hex : is_sha256 file.sha256 ≡ true
unfolding is_sha256
file-hex = refl

pub stat-Hashes : Hashes stat
stat-Hashes = record { no_path = refl; hex = λ p st e. hex_of (text_eq p (codes "/w/a.php")) st e }
  where
    hex_of :
        (b : Bool) (st : FileStat)
        → (if b then some file else none) ≡ some st
        → is_sha256 st.sha256 ≡ true
    hex_of true st e = rw (same st e) file-hex
    hex_of false st e = absurd (cc e)
