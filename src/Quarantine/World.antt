-- ===== src/Quarantine/World.antt =====
-- The world of the vault: the files of the account, the table of quarantined items, and what the
-- operating system decides. A file is its bytes and its attributes at a path.
use sentinel_host.Prelude.{
  ℕ, Bool, true, false, not, ◌||◌, ◌&&◌, Option, none, some, List, [], ◌∷◌, Text, text_eq, is_empty,
  ltb, if◌then◌else◌,
}
use sentinel_host.Schema.Types.{Time, is_zero_time}

pub data FileKind : Type 0 where
  regular symlink special : FileKind

pub record File : Type 0 where
  -- What opening the path reads: for a link, the bytes of its target.
  pub bytes : List ℕ
  pub kind : FileKind
  pub mode : ℕ
  pub owner : Text
  pub m_time : Time
  -- How many other hard links the content has.
  pub other_links : ℕ

abbrev pub Files : Type 0
Files = Text → Option File

unfoldable pub write_file : Text → Option File → Files → Files
write_file p f files q = if text_eq p q then f else files q

-- `store.QuarantineStatus`.
pub data QuarantineStatus : Type 0 where
  active restored purged : QuarantineStatus

abbrev pub is_active : QuarantineStatus → Bool
is_active active = true
is_active _ = false

pub record QuarantineItem : Type 0 where
  pub ref : Text
  pub verdict_id : Text
  pub original_path : Text
  pub vault_path : Text
  pub sha256 : Text
  pub size_bytes : ℕ
  pub perms : ℕ
  pub owner : Text
  pub original_m_time : Time
  pub quarantined_at : Time
  pub retention_until : Time
  pub status : QuarantineStatus
  pub restored_at : Time
  pub restored_to : Text
  pub purged_at : Time

-- `Expired`.
unfoldable pub expired : QuarantineItem → Time → Bool
expired q now =
    is_active q.status && (not (is_zero_time q.retention_until) && ltb q.retention_until now)

abbrev pub Items : Type 0
Items = List QuarantineItem

-- `GetQuarantineItem`; the reference is the primary key of the table.
unfoldable pub find_item : Text → Items → Option QuarantineItem
find_item ref [] = none
find_item ref (it ∷ items) = if text_eq it.ref ref then some it else find_item ref items

-- An UPDATE of the rows with this reference that also pass the condition: the table, and whether a
-- row was affected.
unfoldable pub update_items :
    (QuarantineItem → Bool) → (QuarantineItem → QuarantineItem) → Text → Items → Items
update_items p g ref [] = []
update_items p g ref (it ∷ items) =
    (if text_eq it.ref ref && p it then g it else it) ∷ update_items p g ref items

unfoldable pub affected : (QuarantineItem → Bool) → Text → Items → Bool
affected p ref [] = false
affected p ref (it ∷ items) = (text_eq it.ref ref && p it) || affected p ref items

abbrev pub row_active : QuarantineItem → Bool
row_active it = is_active it.status

abbrev pub row_expired : Time → QuarantineItem → Bool
row_expired now it = expired it now

abbrev pub set_restored : Time → Text → QuarantineItem → QuarantineItem
set_restored now to it = record it { status = restored; restored_at = now; restored_to = to }

abbrev pub set_purged : Time → QuarantineItem → QuarantineItem
set_purged now it = record it { status = purged; purged_at = now }

-- `InsertQuarantineItem`: refused without reference, paths or hash, and by the primary key.
unfoldable pub complete_item : QuarantineItem → Bool
complete_item it =
    not (is_empty it.ref)
    && (not (is_empty it.vault_path)
        && (not (is_empty it.original_path) && not (is_empty it.sha256)))

-- The state that a call of the vault changes.
pub record World : Type 0 where
  pub files : Files
  pub items : Items

-- What the operating system and the database answer in one call: each is an input of the model.
pub record Answers : Type 0 where
  -- The file can be opened and read; its metadata and the number of its names can be read.
  pub readable : Bool
  pub stat_works : Bool
  pub links_work : Bool
  -- The reference made of the time and of random bytes.
  pub new_ref : Option Text
  pub dir_works : Bool
  -- The copy: its source opens and its destination can be created, all of it is written and synced, and
  -- the bytes that were read from the source until then.
  pub copy_opens : Bool
  pub copy_works : Bool
  pub copy_bytes : List ℕ
  -- What another process writes at the destination just before it is created.
  pub appears : Option File
  -- Changing the mode or the times works.
  pub chmod_works : Bool
  pub chtimes_works : Bool
  -- The database accepts an insertion, an update.
  pub insert_works : Bool
  pub update_works : Bool
  -- The removal of the file, and of a copy that is given up.
  pub remove_works : Bool
  pub cleanup_works : Bool

-- The configuration of a vault and what it takes from Go's library and from the other packages.
pub record Vault : Type 0 where
  -- The SHA-256 of some bytes, in hexadecimal.
  pub sha : List ℕ → Text
  -- The path in the vault for a reference, in the subdirectory of the month.
  pub place : Text → Text
  -- `adapter.PathIsExpressible` and `adapter.PathIsWithinAny` for the configured roots.
  pub expressible : Text → Bool
  pub within_roots : Text → Bool
  pub has_roots : Bool
  -- The clock's reading, and the end of the retention: the zero time when none is configured.
  pub now : Time
  pub retention_until : Time
  -- The account that the process runs as.
  pub self : Text

-- The errors of the package, each with its branch.
pub data VaultError : Type 0 where
  cannot_reread hash_mismatch no_metadata not_a_plain_file outside_roots : VaultError
  links_unknown other_names no_reference vault_unwritable not_recorded : VaultError
  original_not_removed not_found not_in_vault vault_unreadable vault_corrupted : VaultError
  restore_target_exists no_directory restore_failed not_marked not_expired copy_not_removed :
      VaultError

pub data Result {ℓ} (A : Type ℓ) : Type ℓ where
  ok : A → Result A
  err : VaultError → Result A
