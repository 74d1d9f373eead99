-- ===== src/Quarantine/Vault.antt =====
-- `Quarantine` of vault.go, step by step. The answers of
-- the operating system are arguments; `_ = os.Remove(…)` may fail and changes nothing then.
use sentinel_host.Prelude.{
  ℕ, Bool, true, false, not, ◌||◌, ◌&&◌, ◌%◌, Option, none, some, [], ◌∷◌, Text, text_eq, is_empty,
  ltb, length, if◌then◌else◌,
}
use sentinel_host.Quarantine.World.{
  regular, symlink, special, File, Files, write_file, active, QuarantineItem, find_item,
  update_items, row_active, set_purged, complete_item, World, Answers, Vault, cannot_reread,
  hash_mismatch, no_metadata, not_a_plain_file, outside_roots, links_unknown, other_names,
  no_reference, vault_unwritable, not_recorded, original_not_removed, Result, ok, err,
}

abbrev pub is_some {ℓ} : {A : Type ℓ} → Option A → Bool
is_some none = false
is_some (some x) = true

-- The permission bits of a mode.
abbrev pub perm : ℕ → ℕ
perm m = m % 512

-- `os.Remove` of a copy that is given up.
unfoldable pub give_up : Answers → Text → Files → Files
give_up a p files = if a.cleanup_works then write_file p none files else files

-- The file that `copyAndVerify` makes.
abbrev pub copy_of : Vault → Answers → File
copy_of v a = record {
  bytes = a.copy_bytes;
  kind = regular;
  mode = 0o600;
  owner = v.self;
  m_time = v.now;
  other_links = 0;
}

-- `copyAndVerify`: the files after it, and whether it succeeded. The destination is created
-- exclusively.
unfoldable pub copy_and_verify : Vault → Answers → Text → Files → Files × Bool
copy_and_verify v a dest files =
    if not a.copy_opens || is_some (files dest)
    then (files, false)
    else (write_file dest (some (copy_of v a)) files, a.copy_works)

-- `otherNamesFor`.
unfoldable pub check_names : Answers → File → Result ℕ
check_names a f = if not a.links_work then err links_unknown else elim f.kind [
  | regular ↦ ok f.other_links
  | symlink ↦ err not_a_plain_file
  | special ↦ err not_a_plain_file
]

-- The checks before anything is written: the file is read again, it is the file of the verdict, and its
-- path may be acted on.
unfoldable pub admit : Vault → Answers → Text → Text → Option File → Result File
admit v a path expected none = err cannot_reread
admit v a path expected (some f) =
    if not a.readable
    then err cannot_reread
    else if not (is_empty expected) && not (text_eq (v.sha f.bytes) expected)
    then err hash_mismatch
    else if not a.stat_works
    then err no_metadata
    else if not (v.expressible path)
    then err not_a_plain_file
    else if v.has_roots && not (v.within_roots path)
    then err outside_roots
    else elim (check_names a f) [
      | err e ↦ err e
      | ok others ↦ if ltb 0 others then err other_names else ok f
    ]

abbrev pub new_item : Vault → Answers → Text → Text → File → Text → QuarantineItem
new_item v a id path f ref = record {
  ref = ref;
  verdict_id = id;
  original_path = path;
  vault_path = v.place ref;
  sha256 = v.sha f.bytes;
  size_bytes = length a.copy_bytes;
  perms = perm f.mode;
  owner = f.owner;
  original_m_time = f.m_time;
  quarantined_at = v.now;
  retention_until = v.retention_until;
  status = active;
  restored_at = 0;
  restored_to = [];
  purged_at = 0;
}

-- The copy without permissions for anybody but a reader that owns it.
abbrev pub locked : Answers → File → File
locked a f = if a.chmod_works then record f { mode = 0o400 } else f

-- The last step: the original is removed, or the record is purged and the copy given up.
unfoldable pub remove_original :
    Vault → Answers → QuarantineItem → World → World × Result QuarantineItem
remove_original v a item w =
    if a.remove_works
    then (record w { files = write_file item.original_path none w.files }, ok item)
    else (
      record {
        files = give_up a item.vault_path w.files;
        items =
            if a.update_works
            then update_items row_active (set_purged v.now) item.ref w.items
            else w.items;
      },
      err original_not_removed,
    )

-- The item is recorded before the original is removed.
unfoldable pub record_item :
    Vault → Answers → QuarantineItem → World → World × Result QuarantineItem
record_item v a item w =
    if a.insert_works && (complete_item item && not (is_some (find_item item.ref w.items)))
    then remove_original v a item (record w { items = item ∷ w.items })
    else (record w { files = give_up a item.vault_path w.files }, err not_recorded)

-- Copy, verify the copy, lock it.
unfoldable pub copy_in :
    Vault → Answers → Text → Text → File → Text → World → World × Result QuarantineItem
copy_in v a id path f ref w =
    let (files, copied) = copy_and_verify v a (v.place ref) w.files in
    if not copied || not (text_eq (v.sha a.copy_bytes) (v.sha f.bytes))
    then (record w { files = give_up a (v.place ref) files }, err vault_unwritable)
    else record_item v a (new_item v a id path f ref)
        (record w { files = write_file (v.place ref) (some (locked a (copy_of v a))) files })

unfoldable pub with_ref :
    Vault → Answers → Text → Text → File → World → Option Text → World × Result QuarantineItem
with_ref v a id path f w none = (w, err no_reference)
with_ref v a id path f w (some ref) =
    if a.dir_works then copy_in v a id path f ref w else (w, err vault_unwritable)

unfoldable pub after_checks :
    Vault → Answers → Text → Text → World → Result File → World × Result QuarantineItem
after_checks v a id path w (err e) = (w, err e)
after_checks v a id path w (ok f) = with_ref v a id path f w a.new_ref

unfoldable pub quarantine :
    Vault → Answers → (id path expected : Text) → World → World × Result QuarantineItem
quarantine v a id path expected w =
    after_checks v a id path w (admit v a path expected (w.files path))
