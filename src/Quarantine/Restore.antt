-- ===== src/Quarantine/Restore.antt =====
-- `Restore` of vault.go, step by step.
use sentinel_host.Prelude.{not, ◌&&◌, Option, none, some, Text, text_eq, if◌then◌else◌}
use sentinel_host.Schema.Types.{is_zero_time}
use sentinel_host.Quarantine.World.{
  File, Files, write_file, QuarantineItem, find_item, update_items, affected, row_active,
  set_restored, World, Answers, Vault, not_found, not_in_vault, vault_unreadable, vault_corrupted,
  restore_target_exists, no_directory, restore_failed, not_marked, Result, ok, err,
}
use sentinel_host.Quarantine.Vault.{is_some, give_up, copy_of, copy_and_verify}

-- What another process wrote at the destination since it was looked at.
abbrev pub arrival : Answers → Text → Files → Files
arrival a p files = elim a.appears [ none ↦ files | some f ↦ write_file p (some f) files ]

-- The mode and the times of the original, as far as they can be set.
abbrev pub dressed : Answers → QuarantineItem → File → File
dressed a item f = record f {
  mode = if a.chmod_works then item.perms else f.mode;
  m_time =
      if not (is_zero_time item.original_m_time) && a.chtimes_works
      then item.original_m_time
      else f.m_time;
}

-- After the file is back: the row is marked, and only then the copy leaves the vault.
unfoldable pub finish_restore :
    Vault → Answers → QuarantineItem → World → World × Result QuarantineItem
finish_restore v a item w =
    if a.update_works && affected row_active item.ref w.items
    then (
      record {
        files = if a.remove_works then write_file item.vault_path none w.files else w.files;
        items = update_items row_active (set_restored v.now item.original_path) item.ref w.items;
      },
      ok (set_restored v.now item.original_path item),
    )
    else (w, err not_marked)

-- The copy back to the original path, verified.
unfoldable pub copy_back : Vault → Answers → QuarantineItem → World → World × Result QuarantineItem
copy_back v a item w =
    let (files, copied) =
      copy_and_verify v a item.original_path (arrival a item.original_path w.files) in
    if not copied
    then (record w { files = give_up a item.original_path files }, err restore_failed)
    else if not (text_eq (v.sha a.copy_bytes) item.sha256)
    then (record w { files = give_up a item.original_path files }, err vault_corrupted)
    else finish_restore v a item (record w {
      files = write_file item.original_path (some (dressed a item (copy_of v a))) files;
    })

-- The checks of `Restore` on the copy in the vault.
unfoldable pub check_copy : Vault → Answers → QuarantineItem → Option File → Result (Unit {0})
check_copy v a item none = err vault_unreadable
check_copy v a item (some f) =
    if not a.readable
    then err vault_unreadable
    else if text_eq (v.sha f.bytes) item.sha256
    then ok tt
    else err vault_corrupted

unfoldable pub restore_item :
    Vault → Answers → QuarantineItem → World → World × Result QuarantineItem
restore_item v a item w =
    if not (row_active item)
    then (w, err not_in_vault)
    else elim (check_copy v a item (w.files item.vault_path)) [
      | err e ↦ (w, err e)
      | ok done ↦
          if a.stat_works && is_some (w.files item.original_path)
          then (w, err restore_target_exists)
          else if not a.dir_works
          then (w, err no_directory)
          else copy_back v a item w
    ]

unfoldable pub restore : Vault → Answers → Text → World → World × Result QuarantineItem
restore v a ref w = elim (find_item ref w.items) [
  | none ↦ (w, err not_found)
  | some item ↦ restore_item v a item w
]
