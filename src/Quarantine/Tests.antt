-- ===== src/Quarantine/Tests.antt =====
-- The vault at a concrete file, quarantined, restored and purged.
use sentinel_host.Prelude.{
  arith, ℕ, true, false, none, some, List, [], ◌∷◌, Text, codes, text_apart, ◌≡◌, inr, refl, ◌≢◌,
  In, inl, text_eq, if◌then◌else◌,
}
use sentinel_host.Quarantine.World.{
  File, regular, Files, write_file, QuarantineItem, World, Answers, Vault, restore_failed, ok, err,
  find_item, complete_item,
}
use sentinel_host.Quarantine.Vault.{
  quarantine, copy_in, copy_and_verify, check_names, admit, remove_original, record_item, give_up,
  with_ref, after_checks, new_item, locked, copy_of,
}
use sentinel_host.Quarantine.Restore.{restore, copy_back}
use sentinel_host.Quarantine.Purge.{purge_expired}
use sentinel_host.Quarantine.Safe.{Kept, quarantine-Kept}
use sentinel_host.Quarantine.RoundTrip.{Works, Returned, restore-quarantine}
use sentinel_host.Quarantine.Retention.{purge_expired-keeps, copy_back-clobbers}

-- A hash without collisions (a byte that marks it, then the bytes), and copies at `v` and the reference.
abbrev vault : Vault
vault = record {
  sha = λ bytes. 104 ∷ bytes;
  place = λ ref. 118 ∷ ref;
  expressible = λ p. true;
  within_roots = λ p. true;
  has_roots = true;
  now = 100;
  retention_until = 200;
  self = codes "u";
}

abbrev shell : File
shell = record {
  bytes = 60 ∷ 63 ∷ [];
  kind = regular;
  mode = 420;
  owner = codes "u";
  m_time = 50;
  other_links = 0;
}

-- Everything works.
abbrev fine : Answers
fine = record {
  readable = true;
  stat_works = true;
  links_work = true;
  new_ref = some (codes "q1");
  dir_works = true;
  copy_opens = true;
  copy_works = true;
  copy_bytes = shell.bytes;
  appears = none;
  chmod_works = true;
  chtimes_works = true;
  insert_works = true;
  update_works = true;
  remove_works = true;
  cleanup_works = true;
}

abbrev path : Text
path = codes "x.php"

abbrev only_shell : Files
only_shell q = if text_eq path q then some shell else none

abbrev start : World
start = record { files = only_shell; items = [] }

abbrev item : QuarantineItem
item = new_item vault fine (codes "v1") path shell (codes "q1")

apart : (ref : Text) → vault.place ref ≢ path
apart ref = text_apart (118 ∷ ref) path refl

-- Distinct contents have distinct hashes.
injective : (x : List ℕ) → vault.sha x ≡ vault.sha shell.bytes → x ≡ shell.bytes
injective x q = cc q

abbrev other_path : Text
other_path = codes "y.php"

away : path ≢ other_path
away = text_apart path other_path refl

outside : (ref : Text) → vault.place ref ≢ other_path
outside ref = text_apart (118 ∷ ref) other_path refl

succeeds : (quarantine vault fine (codes "v1") path [] start).1 ≡ ok item
unfolding quarantine admit check_names after_checks with_ref copy_in copy_and_verify record_item
    remove_original complete_item find_item
succeeds = refl

-- A failed removal leaves the file and no active item.
not_removed :
    (quarantine vault (record fine { remove_works = false }) (codes "v1") path [] start).0.files
      path
    ≡ some shell
unfolding quarantine admit check_names after_checks with_ref copy_in copy_and_verify record_item
    remove_original complete_item find_item give_up write_file
not_removed = refl

quarantine-Kept_example : Kept vault path shell (quarantine vault fine (codes "v1") path [] start)
quarantine-Kept_example = quarantine-Kept vault fine path shell (codes "v1") [] start refl apart

abbrev locked_world : World
locked_world = record {
  files = write_file path none (
      write_file item.vault_path (some (locked fine (copy_of vault fine)))
        (write_file item.vault_path (some (copy_of vault fine)) only_shell));
  items = item ∷ [];
}

done_now : quarantine vault fine (codes "v1") path [] start ≡ (locked_world, ok item)
unfolding quarantine admit check_names after_checks with_ref copy_in copy_and_verify record_item
    remove_original complete_item find_item
done_now = refl

Works-now : (g : File) → locked_world.files item.vault_path ≡ some g → Works fine g.bytes
unfolding write_file
Works-now g q = record {
  readable = refl;
  dir_works = refl;
  copy_opens = refl;
  copy_works = refl;
  copy_bytes = (let there : some (locked fine (copy_of vault fine)) ≡ some g = q in cc there);
  undisturbed = refl;
  chmod_works = refl;
  chtimes_works = refl;
  update_works = refl;
  remove_works = refl;
}

restore-quarantine_example : Returned shell (restore vault fine item.ref locked_world) path
restore-quarantine_example =
    restore-quarantine vault fine fine path shell (codes "v1") [] start locked_world item refl apart
      done_now injective Works-now

purge_expired-keeps_example :
    In item
      (purge_expired vault (λ ref. fine) (record { files = only_shell; items = item ∷ [] })).0.items
purge_expired-keeps_example =
    purge_expired-keeps vault (λ ref. fine) (record { files = only_shell; items = item ∷ [] }) item
      (inr (inr (omega arith))) (inl refl)

copy_back-clobbers_example :
    let b = record fine { appears = some shell } in
    ((copy_back vault b item start).1 ≡ err restore_failed)
    × ((copy_back vault b item start).0.files path ≡ none)
copy_back-clobbers_example =
    copy_back-clobbers vault (record fine { appears = some shell }) item start shell refl refl
