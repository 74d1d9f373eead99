-- ===== src/Quarantine/RoundTrip.antt =====
-- `Restore` after `Quarantine` gives the file back.
use mathlib.Core.Path.{subst}
use sentinel_host.Prelude.{
  ℕ, true, false, none, some, List, [], ◌∷◌, Text, text_eq_refl, text_ne, ◌≡◌, sym, ap, ◌∙◌, ◌≢◌,
  arith,
}
use sentinel_host.Schema.Types.{is_zero_time}
use sentinel_host.Quarantine.World.{
  File, write_file, active, QuarantineItem, Items, find_item, affected, row_active, World, Answers,
  Vault, Result, ok,
}
use sentinel_host.Quarantine.Vault.{perm, copy_of, copy_and_verify, quarantine}
use sentinel_host.Quarantine.Restore.{
  restore, restore_item, check_copy, copy_back, finish_restore, dressed,
}
use sentinel_host.Quarantine.Safe.{Recorded, Kept, quarantine-Kept, write_file_lem}

-- Nothing fails during the restore, no other process writes the path, and `bytes` is what the copy holds.
pub record Works (b : Answers) (bytes : List ℕ) : Type 0 where
  pub readable : b.readable ≡ true
  pub dir_works : b.dir_works ≡ true
  pub copy_opens : b.copy_opens ≡ true
  pub copy_works : b.copy_works ≡ true
  pub copy_bytes : b.copy_bytes ≡ bytes
  pub undisturbed : b.appears ≡ none
  pub chmod_works : b.chmod_works ≡ true
  pub chtimes_works : b.chtimes_works ≡ true
  pub update_works : b.update_works ≡ true
  pub remove_works : b.remove_works ≡ true

affected_found :
    (it : QuarantineItem) (ref : Text) (items : Items)
    → find_item ref items ≡ some it
    → row_active it ≡ true
    → affected row_active ref items ≡ true
unfolding find_item affected
affected_found it ref [] h k = absurd (cc)
affected_found it ref (x ∷ items) h k = ground (arith, affected_found it ref items)

-- What is at the path after the restore, for a file that was quarantined.
pub record Returned (f : File) (r : World × Result QuarantineItem) (path : Text) : Type 0 where
  pub file : File
  pub there : r.0.files path ≡ some file
  pub same_bytes : file.bytes ≡ f.bytes
  pub same_perms : file.mode ≡ perm f.mode
  pub same_time : is_zero_time f.m_time ≡ false → file.m_time ≡ f.m_time

module _ (v : Vault) (b : Answers) (path : Text) (f : File) (w : World)
    (item : QuarantineItem) where
  restored_file : File
  restored_file = dressed b item (copy_of v b)

  finish_restore-files :
      (w' : World)
      → row_active item ≡ true
      → find_item item.ref w'.items ≡ some item
      → b.update_works ≡ true
      → item.vault_path ≢ path
      → (finish_restore v b item w').0.files path ≡ w'.files path
  unfolding finish_restore write_file
  finish_restore-files w' ha hf hu apart =
      ground
        (arith, affected_found item item.ref w'.items hf ha, text_ne item.vault_path path apart)

  copy_back-files :
      item.original_path ≡ path
      → item.status ≡ active
      → find_item item.ref w.items ≡ some item
      → v.sha f.bytes ≡ item.sha256
      → Works b f.bytes
      → w.files path ≡ none
      → item.vault_path ≢ path
      → (copy_back v b item w).0.files path ≡ some restored_file
  unfolding copy_back copy_and_verify restored_file
  copy_back-files hp hs hf hh works gone apart =
      let p = item.original_path in
      let files = write_file p (some restored_file) (write_file p (some (copy_of v b)) w.files) in
      ground (
        arith,
        write_file_lem p path (some restored_file) (write_file p (some (copy_of v b)) w.files),
        text_eq_refl path,
        text_eq_refl item.sha256,
        finish_restore-files (record w { files = files }),
      )

  restore-files :
      Recorded v path f w item
      → (v.sha f.bytes ≡ item.sha256)
      → Works b f.bytes
      → w.files path ≡ none
      → item.vault_path ≢ path
      → (restore v b item.ref w).0.files path ≡ some restored_file
  unfolding restore restore_item check_copy
  restore-files rec hh works gone apart = ground (
    arith,
    copy_back-files rec.same_path rec.still_active rec.found hh works gone apart,
    text_eq_refl item.sha256,
  )

  -- The file that `Restore` puts back has the bytes, the permissions and (unless it was the zero
  -- time) the modification time of the file that `Quarantine` took away.
  restore-Returned :
      Recorded v path f w item
      → Works b f.bytes
      → w.files path ≡ none
      → item.vault_path ≢ path
      → Returned f (restore v b item.ref w) path
  unfolding restored_file
  restore-Returned rec works gone apart = record {
    file = restored_file;
    there = restore-files rec (sym rec.same_hash) works gone apart;
    same_bytes = works.copy_bytes;
    same_perms = ground arith;
    same_time = λ z. ground arith;
  }

-- A file that `Quarantine` took away comes back by `Restore`: with the same bytes, the same
-- permissions and, unless it was the zero time, the same modification time. The conditions: the copy is not
-- placed at the path itself, no other bytes than the file's have its hash, and nothing fails during
-- the restore, which reads what the vault holds.
pub restore-quarantine :
    (v : Vault) (a b : Answers) (path : Text) (f : File) (id expected : Text) (w w' : World)
    (item : QuarantineItem)
    → w.files path ≡ some f
    → ((ref : Text) → v.place ref ≢ path)
    → quarantine v a id path expected w ≡ (w', ok item)
    → ((x : List ℕ) → v.sha x ≡ v.sha f.bytes → x ≡ f.bytes)
    → ((g : File) → w'.files item.vault_path ≡ some g → Works b g.bytes)
    → Returned f (restore v b item.ref w') path
restore-quarantine v a b path f id expected w w' item ho apart done unique works =
    let kept = subst (Kept v path f) done (quarantine-Kept v a path f id expected w ho apart) in
    let rec = kept.1 in
    let same : rec.copy.bytes ≡ f.bytes = unique rec.copy.bytes (rec.copy_hash ∙ rec.same_hash) in
    restore-Returned v b path f w' item rec (subst (Works b) same (works rec.copy rec.copy_there))
      kept.0 (λ q. cc (ap (λ p. w'.files p) q, rec.copy_there, kept.0))
