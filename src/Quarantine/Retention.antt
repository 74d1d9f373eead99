-- ===== src/Quarantine/Retention.antt =====
-- What a purge may touch, and what the vault does when a destination is taken.
use sentinel_host.Prelude.{
  Bool, true, false, not, ◌||◌, ◌&&◌, Option, none, some, List, [], ◌∷◌, Text, text_eq_refl,
  if_cases, ◌≡◌, ◌≢◌, ◌⊎◌, ◌≤◌, refl, inl, inr, arith, In,
}
use sentinel_host.Schema.Types.{Time}
use sentinel_host.Quarantine.World.{
  QuarantineStatus, active, is_active, expired, File, write_file, QuarantineItem, Items, find_item,
  update_items, affected, row_active, row_expired, set_purged, World, Answers, Vault,
  restore_failed, vault_unwritable, Result, err,
}
use sentinel_host.Quarantine.Vault.{is_some, give_up, copy_and_verify, copy_in}
use sentinel_host.Quarantine.Restore.{copy_back}
use sentinel_host.Quarantine.Purge.{
  purge, purge_found, purge_item, purge_refs, purge_expired, expired_refs,
}

update_items-keeps :
    (p : QuarantineItem → Bool) (g : QuarantineItem → QuarantineItem) (ref : Text)
    (it : QuarantineItem) (items : Items)
    → p it ≡ false
    → In it items
    → In it (update_items p g ref items)
unfolding update_items
update_items-keeps p g ref it [] h m = m
update_items-keeps p g ref it (x ∷ items) h (inl q) = ground arith
update_items-keeps p g ref it (x ∷ items) h (inr m) = inr (update_items-keeps p g ref it items h m)

purge_item-keeps :
    (v : Vault) (a : Answers) (item : QuarantineItem) (w : World) (it : QuarantineItem)
    → row_expired v.now it ≡ false
    → In it w.items
    → In it (purge_item v a false item w).0.items
unfolding purge_item
purge_item-keeps v a item w it h m =
    let P = λ (r : World × Result (Unit {0})). In it r.0.items in
    let kept = update_items-keeps (row_expired v.now) (set_purged v.now) item.ref it w.items h m in
    if_cases P (not (row_active item)) _ _ (λ _. m)
      (λ _.
        if_cases P (not (a.update_works && affected (row_expired v.now) item.ref w.items)) _ _
          (λ _. m)
          (λ _.
            if_cases P (a.remove_works || not (is_some (w.files item.vault_path))) _ _ (λ _. kept)
              (λ _. kept)))

purge_found-keeps :
    (v : Vault) (a : Answers) (w : World) (it : QuarantineItem) (o : Option QuarantineItem)
    → row_expired v.now it ≡ false
    → In it w.items
    → In it (purge_found v a false w o).0.items
unfolding purge_found
purge_found-keeps v a w it none h m = m
purge_found-keeps v a w it (some item) h m = purge_item-keeps v a item w it h m

purge-keeps :
    (v : Vault) (a : Answers) (ref : Text) (w : World) (it : QuarantineItem)
    → row_expired v.now it ≡ false
    → In it w.items
    → In it (purge v a false ref w).0.items
unfolding purge
purge-keeps v a ref w it h m = purge_found-keeps v a w it (find_item ref w.items) h m

purge_refs-keeps :
    (v : Vault) (answers : Text → Answers) (refs : List Text) (w : World) (it : QuarantineItem)
    → row_expired v.now it ≡ false
    → In it w.items
    → In it (purge_refs v answers refs w).0.items
unfolding purge_refs
purge_refs-keeps v answers [] w it h m = m
purge_refs-keeps v answers (ref ∷ refs) w it h m =
    purge_refs-keeps v answers refs (purge v (answers ref) false ref w).0 it h
      (purge-keeps v (answers ref) ref w it h m)

-- The row is not active, or has no time of retention, or that time has not passed.
abbrev pub Retained : Time → QuarantineItem → Type 0
Retained now it = (it.status ≢ active) ⊎ (it.retention_until ≡ 0) ⊎ (now ≤ it.retention_until)

not_active : (q : QuarantineStatus) → q ≢ active → is_active q ≡ false
not_active active n = absurd (n refl)
not_active _ n = refl

Retained-row_expired :
    (now : Time) (it : QuarantineItem) → Retained now it → row_expired now it ≡ false
unfolding expired
Retained-row_expired now it (inl n) = rw (not_active it.status n) refl
Retained-row_expired now it (inr (inl z)) = ground (arith, z)
Retained-row_expired now it (inr (inr le)) = ground (arith, le)

-- `PurgeExpired` leaves alone every row that is not active, that has no time of retention, or whose time of
-- retention has not passed, whatever the operating system and the database answer.
pub purge_expired-keeps :
    (v : Vault) (answers : Text → Answers) (w : World) (it : QuarantineItem)
    → Retained v.now it
    → In it w.items
    → In it (purge_expired v answers w).0.items
unfolding purge_expired
purge_expired-keeps v answers w it r m =
    purge_refs-keeps v answers (expired_refs v.now w.items) w it (Retained-row_expired v.now it r) m

-- If another process creates a file at the original path after `Restore` has found it free, the copy is
-- refused, and then that file is removed: it is gone when the removal works.
pub copy_back-clobbers :
    (v : Vault) (a : Answers) (item : QuarantineItem) (w : World) (f : File)
    → a.appears ≡ some f
    → a.cleanup_works ≡ true
    → ((copy_back v a item w).1 ≡ err restore_failed)
      × ((copy_back v a item w).0.files item.original_path ≡ none)
unfolding copy_back copy_and_verify give_up write_file
copy_back-clobbers v a item w f h k = ground (arith, text_eq_refl item.original_path)

-- If the place of a new reference is taken in the vault, `Quarantine` fails to copy and then removes what
-- is there: the copy of the other item is gone when the removal works.
copy_in-clobbers :
    (v : Vault) (a : Answers) (id path : Text) (f g : File) (ref : Text) (w : World)
    → w.files (v.place ref) ≡ some g
    → a.cleanup_works ≡ true
    → ((copy_in v a id path f ref w).1 ≡ err vault_unwritable)
      × ((copy_in v a id path f ref w).0.files (v.place ref) ≡ none)
unfolding copy_in copy_and_verify give_up write_file
copy_in-clobbers v a id path f g ref w h k = ground (arith, text_eq_refl (v.place ref))
