-- ===== src/Quarantine/Purge.antt =====
-- `Purge`, `PurgeExpired` and `Verify` of vault.go.
use sentinel_host.Prelude.{
  ℕ, Bool, true, false, not, ◌||◌, ◌&&◌, ◌+◌, Option, none, some, List, [], ◌∷◌, Text, text_eq,
  if◌then◌else◌,
}
use sentinel_host.Schema.Types.{Time}
use sentinel_host.Quarantine.World.{
  Files, write_file, QuarantineItem, Items, find_item, update_items, affected, row_active,
  row_expired, set_purged, World, Answers, Vault, not_found, not_in_vault, not_expired,
  copy_not_removed, Result, ok, err,
}
use sentinel_host.Quarantine.Vault.{is_some}

-- `Purge`: the row first (`ForcePurge`, or `MarkPurged` for expired rows), then the copy.
unfoldable pub purge_item :
    Vault → Answers → Bool → QuarantineItem → World → World × Result (Unit {0})
purge_item v a force item w =
    let may = if force then row_active else row_expired v.now in
    if not (row_active item)
    then (w, err not_in_vault)
    else if not (a.update_works && affected may item.ref w.items)
    then (w, err not_expired)
    else let items = update_items may (set_purged v.now) item.ref w.items in
      if a.remove_works || not (is_some (w.files item.vault_path))
      then (record { files = write_file item.vault_path none w.files; items = items }, ok tt)
      else (record { files = w.files; items = items }, err copy_not_removed)

unfoldable pub purge_found :
    Vault → Answers → Bool → World → Option QuarantineItem → World × Result (Unit {0})
purge_found v a force w none = (w, err not_found)
purge_found v a force w (some item) = purge_item v a force item w

unfoldable pub purge : Vault → Answers → Bool → Text → World → World × Result (Unit {0})
purge v a force ref w = purge_found v a force w (find_item ref w.items)

-- The references that `ExpiredItems` returns, in the order of the table.
unfoldable pub expired_refs : Time → Items → List Text
expired_refs now [] = []
expired_refs now (it ∷ items) =
    if row_expired now it then it.ref ∷ expired_refs now items else expired_refs now items

abbrev pub count_ok {ℓ} : {A : Type ℓ} → Result A → ℕ → ℕ
count_ok (ok x) n = n + 1
count_ok (err e) n = n

-- The loop of `PurgeExpired`, with the answers of each round; the count of purged items.
unfoldable pub purge_refs : Vault → (Text → Answers) → List Text → World → World × ℕ
purge_refs v answers [] w = (w, 0)
purge_refs v answers (ref ∷ refs) w =
    let (w', done) = purge v (answers ref) false ref w in
    let (w'', n) = purge_refs v answers refs w' in (w'', count_ok done n)

unfoldable pub purge_expired : Vault → (Text → Answers) → World → World × ℕ
purge_expired v answers w = purge_refs v answers (expired_refs v.now w.items) w

-- `Verify`: the references of the active items whose copy is unreadable or has another hash.
unfoldable pub verify : Vault → Files → Items → List Text
verify v files [] = []
verify v files (it ∷ items) =
    let bad = elim (files it.vault_path) as (λ _. Bool) [
      | none ↦ true
      | some f ↦ not (text_eq (v.sha f.bytes) it.sha256)
    ] in
    if row_active it && bad then it.ref ∷ verify v files items else verify v files items
