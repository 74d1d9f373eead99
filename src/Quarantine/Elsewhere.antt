-- ===== src/Quarantine/Elsewhere.antt =====
-- `Quarantine` touches one path and the place of its copy, and nothing else.
use sentinel_host.Prelude.{
  not, ◌||◌, ◌&&◌, Option, none, some, Text, text_eq, text_ne, if_cases, ◌∷◌, ◌≡◌, refl, ◌∙◌, ◌≢◌,
  arith,
}
use sentinel_host.Quarantine.World.{
  File, Files, write_file, QuarantineItem, find_item, complete_item, World, Answers, Vault, Result,
  ok, err,
}
use sentinel_host.Quarantine.Vault.{
  is_some, give_up, copy_of, copy_and_verify, admit, new_item, locked, remove_original, record_item,
  copy_in, with_ref, after_checks, quarantine,
}

module _ (v : Vault) (a : Answers) (path q : Text) (away : path ≢ q)
    (outside : (ref : Text) → v.place ref ≢ q) where
  write-other :
      (p : Text) (f : Option File) (files : Files) → p ≢ q → write_file p f files q ≡ files q
  unfolding write_file
  write-other p f files h = ground (arith, text_ne p q h)

  give_up-other : (p : Text) (files : Files) → p ≢ q → give_up a p files q ≡ files q
  unfolding give_up
  give_up-other p files h = ground (arith, write-other p none files h)

  abbrev Same : World → World × Result QuarantineItem → Type 0
  Same w r = r.0.files q ≡ w.files q

  remove_original-Same :
      (item : QuarantineItem) (w : World)
      → item.original_path ≢ q
      → item.vault_path ≢ q
      → Same w (remove_original v a item w)
  unfolding remove_original
  remove_original-Same item w ho hv =
      if_cases (Same w) a.remove_works _ _ (λ _. write-other item.original_path none w.files ho)
        (λ _. give_up-other item.vault_path w.files hv)

  record_item-Same :
      (item : QuarantineItem) (w : World)
      → item.original_path ≢ q
      → item.vault_path ≢ q
      → Same w (record_item v a item w)
  unfolding record_item
  record_item-Same item w ho hv =
      if_cases (Same w)
        (a.insert_works && (complete_item item && not (is_some (find_item item.ref w.items)))) _ _
        (λ _. remove_original-Same item (record w { items = item ∷ w.items }) ho hv)
        (λ _. give_up-other item.vault_path w.files hv)

  copy-other : (p : Text) (files : Files) → p ≢ q → (copy_and_verify v a p files).0 q ≡ files q
  unfolding copy_and_verify
  copy-other p files h = ground (arith, write-other p (some (copy_of v a)) files h)

  copy_in-Same :
      (id : Text) (f : File) (ref : Text) (w : World) → Same w (copy_in v a id path f ref w)
  unfolding copy_in
  copy_in-Same id f ref w =
      let vp = v.place ref in
      let files = (copy_and_verify v a vp w.files).0 in
      let lock : Option File = some (locked a (copy_of v a)) in
      if_cases (Same w)
        (not (copy_and_verify v a vp w.files).1
          || not (text_eq (v.sha a.copy_bytes) (v.sha f.bytes)))
        _ _ (λ _. give_up-other vp files (outside ref) ∙ copy-other vp w.files (outside ref))
        (λ _.
          record_item-Same (new_item v a id path f ref)
            (record w { files = write_file vp lock files }) away (outside ref)
          ∙ (write-other vp lock files (outside ref) ∙ copy-other vp w.files (outside ref)))

  with_ref-Same :
      (id : Text) (f : File) (w : World) (o : Option Text) → Same w (with_ref v a id path f w o)
  unfolding with_ref
  with_ref-Same id f w none = refl
  with_ref-Same id f w (some ref) =
      if_cases (Same w) a.dir_works _ _ (λ _. copy_in-Same id f ref w) (λ _. refl)

  after_checks-Same :
      (id : Text) (w : World) (r : Result File) → Same w (after_checks v a id path w r)
  unfolding after_checks
  after_checks-Same id w (err e) = refl
  after_checks-Same id w (ok f) = with_ref-Same id f w a.new_ref

  -- Another path that is no place of a copy holds after `Quarantine` what it held before.
  pub quarantine-Same :
      (id expected : Text) (w : World) → (quarantine v a id path expected w).0.files q ≡ w.files q
  unfolding quarantine
  quarantine-Same id expected w = after_checks-Same id w (admit v a path expected (w.files path))
