-- ===== src/Quarantine/Safe.antt =====
-- `Quarantine` loses nothing: whatever the operating system answers, the content is at its path or in
-- the vault with a record that leads back.
use mathlib.Core.Path.{subst}
use sentinel_host.Prelude.{
  false, not, ◌||◌, ◌&&◌, Option, none, some, ◌∷◌, Text, text_eq, text_eq_iff, text_eq_refl,
  text_ne, if_cases, ◌∙◌, ◌≡◌, refl, sym, ◌≢◌, inl, inr, Bool-cases, arith, if◌then◌else◌,
}
use sentinel_host.Quarantine.World.{
  File, Files, write_file, active, QuarantineItem, Items, find_item, complete_item, World, Answers,
  Vault, Result, ok, err,
}
use sentinel_host.Quarantine.Vault.{
  perm, is_some, give_up, copy_of, copy_and_verify, admit, new_item, locked, remove_original,
  record_item, copy_in, with_ref, after_checks, quarantine,
}

pub write_file_lem :
    (p q : Text) (f : Option File) (files : Files)
    → write_file p f files q ≡ (if text_eq p q then f else files q)
unfolding write_file
write_file_lem p q f files = refl

-- The item leads back: it is recorded as active under its reference, with the path, the hash, the
-- permissions and the time of the file, and the copy in the vault has that hash.
pub record Recorded (v : Vault) (path : Text) (f : File) (w : World) (item : QuarantineItem)
    : Type 0 where
  pub found : find_item item.ref w.items ≡ some item
  pub still_active : item.status ≡ active
  pub same_path : item.original_path ≡ path
  pub same_hash : item.sha256 ≡ v.sha f.bytes
  pub same_perms : item.perms ≡ perm f.mode
  pub same_time : item.original_m_time ≡ f.m_time
  pub copy : File
  pub copy_there : w.files item.vault_path ≡ some copy
  pub copy_hash : v.sha copy.bytes ≡ item.sha256

-- After an error the original is where it was; after a success it is gone and the item leads back.
abbrev pub Kept : Vault → Text → File → World × Result QuarantineItem → Type 0
Kept v path f (w, err e) = w.files path ≡ some f
Kept v path f (w, ok item) = (w.files path ≡ none) × Recorded v path f w item

give_up-other :
    (a : Answers) (p q : Text) (files : Files) → text_eq p q ≡ false → give_up a p files q ≡ files q
unfolding give_up write_file
give_up-other a p q files h = ground arith

admit-ok :
    (v : Vault) (a : Answers) (path expected : Text) (f : File) (o : Option File) (g : File)
    → o ≡ some f
    → admit v a path expected o ≡ ok g
    → g ≡ f
unfolding admit
admit-ok v a path expected f none g ho h = absurd (cc)
admit-ok v a path expected f (some x) g ho h = ground arith

find_item_head :
    (item : QuarantineItem) (items : Items) → find_item item.ref (item ∷ items) ≡ some item
unfolding find_item
find_item_head item items = rw (text_eq_refl item.ref)

module _ (v : Vault) (a : Answers) (path : Text) (f : File) where
  remove_original-Kept :
      (item : QuarantineItem) (w : World) (copy : File)
      → item.status ≡ active
      → item.original_path ≡ path
      → item.sha256 ≡ v.sha f.bytes
      → (item.perms ≡ perm f.mode) × (item.original_m_time ≡ f.m_time)
      → find_item item.ref w.items ≡ some item
      → w.files item.vault_path ≡ some copy
      → v.sha copy.bytes ≡ item.sha256
      → w.files path ≡ some f
      → item.vault_path ≢ path
      → Kept v path f (remove_original v a item w)
  unfolding remove_original write_file
  remove_original-Kept item w copy hs hp hh hm hf hc hb ho apart =
      if_cases (Kept v path f) a.remove_works _ _
        (λ _. (
          rw hp (rw (text_eq_refl path)),
          record {
            found = hf;
            still_active = hs;
            same_path = hp;
            same_hash = hh;
            same_perms = hm.0;
            same_time = hm.1;
            copy = copy;
            copy_there = rw hp (rw (text_ne path item.vault_path (λ q. apart (sym q))) hc);
            copy_hash = hb;
          },
        ))
        (λ _. give_up-other a item.vault_path path w.files (text_ne _ _ apart) ∙ ho)

  record_item-Kept :
      (item : QuarantineItem) (w : World) (copy : File)
      → item.status ≡ active
      → item.original_path ≡ path
      → item.sha256 ≡ v.sha f.bytes
      → (item.perms ≡ perm f.mode) × (item.original_m_time ≡ f.m_time)
      → w.files item.vault_path ≡ some copy
      → v.sha copy.bytes ≡ item.sha256
      → w.files path ≡ some f
      → item.vault_path ≢ path
      → Kept v path f (record_item v a item w)
  unfolding record_item
  record_item-Kept item w copy hs hp hh hm hc hb ho apart =
      if_cases (Kept v path f)
        (a.insert_works && (complete_item item && not (is_some (find_item item.ref w.items)))) _ _
        (λ _.
          remove_original-Kept item (record w { items = item ∷ w.items }) copy hs hp hh hm
            (find_item_head item w.items) hc hb ho apart)
        (λ _. give_up-other a item.vault_path path w.files (text_ne _ _ apart) ∙ ho)

  same_sha :
      (not a.copy_works || not (text_eq (v.sha a.copy_bytes) (v.sha f.bytes))) ≡ false
      → v.sha (locked a (copy_of v a)).bytes ≡ v.sha f.bytes
  same_sha c = ground (arith, text_eq_iff (v.sha a.copy_bytes) (v.sha f.bytes))

  copy_in-Kept :
      (id ref : Text) (w : World)
      → w.files path ≡ some f
      → v.place ref ≢ path
      → Kept v path f (copy_in v a id path f ref w)
  unfolding copy_in copy_and_verify
  copy_in-Kept id ref w ho apart =
      let vp = v.place ref in
      let first : Option File = some (copy_of v a) in
      let lock : Option File = some (locked a (copy_of v a)) in
      let away = text_ne vp path apart in
      let ho' : write_file vp first w.files path ≡ some f =
        rw (write_file_lem vp path first w.files) (rw away ho) in
      elim (Bool-cases (not a.copy_opens || is_some (w.files vp))) [
        | inl e ↦ rw e (give_up-other a vp path w.files away ∙ ho)
        | inr e ↦ rw e (
            if_cases (Kept v path f)
              (not a.copy_works || not (text_eq (v.sha a.copy_bytes) (v.sha f.bytes))) _ _
              (λ _. give_up-other a vp path (write_file vp first w.files) away ∙ ho')
              (λ c.
                record_item-Kept (new_item v a id path f ref)
                  (record w { files = write_file vp lock (write_file vp first w.files) })
                  (locked a (copy_of v a)) refl refl refl (refl, refl)
                  (rw (write_file_lem vp vp lock (write_file vp first w.files))
                    (rw (text_eq_refl vp)))
                  (same_sha c)
                  (rw (write_file_lem vp path lock (write_file vp first w.files)) (rw away ho'))
                  apart))
      ]

  with_ref-Kept :
      (id : Text) (w : World) (o : Option Text)
      → w.files path ≡ some f
      → ((ref : Text) → v.place ref ≢ path)
      → Kept v path f (with_ref v a id path f w o)
  unfolding with_ref
  with_ref-Kept id w none ho apart = ho
  with_ref-Kept id w (some ref) ho apart =
      if_cases (Kept v path f) a.dir_works _ _ (λ _. copy_in-Kept id ref w ho (apart ref)) (λ _. ho)

  after_checks-Kept :
      (id : Text) (w : World) (r : Result File)
      → ((g : File) → r ≡ ok g → g ≡ f)
      → w.files path ≡ some f
      → ((ref : Text) → v.place ref ≢ path)
      → Kept v path f (after_checks v a id path w r)
  unfolding after_checks
  after_checks-Kept id w (err e) same ho apart = ho
  after_checks-Kept id w (ok g) same ho apart =
      subst (λ x. Kept v path f (with_ref v a id path x w a.new_ref)) (sym (same g refl))
        (with_ref-Kept id w a.new_ref ho apart)

  -- Whatever the operating system and the database answer: after an error of `Quarantine` the
  -- original is unchanged at its path; after a success the path is free, and the item that is
  -- returned is recorded as active with the path, the hash, the permissions and the time of the
  -- file, and its copy in the vault has that hash. The place of the new copy must not be the path itself.
  pub quarantine-Kept :
      (id expected : Text) (w : World)
      → w.files path ≡ some f
      → ((ref : Text) → v.place ref ≢ path)
      → Kept v path f (quarantine v a id path expected w)
  unfolding quarantine
  quarantine-Kept id expected w ho apart =
      after_checks-Kept id w (admit v a path expected (w.files path))
        (λ g q. admit-ok v a path expected f (w.files path) g ho q) ho apart
