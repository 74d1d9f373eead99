-- ===== src/Baseline/Settled.antt =====
-- After an update nothing counts as changed.
use sentinel_host.Prelude.{
  false, not, Option, none, some, List, [], ◌∷◌, Text, text_eq, text_eq_iff, text_eq_refl, text_ne,
  is_empty, ◌≡◌, refl, sym, ap, ◌∙◌, inl, inr, arith, In, Distinct, All, In-select, any_of,
  any_of_intro, if◌then◌else◌,
}
use sentinel_host.Verdict.Collect.{get, put, keys}
use sentinel_host.Baseline.Compare.{
  Entry, Known, Diff, is_modified, classify, has_path, removed_paths, compare_loop, compare,
  paths_of, scan_targets, update_entry, update_entries, delete_path, delete_paths, update,
}

pub get-put :
    (k j : Text) (e : Entry) (m : Known)
    → get k (put j e m) ≡ (if text_eq j k then some e else get k m)
get-put k j e [] = refl
get-put k j e ((i, x) ∷ m) =
    ground (arith, text_eq_iff i j, text_eq_iff i k, text_eq_iff j k, get-put k j e m)

get-delete_path : (k p : Text) (m : Known) → text_eq p k ≡ false → get k (delete_path p m) ≡ get k m
unfolding delete_path
get-delete_path k p [] h = refl
get-delete_path k p ((i, x) ∷ m) h =
    ground (arith, text_eq_iff i p, text_eq_iff p k, text_eq_iff i k, get-delete_path k p m)

get-delete_paths :
    (k : Text) (m : Known) (ps : List Text) → ¬ In k ps → get k (delete_paths m ps) ≡ get k m
unfolding delete_paths
get-delete_paths k m [] h = refl
get-delete_paths k m (p ∷ ps) h =
    get-delete_paths k (delete_path p m) ps (λ i. h (inr i))
    ∙ get-delete_path k p m (text_ne p k (λ q. h (inl (sym q))))

-- The entry carries a hash.
abbrev pub Hashed : Entry → Type 0
Hashed e = is_empty e.sha256 ≡ false

update_entry-Hashed : (m : Known) (e : Entry) → Hashed e → update_entry m e ≡ put e.path e m
unfolding update_entry
update_entry-Hashed m e h = rw h refl

get-update_other :
    (k : Text) (m : Known) (es : List Entry)
    → All Hashed es
    → ¬ In k (paths_of es)
    → get k (update_entries m es) ≡ get k m
unfolding update_entries
get-update_other k m [] h apart = refl
get-update_other k m (e ∷ es) h apart =
    get-update_other k (update_entry m e) es h.1 (λ i. apart (inr i))
    ∙ (ap (λ f. get k f) (update_entry-Hashed m e h.0)
        ∙ (get-put k e.path e m ∙ rw (text_ne e.path k (λ q. apart (inl (sym q)))) refl))

-- Every entry is what is known of its path.
abbrev Recorded : Known → List Entry → Type 0
Recorded m es = (e : Entry) → In e es → get e.path m ≡ some e

update_entries-Recorded :
    (m : Known) (es : List Entry)
    → All Hashed es
    → Distinct (paths_of es)
    → Recorded (update_entries m es) es
unfolding update_entries
update_entries-Recorded m [] h d e i = absurd i
update_entries-Recorded m (x ∷ es) h d e (inl q) = rw q (
    get-update_other x.path (update_entry m x) es h.1 d.0
    ∙ (ap (λ f. get x.path f) (update_entry-Hashed m x h.0)
        ∙ (get-put x.path x.path x m ∙ rw (text_eq_refl x.path) refl)))
update_entries-Recorded m (x ∷ es) h d e (inr i) =
    update_entries-Recorded (update_entry m x) es h.1 d.1 e i

removed-apart :
    (files : Known) (current : List Entry) (e : Entry)
    → In e current
    → ¬ In e.path (removed_paths files current)
unfolding removed_paths
removed-apart files current e i m =
    let (k, q) = In-select (λ p. not (any_of (has_path p) current)) e.path (keys files) m in
    cc (any_of_intro (has_path e.path) e current i (text_eq_refl e.path), q)

same_file : (e : Entry) → Hashed e → is_modified e e ≡ false
unfolding is_modified
same_file e h = ground (arith, text_eq_refl e.sha256)

classify-same :
    (o : Option Entry) (e : Entry) (d : Diff)
    → o ≡ some e
    → Hashed e
    → scan_targets (classify o e d) ≡ scan_targets d
unfolding classify scan_targets
classify-same o e d q h = rw q (rw (same_file e h) refl)

compare_loop-settled :
    (m : Known) (gone : List Text) (es : List Entry)
    → All Hashed es
    → Recorded m es
    → scan_targets (compare_loop m gone es) ≡ []
unfolding compare_loop scan_targets
compare_loop-settled m gone [] h r = refl
compare_loop-settled m gone (e ∷ es) h r =
    classify-same (get e.path m) e (compare_loop m gone es) (r e (inl refl)) h.0
    ∙ compare_loop-settled m gone es h.1 (λ x i. r x (inr i))

classify-removed : (o : Option Entry) (e : Entry) (d : Diff) → (classify o e d).removed ≡ d.removed
unfolding classify
classify-removed none e d = refl
classify-removed (some previous) e d = ground arith

compare_loop-removed :
    (m : Known) (gone : List Text) (es : List Entry) → (compare_loop m gone es).removed ≡ gone
unfolding compare_loop
compare_loop-removed m gone [] = refl
compare_loop-removed m gone (e ∷ es) =
    classify-removed (get e.path m) e (compare_loop m gone es) ∙ compare_loop-removed m gone es

-- A cycle that finds what the last one recorded has no targets: after the comparison and the update of
-- some files, each with a hash and a path of its own, comparing the same files again gives none.
pub compare-update :
    (files : Known) (current : List Entry)
    → All Hashed current
    → Distinct (paths_of current)
    → scan_targets (compare (update files current (compare files current).removed) current) ≡ []
unfolding compare update
compare-update files current h d =
    let gone = (compare_loop files (removed_paths files current) current).removed in
    compare_loop-settled (delete_paths (update_entries files current) gone) _ current h (λ e i.
      get-delete_paths e.path (update_entries files current) gone (λ m.
        removed-apart files current e i
          (rw (compare_loop-removed files (removed_paths files current) current) at m))
      ∙ update_entries-Recorded files current h d e i)
