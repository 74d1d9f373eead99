-- ===== src/Baseline/Changes.antt =====
-- Which files a comparison hands to the engines.
use sentinel_host.Prelude.{
  true, false, ◌==◌, ◌+◌, Option, none, some, List, [], ◌∷◌, Text, text_eq, text_eq_iff, is_empty,
  length, ◌≡◌, ◌≢◌, refl, ◌↔◌, ◌⊎◌, inl, inr, arith, Bool-cases, In, In-append_left,
  In-append_right, In-append,
}
use sentinel_host.Verdict.Collect.{get}
use sentinel_host.Baseline.Compare.{
  Entry, Known, Diff, is_modified, classify, removed_paths, compare_loop, compare, paths_of,
  scan_targets,
}

-- Both hashes are known and differ; or the file was not hashed, and its size or its time differs.
abbrev pub Altered : Entry → Entry → Type 0
Altered previous e =
    ((e.sha256 ≢ []) × (previous.sha256 ≢ []) × (e.sha256 ≢ previous.sha256))
    ⊎ ((e.sha256 ≡ []) × ((e.size ≢ previous.size) ⊎ (e.m_time ≢ previous.m_time)))

-- The file is not in the baseline, or it is altered.
abbrev pub Fresh : Option Entry → Entry → Type 0
Fresh none e = Unit
Fresh (some previous) e = Altered previous e

is_empty-nil : (t : Text) → is_empty t ≡ true → t ≡ []
is_empty-nil [] h = refl
is_empty-nil (c ∷ t) h = absurd (cc h)

is_empty-cons : (t : Text) → is_empty t ≡ false → t ≢ []
is_empty-cons [] h e = cc h
is_empty-cons (c ∷ t) h e = cc e

is_modified-Altered : (previous e : Entry) → is_modified previous e ≡ true → Altered previous e
unfolding is_modified
is_modified-Altered previous e h = elim (Bool-cases (is_empty e.sha256)) [
  | inl t ↦ inr (
    is_empty-nil e.sha256 t,
    elim (Bool-cases (e.size == previous.size)) [
      | inl same ↦ inr (λ q. ground (arith, h, t, same, q))
      | inr other ↦ inl (λ q. ground (arith, other, q))
    ],
  )
  | inr f ↦ inl (
    is_empty-cons e.sha256 f,
    is_empty-cons previous.sha256 (ground (arith, h, f)),
    λ q. (let same = (text_eq_iff e.sha256 previous.sha256).1 q in ground (arith, h, f, same)),
  )
]

text_eq-false : (s t : Text) → s ≢ t → text_eq s t ≡ false
text_eq-false s t n = elim (Bool-cases (text_eq s t)) [
  | inl e ↦ absurd (n ((text_eq_iff s t).0 e))
  | inr e ↦ e
]

pub cons-is_empty : (t : Text) → t ≢ [] → is_empty t ≡ false
cons-is_empty [] n = absurd (n refl)
cons-is_empty (c ∷ t) n = refl

Altered-is_modified : (previous e : Entry) → Altered previous e → is_modified previous e ≡ true
unfolding is_modified
Altered-is_modified previous e (inl (a, b, c)) =
    rw
      (
        cons-is_empty e.sha256 a,
        cons-is_empty previous.sha256 b,
        text_eq-false e.sha256 previous.sha256 c,
      )
      refl
Altered-is_modified previous e (inr (a, inl n)) =
    let d : (e.size == previous.size) ≡ false = ground (arith, n) in rw (a, d) refl
Altered-is_modified previous e (inr (a, inr n)) =
    let d : (e.m_time == previous.m_time) ≡ false = ground (arith, n) in
    rw (a, d)
      (elim (Bool-cases (e.size == previous.size)) [ inl x ↦ rw x refl | inr x ↦ rw x refl ])

-- Some file at this path is new or modified.
abbrev pub Changed : Known → Text → List Entry → Type 0
Changed files p [] = ⊥
Changed files p (e ∷ es) = ((p ≡ e.path) × Fresh (get e.path files) e) ⊎ Changed files p es

-- What the lists of new and of modified files hold.
abbrev Listed : Text → Diff → Type 0
Listed p d = In p (paths_of d.new_files) ⊎ In p (paths_of d.modified)

classify-Listed :
    (o : Option Entry) (p : Text) (e : Entry) (d : Diff)
    → Listed p (classify o e d) ↔ (((p ≡ e.path) × Fresh o e) ⊎ Listed p d)
unfolding classify
classify-Listed none p e d = ground arith
classify-Listed (some previous) p e d =
    ground (arith, is_modified-Altered previous e, Altered-is_modified previous e)

classify-total :
    (o : Option Entry) (e : Entry) (d : Diff)
    → let c = classify o e d in
      length c.new_files + (length c.modified + c.unchanged)
      ≡ length d.new_files + (length d.modified + d.unchanged) + 1
unfolding classify
classify-total none e d = ground arith
classify-total (some previous) e d = ground arith

module _ (files : Known) (gone : List Text) where
  compare_loop-Listed :
      (p : Text) (es : List Entry) → Listed p (compare_loop files gone es) ↔ Changed files p es
  unfolding compare_loop
  compare_loop-Listed p [] = ground arith
  compare_loop-Listed p (e ∷ es) =
      let (to, from) = classify-Listed (get e.path files) p e (compare_loop files gone es) in
      let (out, back) = compare_loop-Listed p es in
      (
        (λ h. elim (to h) [ inl c ↦ inl c | inr l ↦ inr (out l) ]),
        (λ h. from (elim h [ inl c ↦ inl c | inr l ↦ inr (back l) ])),
      )

  compare_loop-total :
      (es : List Entry)
      → let d = compare_loop files gone es in
        length d.new_files + (length d.modified + d.unchanged) ≡ length es
  unfolding compare_loop
  compare_loop-total [] = refl
  compare_loop-total (e ∷ es) = omega (
    arith,
    classify-total (get e.path files) e (compare_loop files gone es),
    compare_loop-total es,
  )

-- The targets of a comparison are exactly the paths of files that are not in the baseline, or whose hash and
-- known hash are both there and differ, or that have no hash while their size or time is not the known
-- one. The new, the modified and the unchanged files are together as many as the files seen.
pub compare-Changed :
    (files : Known) (current : List Entry)
    → ((p : Text) → In p (scan_targets (compare files current)) ↔ Changed files p current)
      × (length (compare files current).new_files
            + (length (compare files current).modified + (compare files current).unchanged)
          ≡ length current)
unfolding compare scan_targets
compare-Changed files current =
    let gone = removed_paths files current in
    let d = compare_loop files gone current in
    (
      (λ p. (
        (λ m.
            (compare_loop-Listed files gone p current).0
              (In-append p (paths_of d.new_files) (paths_of d.modified) m)),
        (λ c. elim ((compare_loop-Listed files gone p current).1 c) [
          | inl m ↦ In-append_left p (paths_of d.new_files) (paths_of d.modified) m
          | inr m ↦ In-append_right p (paths_of d.new_files) (paths_of d.modified) m
        ]),
      )),
      compare_loop-total files gone current,
    )
