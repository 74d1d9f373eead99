-- ===== src/Housekeeping/Pruned.antt =====
-- What the pruning of raw output leaves alone.
use sentinel_host.Prelude.{
  ℕ, suc, ◌+◌, ◌≤◌, Bool, true, false, not, ◌&&◌, ◌≡◌, refl, ◌⊎◌, inl, inr, Option, none, some,
  List, [], ◌∷◌, ◌++◌, Text, codes, text_eq, length, In, arith, if_cases,
}
use sentinel_host.Schema.Types.{Time}
use sentinel_host.Housekeeping.Run.{
  RawEntry, RawAnswers, inside_rel, inside, before_cutoff, is_stale, Pruned, prune_entries,
}

abbrev Holds : RawEntry → Pruned → Type 0
Holds e p = In e p.kept

abbrev Counts : ℕ → Pruned → Type 0
Counts k p = p.removed + length p.kept ≡ k

-- The time of the entry is not before the cutoff, or cannot be read.
abbrev pub Recent : Time → Option Time → Type 0
Recent cutoff none = Unit
Recent cutoff (some t) = cutoff ≤ t

-- The path relative to the directory is unknown, leads out of it, or is absolute.
abbrev pub Elsewhere : RawAnswers → Option Text → Type 0
Elsewhere a none = Unit
Elsewhere a (some r) =
    (r ≡ codes "..") ⊎ ((t : Text) × (r ≡ codes "../" ++ t)) ⊎ (a.is_abs r ≡ true)

-- A file, a directory with a recent change, or an entry that is not inside.
abbrev pub Spared : RawAnswers → Time → RawEntry → Type 0
Spared a cutoff e = (e.is_dir ≡ false) ⊎ Recent cutoff e.mod_time ⊎ Elsewhere a (a.rel e.name)

-- Every spared entry stays, and the removals count the entries that are gone.
pub record Safe (a : RawAnswers) (cutoff : Time) (es : List RawEntry) (p : Pruned) : Type 0 where
  pub stays : (e : RawEntry) → In e es → Spared a cutoff e → In e p.kept
  pub counts : p.removed + length p.kept ≡ length es

recent_lem : (cutoff : Time) (o : Option Time) → Recent cutoff o → before_cutoff cutoff o ≡ false
recent_lem cutoff none r = refl
recent_lem cutoff (some t) r = ground (arith, r)

elsewhere_lem : (a : RawAnswers) (o : Option Text) → Elsewhere a o → inside_rel a o ≡ false
elsewhere_lem a none h = refl
elsewhere_lem a (some r) (inl e) = rw e refl
elsewhere_lem a (some r) (inr (inl (t, e))) = rw e (never (a.is_abs (codes "../" ++ t)))
  where
    never : (b : Bool) → (not b && false) ≡ false
    never true = refl
    never false = refl
elsewhere_lem a (some r) (inr (inr e)) = rw e (never (text_eq r (codes "..")))
  where
    never : (b : Bool) → (not b && false) ≡ false
    never true = refl
    never false = refl

Spared-is_stale :
    (a : RawAnswers) (cutoff : Time) (e : RawEntry)
    → Spared a cutoff e
    → is_stale a cutoff e ≡ false
unfolding is_stale inside
Spared-is_stale a cutoff e (inl f) = ground (arith, f)
Spared-is_stale a cutoff e (inr (inl r)) = ground (arith, recent_lem cutoff e.mod_time r)
Spared-is_stale a cutoff e (inr (inr o)) = ground (arith, elsewhere_lem a (a.rel e.name) o)

head_or :
    (e x : RawEntry) (xs ys : List RawEntry) → In e (x ∷ xs) → (In e xs → In e ys) → In e (x ∷ ys)
head_or e x xs ys (inl same) f = inl same
head_or e x xs ys (inr m) f = inr (f m)

not_due : (b : Bool) → not b ≡ false → b ≡ false → ⊥
not_due true h k = absurd (cc k)
not_due false h k = absurd (cc h)

module _ (a : RawAnswers) (cutoff : Time) (cancelled : ℕ → Bool) where
  prune_entries-keeps :
      (e : RawEntry) (n : ℕ) (es : List RawEntry)
      → is_stale a cutoff e ≡ false
      → In e es
      → In e (prune_entries a cutoff cancelled n es).kept
  unfolding prune_entries
  prune_entries-keeps e n [] h m = absurd m
  prune_entries-keeps e n (x ∷ xs) h m =
      let ih = prune_entries-keeps e (suc n) xs h in
      if_cases (Holds e) (cancelled n) _ _ (λ _. m)
        (λ _.
          if_cases (Holds e) (not (is_stale a cutoff x)) _ _
            (λ _. head_or e x xs (prune_entries a cutoff cancelled (suc n) xs).kept m ih)
            (λ due.
              if_cases (Holds e) (a.removable x.name) _ _
                (λ _. elim m [
                  | inl same ↦ absurd (not_due (is_stale a cutoff x) due (rw same at h))
                  | inr later ↦ ih later
                ])
                (λ _. head_or e x xs (prune_entries a cutoff cancelled (suc n) xs).kept m ih)))

  prune_entries-counts :
      (n : ℕ) (es : List RawEntry)
      → (prune_entries a cutoff cancelled n es).removed
          + length (prune_entries a cutoff cancelled n es).kept
        ≡ length es
  unfolding prune_entries
  prune_entries-counts n [] = omega arith
  prune_entries-counts n (x ∷ xs) =
      let ih = prune_entries-counts (suc n) xs in
      if_cases (Counts (suc (length xs))) (cancelled n) _ _ (λ _. omega arith)
        (λ _.
          if_cases (Counts (suc (length xs))) (not (is_stale a cutoff x)) _ _
            (λ _. omega (arith, ih))
            (λ _.
              if_cases (Counts (suc (length xs))) (a.removable x.name) _ _ (λ _. omega (arith, ih))
                (λ _. omega (arith, ih))))

  -- Of the entries of the directory of raw output every file stays, every entry whose time is not before the
  -- cutoff or cannot be read, and every one whose path relative to the directory is unknown, absolute, `..` or
  -- begins with `../`; and the number of removals that is reported is the number of entries that are gone.
  pub prune_entries-Safe :
      (n : ℕ) (es : List RawEntry) → Safe a cutoff es (prune_entries a cutoff cancelled n es)
  prune_entries-Safe n es = record {
    stays = λ e m h. prune_entries-keeps e n es (Spared-is_stale a cutoff e h) m;
    counts = prune_entries-counts n es;
  }
