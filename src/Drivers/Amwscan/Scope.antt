-- ===== src/Drivers/Amwscan/Scope.antt =====
-- Which files the findings of an AMWScan report are about.
use sentinel_host.Prelude.{
  true, ◌≡◌, ◌≢◌, refl, ap, Bool-cases, is_empty, ◌⊎◌, inl, inr, Option, none, some, List, [], ◌∷◌,
  Text, text_eq, text_eq_iff, All, In, any_of_sound, if_cases, arith,
}
use mathlib.Core.Path.{subst}
use sentinel_host.Schema.Types.{Finding, Time}
use sentinel_host.Sched.Cron.{trim_space}
use sentinel_host.Adapter.Paths.{RawOutput, path_is_expressible}
use sentinel_host.Drivers.Hits.{FileStat, hashed, rule_finding}
use sentinel_host.Drivers.Lines.{scan_lines}
use sentinel_host.Drivers.Amwscan.Lines.{Line, junk, file_header, tag, finding}
use sentinel_host.Drivers.Amwscan.Parse.{Pending, is_allowed, rule_finding_in, parse}
use sentinel_host.Drivers.Amwscan.Matched.{
  lines_of, opened, entries, stat_of, cons_finding, found_in, report_entries, parse-entries,
}

-- A path that was asked for: any, where no list of paths was left.
abbrev pub Asked : List Text → Text → Type 0
Asked targets p = (targets ≡ []) ⊎ In p targets

is_allowed-Asked : (targets : List Text) (p : Text) → is_allowed targets p ≡ true → Asked targets p
unfolding is_allowed
is_allowed-Asked [] p h = inl refl
is_allowed-Asked (t ∷ ts) p h =
    let (q, m, e) = any_of_sound (λ q. text_eq q p) (t ∷ ts) h in
    inr (subst (λ (x : Text). In x (t ∷ ts)) ((text_eq_iff q p).0 e) m)

-- What the findings of a report may be about: a file that was asked for, at a path that fits one line, with
-- the hash that was read for it.
pub record InScope (stat : Text → Option FileStat) (targets : List Text) (f : Finding)
    : Type 0 where
  pub asked : Asked targets f.file.path
  pub expressible : path_is_expressible f.file.path ≡ true
  pub read : FileStat
  pub is_read : stat f.file.path ≡ some read
  pub hash : f.file.sha256 ≡ read.sha256
  pub is_hashed : read.sha256 ≢ []

hashed-read :
    (o : Option FileStat) (st : FileStat) → hashed o ≡ some st → (o ≡ some st) × (st.sha256 ≢ [])
unfolding hashed
hashed-read none st e = absurd (cc e)
hashed-read (some u) st e = elim (Bool-cases (is_empty u.sha256)) [
  | inl t ↦ absurd (let bad : none ≡ some st = rw t at e in cc bad)
  | inr f ↦ (
    (let same : some u ≡ some st = rw f at e in same),
    λ q. (let same : some u ≡ some st = rw f at e in cc (f, same, q, ap is_empty q)),
  )
]

path_is_expressible_nil : path_is_expressible [] ≡ true
unfolding path_is_expressible
path_is_expressible_nil = refl

opened-expressible : (p : Text) → path_is_expressible (opened p) ≡ true
unfolding opened
opened-expressible p =
    if_cases (λ (q : Text). path_is_expressible q ≡ true) (path_is_expressible p) p [] (λ e. e)
      (λ _. path_is_expressible_nil)

abbrev Clean : Text × Pending → Type 0
Clean e = path_is_expressible e.0 ≡ true

entries-Clean :
    (f : Text) (ls : List Line) → path_is_expressible f ≡ true → All Clean (entries f ls)
entries-Clean f [] h = tt
entries-Clean f (junk ∷ ls) h = entries-Clean f ls h
entries-Clean f (tag t ∷ ls) h = entries-Clean f ls h
entries-Clean f (file_header p ∷ ls) h = entries-Clean (opened p) ls (opened-expressible p)
entries-Clean f (finding r e n ∷ ls) h = (h, entries-Clean f ls h)

module _ (stat : Text → Option FileStat) (targets : List Text) (raw : RawOutput) (now : Time) where
  stat_of-parts :
      (f : Text) (st : FileStat)
      → stat_of stat targets raw now f ≡ some st
      → (is_allowed targets f ≡ true) × (hashed (stat f) ≡ some st)
  unfolding stat_of
  stat_of-parts f st e = ground arith

  cons_finding-InScope :
      (f : Text) (p : Pending) (o : Option FileStat) (fs : List Finding)
      → path_is_expressible f ≡ true
      → stat_of stat targets raw now f ≡ o
      → All (InScope stat targets) fs
      → All (InScope stat targets) (cons_finding stat targets raw now f p o fs)
  unfolding rule_finding_in rule_finding
  cons_finding-InScope f p none fs c e k = k
  cons_finding-InScope f p (some st) fs c e k =
      let (a, s) = stat_of-parts f st e in
      let (read, real) = hashed-read (stat f) st s in
      (
        record {
          asked = is_allowed-Asked targets f a;
          expressible = c;
          read = st;
          is_read = read;
          hash = refl;
          is_hashed = real;
        },
        k,
      )

  found_in-InScope :
      (es : List (Text × Pending))
      → All Clean es
      → All (InScope stat targets) (found_in stat targets raw now es)
  found_in-InScope [] c = tt
  found_in-InScope ((f, p) ∷ es) (c, cs) =
      cons_finding-InScope f p (stat_of stat targets raw now f) (found_in stat targets raw now es) c
        refl (found_in-InScope es cs)

  -- Whatever an accepted AMWScan report says, its findings are about files that were asked for (any file, where
  -- no list of paths was given), at paths without a line break or a NUL, and each carries the hash that was
  -- read for its file, which is not empty.
  pub parse-InScope :
      (parse stat targets raw now).problem ≡ none
      → All (InScope stat targets) (parse stat targets raw now).report.findings
  parse-InScope h = rw (parse-entries stat targets raw now h) (
      found_in-InScope (report_entries stat targets raw now)
        (entries-Clean [] (lines_of (scan_lines (trim_space raw.stdout))) path_is_expressible_nil))
