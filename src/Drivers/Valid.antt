-- ===== src/Drivers/Valid.antt =====
-- When the finding that a driver writes passes the checks of the schema.
use sentinel_host.Prelude.{
  Bool, and_parts, text_eq, ◌&&◌, ℕ, true, false, ◌≡◌, refl, Option, none, some, [], ◌∷◌, Text,
  length, arith, is_empty, ltb, if_cases, ◌≤◌,
}
use sentinel_host.Schema.Enums.{kind_valid, category_valid, severity_valid, confidence_valid}
use sentinel_host.Schema.Types.{Time, is_zero_time, effective_kind, kind_or_malware}
use sentinel_host.Schema.Validate.{validate_finding, is_sha256, target_problems, compatible_version}
use sentinel_host.Schema.Checked.{Attributed}
use sentinel_host.Adapter.Paths.{RawOutput}
use sentinel_host.Drivers.Tables.{RuleTable, look_up, mapping_or}
use sentinel_host.Drivers.Hits.{FileStat, hashed, Mapping, rule_finding, detected}

-- What a driver's `stat` gives: the hash of every file it reads, in the form the schema asks for, and
-- no file at the empty path.
pub record Hashes (stat : Text → Option FileStat) : Type 0 where
  pub no_path : stat [] ≡ none
  pub hex : (p : Text) (st : FileStat) → stat p ≡ some st → is_sha256 st.sha256 ≡ true

-- The categories, severities and confidences of the schema.
abbrev pub Known : Mapping → Type 0
Known m =
    (category_valid m.category ≡ true)
    × (severity_valid m.severity ≡ true)
    × (confidence_valid m.confidence ≡ true)

module _ (stat : Text → Option FileStat) (hs : Hashes stat) where
  stat-is_empty : (p : Text) (st : FileStat) → stat p ≡ some st → is_empty p ≡ false
  stat-is_empty [] st e = absurd (cc (hs.no_path, e))
  stat-is_empty (c ∷ p) st e = refl

  hashed-same : (o : Option FileStat) (st : FileStat) → hashed o ≡ some st → o ≡ some st
  unfolding hashed
  hashed-same none st e = e
  hashed-same (some u) st e = ground arith

  -- A file that is read and hashed has a path and a proper hash.
  pub hashed-At :
      (p : Text) (st : FileStat)
      → hashed (stat p) ≡ some st
      → (is_empty p ≡ false) × (is_sha256 st.sha256 ≡ true)
  hashed-At p st e = let s = hashed-same (stat p) st e in (stat-is_empty p st s, hs.hex p st s)

module _ (slug ref rule path content : Text) (line : ℕ) (raw : RawOutput) (now : Time) where
  pub rule_finding-Attributed :
      (st : FileStat) (m : Mapping)
      → is_empty slug ≡ false
      → is_empty rule ≡ false
      → is_empty path ≡ false
      → length content ≤ 512
      → is_zero_time now ≡ false
      → is_sha256 st.sha256 ≡ true
      → Known m
      → Attributed slug (rule_finding slug ref rule path content line raw now st m)
  unfolding rule_finding validate_finding target_problems compatible_version effective_kind
      kind_or_malware kind_valid
  rule_finding-Attributed st m hs hr hp hc ht hx (kc, ks, kf) =
      (rw (hs, hr, kc, ks, kf, dated, short, hx, hp) refl, refl)
    where
      dated : is_zero_time (detected raw now) ≡ false
      dated =
          if_cases (λ t. is_zero_time t ≡ false) (is_zero_time raw.finished_at) now raw.finished_at
            (λ _. ht) (λ e. e)

      short : ltb 512 (length content) ≡ false
      short = ground arith

abbrev pub all_known : RuleTable → Bool
all_known [] = true
all_known ((n, m) ∷ t) =
    (category_valid m.category && (severity_valid m.severity && confidence_valid m.confidence))
    && all_known t

known_parts :
    (m : Mapping)
    → (category_valid m.category && (severity_valid m.severity && confidence_valid m.confidence))
      ≡ true
    → Known m
known_parts m h =
    let (a, b) =
      and_parts (category_valid m.category)
        (severity_valid m.severity && confidence_valid m.confidence) h in
    let (c, d) = and_parts (severity_valid m.severity) (confidence_valid m.confidence) b in
    (a, c, d)

abbrev KnownOr : Option Mapping → Type 0
KnownOr o = Known (mapping_or o)

-- What a table of known mappings says of a rule is known, also of a rule that it does not have.
pub look_up-Known :
    (t : RuleTable) (name : Text) → all_known t ≡ true → Known (mapping_or (look_up name t))
unfolding look_up mapping_or category_valid severity_valid confidence_valid
look_up-Known [] name h = (refl, refl, refl)
look_up-Known ((n, m) ∷ t) name h =
    let (a, b) = and_parts _ (all_known t) h in
    if_cases KnownOr (text_eq name n) (some m) (look_up name t) (λ _. known_parts m a)
      (λ _. look_up-Known t name b)
