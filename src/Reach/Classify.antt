-- ===== src/Reach/Classify.antt =====
-- The classifier. `filepath.Abs` and `filepath.ToSlash` depend on the process's directory and on the
-- operating system: `absolute` stands for both, and returns the path as it is where Go reports an error.
use sentinel_host.Prelude.{
  ℕ, Bool, true, false, ◌||◌, ◌&&◌, ◌+◌, List, [], ◌∷◌, ◌++◌, Text, codes, text_eq, is_empty,
  has_prefix, split, ◌==◌, leb, if◌then◌else◌, map, any_of,
}
use mathlib.Core.List.{reverse}
use sentinel_host.PathMatch.Glob.{slash}

pub data Location : Type 0 where
  web_reachable trash outside_docroot unknown : Location

unfoldable pub reachable : Location → Bool
reachable web_reachable = true
reachable unknown = true
reachable _ = false

-- The string constants.
unfoldable pub location_text : Location → Text
location_text web_reachable = codes "web_reachable"
location_text trash = codes "trash"
location_text outside_docroot = codes "outside_docroot"
location_text unknown = codes "unknown"

-- `Explain`, with a hyphen for each long dash.
unfoldable pub explain : Location → Text
explain web_reachable = codes "served by the web: a visitor can request this file"
explain trash =
    codes
      "in the account's trash, so nothing serves it - but the trash restores with one click, and restoring the site restores this with it"
explain outside_docroot =
    codes
      "outside every document root, so nothing serves it - it is still on the account, and a copy or a restore brings it back into play"
explain unknown = codes "no document root is configured, so whether the web serves this is unknown"

pub record Classifier : Type 0 where
  pub doc_roots : List Text
  pub trashes : List Text

-- `strings.TrimSuffix(s, "/")`.
abbrev drop_slash : Text → Text
drop_slash [] = []
drop_slash (c ∷ s) = if c == slash then s else c ∷ s

unfoldable pub trim_slash : Text → Text
trim_slash s = reverse (drop_slash (reverse s))

-- `strings.ToLower` on ASCII.
abbrev lower : ℕ → ℕ
lower c = if leb b'A' c && leb c b'Z' then c + 32 else c

-- The markers that the table holds with the value true.
unfoldable pub is_trash_marker : Text → Bool
is_trash_marker s =
    text_eq s (codes ".trash") || (text_eq s (codes "__trash") || text_eq s (codes ".deleted"))

-- Is `p` the directory `dir`, or something inside it?
unfoldable pub under : Text → Text → Bool
under p dir = text_eq p dir || has_prefix p (dir ++ slash ∷ [])

module _ (absolute : Text → Text) where
  unfoldable pub normalize : Text → Text
  unfolding trim_slash
  normalize [] = []
  normalize (c ∷ p) = trim_slash (absolute (c ∷ p))

  unfoldable pub normalize_all : List Text → List Text
  normalize_all [] = []
  normalize_all (p ∷ ps) =
      if is_empty (normalize p) then normalize_all ps else normalize p ∷ normalize_all ps

  unfoldable pub new : List Text → List Text → Classifier
  new doc_roots trash_dirs = record {
    doc_roots = normalize_all doc_roots;
    trashes = normalize_all trash_dirs;
  }

  unfoldable pub in_trash : Classifier → Text → Bool
  unfolding under split is_trash_marker
  in_trash c p =
      any_of (λ t. under p t) c.trashes
      || any_of (λ s. is_trash_marker (map lower s)) (split slash p)

  abbrev pub is_nil : List Text → Bool
  is_nil [] = true
  is_nil (x ∷ xs) = false

  unfoldable pub location_of : Classifier → Text → Location
  location_of c path =
      let p = normalize path in
      if is_empty p
      then unknown
      else if in_trash c p
      then trash
      else if is_nil c.doc_roots
      then unknown
      else if any_of (λ root. under p root) c.doc_roots
      then web_reachable
      else outside_docroot
