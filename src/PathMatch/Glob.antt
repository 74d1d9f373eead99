-- ===== src/PathMatch/Glob.antt =====
-- `filepath.Match` of Go's library on one segment, as `matchSegments` uses it: the answer `ok` with no
-- error. `?` and a class take one byte, as they do on ASCII text. The pattern reaches it without a
-- backslash, since `Match` has replaced each by `/`, so there is no escape.
use sentinel_host.Prelude.{
  ℕ, zero, suc, Bool, true, false, not, ◌||◌, ◌&&◌, Option, none, some, [], ◌∷◌, Text, is_empty,
  ◌==◌, leb, if◌then◌else◌, length,
}

abbrev pub slash : ℕ
slash = b'/'

-- One element of a class: a byte that is neither `-` nor `]`, and what follows it.
class_byte : Text → Option (ℕ × Text)
class_byte [] = none
class_byte (c ∷ p) = if c == b'-' || (c == b']' || is_empty p) then none else some (c, p)

-- The end of a range that begins at `lo`.
class_end : ℕ → Text → Option (ℕ × Text)
unfolding class_byte
class_end lo [] = none
class_end lo (c ∷ p) = if c == b'-' then class_byte p else some (lo, c ∷ p)

-- The ranges of a class up to its `]`: does `c` lie in one of them, and what follows. `seen` says that
-- a range was read, `hit` that one of them held `c`.
class_ranges : ℕ → ℕ → Bool → Bool → Text → Option (Bool × Text)
unfolding class_byte class_end
class_ranges zero c seen hit p = none
class_ranges (suc fuel) c seen hit [] = none
class_ranges (suc fuel) c seen hit (d ∷ p) =
    let more : Option (Bool × Text) = elim (class_byte (d ∷ p)) [
      | none ↦ none
      | some (lo, q) ↦ elim (class_end lo q) [
        | none ↦ none
        | some (hi, r) ↦ class_ranges fuel c true (hit || (leb lo c && leb c hi)) r
      ]
    ] in
    if seen && d == b']' then some (hit, p) else more

-- A class after its `[`, with the negation `^`.
match_class : ℕ → ℕ → Text → Option (Bool × Text)
unfolding class_ranges
match_class fuel c [] = none
match_class fuel c (d ∷ p) =
    if d == b'^'
    then elim (class_ranges fuel c false false p) [
      | none ↦ none
      | some (hit, q) ↦ some (not hit, q)
    ]
    else class_ranges fuel c false false (d ∷ p)

-- Does `g` accept the text after dropping some bytes that are no separators?
after_some : (Text → Bool) → Text → Bool
after_some g [] = g []
after_some g (c ∷ s) = let rest = after_some g s in g (c ∷ s) || (not (c == slash) && rest)

pub glob : ℕ → Text → Text → Bool
unfolding match_class after_some
glob fuel [] s = is_empty s
glob zero (d ∷ p) s = false
glob (suc fuel) (d ∷ p) [] = let rest = glob fuel p [] in if d == b'*' then rest else false
glob (suc fuel) (d ∷ p) (c ∷ s) =
    let star = after_some (λ t. glob fuel p t) (c ∷ s) in
    let one = glob fuel p s in
    let class : Bool = elim (match_class (suc fuel) c p) [
      | none ↦ false
      | some (hit, q) ↦ if hit then glob fuel q s else false
    ] in
    if d == b'*'
    then star
    else if d == b'?'
    then not (c == slash) && one
    else if d == b'['
    then class
    else c == d && one

-- A pattern has at most as many elements as bytes, so its length is fuel enough.
unfoldable pub segment_match : Text → Text → Bool
unfolding glob
segment_match p s = glob (length p) p s
