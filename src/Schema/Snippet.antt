-- ===== src/Schema/Snippet.antt =====
-- internal/schema/finding.go: `SanitizeSnippet`, on the pieces that `range` reads from a string.
use mathlib.Core.List.{reverse}
use sentinel_host.Prelude.{
  ℕ, zero, suc, ◌+◌, ◌-◌, ◌*◌, Bool, true, false, ◌&&◌, ◌||◌, List, [], ◌∷◌, ◌++◌, Text, ltb, leb,
  ◌==◌, length, take, if◌then◌else◌,
}

-- What `range` reads at once: a code point with its bytes, or one byte that starts no code point.
pub data Piece : Type 0 where
  rune : ℕ → Text → Piece
  bad : Piece

-- A byte after the first of a code point.
abbrev pub follows : ℕ → Bool
follows c = leb 0x80 c && leb c 0xbf

abbrev pub between : ℕ → ℕ → ℕ → Bool
between a b c = leb a c && leb c b

-- Code points of two, three and four bytes; overlong forms, surrogates and values above 0x10ffff
-- are refused by the range of the second byte.
abbrev pub rune_2 : ℕ → Text → Piece
rune_2 a (b ∷ s) = if follows b then rune ((a - 0xc0) * 64 + (b - 0x80)) (a ∷ b ∷ []) else bad
rune_2 a [] = bad

abbrev pub rune_3 : (lo hi : ℕ) → ℕ → Text → Piece
rune_3 lo hi a (b ∷ c ∷ s) =
    if between lo hi b && follows c
    then rune (((a - 0xe0) * 64 + (b - 0x80)) * 64 + (c - 0x80)) (a ∷ b ∷ c ∷ [])
    else bad
rune_3 lo hi a _ = bad

abbrev pub rune_4 : (lo hi : ℕ) → ℕ → Text → Piece
rune_4 lo hi a (b ∷ c ∷ d ∷ s) =
    if between lo hi b && (follows c && follows d)
    then rune ((((a - 0xf0) * 64 + (b - 0x80)) * 64 + (c - 0x80)) * 64 + (d - 0x80))
        (a ∷ b ∷ c ∷ d ∷ [])
    else bad
rune_4 lo hi a _ = bad

-- The piece that starts with the byte `a`, before `s`.
unfoldable pub piece : ℕ → Text → Piece
piece a s =
    if ltb a 0x80
    then rune a (a ∷ [])
    else if between 0xc2 0xdf a
    then rune_2 a s
    else if between 0xe0 0xef a
    then rune_3 (if a == 0xe0 then 0xa0 else 0x80) (if a == 0xed then 0x9f else 0xbf) a s
    else if between 0xf0 0xf4 a
    then rune_4 (if a == 0xf0 then 0x90 else 0x80) (if a == 0xf4 then 0x8f else 0xbf) a s
    else bad

-- The bytes of a piece after its first.
abbrev pub more_bytes : Piece → ℕ
more_bytes (rune r bs) = length bs - 1
more_bytes bad = 0

-- The pieces of a text, of which the first bytes are already read.
unfoldable pub pieces : ℕ → Text → List Piece
unfolding piece
pieces k [] = []
pieces (suc k) (c ∷ s) = pieces k s
pieces zero (c ∷ s) = piece c s ∷ pieces (more_bytes (piece c s)) s

abbrev pub none_bad : List Piece → Bool
none_bad [] = true
none_bad (rune r bs ∷ ps) = none_bad ps
none_bad (bad ∷ ps) = false

-- `utf8.ValidString`.
unfoldable pub valid_text : Text → Bool
unfolding pieces
valid_text s = none_bad (pieces 0 s)

abbrev pub max_matched_content_bytes : ℕ
max_matched_content_bytes = 512

-- The longest valid text among the first `n` bytes and shorter ones.
unfoldable pub shrink : ℕ → Text → Text
unfolding valid_text
shrink zero s = []
shrink (suc n) s = elim (valid_text (take (suc n) s)) [ true ↦ take (suc n) s | false ↦ shrink n s ]

unfoldable pub cut_snippet : Text → Text
unfolding shrink
cut_snippet s = elim (ltb max_matched_content_bytes (length s)) [
  | true ↦ shrink max_matched_content_bytes s
  | false ↦ s
]

-- `unicode.IsControl`.
abbrev pub is_control : ℕ → Bool
is_control r = ltb r 32 || between 0x7f 0x9f r

-- What is written for a piece.
unfoldable pub clean_piece : Piece → Piece
clean_piece bad = rune 46 (46 ∷ [])
clean_piece (rune r bs) =
    if r == 0xfffd
    then rune 46 (46 ∷ [])
    else if r == 10 || (r == 13 || r == 9)
    then rune 32 (32 ∷ [])
    else if is_control r
    then rune 46 (46 ∷ [])
    else rune r bs

unfoldable pub clean_pieces : List Piece → List Piece
unfolding clean_piece
clean_pieces [] = []
clean_pieces (p ∷ ps) = clean_piece p ∷ clean_pieces ps

-- `unicode.IsSpace`.
abbrev pub is_space_rune : ℕ → Bool
is_space_rune r =
    between 9 13 r
    || (r == 0x20
        || (r == 0x85
            || (r == 0xa0
                || (r == 0x1680
                    || (between 0x2000 0x200a r
                        || (r == 0x2028
                            || (r == 0x2029 || (r == 0x202f || (r == 0x205f || r == 0x3000)))))))))

abbrev pub is_space_piece : Piece → Bool
is_space_piece bad = false
is_space_piece (rune r bs) = is_space_rune r

unfoldable pub trim_left_pieces : List Piece → List Piece
trim_left_pieces [] = []
trim_left_pieces (p ∷ ps) = if is_space_piece p then trim_left_pieces ps else p ∷ ps

unfoldable pub trim_pieces : List Piece → List Piece
unfolding trim_left_pieces
trim_pieces ps = reverse (trim_left_pieces (reverse (trim_left_pieces ps)))

abbrev pub piece_bytes : Piece → Text
piece_bytes bad = []
piece_bytes (rune r bs) = bs

unfoldable pub bytes_of : List Piece → Text
bytes_of [] = []
bytes_of (p ∷ ps) = piece_bytes p ++ bytes_of ps

unfoldable pub sanitize_snippet : Text → Text
unfolding cut_snippet pieces clean_pieces trim_pieces bytes_of
sanitize_snippet raw = bytes_of (trim_pieces (clean_pieces (pieces 0 (cut_snippet raw))))
