-- ===== src/Schema/Snippets.antt =====
-- What `SanitizeSnippet` lets through.
use sentinel_host.Prelude.{
  ℕ, zero, suc, ◌+◌, ◌-◌, ◌≤◌, Bool, true, false, not, ◌&&◌, List, [], ◌∷◌, ◌++◌, ◌≡◌, refl, inl,
  inr, Text, ltb, leb, ◌==◌, length, take, All, arith, if◌then◌else◌, Bool-cases, and_parts, ◌||◌,
  if_cases, length-append, length-take-le,
}
use mathlib.Core.List.{reverse, reverse_aux}
use sentinel_host.Schema.Snippet.{
  Piece, rune, bad, piece, more_bytes, pieces, shrink, cut_snippet, clean_piece, is_control, rune_2,
  rune_3, rune_4, follows, between, is_control, rune_2, rune_3, rune_4, follows, between,
  clean_pieces, trim_left_pieces, trim_pieces, piece_bytes, bytes_of, sanitize_snippet,
  max_matched_content_bytes, valid_text, is_space_piece,
}

-- A byte that moves no cursor and rings no bell: neither a control code nor DEL.
abbrev pub Printable : ℕ → Type 0
Printable b = (leb 32 b && not (b == 127)) ≡ true

abbrev pub Shown : Piece → Type 0
Shown p = All Printable (piece_bytes p)

abbrev dot : Piece
dot = rune 46 (46 ∷ [])

-- A piece of which only a control code has bytes that must not be shown.
abbrev Fine : Piece → Type 0
Fine bad = Unit
Fine (rune r bs) = is_control r ≡ false → All Printable bs

clean_piece-Shown : (p : Piece) → Fine p → Shown (clean_piece p)
unfolding clean_piece
clean_piece-Shown bad h = (refl, tt)
clean_piece-Shown (rune r bs) h =
    if_cases Shown (r == 0xfffd) dot _ (λ t. (refl, tt))
      (λ f.
        if_cases Shown (r == 10 || (r == 13 || r == 9)) (rune 32 (32 ∷ [])) _ (λ t. (refl, tt))
          (λ g. if_cases Shown (is_control r) dot (rune r bs) (λ t. (refl, tt)) h))

above : (b : ℕ) → leb 128 b ≡ true → Printable b
above b h = ground arith

-- A piece read from a byte and the text after it.
abbrev Fits : Text → Piece → Type 0
Fits s p = Fine p × (length (piece_bytes p) ≤ suc (length s))

rune_2-Fits : (a : ℕ) (s : Text) → leb 128 a ≡ true → Fits s (rune_2 a s)
rune_2-Fits a [] h = (tt, omega arith)
rune_2-Fits a (b ∷ s) h =
    if_cases (Fits (b ∷ s)) (follows b) _ bad
      (λ t.
        ((λ _. (above a h, (above b (and_parts (leb 128 b) (leb b 191) t).0, tt))), omega arith))
      (λ f. (tt, omega arith))

at_least_128 : (lo hi b : ℕ) → leb 128 lo ≡ true → between lo hi b ≡ true → Printable b
at_least_128 lo hi b h k = ground arith

rune_3-Fits :
    (lo hi a : ℕ) (s : Text) → leb 128 lo ≡ true → leb 128 a ≡ true → Fits s (rune_3 lo hi a s)
rune_3-Fits lo hi a [] l h = (tt, omega arith)
rune_3-Fits lo hi a (b ∷ []) l h = (tt, omega arith)
rune_3-Fits lo hi a (b ∷ c ∷ s) l h =
    if_cases (Fits (b ∷ c ∷ s)) (between lo hi b && follows c) _ bad
      (λ t. (
        (λ _. (
          above a h,
          (
            at_least_128 lo hi b l (and_parts (between lo hi b) (follows c) t).0,
            (
              above c
                  (and_parts (leb 128 c) (leb c 191)
                    (and_parts (between lo hi b) (follows c) t).1).0,
              tt,
            ),
          ),
        )),
        omega arith,
      ))
      (λ f. (tt, omega arith))

rune_4-Fits :
    (lo hi a : ℕ) (s : Text) → leb 128 lo ≡ true → leb 128 a ≡ true → Fits s (rune_4 lo hi a s)
rune_4-Fits lo hi a [] l h = (tt, omega arith)
rune_4-Fits lo hi a (b ∷ []) l h = (tt, omega arith)
rune_4-Fits lo hi a (b ∷ c ∷ []) l h = (tt, omega arith)
rune_4-Fits lo hi a (b ∷ c ∷ d ∷ s) l h =
    if_cases (Fits (b ∷ c ∷ d ∷ s)) (between lo hi b && (follows c && follows d)) _ bad
      (λ t.
        let (u, v) = and_parts (between lo hi b) (follows c && follows d) t in
        let (w, x) = and_parts (follows c) (follows d) v in
        (
          (λ _. (
            above a h,
            (
              at_least_128 lo hi b l u,
              (
                above c (and_parts (leb 128 c) (leb c 191) w).0,
                (above d (and_parts (leb 128 d) (leb d 191) x).0, tt),
              ),
            ),
          )),
          omega arith,
        ))
      (λ f. (tt, omega arith))

plain : (a : ℕ) → is_control a ≡ false → Printable a
plain a e = ground arith

piece-Fits : (a : ℕ) (s : Text) → Fits s (piece a s)
unfolding piece
piece-Fits a s =
    if_cases (Fits s) (ltb a 128) (rune a (a ∷ [])) _ (λ t. ((λ e. (plain a e, tt)), omega arith))
      (λ f.
        if_cases (Fits s) (between 0xc2 0xdf a) (rune_2 a s) _ (λ _. rune_2-Fits a s (wide f))
          (λ _.
            if_cases (Fits s) (between 0xe0 0xef a)
              (rune_3 (if a == 0xe0 then 0xa0 else 0x80) (if a == 0xed then 0x9f else 0xbf) a s) _
              (λ _.
                rune_3-Fits _ _ a s
                  (if_cases (λ lo. leb 128 lo ≡ true) (a == 0xe0) 0xa0 0x80 (λ _. refl) (λ _. refl))
                  (wide f))
              (λ _.
                if_cases (Fits s) (between 0xf0 0xf4 a)
                  (rune_4 (if a == 0xf0 then 0x90 else 0x80) (if a == 0xf4 then 0x8f else 0xbf) a s)
                  bad
                  (λ _.
                    rune_4-Fits _ _ a s
                      (if_cases (λ lo. leb 128 lo ≡ true) (a == 0xf0) 0x90 0x80 (λ _. refl)
                        (λ _. refl))
                      (wide f))
                  (λ _. (tt, omega arith)))))
  where
    wide : ltb a 128 ≡ false → leb 128 a ≡ true
    wide f = ground arith

-- Every byte that the pieces hold after they are cleaned may be shown.
clean_pieces-Shown : (k : ℕ) (s : Text) → All Shown (clean_pieces (pieces k s))
unfolding pieces clean_pieces
clean_pieces-Shown k [] = tt
clean_pieces-Shown (suc k) (c ∷ s) = clean_pieces-Shown k s
clean_pieces-Shown zero (c ∷ s) = (
  clean_piece-Shown (piece c s) (piece-Fits c s).0,
  clean_pieces-Shown (more_bytes (piece c s)) s,
)

-- The bytes that pieces hold.
abbrev size : List Piece → ℕ
size [] = 0
size (p ∷ ps) = length (piece_bytes p) + size ps

clean_piece-size : (p : Piece) → length (piece_bytes (clean_piece p)) ≤ suc (more_bytes p)
unfolding clean_piece
clean_piece-size bad = omega arith
clean_piece-size (rune r bs) = ground arith

more_bytes-le : (c : ℕ) (s : Text) (p : Piece) → Fits s p → more_bytes p ≤ length s
more_bytes-le c s bad h = omega arith
more_bytes-le c s (rune r bs) (h, k) = omega (arith, k)

clean_pieces-size : (k : ℕ) (s : Text) → size (clean_pieces (pieces k s)) ≤ length s - k
unfolding pieces clean_pieces
clean_pieces-size k [] = omega arith
clean_pieces-size (suc k) (c ∷ s) = omega (arith, clean_pieces-size k s)
clean_pieces-size zero (c ∷ s) = omega (
  arith,
  clean_pieces-size (more_bytes (piece c s)) s,
  clean_piece-size (piece c s),
  more_bytes-le c s (piece c s) (piece-Fits c s),
)

trim_left_pieces-All :
    (P : Piece → Type 0) (ps : List Piece) → All P ps → All P (trim_left_pieces ps)
unfolding trim_left_pieces
trim_left_pieces-All P [] h = tt
trim_left_pieces-All P (p ∷ ps) (h, hs) =
    if_cases (All P) (is_space_piece p) _ (p ∷ ps) (λ _. trim_left_pieces-All P ps hs)
      (λ _. (h, hs))

trim_left_pieces-size : (ps : List Piece) → size (trim_left_pieces ps) ≤ size ps
unfolding trim_left_pieces
trim_left_pieces-size [] = omega arith
trim_left_pieces-size (p ∷ ps) =
    if_cases (λ r. size r ≤ size (p ∷ ps)) (is_space_piece p) _ (p ∷ ps)
      (λ _. omega (arith, trim_left_pieces-size ps)) (λ _. omega arith)

reverse_aux-All :
    (P : Piece → Type 0) (xs ys : List Piece) → All P xs → All P ys → All P (reverse_aux xs ys)
reverse_aux-All P [] ys h k = k
reverse_aux-All P (x ∷ xs) ys (h, hs) k = reverse_aux-All P xs (x ∷ ys) hs (h, k)

reverse_aux-size : (xs ys : List Piece) → size (reverse_aux xs ys) ≡ size xs + size ys
reverse_aux-size [] ys = omega arith
reverse_aux-size (x ∷ xs) ys = omega (arith, reverse_aux-size xs (x ∷ ys))

trim_pieces-All : (P : Piece → Type 0) (ps : List Piece) → All P ps → All P (trim_pieces ps)
unfolding trim_pieces
trim_pieces-All P ps h =
    reverse_aux-All P (trim_left_pieces (reverse (trim_left_pieces ps))) []
      (trim_left_pieces-All P (reverse (trim_left_pieces ps))
        (reverse_aux-All P (trim_left_pieces ps) [] (trim_left_pieces-All P ps h) tt))
      tt

trim_pieces-size : (ps : List Piece) → size (trim_pieces ps) ≤ size ps
unfolding trim_pieces
trim_pieces-size ps = omega (
  arith,
  reverse_aux-size (trim_left_pieces (reverse (trim_left_pieces ps))) [],
  trim_left_pieces-size (reverse (trim_left_pieces ps)),
  reverse_aux-size (trim_left_pieces ps) [],
  trim_left_pieces-size ps,
)

Printable-append : (bs cs : Text) → All Printable bs → All Printable cs → All Printable (bs ++ cs)
Printable-append [] cs h k = k
Printable-append (b ∷ bs) cs (h, hs) k = (h, Printable-append bs cs hs k)

bytes_of-Printable : (ps : List Piece) → All Shown ps → All Printable (bytes_of ps)
unfolding bytes_of
bytes_of-Printable [] h = tt
bytes_of-Printable (p ∷ ps) (h, hs) =
    Printable-append (piece_bytes p) (bytes_of ps) h (bytes_of-Printable ps hs)

length-bytes_of : (ps : List Piece) → length (bytes_of ps) ≡ size ps
unfolding bytes_of
length-bytes_of [] = refl
length-bytes_of (p ∷ ps) =
    omega (arith, length-append (piece_bytes p) (bytes_of ps), length-bytes_of ps)

shrink-le : (n : ℕ) (s : Text) → length (shrink n s) ≤ n
unfolding shrink
shrink-le zero s = omega arith
shrink-le (suc n) s = elim (Bool-cases (valid_text (take (suc n) s))) [
  | inl e ↦ rw (e, length, shrink) (length-take-le (suc n) s)
  | inr e ↦ rw (e, length, shrink) (omega (arith, shrink-le n s))
]

cut_snippet-le : (s : Text) → length (cut_snippet s) ≤ max_matched_content_bytes
unfolding cut_snippet
cut_snippet-le s = elim (Bool-cases (ltb max_matched_content_bytes (length s))) [
  | inl e ↦ rw (e, cut_snippet) (shrink-le max_matched_content_bytes s)
  | inr e ↦ rw (e, cut_snippet) (ground arith)
]

-- What is shown of a file's content is at most 512 bytes long, none of them a control code or DEL,
-- whatever the content is.
pub sanitize_snippet-Printable :
    (raw : Text)
    → All Printable (sanitize_snippet raw)
      × (length (sanitize_snippet raw) ≤ max_matched_content_bytes)
unfolding sanitize_snippet
sanitize_snippet-Printable raw =
    let ps = clean_pieces (pieces 0 (cut_snippet raw)) in
    (
      bytes_of-Printable (trim_pieces ps)
          (trim_pieces-All Shown ps (clean_pieces-Shown 0 (cut_snippet raw))),
      omega (
        arith,
        length-bytes_of (trim_pieces ps),
        trim_pieces-size ps,
        clean_pieces-size 0 (cut_snippet raw),
        cut_snippet-le raw,
      ),
    )

-- A byte that no code point starts with, found in the middle of one otherwise.
abbrev pub stray : ℕ → Bool
stray a = between 0x80 0xc1 a

piece-bad : (a : ℕ) (s : Text) → stray a ≡ true → piece a s ≡ bad
unfolding piece
piece-bad a s h = ground arith

shrink-stray : (n a : ℕ) (s : Text) → stray a ≡ true → shrink n (a ∷ s) ≡ []
unfolding shrink valid_text pieces
shrink-stray zero a s h = refl
shrink-stray (suc n) a s h = rw (piece-bad a (take n s) h, shrink) (shrink-stray n a s h)

-- A snippet of more than 512 bytes that starts with a stray byte is lost as a whole: no marker stands
-- for the byte, and nothing is left of the 512 bytes after it.
pub sanitize_snippet-lost :
    (a : ℕ) (s : Text)
    → stray a ≡ true
    → max_matched_content_bytes ≤ length s
    → sanitize_snippet (a ∷ s) ≡ []
unfolding sanitize_snippet cut_snippet clean_pieces trim_pieces trim_left_pieces bytes_of pieces
sanitize_snippet-lost a s h k =
    rw (le→ltb' (length s) k, cut_snippet) (rw (shrink-stray max_matched_content_bytes a s h) refl)
  where
    le→ltb' : (n : ℕ) → max_matched_content_bytes ≤ n → ltb max_matched_content_bytes (suc n) ≡ true
    le→ltb' n m = ground arith
