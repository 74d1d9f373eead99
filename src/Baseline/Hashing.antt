-- ===== src/Baseline/Hashing.antt =====
-- `HashEntries` of walk.go, with the list that it shares with its argument: the result is written into
-- the front of the argument's own array.
use sentinel_host.Prelude.{
  ℕ, zero, suc, ◌+◌, ◌≤◌, Option, none, some, List, [], ◌∷◌, ◌++◌, Text, length, length-append,
  drop, ◌≡◌, refl, ap, ◌∙◌, arith, All,
}
use sentinel_host.Baseline.Compare.{Entry}

abbrev pub stamp : Text → Entry → Entry
stamp sum e = record e { sha256 = sum }

-- What one file adds to the result and to the count of unreadable files.
abbrev pub keep : Option Text → Entry → List Entry × ℕ → List Entry × ℕ
keep none e (out, unreadable) = (out, unreadable + 1)
keep (some sum) e (out, unreadable) = (stamp sum e ∷ out, unreadable)

-- `hash` is `HashFile`, with `none` for an error; the context is cancelled after `alive` files.
unfoldable pub hash_entries : (Text → Option Text) → (alive : ℕ) → List Entry → List Entry × ℕ
hash_entries hash zero es = ([], 0)
hash_entries hash (suc alive) [] = ([], 0)
hash_entries hash (suc alive) (e ∷ es) = keep (hash e.path) e (hash_entries hash alive es)

-- The argument after the call: its front holds the result.
unfoldable pub shared_entries : (Text → Option Text) → (alive : ℕ) → List Entry → List Entry
shared_entries hash alive es =
    let out = (hash_entries hash alive es).0 in out ++ drop (length out) es

module _ (hash : Text → Option Text) (digest : Text → Text) where
  -- The file can be read, and its hash is `digest` of its path.
  abbrev pub Readable : Entry → Type 0
  Readable e = hash e.path ≡ some (digest e.path)

  abbrev pub hashed : List Entry → List Entry
  hashed [] = []
  hashed (e ∷ es) = stamp (digest e.path) e ∷ hashed es

  length-hashed : (es : List Entry) → length (hashed es) ≡ length es
  length-hashed [] = refl
  length-hashed (e ∷ es) = ap suc (length-hashed es)

  hash_entries-hashed :
      (alive : ℕ) (es : List Entry)
      → length es ≤ alive
      → All Readable es
      → (hash_entries hash alive es).0 ≡ hashed es
  unfolding hash_entries
  hash_entries-hashed zero [] h r = refl
  hash_entries-hashed zero (e ∷ es) h r = absurd (omega arith)
  hash_entries-hashed (suc n) [] h r = refl
  hash_entries-hashed (suc n) (e ∷ es) h r =
      rw r.0
        (ap (λ out. stamp (digest e.path) e ∷ out) (hash_entries-hashed n es (omega arith) r.1))

  hash_entries-skips :
      (alive : ℕ) (xs : List Entry) (bad : Entry) (zs : List Entry)
      → length (xs ++ bad ∷ zs) ≤ alive
      → All Readable xs
      → All Readable zs
      → hash bad.path ≡ none
      → (hash_entries hash alive (xs ++ bad ∷ zs)).0 ≡ hashed xs ++ hashed zs
  unfolding hash_entries
  hash_entries-skips zero [] bad zs h r s b = absurd (omega arith)
  hash_entries-skips zero (x ∷ xs) bad zs h r s b = absurd (omega arith)
  hash_entries-skips (suc n) [] bad zs h r s b = rw b (hash_entries-hashed n zs (omega arith) s)
  hash_entries-skips (suc n) (x ∷ xs) bad zs h r s b = rw r.0 (
      ap (λ out. stamp (digest x.path) x ∷ out)
        (hash_entries-skips n xs bad zs (omega arith) r.1 s b))

abbrev pub last_of : Entry → List Entry → Entry
last_of y [] = y
last_of y (z ∷ zs) = last_of z zs

drop-last : (y : Entry) (ys : List Entry) → drop (length ys) (y ∷ ys) ≡ last_of y ys ∷ []
drop-last y [] = refl
drop-last y (z ∷ zs) = drop-last z zs

drop-past : (xs zs : List Entry) (n k : ℕ) → k ≡ n + length xs → drop k (xs ++ zs) ≡ drop n zs
drop-past [] zs n k h = ap (λ i. drop i zs) (let e : k ≡ n = omega arith in e)
drop-past (x ∷ xs) zs n zero h = absurd (omega arith)
drop-past (x ∷ xs) zs n (suc k) h = drop-past xs zs n k (omega arith)

-- If one file of a list cannot be read and it is not the last, then after `HashEntries` the list itself has
-- lost that file and ends with its last entry twice, once with and once without its new hash. No
-- cancellation happens, and all other files can be read.
pub shared_entries-last_of :
    (hash : Text → Option Text) (digest : Text → Text) (xs : List Entry) (bad y : Entry)
    (ys : List Entry) (alive : ℕ)
    → length (xs ++ bad ∷ y ∷ ys) ≤ alive
    → All (Readable hash digest) xs
    → All (Readable hash digest) (y ∷ ys)
    → hash bad.path ≡ none
    → shared_entries hash alive (xs ++ bad ∷ y ∷ ys)
      ≡ (hashed hash digest xs ++ hashed hash digest (y ∷ ys)) ++ last_of y ys ∷ []
unfolding shared_entries
shared_entries-last_of hash digest xs bad y ys alive h r s b =
    let front = hashed hash digest xs ++ hashed hash digest (y ∷ ys) in
    let es = xs ++ bad ∷ y ∷ ys in
    let size : length front ≡ suc (length ys) + length xs = omega (
      arith,
      length-append (hashed hash digest xs) (hashed hash digest (y ∷ ys)),
      length-hashed hash digest xs,
      length-hashed hash digest ys,
    ) in
    ap (λ out. out ++ drop (length out) es)
      (hash_entries-skips hash digest alive xs bad (y ∷ ys) h r s b)
    ∙ ap (λ left. front ++ left)
        (drop-past xs (bad ∷ y ∷ ys) (suc (length ys)) (length front) size ∙ drop-last y ys)
