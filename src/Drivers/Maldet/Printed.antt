-- ===== src/Drivers/Maldet/Printed.antt =====
-- The scan id that maldet prints, told without the loop that looks for it.
use mathlib.Core.List.{append_assoc}
use mathlib.Core.Path.{subst}
use sentinel_host.Prelude.{
  ℕ, zero, suc, Bool, true, false, ◌≤◌, ◌==◌, ◌≡◌, ◌≢◌, ◌⊎◌, refl, sym, ap, ◌∙◌, inl, inr,
  Bool-cases, Option, Option-cases, none, some, List, [], ◌∷◌, ◌++◌, Text, codes, length,
  length-append, take, drop, All, arith, and_parts, if◌then◌else◌,
}
use sentinel_host.Prelude.Int.{is_digit}
use sentinel_host.Drivers.Lines.{re_space, upper_byte, take_while, drop_while}
use sentinel_host.Drivers.Maldet.Report.{after_label}
use sentinel_host.Drivers.Maldet.Scan.{
  has_shape, id_shape, id_at, drop_colon, starts_space, scan_id_here, scan_id_in,
}

-- From `0` to `9`.
abbrev pub Digit : ℕ → Type 0
Digit c = (48 ≤ c) × (c ≤ 57)

-- A text that does not go on with a digit.
abbrev pub Stops : Text → Type 0
Stops [] = Unit
Stops (c ∷ s) = ¬ Digit c

-- The id stands in the text, as six digits, a dash, four digits, a dot and at least one digit, and the text
-- does not go on with another digit.
pub record Printed (text id : Text) : Type 0 where
  pub before : Text
  pub after : Text
  pub date : Text
  pub time : Text
  pub pid : Text
  pub stands : text ≡ before ++ (id ++ after)
  pub parts : id ≡ date ++ b'-' ∷ (time ++ b'.' ∷ pid)
  pub date_digits : All Digit date × (length date ≡ 6)
  pub time_digits : All Digit time × (length time ≡ 4)
  pub pid_digits : All Digit pid × (pid ≢ [])
  pub whole : Stops after

digit_lem : (c : ℕ) → is_digit c ≡ true → Digit c
digit_lem c h = ground (arith, h)

no_digit_lem : (c : ℕ) → is_digit c ≡ false → ¬ Digit c
no_digit_lem c h d = ground (arith, h, d)

-- Lists of a known length.
take-length : (n : ℕ) (xs ys : Text) → length xs ≡ n → take n (xs ++ ys) ≡ xs
take-length zero [] ys h = refl
take-length zero (x ∷ xs) ys h = absurd (omega (arith, h))
take-length (suc n) [] ys h = absurd (omega (arith, h))
take-length (suc n) (x ∷ xs) ys h = ap (λ r. x ∷ r) (take-length n xs ys (omega (arith, h)))

drop-length : (n : ℕ) (xs ys : Text) → length xs ≡ n → drop n (xs ++ ys) ≡ ys
drop-length zero [] ys h = refl
drop-length zero (x ∷ xs) ys h = absurd (omega (arith, h))
drop-length (suc n) [] ys h = absurd (omega (arith, h))
drop-length (suc n) (x ∷ xs) ys h = drop-length n xs ys (omega (arith, h))

take_while-append : (p : ℕ → Bool) (s : Text) → take_while p s ++ drop_while p s ≡ s
unfolding take_while drop_while
take_while-append p [] = refl
take_while-append p (c ∷ s) = elim (Bool-cases (p c)) [
  | inl t ↦ rw t (ap (λ r. c ∷ r) (take_while-append p s))
  | inr f ↦ rw f refl
]

take_while-digits : (s : Text) → All Digit (take_while is_digit s)
unfolding take_while
take_while-digits [] = tt
take_while-digits (c ∷ s) = elim (Bool-cases (is_digit c)) [
  | inl t ↦ rw t (digit_lem c t, take_while-digits s)
  | inr f ↦ rw f tt
]

drop_while-Stops : (s : Text) → Stops (drop_while is_digit s)
unfolding drop_while
drop_while-Stops [] = tt
drop_while-Stops (c ∷ s) = elim (Bool-cases (is_digit c)) [
  | inl t ↦ rw t (drop_while-Stops s)
  | inr f ↦ rw f (no_digit_lem c f)
]

-- A shape that begins with a number of digits, or with a byte.
abbrev digits : ℕ → List (ℕ → Bool) → List (ℕ → Bool)
digits zero ps = ps
digits (suc n) ps = is_digit ∷ digits n ps

record Digits (n : ℕ) (ps : List (ℕ → Bool)) (s : Text) : Type 0 where
  pub found : Text
  pub rest : Text
  pub same : s ≡ found ++ rest
  pub all : All Digit found
  pub long : length found ≡ n
  pub more : has_shape ps rest ≡ true

shape-Digits :
    (n : ℕ) (ps : List (ℕ → Bool)) (s : Text) → has_shape (digits n ps) s ≡ true → Digits n ps s
unfolding has_shape
shape-Digits zero ps s h = record {
  found = [];
  rest = s;
  same = refl;
  all = tt;
  long = refl;
  more = h;
}
shape-Digits (suc n) ps [] h = absurd (cc h)
shape-Digits (suc n) ps (c ∷ s) h =
    let (d, more) = and_parts (is_digit c) (has_shape (digits n ps) s) h in
    let r = shape-Digits n ps s more in
    record {
      found = c ∷ r.found;
      rest = r.rest;
      same = ap (λ x. c ∷ x) r.same;
      all = (digit_lem c d, r.all);
      long = omega (arith, r.long);
      more = r.more;
    }

shape-byte :
    (b : ℕ) (ps : List (ℕ → Bool)) (s : Text)
    → has_shape ((λ c. c == b) ∷ ps) s ≡ true
    → (rest : Text) × (s ≡ b ∷ rest) × (has_shape ps rest ≡ true)
unfolding has_shape
shape-byte b ps [] h = absurd (cc h)
shape-byte b ps (c ∷ s) h =
    let (e, more) = and_parts (c == b) (has_shape ps s) h in
    let same : c ≡ b = ground (arith, e) in (s, ap (λ x. x ∷ s) same, more)

some_digit : (s : Text) → has_shape (digits 1 []) s ≡ true → take_while is_digit s ≢ []
unfolding has_shape take_while
some_digit [] h = absurd (cc h)
some_digit (c ∷ s) h = let (d, more) = and_parts (is_digit c) true h in rw d (λ q. cc q)

-- The id at the start of a text.
id-Printed :
    (d t rest : Text)
    → All Digit d × (length d ≡ 6)
    → All Digit t × (length t ≡ 4)
    → has_shape (digits 1 []) rest ≡ true
    → let s = d ++ b'-' ∷ (t ++ b'.' ∷ rest) in
      Printed s (take 12 s ++ take_while is_digit (drop 12 s))
id-Printed d t rest dd td h =
    let stem = d ++ b'-' ∷ (t ++ b'.' ∷ []) in
    let joined = λ (r : Text).
      (append_assoc d (b'-' ∷ (t ++ b'.' ∷ [])) r
        ∙ ap (λ x. d ++ b'-' ∷ x) (append_assoc t (b'.' ∷ []) r)) in
    let twelve : length stem ≡ 12 =
      omega (
        arith,
        dd.1,
        td.1,
        length-append d (b'-' ∷ (t ++ b'.' ∷ [])),
        length-append t (b'.' ∷ []),
      ) in
    let id = stem ++ take_while is_digit rest in
    let found : Printed (stem ++ rest) id = record {
      before = [];
      after = drop_while is_digit rest;
      date = d;
      time = t;
      pid = take_while is_digit rest;
      stands =
          ap (λ x. stem ++ x) (sym (take_while-append is_digit rest))
          ∙ sym (append_assoc stem (take_while is_digit rest) (drop_while is_digit rest));
      parts = joined (take_while is_digit rest);
      date_digits = dd;
      time_digits = td;
      pid_digits = (take_while-digits rest, some_digit rest h);
      whole = drop_while-Stops rest;
    } in
    let same : Printed (stem ++ rest)
        (take 12 (stem ++ rest) ++ take_while is_digit (drop 12 (stem ++ rest))) =
      rw (take-length 12 stem rest twelve, drop-length 12 stem rest twelve) found in
    subst (λ s. Printed s (take 12 s ++ take_while is_digit (drop 12 s))) (joined rest) same

abbrev after_dash : List (ℕ → Bool)
after_dash = digits 4 ((λ c. c == b'.') ∷ digits 1 [])

id_at-Printed : (s id : Text) → id_at s ≡ some id → Printed s id
unfolding id_at
id_at-Printed s id e = elim (Bool-cases (has_shape id_shape s)) [
  | inr f ↦ absurd (let bad : none ≡ some id = rw f at e in cc bad)
  | inl h ↦
      let d = shape-Digits 6 ((λ c. c == b'-') ∷ after_dash) s h in
      let (s1, e1, h1) = shape-byte b'-' after_dash d.rest d.more in
      let t = shape-Digits 4 ((λ c. c == b'.') ∷ digits 1 []) s1 h1 in
      let (s2, e2, h2) = shape-byte b'.' (digits 1 []) t.rest t.more in
      let whole : s ≡ d.found ++ b'-' ∷ (t.found ++ b'.' ∷ s2) =
        d.same
        ∙ ap (λ x. d.found ++ x) (e1 ∙ ap (λ x. b'-' ∷ x) (t.same ∙ ap (λ x. t.found ++ x) e2)) in
      let mine : Printed s (take 12 s ++ take_while is_digit (drop 12 s)) =
        subst (λ x. Printed x (take 12 x ++ take_while is_digit (drop 12 x))) (sym whole)
          (id-Printed d.found t.found s2 (d.all, d.long) (t.all, t.long) h2) in
      let same : some (take 12 s ++ take_while is_digit (drop 12 s)) ≡ some id = rw h at e in
      subst (λ x. Printed s x) (cc same) mine
]

-- The same id, in a text of which this one is the end.
later-Printed : (p s id : Text) → Printed s id → Printed (p ++ s) id
later-Printed p s id r = record {
  before = p ++ r.before;
  after = r.after;
  date = r.date;
  time = r.time;
  pid = r.pid;
  stands = ap (λ x. p ++ x) r.stands ∙ sym (append_assoc p r.before (id ++ r.after));
  parts = r.parts;
  date_digits = r.date_digits;
  time_digits = r.time_digits;
  pid_digits = r.pid_digits;
  whole = r.whole;
}

abbrev EndOf : Text → Text → Type 0
EndOf t s = (p : Text) × (s ≡ p ++ t)

EndOf-Printed : (s t id : Text) → EndOf t s → Printed t id → Printed s id
EndOf-Printed s t id (p, e) r = subst (λ x. Printed x id) (sym e) (later-Printed p t id r)

EndOf-trans : (s t u : Text) → EndOf t s → EndOf u t → EndOf u s
EndOf-trans s t u (p, e) (q, f) = (p ++ q, e ∙ (ap (λ x. p ++ x) f ∙ sym (append_assoc p q u)))

drop_while-EndOf : (p : ℕ → Bool) (s : Text) → EndOf (drop_while p s) s
drop_while-EndOf p s = (take_while p s, sym (take_while-append p s))

drop_colon-EndOf : (s : Text) → EndOf (drop_colon s) s
drop_colon-EndOf [] = ([], refl)
drop_colon-EndOf (c ∷ s) = elim (Bool-cases (c == b':')) [
  | inl t ↦ rw t (c ∷ [], refl)
  | inr f ↦ rw f ([], refl)
]

after_label-EndOf : (label s t : Text) → after_label label s ≡ some t → EndOf t s
unfolding after_label
after_label-EndOf [] s t e = ([], cc e)
after_label-EndOf (l ∷ ls) [] t e = absurd (cc e)
after_label-EndOf (l ∷ ls) (c ∷ s) t e = elim (Bool-cases (upper_byte c == l)) [
  | inl h ↦
      let more : after_label ls s ≡ some t = rw h at e in
      let (p, q) = after_label-EndOf ls s t more in (c ∷ p, ap (λ x. c ∷ x) q)
  | inr f ↦ absurd (let bad : none ≡ some t = rw f at e in cc bad)
]

-- An id that begins in the end of a text, after spaces.
spaced-Printed :
    (s t id : Text) → EndOf t s → id_at (drop_while re_space t) ≡ some id → Printed s id
spaced-Printed s t id i e =
    EndOf-Printed s (drop_while re_space t) id
      (EndOf-trans s t (drop_while re_space t) i (drop_while-EndOf re_space t))
      (id_at-Printed (drop_while re_space t) id e)

report-Printed :
    (s t id : Text)
    → EndOf t s
    → (if starts_space t then id_at (drop_while re_space t) else none) ≡ some id
    → Printed s id
report-Printed s t id i e = elim (Bool-cases (starts_space t)) [
  | inl h ↦ spaced-Printed s t id i (rw h at e)
  | inr f ↦ absurd (let bad : none ≡ some id = rw f at e in cc bad)
]

scan_id_here-Printed : (s id : Text) → scan_id_here s ≡ some id → Printed s id
unfolding scan_id_here
scan_id_here-Printed s id e = elim (Option-cases (after_label (codes "SCAN ID") s)) [
  | inr (t, q) ↦
      spaced-Printed s (drop_colon t) id
        (EndOf-trans s t (drop_colon t) (after_label-EndOf (codes "SCAN ID") s t q)
          (drop_colon-EndOf t))
        (rw q at e)
  | inl n ↦ elim (Option-cases (after_label (codes "--REPORT") s)) [
    | inr (t, q) ↦
        report-Printed s t id (after_label-EndOf (codes "--REPORT") s t q) (rw (n, q) at e)
    | inl m ↦ absurd (let bad : none ≡ some id = rw (n, m) at e in cc bad)
  ]
]

leftmost :
    (o rest : Option Text) (id : Text)
    → (elim o [ some t ↦ some t | none ↦ rest ]) ≡ some id
    → (o ≡ some id) ⊎ (rest ≡ some id)
leftmost none rest id e = inr e
leftmost (some t) rest id e = inl e

-- The id that is read in a text stands in it, whole.
pub scan_id_in-Printed : (s id : Text) → scan_id_in s ≡ some id → Printed s id
unfolding scan_id_in
scan_id_in-Printed [] id e = absurd (cc e)
scan_id_in-Printed (c ∷ s) id e = elim (leftmost (scan_id_here (c ∷ s)) (scan_id_in s) id e) [
  | inl here ↦ scan_id_here-Printed (c ∷ s) id here
  | inr later ↦ later-Printed (c ∷ []) s id (scan_id_in-Printed s id later)
]
