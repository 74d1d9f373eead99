-- ===== src/Verdict/Sorting.antt =====
-- The two sorts of the package keep what they are given and put it in order.
use sentinel_host.Prelude.{
  true, false, List, [], ◌∷◌, Text, text_lt, text_lt_irrefl, text_lt_trans, ◌≡◌, sym, inl, inr,
  Bool-cases, arith, In, Distinct,
}
use sentinel_host.Prelude.Float.{eq_f_sym, lt_f_asym}
use sentinel_host.Schema.Types.{Vote, engines}
use sentinel_host.Verdict.Collect.{insert_text, sort_texts}
use sentinel_host.Verdict.Votes.{vote_before, insert_vote, sort_votes}

-- Each text stands before the next, or is the same.
abbrev pub Ascending : List Text → Type 0
Ascending [] = Unit
Ascending (s ∷ []) = Unit
Ascending (s ∷ t ∷ ts) = (text_lt t s ≡ false) × Ascending (t ∷ ts)

text_lt_asym : (s t : Text) → text_lt s t ≡ true → text_lt t s ≡ false
text_lt_asym s t h = ground (arith, text_lt_trans s t s, text_lt_irrefl s)

insert_text-Ascending : (s : Text) (ts : List Text) → Ascending ts → Ascending (insert_text s ts)
insert_text-Ascending s [] h = tt
insert_text-Ascending s (t ∷ []) h = elim (Bool-cases (text_lt t s)) [
  | inl e ↦ rw e (text_lt_asym t s e, tt)
  | inr e ↦ rw e (e, tt)
]
insert_text-Ascending s (t ∷ u ∷ ts) h =
    ground (arith, text_lt_asym t s, insert_text-Ascending s (u ∷ ts) h.1)

pub sort_texts-Ascending : (ss : List Text) → Ascending (sort_texts ss)
sort_texts-Ascending [] = tt
sort_texts-Ascending (s ∷ ss) = insert_text-Ascending s (sort_texts ss) (sort_texts-Ascending ss)

insert_text-In : (a s : Text) (ts : List Text) → In a (insert_text s ts) → In a (s ∷ ts)
insert_text-In a s [] m = m
insert_text-In a s (t ∷ ts) m = ground (arith, insert_text-In a s ts)

In-insert_text : (a s : Text) (ts : List Text) → In a (s ∷ ts) → In a (insert_text s ts)
In-insert_text a s [] m = m
In-insert_text a s (t ∷ ts) m = ground (arith, In-insert_text a s ts)

pub sort_texts-In : (a : Text) (ss : List Text) → In a (sort_texts ss) → In a ss
sort_texts-In a [] m = m
sort_texts-In a (s ∷ ss) m = elim (insert_text-In a s (sort_texts ss) m) [
  | inl e ↦ inl e
  | inr k ↦ inr (sort_texts-In a ss k)
]

pub In-sort_texts : (a : Text) (ss : List Text) → In a ss → In a (sort_texts ss)
In-sort_texts a [] m = m
In-sort_texts a (s ∷ ss) (inl e) = In-insert_text a s (sort_texts ss) (inl e)
In-sort_texts a (s ∷ ss) (inr m) = In-insert_text a s (sort_texts ss) (inr (In-sort_texts a ss m))

insert_text-Distinct :
    (s : Text) (ts : List Text) → ¬ In s ts → Distinct ts → Distinct (insert_text s ts)
insert_text-Distinct s [] n d = (n, d)
insert_text-Distinct s (t ∷ ts) n d = elim (Bool-cases (text_lt t s)) [
  | inl e ↦ rw e (
    (λ m. elim (insert_text-In t s ts m) [ inl q ↦ n (inl (sym q)) | inr k ↦ d.0 k ]),
    insert_text-Distinct s ts (λ m. n (inr m)) d.1,
  )
  | inr e ↦ rw e (n, d)
]

pub sort_texts-Distinct : (ss : List Text) → Distinct ss → Distinct (sort_texts ss)
sort_texts-Distinct [] d = tt
sort_texts-Distinct (s ∷ ss) d =
    insert_text-Distinct s (sort_texts ss) (λ m. d.0 (sort_texts-In s ss m))
      (sort_texts-Distinct ss d.1)

insert_vote-engines :
    (x : Text) (v : Vote) (ws : List Vote)
    → In x (engines (insert_vote v ws))
    → In x (engines (v ∷ ws))
insert_vote-engines x v [] m = m
insert_vote-engines x v (w ∷ ws) m = ground (arith, insert_vote-engines x v ws)

sort_votes-engines :
    (x : Text) (vs : List Vote) → In x (engines (sort_votes vs)) → In x (engines vs)
sort_votes-engines x [] m = m
sort_votes-engines x (v ∷ vs) m = elim (insert_vote-engines x v (sort_votes vs) m) [
  | inl e ↦ inl e
  | inr k ↦ inr (sort_votes-engines x vs k)
]

insert_vote-Distinct :
    (v : Vote) (ws : List Vote)
    → ¬ In v.engine (engines ws)
    → Distinct (engines ws)
    → Distinct (engines (insert_vote v ws))
insert_vote-Distinct v [] n d = (n, d)
insert_vote-Distinct v (w ∷ ws) n d = elim (Bool-cases (vote_before w v)) [
  | inl e ↦ rw e (
    (λ m. elim (insert_vote-engines w.engine v ws m) [ inl q ↦ n (inl (sym q)) | inr k ↦ d.0 k ]),
    insert_vote-Distinct v ws (λ m. n (inr m)) d.1,
  )
  | inr e ↦ rw e (n, d)
]

pub sort_votes-Distinct :
    (vs : List Vote) → Distinct (engines vs) → Distinct (engines (sort_votes vs))
sort_votes-Distinct [] d = tt
sort_votes-Distinct (v ∷ vs) d =
    insert_vote-Distinct v (sort_votes vs) (λ m. d.0 (sort_votes-engines v.engine vs m))
      (sort_votes-Distinct vs d.1)

-- No vote stands right before one that the comparison puts first.
abbrev pub Ranked : List Vote → Type 0
Ranked [] = Unit
Ranked (v ∷ []) = Unit
Ranked (v ∷ w ∷ ws) = (vote_before w v ≡ false) × Ranked (w ∷ ws)

vote_before_asym : (v w : Vote) → vote_before v w ≡ true → vote_before w v ≡ false
unfolding vote_before
vote_before_asym v w h =
    let a = v.effective_weight in
    let b = w.effective_weight in
    ground (arith, eq_f_sym a b, lt_f_asym b a, text_lt_asym v.engine w.engine)

insert_vote-Ranked : (v : Vote) (ws : List Vote) → Ranked ws → Ranked (insert_vote v ws)
insert_vote-Ranked v [] h = tt
insert_vote-Ranked v (w ∷ []) h = elim (Bool-cases (vote_before w v)) [
  | inl e ↦ rw e (vote_before_asym w v e, tt)
  | inr e ↦ rw e (e, tt)
]
insert_vote-Ranked v (w ∷ x ∷ ws) h =
    ground (arith, vote_before_asym w v, insert_vote-Ranked v (x ∷ ws) h.1)

pub sort_votes-Ranked : (vs : List Vote) → Ranked (sort_votes vs)
sort_votes-Ranked [] = tt
sort_votes-Ranked (v ∷ vs) = insert_vote-Ranked v (sort_votes vs) (sort_votes-Ranked vs)

insert_vote-In : (a v : Vote) (ws : List Vote) → In a (insert_vote v ws) → In a (v ∷ ws)
insert_vote-In a v [] m = m
insert_vote-In a v (w ∷ ws) m = ground (arith, insert_vote-In a v ws)

In-insert_vote : (a v : Vote) (ws : List Vote) → In a (v ∷ ws) → In a (insert_vote v ws)
In-insert_vote a v [] m = m
In-insert_vote a v (w ∷ ws) m = ground (arith, In-insert_vote a v ws)

pub sort_votes-In : (a : Vote) (vs : List Vote) → In a (sort_votes vs) → In a vs
sort_votes-In a [] m = m
sort_votes-In a (v ∷ vs) m = elim (insert_vote-In a v (sort_votes vs) m) [
  | inl e ↦ inl e
  | inr k ↦ inr (sort_votes-In a vs k)
]

pub In-sort_votes : (a : Vote) (vs : List Vote) → In a vs → In a (sort_votes vs)
In-sort_votes a [] m = m
In-sort_votes a (v ∷ vs) (inl e) = In-insert_vote a v (sort_votes vs) (inl e)
In-sort_votes a (v ∷ vs) (inr m) = In-insert_vote a v (sort_votes vs) (inr (In-sort_votes a vs m))
