-- ===== src/Verdict/Ballot.antt =====
-- The map of `buildVotes` from engines to votes: putting a vote into it and looking one up.
use sentinel_host.Prelude.{
  some, List, [], ◌∷◌, Text, text_eq, text_eq_iff, ◌≡◌, refl, inl, inr, Bool-cases, arith, In,
  Distinct, if◌then◌else◌,
}
use sentinel_host.Schema.Types.{Vote, engines}
use sentinel_host.Verdict.Votes.{vote_for, put_vote}

pub put_vote-engines :
    (x : Text) (v : Vote) (vs : List Vote)
    → In x (engines (put_vote v vs))
    → In x (engines (v ∷ vs))
put_vote-engines x v [] m = m
put_vote-engines x v (w ∷ ws) m = ground (arith, put_vote-engines x v ws)

pub put_vote-Distinct :
    (v : Vote) (vs : List Vote) → Distinct (engines vs) → Distinct (engines (put_vote v vs))
put_vote-Distinct v [] d = (λ m. absurd m, tt)
put_vote-Distinct v (w ∷ ws) d = elim (Bool-cases (text_eq w.engine v.engine)) [
  | inl e ↦ rw e (rw ((text_eq_iff w.engine v.engine).0 e) at d)
  | inr e ↦ rw e (
    (λ m. elim (put_vote-engines w.engine v ws m) [
      | inl q ↦ cc ((text_eq_iff w.engine v.engine).1 q)
      | inr k ↦ d.0 k
    ]),
    put_vote-Distinct v ws d.1,
  )
]

pub vote_for-put_vote :
    (k : Text) (v : Vote) (vs : List Vote)
    → vote_for k (put_vote v vs) ≡ (if text_eq v.engine k then some v else vote_for k vs)
vote_for-put_vote k v [] = refl
vote_for-put_vote k v (w ∷ ws) = ground (
  arith,
  text_eq_iff v.engine k,
  text_eq_iff w.engine v.engine,
  text_eq_iff w.engine k,
  vote_for-put_vote k v ws,
)

pub vote_for-In :
    (k : Text) (v : Vote) (vs : List Vote) → vote_for k vs ≡ some v → In v vs × (v.engine ≡ k)
vote_for-In k v [] h = absurd (cc)
vote_for-In k v (w ∷ ws) h = ground (arith, text_eq_iff w.engine k, vote_for-In k v ws)

pub put_vote-In : (a v : Vote) (vs : List Vote) → In a (put_vote v vs) → In a (v ∷ vs)
put_vote-In a v [] m = m
put_vote-In a v (w ∷ ws) m = ground (arith, put_vote-In a v ws)
