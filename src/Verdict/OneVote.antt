-- ===== src/Verdict/OneVote.antt =====
-- One vote for each engine: where the votes of `buildVotes` come from, and which finding of an engine
-- casts its vote.
use mathlib.Core.Path.{subst}
use sentinel_host.Prelude.{
  true, false, Option, none, some, List, [], ◌∷◌, text_eq, text_eq_iff, ◌≡◌, refl, ◌⊎◌, inl, inr,
  Bool-cases, arith, In, Distinct, All, All-intro,
}
use sentinel_host.Prelude.Float.{Float64, FloatOps, zero_f, lt_f, le_f, lt_f_trans, lt_f_irrefl}
use sentinel_host.Schema.Types.{Finding, Vote, engines}
use sentinel_host.Verdict.Votes.{
  Engine, weight_of, vote_for, put_vote, improves, make_vote, add_finding, best_votes, build_votes,
}
use sentinel_host.Verdict.Sorting.{
  sort_votes-Distinct, sort_votes-In, In-sort_votes, Ranked, sort_votes-Ranked,
}
use sentinel_host.Verdict.Ballot.{put_vote-Distinct, vote_for-put_vote, vote_for-In, put_vote-In}

-- The vote is not below the weight `x`.
abbrev Strong : Option Vote → Float64 → Type 0
Strong none x = ⊥
Strong (some v) x = lt_f v.effective_weight x ≡ false

module _ (ops : FloatOps) (e : Engine) where
  -- A finding of an engine with a positive weight.
  abbrev pub Counted : Finding → Type 0
  Counted f = le_f (weight_of e f.engine) zero_f ≡ false

  -- The vote is cast by one of the findings, whose engine has a positive weight.
  abbrev pub CastBy : List Finding → Vote → Type 0
  CastBy fs v = (f : Finding) × In f fs × (v ≡ make_vote ops e f) × Counted f

  -- The three ways of a round.
  add_finding_cases :
      (best : List Vote) (f : Finding)
      → ((add_finding ops e best f ≡ best) × (le_f (weight_of e f.engine) zero_f ≡ true))
        ⊎ (((add_finding ops e best f ≡ best)
              × (improves (vote_for f.engine best) (make_vote ops e f).effective_weight ≡ false))
            ⊎ ((add_finding ops e best f ≡ put_vote (make_vote ops e f) best)
                × Counted f
                × (improves (vote_for f.engine best) (make_vote ops e f).effective_weight ≡ true)))
  unfolding add_finding
  add_finding_cases best f = elim (Bool-cases (le_f (weight_of e f.engine) zero_f)) [
    | inl h ↦ inl (rw h, h)
    | inr h ↦
        elim (Bool-cases (improves (vote_for f.engine best) (make_vote ops e f).effective_weight)) [
          | inl i ↦ inr (inr (rw h (rw i), h, i))
          | inr i ↦ inr (inl (rw h (rw i), i))
        ]
  ]

  add_finding-Distinct :
      (best : List Vote) (f : Finding)
      → Distinct (engines best)
      → Distinct (engines (add_finding ops e best f))
  add_finding-Distinct best f d = elim (add_finding_cases best f) [
    | inl c ↦ rw c.0 d
    | inr (inl c) ↦ rw c.0 d
    | inr (inr c) ↦ rw c.0 (put_vote-Distinct (make_vote ops e f) best d)
  ]

  best_votes-Distinct :
      (best : List Vote) (fs : List Finding)
      → Distinct (engines best)
      → Distinct (engines (best_votes ops e best fs))
  unfolding best_votes
  best_votes-Distinct best [] d = d
  best_votes-Distinct best (f ∷ fs) d =
      best_votes-Distinct (add_finding ops e best f) fs (add_finding-Distinct best f d)

  add_finding-CastBy :
      (all : List Finding) (best : List Vote) (f : Finding)
      → ((v : Vote) → In v best → CastBy all v)
      → In f all
      → (v : Vote) → In v (add_finding ops e best f)
      → CastBy all v
  add_finding-CastBy all best f h mf v m = elim (add_finding_cases best f) [
    | inl c ↦ h v (rw c.0 at m)
    | inr (inl c) ↦ h v (rw c.0 at m)
    | inr (inr c) ↦ elim (put_vote-In v (make_vote ops e f) best (rw c.0 at m)) [
      | inl q ↦ (f, mf, q, c.1)
      | inr k ↦ h v k
    ]
  ]

  best_votes-CastBy :
      (all : List Finding) (best : List Vote) (fs : List Finding)
      → ((v : Vote) → In v best → CastBy all v)
      → ((f : Finding) → In f fs → In f all)
      → (v : Vote) → In v (best_votes ops e best fs)
      → CastBy all v
  unfolding best_votes
  best_votes-CastBy all best [] h sub v m = h v m
  best_votes-CastBy all best (f ∷ fs) h sub v m =
      best_votes-CastBy all (add_finding ops e best f) fs
        (add_finding-CastBy all best f h (sub f (inl refl))) (λ g k. sub g (inr k)) v m

  Strong-up :
      (o : Option Vote) (x y : Float64) → Strong o x → improves o y ≡ true → lt_f y x ≡ false
  Strong-up none x y h i = absurd h
  Strong-up (some v) x y h i = ground (arith, lt_f_trans v.effective_weight y x)

  Strong-stays : (o : Option Vote) (y : Float64) → improves o y ≡ false → Strong o y
  Strong-stays none y i = absurd (cc)
  Strong-stays (some v) y i = i

  same : (g f : Finding) → text_eq (make_vote ops e g).engine f.engine ≡ true → g.engine ≡ f.engine
  unfolding make_vote
  same g f h = (text_eq_iff g.engine f.engine).0 h

  own_engine : (f : Finding) → text_eq (make_vote ops e f).engine f.engine ≡ true
  unfolding make_vote
  own_engine f = (text_eq_iff f.engine f.engine).1 refl

  add_finding-keeps :
      (best : List Vote) (g f : Finding)
      → Strong (vote_for f.engine best) (make_vote ops e f).effective_weight
      → Strong (vote_for f.engine (add_finding ops e best g)) (make_vote ops e f).effective_weight
  add_finding-keeps best g f h = elim (add_finding_cases best g) [
    | inl c ↦ rw c.0 h
    | inr (inl c) ↦ rw c.0 h
    | inr (inr c) ↦ rw c.0 (
        rw (vote_for-put_vote f.engine (make_vote ops e g) best)
          (elim (Bool-cases (text_eq (make_vote ops e g).engine f.engine)) [
            | inl q ↦ rw q (
                Strong-up (vote_for f.engine best) _ _ h (
                  subst
                    (λ k. improves (vote_for k best) (make_vote ops e g).effective_weight ≡ true)
                    (same g f q) c.2))
            | inr q ↦ rw q h
          ]))
  ]

  add_finding_self :
      (best : List Vote) (f : Finding)
      → Counted f
      → Strong (vote_for f.engine (add_finding ops e best f)) (make_vote ops e f).effective_weight
  add_finding_self best f h = elim (add_finding_cases best f) [
    | inl c ↦ absurd (cc (h, c.1))
    | inr (inl c) ↦ rw c.0 (Strong-stays (vote_for f.engine best) _ c.1)
    | inr (inr c) ↦ rw c.0 (
        rw (vote_for-put_vote f.engine (make_vote ops e f) best)
          (rw (own_engine f) (lt_f_irrefl _)))
  ]

  best_votes-keeps :
      (best : List Vote) (fs : List Finding) (f : Finding)
      → Strong (vote_for f.engine best) (make_vote ops e f).effective_weight
      → Strong (vote_for f.engine (best_votes ops e best fs)) (make_vote ops e f).effective_weight
  unfolding best_votes
  best_votes-keeps best [] f h = h
  best_votes-keeps best (g ∷ fs) f h =
      best_votes-keeps (add_finding ops e best g) fs f (add_finding-keeps best g f h)

  best_votes-Strong :
      (best : List Vote) (fs : List Finding) (f : Finding)
      → In f fs
      → Counted f
      → Strong (vote_for f.engine (best_votes ops e best fs)) (make_vote ops e f).effective_weight
  unfolding best_votes
  best_votes-Strong best [] f m h = absurd m
  best_votes-Strong best (g ∷ fs) f (inl q) h =
      best_votes-keeps (add_finding ops e best g) fs f (rw (← q) (add_finding_self best f h))
  best_votes-Strong best (g ∷ fs) f (inr m) h =
      best_votes-Strong (add_finding ops e best g) fs f m h

  -- The votes that `buildVotes` returns are of different engines, each of them is cast by one of the
  -- findings, of an engine with a positive weight, and none stands right before one that the
  -- comparison (the strongest first, then by engine) puts first.
  pub build_votes-one_each :
      (fs : List Finding)
      → Distinct (engines (build_votes ops e fs))
        × All (CastBy fs) (build_votes ops e fs)
        × Ranked (build_votes ops e fs)
  unfolding build_votes
  build_votes-one_each fs = (
    sort_votes-Distinct _ (best_votes-Distinct [] fs tt),
    All-intro (CastBy fs) _
        (λ v m. best_votes-CastBy fs [] fs (λ _ k. absurd k) (λ _ k. k) v (sort_votes-In v _ m)),
    sort_votes-Ranked (best_votes ops e [] fs),
  )

  found :
      (o : Option Vote) (x : Float64)
      → Strong o x
      → (v : Vote) × (o ≡ some v) × (lt_f v.effective_weight x ≡ false)
  found none x h = absurd h
  found (some v) x h = (v, refl, h)

  -- Every finding of an engine with a positive weight is represented: its engine has a vote, and the
  -- effective weight of that vote is not below the one that this finding would cast.
  pub build_votes-strongest :
      (fs : List Finding) (f : Finding)
      → In f fs
      → Counted f
      → (v : Vote) × In v (build_votes ops e fs)
        × (v.engine ≡ f.engine)
        × (lt_f v.effective_weight (make_vote ops e f).effective_weight ≡ false)
  unfolding build_votes
  build_votes-strongest fs f m h =
      let (v, at, strong) =
        found (vote_for f.engine (best_votes ops e [] fs)) _ (best_votes-Strong [] fs f m h) in
      let (mv, same_engine) = vote_for-In f.engine v (best_votes ops e [] fs) at in
      (v, In-sort_votes v _ mv, same_engine, strong)
