-- ===== src/Cycle/Touches.antt =====
-- What the automatic action may touch.
use sentinel_host.Prelude.{
  Bool, true, false, not, List, [], ◌∷◌, Text, if_cases, ◌≡◌, refl, ap, ◌∙◌, ◌≢◌, ◌⊎◌, inl, inr,
  Bool-cases, arith, All,
}
use sentinel_host.Schema.Enums.{is_nothing}
use sentinel_host.Schema.Types.{Verdict, actionable}
use sentinel_host.Quarantine.World.{World, QuarantineItem, Result, ok, err}
use sentinel_host.Quarantine.Vault.{quarantine}
use sentinel_host.Quarantine.Elsewhere.{quarantine-Same}
use sentinel_host.Cycle.Act.{
  General, automatic_action_allowed, may_act, Runner, Step, after_quarantine, quarantine_one,
  decide_action, act_loop, act, is_mismatch,
}

-- A verdict on which the cycle may act by itself.
abbrev pub Eligible : Verdict → Type 0
Eligible v = (is_nothing v.action_taken ≡ true) × (actionable v ≡ true)

of_not : {b : Bool} → not b ≡ false → b ≡ true
of_not {b} h = ground arith

module _ (r : Runner) (q : Text) (outside : (ref : Text) → r.vault.place ref ≢ q) where
  after_quarantine-world :
      (v : Verdict) (w : World) (res : Result QuarantineItem)
      → (after_quarantine r v w res).world ≡ w
  unfolding after_quarantine
  after_quarantine-world v w (ok item) = refl
  after_quarantine-world v w (err e) =
      if_cases (λ (s : Step). s.world ≡ w) (is_mismatch e) _ _ (λ _. refl) (λ _. refl)

  decide_action-files :
      (allowed : Bool) (reason : Text) (v : Verdict) (w : World)
      → (allowed ≡ true → Eligible v → v.file_path ≢ q)
      → (decide_action r allowed reason v w).world.files q ≡ w.files q
  unfolding decide_action quarantine_one
  decide_action-files allowed reason v w h =
      let P = λ (s : Step). s.world.files q ≡ w.files q in
      if_cases P (not (is_nothing v.action_taken)) _ _ (λ _. refl)
        (λ e.
          if_cases P (not (actionable v)) _ _ (λ _. refl)
            (λ f.
              if_cases P (not allowed) _ _ (λ _. refl)
                (λ g.
                  let done =
                    quarantine r.vault (r.answers v.verdict_id) v.verdict_id v.file_path
                      v.file_sha256 w in
                  ap (λ (x : World). x.files q) (after_quarantine-world v done.0 done.1)
                  ∙ quarantine-Same r.vault (r.answers v.verdict_id) v.file_path q
                      (h (of_not g) (of_not e, of_not f)) outside v.verdict_id v.file_sha256 w)))

  act_loop-files :
      (allowed : Bool) (reason : Text) (vs : List Verdict) (w : World)
      → All (λ v. allowed ≡ true → Eligible v → v.file_path ≢ q) vs
      → (act_loop r allowed reason vs w).world.files q ≡ w.files q
  unfolding act_loop
  act_loop-files allowed reason [] w h = refl
  act_loop-files allowed reason (v ∷ vs) w h =
      act_loop-files allowed reason vs (decide_action r allowed reason v w).world h.1
      ∙ decide_action-files allowed reason v w h.0

-- The automatic action moves only files it may move. A path holds after `act` what it held before,
-- unless it is a place in the vault, or the gate is open, the run is no dry run, and some verdict on
-- this path is confirmed, is not official, and has no action recorded.
pub act-files :
    (r : Runner) (g : General) (dry_run : Bool) (vs : List Verdict) (w : World) (q : Text)
    → ((ref : Text) → r.vault.place ref ≢ q)
    → ((dry_run ≡ true)
        ⊎ ((automatic_action_allowed g r.now).0 ≡ false)
        ⊎ All (λ v. Eligible v → v.file_path ≢ q) vs)
    → (act r g dry_run vs w).world.files q ≡ w.files q
unfolding act may_act
act-files r g dry_run vs w q outside h =
    act_loop-files r q outside (may_act g r.now dry_run).0 (may_act g r.now dry_run).1 vs w
      (each vs h)
  where
    each :
        (us : List Verdict)
        → ((dry_run ≡ true)
            ⊎ ((automatic_action_allowed g r.now).0 ≡ false)
            ⊎ All (λ v. Eligible v → v.file_path ≢ q) us)
        → All (λ v. (may_act g r.now dry_run).0 ≡ true → Eligible v → v.file_path ≢ q) us
    each [] k = tt
    each (u ∷ us) (inl k) = ((λ e. absurd (cc (k, e))), each us (inl k))
    each (u ∷ us) (inr (inl k)) = ((λ e. ground arith), each us (inr (inl k)))
    each (u ∷ us) (inr (inr k)) = ((λ e. k.0), each us (inr (inr k.1)))

-- The same verdicts in order, but for those that are eligible.
abbrev pub Untouched : List Verdict → List Verdict → Type 0
Untouched [] [] = Unit
Untouched [] (w ∷ ws) = ⊥
Untouched (v ∷ vs) [] = ⊥
Untouched (v ∷ vs) (w ∷ ws) = (Eligible v ⊎ (w ≡ v)) × Untouched vs ws

decide_action-verdict :
    (r : Runner) (allowed : Bool) (reason : Text) (v : Verdict) (w : World)
    → Eligible v ⊎ ((decide_action r allowed reason v w).verdict ≡ v)
unfolding decide_action
decide_action-verdict r allowed reason v w = elim (Bool-cases (is_nothing v.action_taken)) [
  | inr e ↦ inr (rw e)
  | inl e ↦ elim (Bool-cases (actionable v)) [ inl f ↦ inl (e, f) | inr f ↦ inr (rw e (rw f)) ]
]

-- The verdicts that `act` returns are those it was given, in order, and one of them changes only if it
-- was confirmed, not official, and had no action recorded.
pub act-Untouched :
    (r : Runner) (g : General) (dry_run : Bool) (vs : List Verdict) (w : World)
    → Untouched vs (act r g dry_run vs w).verdicts
unfolding act act_loop
act-Untouched r g dry_run vs w = loop (may_act g r.now dry_run).0 (may_act g r.now dry_run).1 vs w
  where
    loop :
        (allowed : Bool) (reason : Text) (us : List Verdict) (x : World)
        → Untouched us (act_loop r allowed reason us x).verdicts
    loop allowed reason [] x = tt
    loop allowed reason (u ∷ us) x = (
      decide_action-verdict r allowed reason u x,
      loop allowed reason us (decide_action r allowed reason u x).world,
    )
