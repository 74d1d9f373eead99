-- ===== src/Exec/Batches.antt =====
-- The batches of a list: what they hold, how large they are, and that `Each` goes through them.
use sentinel_host.Prelude.{
  ℕ, zero, suc, none, some, List, [], ◌∷◌, ◌++◌, length, take, drop, ltb, if◌then◌else◌, ◌≤◌, ◌≡◌,
  refl, ap, ◌∙◌, arith, All, take-append-drop, length-take-le, length-drop,
}
use sentinel_host.Prelude.Int.{ℤ, pos, negsuc}
use sentinel_host.Exec.Batch.{
  Batcher, safe_size, new_batcher, batches_loop, batches, Run, and_then, Calls, pause_before,
  each_loop, each,
}

abbrev pub concat : {A : Type 0} → List (List A) → List A
concat [] = []
concat (b ∷ bs) = b ++ concat bs

module _ {A : Type 0} (b : Batcher) (positive : 1 ≤ b.size) where
  shorter :
      (n : ℕ) (x : A) (items : List A)
      → length (x ∷ items) ≤ suc n
      → length (drop b.size (x ∷ items)) ≤ n
  shorter n x items h = omega (arith, length-drop b.size (x ∷ items))

  -- A batch that some call may take: neither empty nor larger than the size.
  abbrev Sized : List A → Type 0
  Sized batch = (1 ≤ length batch) × (length batch ≤ b.size)

  first-Sized : (size : ℕ) (x : A) (items : List A) → 1 ≤ size → 1 ≤ length (take size (x ∷ items))
  first-Sized zero x items h = omega arith
  first-Sized (suc n) x items h = omega arith

  batches_loop-concat :
      (n : ℕ) (items : List A) → length items ≤ n → concat (batches_loop n b items) ≡ items
  unfolding batches_loop
  batches_loop-concat zero [] h = refl
  batches_loop-concat zero (x ∷ items) h = absurd (omega arith)
  batches_loop-concat (suc n) [] h = refl
  batches_loop-concat (suc n) (x ∷ items) h =
      ap (λ r. take b.size (x ∷ items) ++ r)
        (batches_loop-concat n (drop b.size (x ∷ items)) (shorter n x items h))
      ∙ take-append-drop b.size (x ∷ items)

  batches_loop-Sized : (n : ℕ) (items : List A) → All Sized (batches_loop n b items)
  unfolding batches_loop
  batches_loop-Sized zero items = tt
  batches_loop-Sized (suc n) [] = tt
  batches_loop-Sized (suc n) (x ∷ items) = (
    (first-Sized b.size x items positive, length-take-le b.size (x ∷ items)),
    batches_loop-Sized n (drop b.size (x ∷ items)),
  )

safe_size_positive : (z : ℤ) → 1 ≤ safe_size z
unfolding safe_size
safe_size_positive (pos zero) = omega arith
safe_size_positive (pos (suc n)) = omega arith
safe_size_positive (negsuc n) = omega arith

-- The batches hold every item once and in order, and none of them is empty or larger than the size, for
-- every size and pause that `NewBatcher` is given.
pub batches-concat :
    {A : Type 0} (size pause : ℤ) (items : List A)
    → let b = new_batcher size pause in
      (concat (batches b items) ≡ items)
      × All (λ batch. (1 ≤ length batch) × (length batch ≤ b.size)) (batches b items)
unfolding batches new_batcher
batches-concat size pause items = (
  batches_loop-concat (new_batcher size pause) (safe_size_positive size) (length items) items
      (omega arith),
  batches_loop-Sized (new_batcher size pause) (safe_size_positive size) (length items) items,
)

and_then-same :
    {S E : Type 0} (r : Run S E) (k l : S → Run S E)
    → ((s : S) → k s ≡ l s)
    → and_then r k ≡ and_then r l
and_then-same (s, none) k l h = h s
and_then-same (s, some e) k l h = refl

module _ {A S E : Type 0} (calls : Calls A S E) (b : Batcher) where
  -- The calls for a list of batches: the context and the function on each batch; between two batches the
  -- pause, where it is longer than zero; the first error ends the run.
  unfoldable pub run_batches : List (List A) → S → Run S E
  run_batches [] s = (s, none)
  run_batches (batch ∷ []) s =
      and_then (calls.ctx_err s) (λ s1. and_then (calls.fn batch s1) (λ s2. (s2, none)))
  run_batches (batch ∷ after ∷ left) s = and_then (calls.ctx_err s) (λ s1.
      and_then (calls.fn batch s1) (λ s2.
        and_then (if ltb 0 b.pause then calls.take_pause s2 else (s2, none))
          (λ s3. run_batches (after ∷ left) s3)))

  run_nothing : (s : S) → (s, none) ≡ run_batches [] s
  unfolding run_batches
  run_nothing s = refl

  run_batches-pause :
      (batch : List A) (left : List (List A)) (s : S)
      → and_then (calls.ctx_err s) (λ s1.
        and_then
          (calls.fn batch s1)
          (λ s2. and_then (pause_before calls b left s2) (λ s3. run_batches left s3)))
        ≡ run_batches (batch ∷ left) s
  unfolding run_batches pause_before
  run_batches-pause batch [] s = refl
  run_batches-pause batch (after ∷ left) s = refl

module _ {A S E : Type 0} (calls : Calls A S E) (b : Batcher) (positive : 1 ≤ b.size) where
  pause_before-batches :
      (n : ℕ) (items : List A) (s : S)
      → length items ≤ n
      → pause_before calls b items s ≡ pause_before calls b (batches_loop n b items) s
  unfolding pause_before batches_loop
  pause_before-batches zero [] s h = refl
  pause_before-batches zero (x ∷ items) s h = absurd (omega arith)
  pause_before-batches (suc n) [] s h = refl
  pause_before-batches (suc n) (x ∷ items) s h = refl

  each_loop-run_batches :
      (n : ℕ) (items : List A) (s : S)
      → length items ≤ n
      → each_loop calls b n items s ≡ run_batches calls b (batches_loop n b items) s
  unfolding each_loop batches_loop
  each_loop-run_batches zero items s h = run_nothing calls b s
  each_loop-run_batches (suc n) [] s h = run_nothing calls b s
  each_loop-run_batches (suc n) (x ∷ items) s h =
      let left = drop b.size (x ∷ items) in
      let fits = shorter b positive n x items h in
      and_then-same (calls.ctx_err s) _ _ (λ s1.
        and_then-same (calls.fn (take b.size (x ∷ items)) s1) _ _ (λ s2.
          ap (λ r. and_then r (λ s3. each_loop calls b n left s3))
            (pause_before-batches n left s2 fits)
          ∙ and_then-same (pause_before calls b (batches_loop n b left) s2) _ _
              (λ s3. each_loop-run_batches n left s3 fits)))
      ∙ run_batches-pause calls b (take b.size (x ∷ items)) (batches_loop n b left) s

  -- `Each` goes through exactly the batches of `Batches`, in order, with a pause between two batches, where it is longer than zero, and none
  -- after the last, and stops at the first error of the context, of the function or of a pause. The
  -- size is positive.
  pub each-run_batches :
      (items : List A) (s : S) → each calls b items s ≡ run_batches calls b (batches b items) s
  unfolding each batches
  each-run_batches items s = each_loop-run_batches (length items) items s (omega arith)
