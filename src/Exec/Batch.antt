-- ===== src/Exec/Batch.antt =====
-- internal/exec/batch.go. `len(items)` steps of fuel are given to each loop.
use sentinel_host.Prelude.{
  ℕ, zero, suc, Option, none, some, List, [], ◌∷◌, length, take, drop, ltb, if◌then◌else◌,
}
use sentinel_host.Prelude.Int.{ℤ, pos, negsuc}

pub record Batcher : Type 0 where
  pub size : ℕ
  pub pause : ℕ

-- `NewBatcher`: a size below 1 is 200, and a negative pause is none.
unfoldable pub safe_size : ℤ → ℕ
safe_size (pos zero) = 200
safe_size (pos (suc n)) = suc n
safe_size (negsuc n) = 200

unfoldable pub safe_pause : ℤ → ℕ
safe_pause (pos n) = n
safe_pause (negsuc n) = 0

unfoldable pub new_batcher : ℤ → ℤ → Batcher
new_batcher size pause = record { size = safe_size size; pause = safe_pause pause }

module _ {A : Type 0} where
  unfoldable pub batches_loop : ℕ → Batcher → List A → List (List A)
  batches_loop zero b items = []
  batches_loop (suc n) b [] = []
  batches_loop (suc n) b (x ∷ items) =
      take b.size (x ∷ items) ∷ batches_loop n b (drop b.size (x ∷ items))

  unfoldable pub batches : Batcher → List A → List (List A)
  batches b items = batches_loop (length items) b items

-- A state, and the error that ended the run.
abbrev pub Run : Type 0 → Type 0 → Type 0
Run S E = S × Option E

-- `if err != nil { return err }`.
abbrev pub and_then : {S E : Type 0} → Run S E → (S → Run S E) → Run S E
and_then (s, none) next = next s
and_then (s, some e) next = (s, some e)

-- What `Each` calls: the context, the function, and the sleep.
pub record Calls (A S E : Type 0) : Type 0 where
  pub ctx_err : S → Run S E
  pub fn : List A → S → Run S E
  pub take_pause : S → Run S E

module _ {A S E : Type 0} (calls : Calls A S E) (b : Batcher) where
  -- The pause, if something is left.
  unfoldable pub pause_before : {B : Type 0} → List B → S → Run S E
  pause_before [] s = (s, none)
  pause_before (x ∷ left) s = if ltb 0 b.pause then calls.take_pause s else (s, none)

  unfoldable pub each_loop : ℕ → List A → S → Run S E
  each_loop zero items s = (s, none)
  each_loop (suc n) [] s = (s, none)
  each_loop (suc n) (x ∷ items) s = and_then (calls.ctx_err s) (λ s1.
      and_then (calls.fn (take b.size (x ∷ items)) s1) (λ s2.
        and_then (pause_before (drop b.size (x ∷ items)) s2)
          (λ s3. each_loop n (drop b.size (x ∷ items)) s3)))

  unfoldable pub each : List A → S → Run S E
  each items s = each_loop (length items) items s
