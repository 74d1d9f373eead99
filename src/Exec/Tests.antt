-- ===== src/Exec/Tests.antt =====
-- Batches of concrete items.
use sentinel_host.Prelude.{ℕ, none, List, [], ◌∷◌, ◌++◌, ◌≡◌, refl, arith}
use sentinel_host.Prelude.Int.{pos}
use sentinel_host.Exec.Batch.{
  Batcher, safe_size, new_batcher, batches_loop, batches, Calls, pause_before, each_loop, each,
}
use sentinel_host.Exec.Batches.{run_batches, each-run_batches}

abbrev items : List ℕ
items = 1 ∷ 2 ∷ 3 ∷ 4 ∷ 5 ∷ []

by_two : batches (new_batcher (pos 2) (pos 1)) items ≡ (1 ∷ 2 ∷ []) ∷ (3 ∷ 4 ∷ []) ∷ (5 ∷ []) ∷ []
unfolding batches batches_loop new_batcher safe_size
by_two = refl

-- A log of the calls: 0 for a pause, and the items of a batch; nothing fails.
abbrev logging : Calls ℕ (List ℕ) ℕ
logging = record {
  ctx_err = λ s. (s, none);
  fn = λ batch s. (s ++ batch, none);
  take_pause = λ s. (s ++ 0 ∷ [], none);
}

abbrev two : Batcher
two = record { size = 2; pause = 7 }

two_pauses : each logging two items [] ≡ (1 ∷ 2 ∷ 0 ∷ 3 ∷ 4 ∷ 0 ∷ 5 ∷ [], none)
unfolding each each_loop pause_before
two_pauses = refl

each-run_batches_example :
    each logging two items [] ≡ run_batches logging two (batches two items) []
each-run_batches_example = each-run_batches logging two (omega arith) items []
