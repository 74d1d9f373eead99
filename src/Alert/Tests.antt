-- ===== src/Alert/Tests.antt =====
-- A webhook that never answers, over five passes, and an e-mail that was left pending.
use sentinel_host.Prelude.{
  ℕ, true, false, none, some, List, [], ◌∷◌, ◌*◌, codes, ◌≡◌, refl, inl, inr, arith, text_apart,
}
use sentinel_host.Alert.Deliveries.{Delivery, ids, find_delivery}
use sentinel_host.Alert.Dispatch.{Webhook, answered, Outside, second, new_delivery, backoff}
use sentinel_host.Alert.Lookup.{payloads}
use sentinel_host.Alert.Closing.{
  Owned, Working, retry_passes, ClosedAt, retry_passes-same, retry_passes-Closed,
}

abbrev hook : Webhook
hook = record { id = codes "w1"; enabled = true; events = codes "scan.completed" ∷ [] }

abbrev queued : Delivery
queued = new_delivery 1 (codes "d1") (codes "w1") (codes "scan.completed") (codes "d1")

abbrev mail : Delivery
mail = record (new_delivery 1 (codes "d2") (codes "w1") (codes "engine.failed") (codes "text")) {
  channel = codes "email";
}

abbrev table : List Delivery
table = queued ∷ mail ∷ []

-- The payloads of this table are the ids.
abbrev pass_at : ℕ → Outside
pass_at n = record {
  now = n * (64 * second);
  answer = λ id k. answered false 503 none;
  records = λ id. true;
  encode = λ event id. some id;
  decode = λ p. some p;
  query_works = true;
  enqueue_works = λ id. true;
}

abbrev passes : List Outside
passes = pass_at 1 ∷ pass_at 2 ∷ pass_at 3 ∷ pass_at 4 ∷ pass_at 5 ∷ []

apart : codes "d1" ≡ codes "d2" → ⊥
apart = text_apart (codes "d1") (codes "d2") refl

payloads_own : Owned (λ p. some p) (ids table) (payloads table)
payloads_own = ((λ m. refl), ((λ m. absurd (cc m)), tt))

working : Working (codes "d1") (ids table) (payloads table) (pass_at 1)
working = (refl, refl, payloads_own)

retry_passes-Closed_example : ClosedAt (codes "d1") (retry_passes (hook ∷ []) passes table)
unfolding find_delivery
retry_passes-Closed_example =
    retry_passes-Closed (hook ∷ []) passes queued table 0 (omega arith)
      ((λ i. elim i [ inl q ↦ apart q | inr r ↦ r ]), ((λ i. i), tt))
      (working, (working, (working, (working, (working, tt)))))
      (omega arith, (omega arith, (omega arith, (omega arith, (omega arith, tt))))) refl refl
      (omega arith) (omega arith) (omega arith)

retry_passes-same_example :
    find_delivery (codes "d2") (retry_passes (hook ∷ []) passes table) ≡ some mail
unfolding find_delivery
retry_passes-same_example =
    retry_passes-same (hook ∷ []) passes mail table
      ((λ i. elim i [ inl q ↦ apart q | inr r ↦ r ]), ((λ i. i), tt))
      (payloads_own, (payloads_own, (payloads_own, (payloads_own, (payloads_own, tt))))) refl
      (inl refl)

waits : (backoff 1 ≡ second) × (backoff 4 ≡ 64 * second) × (backoff 5 ≡ 0)
unfolding backoff
waits = (refl, refl, refl)
