-- ===== src/Alert/Closing.antt =====
-- Several passes of `RetryPending`: every delivery to a webhook is closed in the end, and one by e-mail is not.
use mathlib.Core.Path.{subst}
use sentinel_host.Prelude.{
  true, false, ◌+◌, ◌*◌, ◌≤◌, Option, some, List, [], ◌∷◌, Text, length, ◌≡◌, sym, ap, ◌∙◌, ◌⊎◌,
  inl, inr, Bool-cases, arith, In, Distinct, All, text_eq, codes,
}
use sentinel_host.Schema.Types.{Time}
use sentinel_host.Alert.Deliveries.{Delivery, ids, is_pending, find_delivery, is_due}
use sentinel_host.Alert.Dispatch.{Webhook, Outside, second, is_webhook, retry_pending}
use sentinel_host.Alert.Lookup.{payloads, length-ids}
use sentinel_host.Alert.Retry.{Closed}
use sentinel_host.Alert.Pass.{Own, retry_pending-Kept, retry_pending-Advances, retry_pending-other}

-- One pass after the other, each with its own surroundings.
unfoldable pub retry_passes : List Webhook → List Outside → List Delivery → List Delivery
unfolding retry_pending
retry_passes hooks [] ds = ds
retry_passes hooks (o ∷ os) ds = retry_passes hooks os (retry_pending o hooks ds).0

-- Each payload of a webhook's delivery decodes to the id of its row.
abbrev pub Owned : (Text → Option Text) → List Text → List (Text × Text) → Type 0
Owned decode [] ps = Unit
Owned decode (i ∷ is) [] = Unit
Owned decode (i ∷ is) ((c, p) ∷ ps) =
    ((text_eq c (codes "webhook") ≡ true) → decode p ≡ some i) × Owned decode is ps

Owned-Own :
    (o : Outside) (d : Delivery) (ds : List Delivery)
    → Owned o.decode (ids ds) (payloads ds)
    → In d ds
    → Own o d
Owned-Own o d [] w i = absurd i
Owned-Own o d (x ∷ ds) w (inl q) = subst (Own o) (sym q) w.0
Owned-Own o d (x ∷ ds) w (inr i) = Owned-Own o d ds w.1 i

-- The database works for this delivery, and every webhook payload is the one that was queued.
abbrev pub Working : Text → List Text → List (Text × Text) → Outside → Type 0
Working id is ps o = (o.query_works ≡ true) × (o.records id ≡ true) × Owned o.decode is ps

-- The passes start at `t` or later, and each at least 64 seconds after the one before.
abbrev pub Spaced : Time → List Outside → Type 0
Spaced t [] = Unit
Spaced t (o ∷ os) = (t ≤ o.now) × Spaced (o.now + 64 * second) os

Spaced-earlier : (t u : Time) (os : List Outside) → t ≤ u → Spaced u os → Spaced t os
Spaced-earlier t u [] h s = tt
Spaced-earlier t u (o ∷ os) h s = (omega (arith, s.0), s.1)

payload_owners :
    (id : Text) (is : List Text) (ps : List (Text × Text)) (os : List Outside)
    → All (Working id is ps) os
    → All (λ o. Owned o.decode is ps) os
payload_owners id is ps [] w = tt
payload_owners id is ps (o ∷ os) w = (w.0.2, payload_owners id is ps os w.1)

-- The delivery of that id is closed.
abbrev pub ClosedAt : Text → List Delivery → Type 0
ClosedAt id ds = (c : Delivery) × (find_delivery id ds ≡ some c) × Closed c

module _ (hooks : List Webhook) where
  -- A closed delivery is never sent again, and one whose channel is not a webhook (an e-mail that was
  -- queued when its process died) is never taken up: its row stays as it is through any passes, on a table
  -- with distinct ids and webhook payloads that decode to their ids.
  pub retry_passes-same :
      (os : List Outside) (d : Delivery) (ds : List Delivery)
      → Distinct (ids ds)
      → All (λ o. Owned o.decode (ids ds) (payloads ds)) os
      → find_delivery d.delivery_id ds ≡ some d
      → (is_webhook d ≡ false) ⊎ Closed d
      → find_delivery d.delivery_id (retry_passes hooks os ds) ≡ some d
  unfolding retry_passes
  retry_passes-same [] d ds u own f skipped = f
  retry_passes-same (o ∷ os) d ds u own f skipped =
      let (same, alike) = retry_pending-Kept o hooks ds in
      let not_due : (is_webhook d ≡ false) ⊎ (is_due o.now d ≡ false) = elim skipped [
        | inl m ↦ inl m
        | inr c ↦ inr (ground (arith, c))
      ] in
      retry_passes-same os d (retry_pending o hooks ds).0 (subst Distinct (sym same) u)
        (rw (same, alike) own.1)
        (retry_pending-other o hooks d ds u (λ e i. Owned-Own o e ds own.0 i) f not_due) skipped

  -- Every webhook delivery that is due comes to an end: on a table of at most fifty deliveries with distinct ids,
  -- with a database that works and payloads that decode to their ids, a delivery whose next attempt is not
  -- later than some time, and that has been tried `n` times, is delivered or given up after at most `5 - n`
  -- passes (one, if it was tried five times), whatever the endpoints answer. The first pass is not before
  -- that time, each further pass at least 64 seconds after the one before, and each pass reads the clock
  -- once.
  pub retry_passes-Closed :
      (os : List Outside) (d : Delivery) (ds : List Delivery) (t : Time)
      → length ds ≤ 50
      → Distinct (ids ds)
      → All (Working d.delivery_id (ids ds) (payloads ds)) os
      → Spaced t os
      → is_webhook d ≡ true
      → find_delivery d.delivery_id ds ≡ some d
      → d.next_attempt_at ≤ t
      → 1 ≤ length os
      → 5 ≤ d.attempts + length os
      → ClosedAt d.delivery_id (retry_passes hooks os ds)
  unfolding retry_passes
  retry_passes-Closed [] d ds t long u w s m f due one five = absurd (omega arith)
  retry_passes-Closed (o ∷ os) d ds t long u w s m f due one five =
      let owned = payload_owners d.delivery_id (ids ds) (payloads ds) (o ∷ os) w in
      elim (Bool-cases (is_pending d.status)) [
        | inr c ↦ (d, retry_passes-same (o ∷ os) d ds u owned f (inr c), c)
        | inl p ↦
            let time : is_due o.now d ≡ true =
              let le : d.next_attempt_at ≤ o.now = omega (arith, s.0) in ground (arith, p) in
            let (e, found, a) =
              retry_pending-Advances o hooks d ds long u (λ x i. Owned-Own o x ds owned.0 i) w.0.0
                w.0.1 m f time in
            let next = (retry_pending o hooks ds).0 in
            let (same, alike) = retry_pending-Kept o hooks ds in
            let mine : e.delivery_id ≡ d.delivery_id = a.1 in
            let there : find_delivery e.delivery_id next ≡ some e = rw mine found in
            let distinct = subst Distinct (sym same) u in
            let hook : is_webhook e ≡ true = ap (λ c. text_eq c (codes "webhook")) a.2 ∙ m in
            let moved : ClosedAt e.delivery_id (retry_passes hooks os next) = elim a.3 [
              | inl c ↦ (
                e,
                retry_passes-same os e next distinct (rw (same, alike) owned.1) there (inr c),
                c,
              )
              | inr (more, few, soon) ↦
                  retry_passes-Closed os e next (o.now + 64 * second)
                    (omega (arith, long, sym (length-ids ds), length-ids next, ap length same))
                    distinct (rw (mine, same, alike) w.1) s.1 hook there soon
                    (omega (arith, more, few, five)) (omega (arith, more, five))
            ] in
            subst (λ i. ClosedAt i (retry_passes hooks os next)) mine moved
      ]
