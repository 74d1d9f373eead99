-- ===== src/Alert/Pass.antt =====
-- What a pass of `RetryPending` does to one delivery.
use mathlib.Core.Path.{subst}
use sentinel_host.Prelude.{
  true, false, not, ◌+◌, ◌≤◌, Option, none, some, List, [], ◌∷◌, Text, text_eq, text_eq_iff,
  text_ne, length, ◌≡◌, refl, sym, ap, ◌∙◌, ◌⊎◌, inl, inr, Bool-cases, arith, In, Distinct, All,
  All-intro, codes, if_cases,
}
use sentinel_host.Alert.Deliveries.{Delivery, ids, find_delivery, is_due, pending_deliveries}
use sentinel_host.Alert.Dispatch.{
  Webhook, AlertError, Outside, is_webhook, webhook_by_id, is_enabled, retry_decoded, retry_one,
  retry_loop, retry_pending,
}
use sentinel_host.Alert.Lookup.{Kept, id_apart, find_delivery-In, row_unique}
use sentinel_host.Alert.Due.{pending_deliveries-In, pending_deliveries_all}
use sentinel_host.Alert.Retry.{
  Advances, attempted-Closed, Kept-trans, try_record-Kept, try_record-other, try_record-Advances,
  attempt_webhook-Kept, attempt_webhook-other, attempt_webhook-Advances,
}

module _ (o : Outside) where
  -- The payload of a webhook's delivery is the one that was queued with it.
  abbrev pub Own : Delivery → Type 0
  Own d = (is_webhook d ≡ true) → o.decode d.payload_json ≡ some d.delivery_id

  module _ (hooks : List Webhook) where
    retry_decoded-Kept :
        (d : Delivery) (ds : List Delivery) (c : Option Text) → Kept ds (retry_decoded o d ds c).0
    unfolding retry_decoded
    retry_decoded-Kept d ds none =
        try_record-Kept o d.delivery_id false 0 (codes "the delivery payload is corrupted") 0 ds
    retry_decoded-Kept d ds (some id) =
        attempt_webhook-Kept o id (d.attempts + 1) ds (o.answer id (d.attempts + 1))

    retry_one-Kept : (d : Delivery) (ds : List Delivery) → Kept ds (retry_one o hooks d ds).0
    unfolding retry_one
    retry_one-Kept d ds =
        if_cases (λ (r : List Delivery × Option AlertError). Kept ds r.0) (not (is_webhook d)) _ _
          (λ _. (refl, refl))
          (λ _.
            if_cases (λ (r : List Delivery × Option AlertError). Kept ds r.0)
              (not (is_enabled (webhook_by_id d.target hooks))) _ _
              (λ _.
                try_record-Kept o d.delivery_id false 0
                  (codes "the webhook was removed from the configuration") 0 ds)
              (λ _. retry_decoded-Kept d ds (o.decode d.payload_json)))

    retry_loop-Kept : (todo ds : List Delivery) → Kept ds (retry_loop o hooks todo ds).0
    unfolding retry_loop
    retry_loop-Kept [] ds = (refl, refl)
    retry_loop-Kept (d ∷ todo) ds =
        Kept-trans ds (retry_one o hooks d ds).0
          (retry_loop o hooks todo (retry_one o hooks d ds).0).0 (retry_one-Kept d ds)
          (retry_loop-Kept todo (retry_one o hooks d ds).0)

    -- A round leaves every other delivery alone, and all of them if the channel is not a webhook.
    retry_one-other :
        (d : Delivery) (q : Text) (ds : List Delivery)
        → Own d
        → (is_webhook d ≡ false) ⊎ (text_eq d.delivery_id q ≡ false)
        → find_delivery q (retry_one o hooks d ds).0 ≡ find_delivery q ds
    unfolding retry_one retry_decoded
    retry_one-other d q ds own (inl m) = rw m refl
    retry_one-other d q ds own (inr h) = elim (Bool-cases (is_webhook d)) [
      | inr m ↦ rw m refl
      | inl m ↦ ground (
        arith,
        own m,
        attempt_webhook-other o d.delivery_id q (d.attempts + 1) ds
            (o.answer d.delivery_id (d.attempts + 1)) h,
        try_record-other o d.delivery_id q false 0
            (codes "the webhook was removed from the configuration") 0 ds h,
      )
    ]

    retry_loop-other :
        (todo : List Delivery) (q : Text) (ds : List Delivery)
        → All Own todo
        → All (λ d. (is_webhook d ≡ false) ⊎ (text_eq d.delivery_id q ≡ false)) todo
        → find_delivery q (retry_loop o hooks todo ds).0 ≡ find_delivery q ds
    unfolding retry_loop
    retry_loop-other [] q ds own h = refl
    retry_loop-other (d ∷ todo) q ds own h =
        retry_loop-other todo q (retry_one o hooks d ds).0 own.1 h.1
        ∙ retry_one-other d q ds own.0 h.0

    retry_one-Advances :
        (d : Delivery) (ds : List Delivery)
        → Own d
        → is_webhook d ≡ true
        → o.records d.delivery_id ≡ true
        → find_delivery d.delivery_id ds ≡ some d
        → Advances o d.delivery_id d (retry_one o hooks d ds).0
    unfolding retry_one retry_decoded
    retry_one-Advances d ds own m h f =
        let note = codes "the webhook was removed from the configuration" in
        let gone =
          try_record-Advances o d.delivery_id false 0 note 0 d ds h f
            (attempted-Closed o.now false 0 note d) in
        let tried =
          attempt_webhook-Advances o d.delivery_id d ds (o.answer d.delivery_id (d.attempts + 1)) h
            f in
        rw (m, own m)
          (if_cases (λ (r : List Delivery × Option AlertError). Advances o d.delivery_id d r.0)
            (not (is_enabled (webhook_by_id d.target hooks))) _ _ (λ _. gone) (λ _. tried))

    apart_from :
        (i : Text) (todo : List Delivery)
        → (¬ In i (ids todo))
        → All (λ d. (is_webhook d ≡ false) ⊎ (text_eq d.delivery_id i ≡ false)) todo
    apart_from i [] n = tt
    apart_from i (d ∷ todo) n =
        (inr (text_ne d.delivery_id i (λ q. n (inl (sym q)))), apart_from i todo (λ j. n (inr j)))

    -- The first delivery of a pass.
    retry_loop_first :
        (todo : List Delivery) (d : Delivery) (ds : List Delivery)
        → All Own (d ∷ todo)
        → (¬ In d.delivery_id (ids todo))
        → is_webhook d ≡ true
        → o.records d.delivery_id ≡ true
        → find_delivery d.delivery_id ds ≡ some d
        → Advances o d.delivery_id d (retry_loop o hooks (d ∷ todo) ds).0
    unfolding retry_loop
    retry_loop_first todo d ds own n m h f =
        let (e, found, a) = retry_one-Advances d ds own.0 m h f in
        let kept =
          retry_loop-other todo d.delivery_id (retry_one o hooks d ds).0 own.1
            (apart_from d.delivery_id todo n) in
        (e, kept ∙ found, a)

    retry_loop-Advances :
        (todo : List Delivery) (d : Delivery) (ds : List Delivery)
        → All Own todo
        → Distinct (ids todo)
        → In d todo
        → is_webhook d ≡ true
        → o.records d.delivery_id ≡ true
        → find_delivery d.delivery_id ds ≡ some d
        → Advances o d.delivery_id d (retry_loop o hooks todo ds).0
    unfolding retry_loop
    retry_loop-Advances [] d ds own u i m h f = absurd i
    retry_loop-Advances (x ∷ todo) d ds own u (inl q) m h f =
        let (b, r, w) : (is_webhook x ≡ true)
            × (o.records x.delivery_id ≡ true)
            × (find_delivery x.delivery_id ds ≡ some x) =
          subst
            (λ y.
              (is_webhook y ≡ true)
              × (o.records y.delivery_id ≡ true)
              × (find_delivery y.delivery_id ds ≡ some y))
            q (m, h, f) in
        subst (λ y. Advances o y.delivery_id y (retry_loop o hooks (x ∷ todo) ds).0) (sym q)
          (retry_loop_first todo x ds own u.0 b r w)
    retry_loop-Advances (x ∷ todo) d ds own u (inr i) m h f =
        let kept =
          retry_one-other x d.delivery_id ds own.0 (inr (id_apart x.delivery_id d todo u.0 i)) in
        retry_loop-Advances todo d (retry_one o hooks x ds).0 own.1 u.1 i m h (kept ∙ f)

    Own-pending :
        (ds : List Delivery)
        → ((d : Delivery) → In d ds → Own d)
        → All Own (pending_deliveries o.now 50 ds)
    Own-pending ds own = All-intro Own _ (λ d i. own d (pending_deliveries-In o.now d ds i).0)

    -- A pass advances a delivery that is due: the table has at most fifty rows with distinct ids and their own
    -- payloads, the query works, and the database takes the update.
    pub retry_pending-Advances :
        (d : Delivery) (ds : List Delivery)
        → length ds ≤ 50
        → Distinct (ids ds)
        → ((e : Delivery) → In e ds → Own e)
        → o.query_works ≡ true
        → o.records d.delivery_id ≡ true
        → is_webhook d ≡ true
        → find_delivery d.delivery_id ds ≡ some d
        → is_due o.now d ≡ true
        → Advances o d.delivery_id d (retry_pending o hooks ds).0
    unfolding retry_pending
    retry_pending-Advances d ds long u own works h m f due =
        let (apart, all) = pending_deliveries_all o.now ds long u in
        rw works (
          retry_loop-Advances (pending_deliveries o.now 50 ds) d ds (Own-pending ds own) apart
            (all d (find_delivery-In d.delivery_id d ds f) due) m h f)

    -- A pass leaves alone what is not due, and what is not a webhook's.
    pub retry_pending-other :
        (d : Delivery) (ds : List Delivery)
        → Distinct (ids ds)
        → ((e : Delivery) → In e ds → Own e)
        → find_delivery d.delivery_id ds ≡ some d
        → (is_webhook d ≡ false) ⊎ (is_due o.now d ≡ false)
        → find_delivery d.delivery_id (retry_pending o hooks ds).0 ≡ some d
    unfolding retry_pending
    retry_pending-other d ds u own f skipped =
        let here = find_delivery-In d.delivery_id d ds f in
        let alone =
          All-intro (λ p. (is_webhook p ≡ false) ⊎ (text_eq p.delivery_id d.delivery_id ≡ false))
            (pending_deliveries o.now 50 ds)
            (λ p i.
              let (stands, due) = pending_deliveries-In o.now p ds i in
              elim (Bool-cases (text_eq p.delivery_id d.delivery_id)) [
                | inl t ↦
                    let same =
                      row_unique p d ds u stands here
                        ((text_eq_iff p.delivery_id d.delivery_id).0 t) in
                    elim skipped [
                      | inl m ↦ inl (ap is_webhook same ∙ m)
                      | inr n ↦ absurd (cc (ap (is_due o.now) same, due, n))
                    ]
                | inr t ↦ inr t
              ]) in
        if_cases (λ (r : List Delivery × List AlertError). find_delivery d.delivery_id r.0 ≡ some d)
          o.query_works _ _
          (λ _.
            retry_loop-other (pending_deliveries o.now 50 ds) d.delivery_id ds (Own-pending ds own)
              alone
            ∙ f)
          (λ _. f)

    pub retry_pending-Kept : (ds : List Delivery) → Kept ds (retry_pending o hooks ds).0
    unfolding retry_pending
    retry_pending-Kept ds =
        if_cases (λ (r : List Delivery × List AlertError). Kept ds r.0) o.query_works _ _
          (λ _. retry_loop-Kept (pending_deliveries o.now 50 ds) ds) (λ _. (refl, refl))
