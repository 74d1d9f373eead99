-- ===== src/Alert/Retry.antt =====
-- What an attempt does to the row of its delivery.
use sentinel_host.Prelude.{
  ℕ, zero, suc, Bool, true, false, ◌+◌, ◌*◌, ◌≤◌, ◌<◌, some, List, [], Text, text_eq, ltb, ◌≡◌,
  refl, ap, ◌∙◌, ◌⊎◌, inl, inr, Bool-cases, arith, if_cases,
}
use sentinel_host.Schema.Types.{Time}
use sentinel_host.Alert.Deliveries.{Delivery, is_pending, find_delivery, attempted}
use sentinel_host.Alert.Dispatch.{
  Answer, unbuilt, answered, Outside, second, quadruple, backoff, next_time, try_record,
  attempt_webhook, reason_or,
}
use sentinel_host.Alert.Lookup.{
  Kept, update_found, record_attempt-same, record_attempt-other, record_attempt-Kept,
}

-- The last attempt has no successor, and the waits before the others are at most 64 seconds.
backoff_cases : (n : ℕ) → (backoff n ≡ 0) ⊎ ((n < 5) × (backoff n ≤ 64 * second))
unfolding backoff quadruple
backoff_cases zero = inl refl
backoff_cases (suc zero) = inr (omega arith, omega arith)
backoff_cases (suc (suc zero)) = inr (omega arith, omega arith)
backoff_cases (suc (suc (suc zero))) = inr (omega arith, omega arith)
backoff_cases (suc (suc (suc (suc zero)))) = inr (omega arith, omega arith)
backoff_cases (suc (suc (suc (suc (suc n))))) = inl (ground arith)

-- What an attempt leaves of a row: it is closed, or it has one attempt more, fewer than five, and is due again in
-- at most 64 seconds.
abbrev pub Closed : Delivery → Type 0
Closed d = is_pending d.status ≡ false

abbrev pub Advanced : Time → Delivery → Delivery → Type 0
Advanced now d e =
    (e.payload_json ≡ d.payload_json)
    × (e.delivery_id ≡ d.delivery_id)
    × (e.channel ≡ d.channel)
    × (Closed e
        ⊎ ((e.attempts ≡ d.attempts + 1)
            × (d.attempts + 1 < 5)
            × (e.next_attempt_at ≤ now + 64 * second)))

attempted-Advanced :
    (now : Time) (ok : Bool) (http : ℕ) (msg : Text) (n : ℕ) (d : Delivery)
    → n ≡ d.attempts + 1
    → Advanced now d (attempted now ok http msg (next_time now (backoff n)) d)
attempted-Advanced now ok http msg n d e = elim (backoff_cases n) [
  | inl z ↦ (refl, refl, refl, inl (ground (arith, z)))
  | inr (lt, le) ↦ elim (Bool-cases ok) [
    | inl t ↦ (refl, refl, refl, inl (ground (arith, t)))
    | inr f ↦ elim (Bool-cases (ltb 0 (backoff n))) [
      | inl p ↦ (refl, refl, refl, inr (refl, omega (arith, e, lt), ground (arith, p, le)))
      | inr p ↦ (refl, refl, refl, inl (ground (arith, p, f)))
    ]
  ]
]

pub attempted-Closed :
    (now : Time) (ok : Bool) (http : ℕ) (msg : Text) (d : Delivery)
    → Advanced now d (attempted now ok http msg 0 d)
attempted-Closed now ok http msg d = (refl, refl, refl, inl (ground arith))

pub Kept-trans : (ds es fs : List Delivery) → Kept ds es → Kept es fs → Kept ds fs
Kept-trans ds es fs (a, b) (c, d) = (c ∙ a, d ∙ b)

module _ (o : Outside) where
  try_record-same :
      (id : Text) (ok : Bool) (http : ℕ) (msg : Text) (next : Time) (ds : List Delivery)
      → o.records id ≡ true
      → find_delivery id (try_record o id ok http msg next ds)
        ≡ update_found (attempted o.now ok http msg next) (find_delivery id ds)
  unfolding try_record
  try_record-same id ok http msg next ds h = rw h (record_attempt-same o.now id ok http msg next ds)

  pub try_record-other :
      (id q : Text) (ok : Bool) (http : ℕ) (msg : Text) (next : Time) (ds : List Delivery)
      → text_eq id q ≡ false
      → find_delivery q (try_record o id ok http msg next ds) ≡ find_delivery q ds
  unfolding try_record
  try_record-other id q ok http msg next ds h =
      if_cases (λ r. find_delivery q r ≡ find_delivery q ds) (o.records id) _ _
        (λ _. record_attempt-other o.now id q ok http msg next ds h) (λ _. refl)

  pub try_record-Kept :
      (id : Text) (ok : Bool) (http : ℕ) (msg : Text) (next : Time) (ds : List Delivery)
      → Kept ds (try_record o id ok http msg next ds)
  unfolding try_record
  try_record-Kept id ok http msg next ds =
      if_cases (Kept ds) (o.records id) _ _ (λ _. record_attempt-Kept o.now id ok http msg next ds)
        (λ _. (refl, refl))

  pub attempt_webhook-Kept :
      (id : Text) (n : ℕ) (ds : List Delivery) (a : Answer)
      → Kept ds (attempt_webhook o id n ds a).0
  unfolding attempt_webhook
  attempt_webhook-Kept id n ds (unbuilt e) = try_record-Kept id false 0 e 0 ds
  attempt_webhook-Kept id n ds (answered true http r) = try_record-Kept id true http [] 0 ds
  attempt_webhook-Kept id n ds (answered false http r) =
      try_record-Kept id false http (reason_or r) (next_time o.now (backoff n)) ds

  pub attempt_webhook-other :
      (id q : Text) (n : ℕ) (ds : List Delivery) (a : Answer)
      → text_eq id q ≡ false
      → find_delivery q (attempt_webhook o id n ds a).0 ≡ find_delivery q ds
  unfolding attempt_webhook
  attempt_webhook-other id q n ds (unbuilt e) h = try_record-other id q false 0 e 0 ds h
  attempt_webhook-other id q n ds (answered true http r) h =
      try_record-other id q true http [] 0 ds h
  attempt_webhook-other id q n ds (answered false http r) h =
      try_record-other id q false http (reason_or r) (next_time o.now (backoff n)) ds h

  -- Some row of the id that is an advance of the given one.
  abbrev pub Advances : Text → Delivery → List Delivery → Type 0
  Advances id d ds = (e : Delivery) × (find_delivery id ds ≡ some e) × Advanced o.now d e

  pub try_record-Advances :
      (id : Text) (ok : Bool) (http : ℕ) (msg : Text) (next : Time) (d : Delivery)
      (ds : List Delivery)
      → o.records id ≡ true
      → find_delivery id ds ≡ some d
      → Advanced o.now d (attempted o.now ok http msg next d)
      → Advances id d (try_record o id ok http msg next ds)
  try_record-Advances id ok http msg next d ds h f a = (
    attempted o.now ok http msg next d,
    try_record-same id ok http msg next ds h
        ∙ ap (update_found (attempted o.now ok http msg next)) f,
    a,
  )

  pub attempt_webhook-Advances :
      (id : Text) (d : Delivery) (ds : List Delivery) (a : Answer)
      → o.records id ≡ true
      → find_delivery id ds ≡ some d
      → Advances id d (attempt_webhook o id (d.attempts + 1) ds a).0
  unfolding attempt_webhook
  attempt_webhook-Advances id d ds (unbuilt e) h f =
      try_record-Advances id false 0 e 0 d ds h f (attempted-Closed o.now false 0 e d)
  attempt_webhook-Advances id d ds (answered true http r) h f =
      try_record-Advances id true http [] 0 d ds h f (attempted-Closed o.now true http [] d)
  attempt_webhook-Advances id d ds (answered false http r) h f =
      let n = d.attempts + 1 in
      try_record-Advances id false http (reason_or r) (next_time o.now (backoff n)) d ds h f
        (attempted-Advanced o.now false http (reason_or r) n d refl)
