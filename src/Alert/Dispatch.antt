-- ===== src/Alert/Dispatch.antt =====
-- dispatcher.go and the backoff of webhook.go. What an endpoint answers is a parameter.
use sentinel_host.Prelude.{
  ℕ, zero, suc, Bool, true, false, not, ◌||◌, ◌+◌, ◌-◌, ◌*◌, Option, none, some, List, [], ◌∷◌,
  Text, codes, text_eq, leb, ltb, any_of, if◌then◌else◌,
}
use sentinel_host.Schema.Types.{Time, is_zero_time}
use sentinel_host.Alert.Deliveries.{
  Delivery, pending, enqueue, record_attempt, pending_deliveries, find_delivery,
}

-- `config.Webhook`, the part that the dispatcher reads.
pub record Webhook : Type 0 where
  pub id : Text
  pub enabled : Bool
  pub events : List Text

-- `Deliver`: the request could not be built, or an answer with its status; a reason if it is not a success.
pub data Answer : Type 0 where
  unbuilt : Text → Answer
  answered : Bool → ℕ → Option Text → Answer

-- What surrounds one call: the clock, the endpoints by delivery and attempt, whether the database takes the
-- update of a delivery, and the encoding of payloads, which holds the id of the delivery. The
-- clock is read once for a whole pass, where the code reads it again after each request.
pub record Outside : Type 0 where
  pub now : Time
  pub answer : Text → ℕ → Answer
  pub records : Text → Bool
  pub encode : Text → Text → Option Text
  pub decode : Text → Option Text
  pub query_works : Bool
  pub enqueue_works : Text → Bool

pub data AlertError : Type 0 where
  not_built : Text → AlertError
  gave_up not_recorded not_encoded not_enqueued : Text → AlertError
  no_rows : AlertError

abbrev pub max_attempts : ℕ
max_attempts = 5

abbrev pub second : ℕ
second = 1000000000

-- `for i := 1; i < attempt; i++ { d *= 4 }` with the number of its rounds.
unfoldable pub quadruple : ℕ → ℕ → ℕ
quadruple zero d = d
quadruple (suc n) d = quadruple n (d * 4)

unfoldable pub backoff : ℕ → ℕ
unfolding quadruple
backoff attempt =
    if ltb attempt 1 || leb max_attempts attempt then 0 else quadruple (attempt - 1) second

abbrev pub next_time : Time → ℕ → Time
next_time now b = if ltb 0 b then now + b else 0

abbrev pub reason_or : Option Text → Text
reason_or none = codes "no response"
reason_or (some e) = e

-- An update that the database refuses changes nothing.
unfoldable pub try_record :
    Outside → Text → Bool → ℕ → Text → (next : Time) → List Delivery → List Delivery
unfolding record_attempt
try_record o id ok http msg next ds =
    if o.records id then record_attempt o.now id ok http msg next ds else ds

-- A success counts only if its update found a row.
abbrev pub recorded : Bool → Option Delivery → Text → Option AlertError
recorded works none id = some (not_recorded id)
recorded works (some d) id = if works then none else some (not_recorded id)

unfoldable pub attempt_webhook :
    Outside → Text → ℕ → List Delivery → Answer → List Delivery × Option AlertError
unfolding try_record backoff find_delivery
attempt_webhook o id attempt ds (unbuilt e) = (try_record o id false 0 e 0 ds, some (not_built e))
attempt_webhook o id attempt ds (answered true http r) =
    (try_record o id true http [] 0 ds, recorded (o.records id) (find_delivery id ds) id)
attempt_webhook o id attempt ds (answered false http r) =
    let next = next_time o.now (backoff attempt) in
    (
      try_record o id false http (reason_or r) next ds,
      if is_zero_time next then some (gave_up (reason_or r)) else none,
    )

abbrev pub is_webhook : Delivery → Bool
is_webhook d = text_eq d.channel (codes "webhook")

unfoldable pub webhook_by_id : Text → List Webhook → Option Webhook
webhook_by_id id [] = none
webhook_by_id id (w ∷ ws) = if text_eq w.id id then some w else webhook_by_id id ws

abbrev pub is_enabled : Option Webhook → Bool
is_enabled none = false
is_enabled (some w) = w.enabled

abbrev pub add_error : Option AlertError → List AlertError → List AlertError
add_error none es = es
add_error (some e) es = e ∷ es

-- A delivery with a payload, by the id in that payload.
unfoldable pub retry_decoded :
    Outside → Delivery → List Delivery → Option Text → List Delivery × Option AlertError
unfolding attempt_webhook
retry_decoded o d ds none =
    (try_record o d.delivery_id false 0 (codes "the delivery payload is corrupted") 0 ds, none)
retry_decoded o d ds (some id) =
    attempt_webhook o id (d.attempts + 1) ds (o.answer id (d.attempts + 1))

-- One round of the loop of `RetryPending`.
unfoldable pub retry_one :
    Outside → List Webhook → Delivery → List Delivery → List Delivery × Option AlertError
unfolding retry_decoded webhook_by_id
retry_one o hooks d ds =
    if not (is_webhook d)
    then (ds, none)
    else if not (is_enabled (webhook_by_id d.target hooks))
    then (
      try_record o d.delivery_id false 0 (codes "the webhook was removed from the configuration") 0
          ds,
      none,
    )
    else retry_decoded o d ds (o.decode d.payload_json)

unfoldable pub retry_loop :
    Outside → List Webhook → List Delivery → List Delivery → List Delivery × List AlertError
unfolding retry_one
retry_loop o hooks [] ds = (ds, [])
retry_loop o hooks (d ∷ todo) ds =
    let one = retry_one o hooks d ds in
    let rest = retry_loop o hooks todo one.0 in (rest.0, add_error one.1 rest.1)

unfoldable pub retry_pending :
    Outside → List Webhook → List Delivery → List Delivery × List AlertError
unfolding retry_loop pending_deliveries
retry_pending o hooks ds =
    if o.query_works
    then retry_loop o hooks (pending_deliveries o.now 50 ds) ds
    else (ds, no_rows ∷ [])

abbrev pub new_delivery : Time → Text → Text → Text → Text → Delivery
new_delivery now id target event payload = record {
  delivery_id = id;
  channel = codes "webhook";
  target = target;
  event = event;
  payload_json = payload;
  status = pending;
  attempts = 0;
  http_status = 0;
  error = [];
  created_at = now;
  last_attempt_at = 0;
  next_attempt_at = 0;
  delivered_at = 0;
}

abbrev pub enqueued : Bool → Option (List Delivery) → Option (List Delivery)
enqueued works o = if works then o else none

-- The loop of `dispatchWebhooks` for one webhook that wants the event: first the row, then the attempt.
unfoldable pub dispatch_queued :
    Outside → Text → List Delivery → Option (List Delivery) → List Delivery × Option AlertError
unfolding attempt_webhook
dispatch_queued o id ds none = (ds, some (not_enqueued id))
dispatch_queued o id ds (some queued) = attempt_webhook o id 1 queued (o.answer id 1)

unfoldable pub dispatch_encoded :
    Outside → Text → Text → Text → List Delivery → Option Text → List Delivery × Option AlertError
unfolding dispatch_queued enqueue
dispatch_encoded o id target event ds none = (ds, some (not_encoded id))
dispatch_encoded o id target event ds (some payload) =
    dispatch_queued o id ds
      (enqueued (o.enqueue_works id) (enqueue (new_delivery o.now id target event payload) ds))

abbrev pub subscribed : Webhook → Text → Bool
subscribed w event = any_of (λ e. text_eq e event) w.events

-- `fresh` gives the random id of the n-th envelope.
unfoldable pub dispatch_webhooks :
    Outside
    → (fresh : ℕ → Text) → Text
    → ℕ
    → List Webhook
    → List Delivery
    → List Delivery × List AlertError
unfolding dispatch_encoded
dispatch_webhooks o fresh event n [] ds = (ds, [])
dispatch_webhooks o fresh event n (w ∷ ws) ds =
    let one : List Delivery × Option AlertError =
      if not w.enabled || not (subscribed w event)
      then (ds, none)
      else dispatch_encoded o (fresh n) w.id event ds (o.encode event (fresh n)) in
    let rest = dispatch_webhooks o fresh event (n + 1) ws one.0 in (rest.0, add_error one.1 rest.1)
