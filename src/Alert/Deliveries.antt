-- ===== src/Alert/Deliveries.antt =====
-- store/deliveries.go: the table of deliveries as a list of its rows in the order of insertion.
use sentinel_host.Prelude.{
  ℕ, Bool, true, false, ◌||◌, ◌&&◌, ◌+◌, Option, none, some, List, [], ◌∷◌, ◌++◌, Text, text_eq,
  leb, ltb, ◌==◌, select, take, if◌then◌else◌,
}
use sentinel_host.Schema.Types.{Time, is_zero_time}

pub data DeliveryStatus : Type 0 where
  pending delivered failed : DeliveryStatus

-- The zero time stands for NULL.
pub record Delivery : Type 0 where
  pub delivery_id : Text
  pub channel : Text
  pub target : Text
  pub event : Text
  pub payload_json : Text
  pub status : DeliveryStatus
  pub attempts : ℕ
  pub http_status : ℕ
  pub error : Text
  pub created_at : Time
  pub last_attempt_at : Time
  pub next_attempt_at : Time
  pub delivered_at : Time

abbrev pub is_pending : DeliveryStatus → Bool
is_pending pending = true
is_pending _ = false

abbrev pub ids : List Delivery → List Text
ids [] = []
ids (d ∷ ds) = d.delivery_id ∷ ids ds

-- `GetDelivery`.
unfoldable pub find_delivery : Text → List Delivery → Option Delivery
find_delivery id [] = none
find_delivery id (d ∷ ds) = if text_eq d.delivery_id id then some d else find_delivery id ds

-- `EnqueueDelivery`; an id that is taken violates the primary key.
unfoldable pub enqueue : Delivery → List Delivery → Option (List Delivery)
unfolding find_delivery
enqueue d ds = elim (find_delivery d.delivery_id ds) [ none ↦ some (ds ++ d ∷ []) | some e ↦ none ]

-- What `RecordAttempt` sets in a row.
abbrev pub status_after : Bool → Time → DeliveryStatus
status_after ok next = if ok then delivered else if is_zero_time next then failed else pending

abbrev pub attempted : (now : Time) → Bool → ℕ → Text → (next : Time) → Delivery → Delivery
attempted now ok http msg next d = record d {
  status = status_after ok next;
  attempts = d.attempts + 1;
  http_status = http;
  error = msg;
  last_attempt_at = now;
  next_attempt_at = next;
  delivered_at = if ok then now else 0;
}

-- The update by id. Ids are unique.
unfoldable pub record_attempt :
    (now : Time) → Text → Bool → ℕ → Text → (next : Time) → List Delivery → List Delivery
record_attempt now id ok http msg next [] = []
record_attempt now id ok http msg next (d ∷ ds) =
    (if text_eq d.delivery_id id then attempted now ok http msg next d else d)
    ∷ record_attempt now id ok http msg next ds

abbrev pub is_due : Time → Delivery → Bool
is_due now d = is_pending d.status && (is_zero_time d.next_attempt_at || leb d.next_attempt_at now)

-- `ORDER BY created_at`, rows of the same time in the order of insertion.
unfoldable pub insert_created : Delivery → List Delivery → List Delivery
insert_created d [] = d ∷ []
insert_created d (e ∷ es) =
    if ltb e.created_at d.created_at then e ∷ insert_created d es else d ∷ e ∷ es

unfoldable pub by_created : List Delivery → List Delivery
unfolding insert_created
by_created [] = []
by_created (d ∷ ds) = insert_created d (by_created ds)

-- A limit of zero is none.
unfoldable pub pending_deliveries : Time → ℕ → List Delivery → List Delivery
unfolding by_created
pending_deliveries now limit ds =
    let due = by_created (select (is_due now) ds) in if limit == 0 then due else take limit due
