-- ===== src/Alert/Lookup.antt =====
-- What an update and a pass over the deliveries do to the row of one delivery.
use mathlib.Core.Path.{subst}
use sentinel_host.Prelude.{
  ℕ, Bool, false, Option, none, some, List, [], ◌∷◌, Text, text_eq, text_eq_iff, text_eq_refl,
  text_ne, length, ◌≡◌, refl, sym, ap, ◌∙◌, inl, inr, Bool-cases, arith, In, Distinct,
}
use sentinel_host.Schema.Types.{Time}
use sentinel_host.Alert.Deliveries.{Delivery, ids, find_delivery, attempted, record_attempt}

abbrev pub update_found : (Delivery → Delivery) → Option Delivery → Option Delivery
update_found f none = none
update_found f (some d) = some (f d)

-- An update changes the row of its id.
pub record_attempt-same :
    (now : Time) (id : Text) (ok : Bool) (http : ℕ) (msg : Text) (next : Time) (ds : List Delivery)
    → find_delivery id (record_attempt now id ok http msg next ds)
      ≡ update_found (attempted now ok http msg next) (find_delivery id ds)
unfolding record_attempt find_delivery
record_attempt-same now id ok http msg next [] = refl
record_attempt-same now id ok http msg next (d ∷ ds) =
    ground (arith, record_attempt-same now id ok http msg next ds)

-- An update leaves every other row alone.
pub record_attempt-other :
    (now : Time) (id q : Text) (ok : Bool) (http : ℕ) (msg : Text) (next : Time)
    (ds : List Delivery)
    → text_eq id q ≡ false
    → find_delivery q (record_attempt now id ok http msg next ds) ≡ find_delivery q ds
unfolding record_attempt find_delivery
record_attempt-other now id q ok http msg next [] h = refl
record_attempt-other now id q ok http msg next (d ∷ ds) h =
    elim (Bool-cases (text_eq d.delivery_id id)) [
      | inl e ↦
          let same = (text_eq_iff d.delivery_id id).0 e in
          let apart : text_eq d.delivery_id q ≡ false = ap (λ t. text_eq t q) same ∙ h in
          ground (arith, record_attempt-other now id q ok http msg next ds)
      | inr e ↦ ground (arith, record_attempt-other now id q ok http msg next ds)
    ]

-- The ids, the channels and the payloads of the rows stay.
abbrev pub payloads : List Delivery → List (Text × Text)
payloads [] = []
payloads (d ∷ ds) = (d.channel, d.payload_json) ∷ payloads ds

abbrev pub Kept : List Delivery → List Delivery → Type 0
Kept ds es = (ids es ≡ ids ds) × (payloads es ≡ payloads ds)

pub record_attempt-Kept :
    (now : Time) (id : Text) (ok : Bool) (http : ℕ) (msg : Text) (next : Time) (ds : List Delivery)
    → Kept ds (record_attempt now id ok http msg next ds)
unfolding record_attempt
record_attempt-Kept now id ok http msg next [] = (refl, refl)
record_attempt-Kept now id ok http msg next (d ∷ ds) =
    let (same, alike) = record_attempt-Kept now id ok http msg next ds in
    (ground (arith, same), ground (arith, alike))

pub length-ids : (ds : List Delivery) → length (ids ds) ≡ length ds
length-ids [] = refl
length-ids (d ∷ ds) = ground (arith, length-ids ds)

find_delivery-id :
    (id : Text) (d : Delivery) (ds : List Delivery)
    → find_delivery id ds ≡ some d
    → d.delivery_id ≡ id
unfolding find_delivery
find_delivery-id id d [] h = absurd (cc h)
find_delivery-id id d (e ∷ ds) h = elim (Bool-cases (text_eq e.delivery_id id)) [
  | inl t ↦
      let same = (text_eq_iff e.delivery_id id).0 t in
      let here : e ≡ d = ground arith in ap (λ (x : Delivery). x.delivery_id) (sym here) ∙ same
  | inr f ↦ find_delivery-id id d ds (ground arith)
]

pub find_delivery-In :
    (id : Text) (d : Delivery) (ds : List Delivery) → find_delivery id ds ≡ some d → In d ds
unfolding find_delivery
find_delivery-In id d [] h = absurd (cc h)
find_delivery-In id d (e ∷ ds) h = ground (arith, find_delivery-In id d ds)

In-ids : (d : Delivery) (ds : List Delivery) → In d ds → In d.delivery_id (ids ds)
In-ids d [] i = absurd i
In-ids d (e ∷ ds) (inl q) = inl (ap (λ (x : Delivery). x.delivery_id) q)
In-ids d (e ∷ ds) (inr i) = inr (In-ids d ds i)

pub id_apart :
    (i : Text) (d : Delivery) (ds : List Delivery)
    → (¬ In i (ids ds))
    → In d ds
    → text_eq i d.delivery_id ≡ false
id_apart i d ds n j =
    text_ne i d.delivery_id (λ q. n (subst (λ t. In t (ids ds)) (sym q) (In-ids d ds j)))

-- One row for each id.
pub row_unique :
    (p d : Delivery) (ds : List Delivery)
    → Distinct (ids ds)
    → In p ds
    → In d ds
    → p.delivery_id ≡ d.delivery_id
    → p ≡ d
row_unique p d [] u i j e = absurd i
row_unique p d (x ∷ ds) u (inl q) (inl r) e = q ∙ sym r
row_unique p d (x ∷ ds) u (inl q) (inr j) e = absurd (
    u.0
      (subst (λ t. In t (ids ds)) (sym e ∙ ap (λ (y : Delivery). y.delivery_id) q) (In-ids d ds j)))
row_unique p d (x ∷ ds) u (inr i) (inl r) e =
    absurd (
      u.0 (subst (λ t. In t (ids ds)) (e ∙ ap (λ (y : Delivery). y.delivery_id) r) (In-ids p ds i)))
row_unique p d (x ∷ ds) u (inr i) (inr j) e = row_unique p d ds u.1 i j e

find_delivery_self :
    (d : Delivery) (ds : List Delivery)
    → Distinct (ids ds)
    → In d ds
    → find_delivery d.delivery_id ds ≡ some d
unfolding find_delivery
find_delivery_self d [] u i = absurd i
find_delivery_self d (x ∷ ds) u (inl q) =
    rw
      (sym (ap (λ (y : Delivery). text_eq y.delivery_id d.delivery_id) q)
        ∙ text_eq_refl d.delivery_id)
      (ap some (sym q))
find_delivery_self d (x ∷ ds) u (inr i) =
    let apart = id_apart x.delivery_id d ds u.0 i in rw apart (find_delivery_self d ds u.1 i)
