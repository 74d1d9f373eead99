-- ===== src/Alert/Due.antt =====
-- What `PendingDeliveries` hands to a pass.
use sentinel_host.Prelude.{
  ℕ, zero, suc, Bool, true, ◌+◌, ◌≤◌, List, [], ◌∷◌, Text, length, take, select, ◌≡◌, refl, ap, ◌⊎◌,
  arith, In, Distinct, In-select, In-select_intro,
}
use sentinel_host.Schema.Types.{Time}
use sentinel_host.Alert.Deliveries.{
  Delivery, ids, is_due, insert_created, by_created, pending_deliveries,
}

insert_created-In :
    (p d : Delivery) (es : List Delivery) → In p (insert_created d es) → (p ≡ d) ⊎ In p es
unfolding insert_created
insert_created-In p d [] h = h
insert_created-In p d (e ∷ es) h = ground (arith, insert_created-In p d es)

In-insert_created :
    (p d : Delivery) (es : List Delivery) → (p ≡ d) ⊎ In p es → In p (insert_created d es)
unfolding insert_created
In-insert_created p d [] h = h
In-insert_created p d (e ∷ es) h = ground (arith, In-insert_created p d es)

insert_created-ids :
    (i : Text) (d : Delivery) (es : List Delivery)
    → In i (ids (insert_created d es))
    → (i ≡ d.delivery_id) ⊎ In i (ids es)
unfolding insert_created
insert_created-ids i d [] h = h
insert_created-ids i d (e ∷ es) h = ground (arith, insert_created-ids i d es)

insert_created-Distinct :
    (d : Delivery) (es : List Delivery)
    → (¬ In d.delivery_id (ids es))
    → Distinct (ids es)
    → Distinct (ids (insert_created d es))
unfolding insert_created
insert_created-Distinct d [] n u = (n, u)
insert_created-Distinct d (e ∷ es) n u =
    ground (arith, insert_created-Distinct d es, insert_created-ids e.delivery_id d es)

by_created-In : (p : Delivery) (ds : List Delivery) → In p (by_created ds) → In p ds
unfolding by_created
by_created-In p [] h = h
by_created-In p (d ∷ ds) h =
    ground (arith, insert_created-In p d (by_created ds), by_created-In p ds)

In-by_created : (p : Delivery) (ds : List Delivery) → In p ds → In p (by_created ds)
unfolding by_created
In-by_created p [] h = h
In-by_created p (d ∷ ds) h =
    In-insert_created p d (by_created ds) (ground (arith, In-by_created p ds))

by_created-ids : (i : Text) (ds : List Delivery) → In i (ids (by_created ds)) → In i (ids ds)
unfolding by_created
by_created-ids i [] h = h
by_created-ids i (d ∷ ds) h =
    ground (arith, insert_created-ids i d (by_created ds), by_created-ids i ds)

by_created-Distinct : (ds : List Delivery) → Distinct (ids ds) → Distinct (ids (by_created ds))
unfolding by_created
by_created-Distinct [] u = u
by_created-Distinct (d ∷ ds) u =
    insert_created-Distinct d (by_created ds) (λ i. u.0 (by_created-ids d.delivery_id ds i))
      (by_created-Distinct ds u.1)

select-ids :
    (test : Delivery → Bool) (i : Text) (ds : List Delivery)
    → In i (ids (select test ds))
    → In i (ids ds)
select-ids test i [] h = h
select-ids test i (d ∷ ds) h = ground (arith, select-ids test i ds)

select-Distinct :
    (test : Delivery → Bool) (ds : List Delivery)
    → Distinct (ids ds)
    → Distinct (ids (select test ds))
select-Distinct test [] u = u
select-Distinct test (d ∷ ds) u =
    ground (arith, select-Distinct test ds, select-ids test d.delivery_id ds)

length-insert_created :
    (d : Delivery) (es : List Delivery) → length (insert_created d es) ≡ length es + 1
unfolding insert_created
length-insert_created d [] = refl
length-insert_created d (e ∷ es) = ground (arith, length-insert_created d es)

length-by_created : (ds : List Delivery) → length (by_created ds) ≡ length ds
unfolding by_created
length-by_created [] = refl
length-by_created (d ∷ ds) =
    ground (arith, length-insert_created d (by_created ds), length-by_created ds)

length-select : (test : Delivery → Bool) (ds : List Delivery) → length (select test ds) ≤ length ds
length-select test [] = omega arith
length-select test (d ∷ ds) = ground (arith, length-select test ds)

take_all : (n : ℕ) (ds : List Delivery) → length ds ≤ n → take n ds ≡ ds
take_all zero [] h = refl
take_all zero (d ∷ ds) h = absurd (omega arith)
take_all (suc n) [] h = refl
take_all (suc n) (d ∷ ds) h = ap (λ r. d ∷ r) (take_all n ds (omega arith))

take-In : (p : Delivery) (n : ℕ) (ds : List Delivery) → In p (take n ds) → In p ds
take-In p zero ds h = absurd h
take-In p (suc n) [] h = h
take-In p (suc n) (d ∷ ds) h = ground (arith, take-In p n ds)

-- What is handed to a pass is due and stands in the table.
pub pending_deliveries-In :
    (now : Time) (p : Delivery) (ds : List Delivery)
    → In p (pending_deliveries now 50 ds)
    → In p ds × (is_due now p ≡ true)
unfolding pending_deliveries
pending_deliveries-In now p ds h =
    In-select (is_due now) p ds (by_created-In p _ (take-In p 50 _ h))

-- Up to fifty deliveries, whatever is due is handed to a pass, once.
pub pending_deliveries_all :
    (now : Time) (ds : List Delivery)
    → length ds ≤ 50
    → Distinct (ids ds)
    → Distinct (ids (pending_deliveries now 50 ds))
      × ((p : Delivery) → In p ds → is_due now p ≡ true → In p (pending_deliveries now 50 ds))
unfolding pending_deliveries
pending_deliveries_all now ds long u =
    let due = select (is_due now) ds in
    let fits : length (by_created due) ≤ 50 =
      omega (arith, length-by_created due, length-select (is_due now) ds) in
    rw (take_all 50 (by_created due) fits) (
      by_created-Distinct due (select-Distinct (is_due now) ds u),
      (λ p i t. In-by_created p due (In-select_intro (is_due now) p ds i t)),
    )
