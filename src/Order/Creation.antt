-- ===== src/Order/Creation.antt =====
-- CreateOrder of services/order-service/internal/usecase/usecase.go: what it records, and when the
-- saga is started.
use go_ozon_marketplace.Prelude.{
  ℕ, ◌+◌, ◌*◌, ◌^◌, ◌<◌, ◌≡◌, refl, ap, ◌∙◌, ◌⊎◌, inl, inr, List, [], ◌∷◌, Option, none, some, ◌==◌,
  if◌then◌else◌, arith, Bool-cases, Option-cases, ==_iff, All,
}
use go_ozon_marketplace.Prelude.Effect.{Error, invalid_argument, Result, ok, err}
use go_ozon_marketplace.Database.{Db, Fault, run_tx}
use go_ozon_marketplace.Database.Laws.{
  OnOk, bind-OnOk, statement-OnOk, AllOrNothing, run_tx-AllOrNothing,
}
use go_ozon_marketplace.Order.Status
use go_ozon_marketplace.Order.Domain.{OrderItem, Order}
use go_ozon_marketplace.Order.Repository.{
  Tables, OutboxEvent, OrderRow, find_order, add_order, order_row, has_item, has_event,
  insert_order_row, insert_item, insert_items, create_order_rows, create_outbox_event,
}
use go_ozon_marketplace.Order.Usecase.{
  int64, total_from, number_items, check_prices, new_order, outbox_event_from_order, create_body,
  Service, Orchestrator, saga_result, start_saga, record_order, create_order,
}

-- The sum of the prices.
abbrev pub price_sum : List OrderItem → ℕ
price_sum [] = 0
price_sum (i ∷ is) = i.price * i.quantity + price_sum is

total_from-sum :
    (total : ℕ) (items : List OrderItem)
    → total + price_sum items < 2 ^ 64
    → total_from total items ≡ total + price_sum items
unfolding total_from
total_from-sum total [] h = omega arith
total_from-sum total (i ∷ is) h =
    let one : int64 (i.price * i.quantity) ≡ i.price * i.quantity = omega (arith, h) in
    let two : int64 (total + i.price * i.quantity) ≡ total + i.price * i.quantity =
      omega (arith, h) in
    rw (one, two)
      (omega (arith, total_from-sum (total + i.price * i.quantity) is (omega (arith, h))))

-- Where the prices of the items add up to less than 2^63 cents, the total of a new order is their
-- sum, and as the bit pattern of an int64 it stands for no negative number.
pub new_order-total :
    (id : ℕ) (item_id : ℕ → ℕ) (time user : ℕ) (items : List OrderItem)
    → price_sum items < 2 ^ 63
    → let total = (new_order id item_id time user items).total_amount in
      (total ≡ price_sum items) × (total < 2 ^ 63)
new_order-total id item_id time user items h =
    let same : total_from 0 items ≡ price_sum items =
      omega (arith, total_from-sum 0 items (omega (arith, h))) in
    (same, omega (arith, same, h))

-- Every item has the price of the catalog.
abbrev pub IsPriced : (ℕ → Result (Option ℕ)) → List OrderItem → Type 0
IsPriced get_product items = All (λ i. get_product i.product_id ≡ ok (some i.price)) items

check_prices-IsPriced :
    (get_product : ℕ → Result (Option ℕ)) (items : List OrderItem)
    → check_prices get_product items ≡ none
    → IsPriced get_product items
unfolding check_prices
check_prices-IsPriced get_product [] h = tt
check_prices-IsPriced get_product (i ∷ is) h =
    by_answer (get_product i.product_id) refl (check_prices-IsPriced get_product is) h
  where
    by_answer :
        (r : Result (Option ℕ))
        → get_product i.product_id ≡ r
        → (check_prices get_product is ≡ none → IsPriced get_product is)
        → (elim r as (λ _. Option Error) [
          | err e ↦ some e
          | ok none ↦ some invalid_argument
          | ok (some price) ↦
              if price == i.price then check_prices get_product is else some invalid_argument
        ])
          ≡ none
        → IsPriced get_product (i ∷ is)
    by_answer (err e) a k h = cc
    by_answer (ok none) a k h = cc
    by_answer (ok (some price)) a k h = elim (Bool-cases (price == i.price)) [
      | inl same ↦ (a ∙ ap (λ p. ok (some p)) ((==_iff price i.price).0 same), k (rw same at h))
      | inr differs ↦ absurd (let h' = rw differs at h in cc h')
    ]

-- The rows of the items, inserted one after the other.
abbrev pub stored : List OrderItem → List OrderItem → List OrderItem
stored [] rows = rows
stored (i ∷ is) rows = stored is (i ∷ rows)

-- The order, its items and its event are in the tables.
abbrev pub Recorded : ℕ → Order → Tables → Tables → Type 0
Recorded event order t t' = t' ≡ record {
  orders =
      record {
        id = order.id;
        user_id = order.user_id;
        total_amount = order.total_amount;
        status = order.status;
        created_at = order.created_at;
        updated_at = order.updated_at;
      }
      ∷ t.orders;
  order_items = stored order.items t.order_items;
  outbox =
      record { id = event; aggregate_id = order.id; payload = order; created_at = order.created_at }
      ∷ t.outbox;
}

-- The items of the request, in their order, each with the id that was drawn for it and with the id of
-- the order.
abbrev pub Numbers : ℕ → (ℕ → ℕ) → ℕ → List OrderItem → List OrderItem → Type 0
Numbers order item_id n [] [] = Unit
Numbers order item_id n (i ∷ is) (j ∷ js) =
    (j ≡ record {
      id = item_id n;
      order_id = order;
      product_id = i.product_id;
      quantity = i.quantity;
      price = i.price;
    })
    × Numbers order item_id (n + 1) is js
Numbers order item_id n _ _ = ⊥

number_items-Numbers :
    (order : ℕ) (item_id : ℕ → ℕ) (n : ℕ) (items : List OrderItem)
    → Numbers order item_id n items (number_items order item_id n items)
unfolding number_items
number_items-Numbers order item_id n [] = tt
number_items-Numbers order item_id n (i ∷ is) =
    (refl, number_items-Numbers order item_id (n + 1) is)

-- The order is a pending one of the user for these items, made at this time.
abbrev pub IsOrderFor : ℕ → (ℕ → ℕ) → ℕ → ℕ → List OrderItem → Order → Type 0
IsOrderFor id item_id time user items order =
    (order.id ≡ id)
    × (order.user_id ≡ user)
    × (order.status ≡ Status.pending)
    × (order.created_at ≡ time)
    × (order.updated_at ≡ time)
    × Numbers id item_id 0 items order.items

abbrev Is : Tables → Unit {0} → Tables → Type 0
Is expected _ t = t ≡ expected

row-Is :
    (order : Order) (t : Tables) (fs : List Fault)
    → OnOk (Is (record t { orders = order_row order ∷ t.orders })) (insert_order_row order (t, fs))
unfolding insert_order_row
row-Is order t fs = statement-OnOk _ _ t fs (by_row (find_order order.id t.orders))
  where
    by_row :
        (o : Option OrderRow)
        → let r = add_order order t o in
          OnOk (Is (record t { orders = order_row order ∷ t.orders })) (r.0, (r.1, []))
    by_row none = refl
    by_row (some _) = tt

item-Is :
    (i : OrderItem) (t : Tables) (fs : List Fault)
    → OnOk (Is (record t { order_items = i ∷ t.order_items })) (insert_item i (t, fs))
unfolding insert_item
item-Is i t fs = statement-OnOk _ _ t fs (elim (Bool-cases (has_item i.id t.order_items)) [
  | inl taken ↦ rw taken tt
  | inr free ↦ rw free refl
])

event-Is :
    (e : OutboxEvent) (t : Tables) (fs : List Fault)
    → OnOk (Is (record t { outbox = e ∷ t.outbox })) (create_outbox_event e (t, fs))
unfolding create_outbox_event
event-Is e t fs = statement-OnOk _ _ t fs (elim (Bool-cases (has_event e.id t.outbox)) [
  | inl taken ↦ rw taken tt
  | inr free ↦ rw free refl
])

items-Is :
    (is : List OrderItem) (t : Tables) (fs : List Fault)
    → OnOk (Is (record t { order_items = stored is t.order_items })) (insert_items is (t, fs))
unfolding insert_items
items-Is [] t fs = refl
items-Is (i ∷ is) t fs =
    bind-OnOk (Is (record t { order_items = i ∷ t.order_items }))
      (Is (record t { order_items = stored (i ∷ is) t.order_items })) (insert_item i)
      (λ _. insert_items is) (t, fs) (item-Is i t fs)
      (λ _ u gs same. rw same (items-Is is (record t { order_items = i ∷ t.order_items }) gs))

create_body-Recorded :
    (event : ℕ) (order : Order) (t : Tables) (fs : List Fault)
    → OnOk (λ _ t'. Recorded event order t t') (create_body event order (t, fs))
unfolding create_body create_order_rows
create_body-Recorded event order t fs =
    let t₁ : Tables = record t { orders = order_row order ∷ t.orders } in
    let t₂ : Tables = record t₁ { order_items = stored order.items t.order_items } in
    bind-OnOk (Is t₂) (λ _ t'. Recorded event order t t') (create_order_rows order)
      (λ _. create_outbox_event (outbox_event_from_order event order)) (t, fs)
      (bind-OnOk (Is t₁) (Is t₂) (insert_order_row order) (λ _. insert_items order.items) (t, fs)
        (row-Is order t fs) (λ _ u gs same. rw same (items-Is order.items t₁ gs)))
      (λ _ u gs same. rw same (event-Is (outbox_event_from_order event order) t₂ gs))

-- CreateOrder failed, with an error and without an id: no table has changed, or the commit took
-- effect and its answer was lost.
abbrev pub Fails : ℕ → Order → Service → (Option ℕ × Option Error) × Service → Type 0
Fails event order s r =
    (r.0.0 ≡ none)
    × ((e : Error) × (r.0.1 ≡ some e))
    × ((r.1.db.0 ≡ s.db.0) ⊎ Recorded event order s.db.0 r.1.db.0)

-- No error, or the one that was returned.
abbrev pub Reports : Result (Unit {0}) → Option Error → Type 0
Reports (ok _) error = error ≡ none
Reports (err e) error = error ≡ some e

-- The order, its items and its event were recorded; after that the event that the order is pending was
-- published, and then the orchestrator was called with the order and the key: what it leaves is what is
-- left, and the answer is the id of the order, with the error of the orchestrator if it returned one.
abbrev pub Starts :
    Orchestrator → ℕ → ℕ → Order → Service → (Option ℕ × Option Error) × Service → Type 0
Starts orchestrator key event order s ((id, error), s') =
    (db : Db Tables) × Recorded event order s.db.0 db.0
    × let (r, after) =
        orchestrator.process_order order key
          (record { db = db; published = (order.id, order.status) ∷ s.published }) in
      (id ≡ some order.id) × (s' ≡ after) × Reports r error

start_saga-Starts :
    (orchestrator : Orchestrator) (key event : ℕ) (order : Order) (s : Service) (db : Db Tables)
    → Recorded event order s.db.0 db.0
    → Starts orchestrator key event order s
        (start_saga orchestrator key order (record s { db = db }))
start_saga-Starts orchestrator key event order s db done = (
  db,
  done,
  by_result (
      orchestrator.process_order order key
        (record { db = db; published = (order.id, order.status) ∷ s.published })),
)
  where
    by_result :
        (r : Result (Unit {0}) × Service)
        → let x = saga_result order.id r in
          (x.0.0 ≡ some order.id) × (x.1 ≡ r.1) × Reports r.0 x.0.1
    by_result (ok _, s₁) = (refl, refl, refl)
    by_result (err e, s₁) = (refl, refl, refl)

module _ (orchestrator : Orchestrator) (key event : ℕ) where
  record_order-Starts :
      (order : Order) (s : Service)
      → let r = record_order orchestrator key event order s in
        Fails event order s r ⊎ Starts orchestrator key event order s r
  unfolding record_order
  record_order-Starts order s = by_result (run_tx (create_body event order) s.db) (
      run_tx-AllOrNothing _ (create_body event order) s.db.0 s.db.1
        (create_body-Recorded event order s.db.0))
    where
      by_result :
          (r : Result (Unit {0}) × Db Tables)
          → AllOrNothing (λ _ t'. Recorded event order s.db.0 t') s.db.0 r
          → let x = elim r.0 as (λ _. (Option ℕ × Option Error) × Service) [
            | err e ↦ ((none, some e), record s { db = r.1 })
            | ok _ ↦ start_saga orchestrator key order (record s { db = r.1 })
          ] in
            Fails event order s x ⊎ Starts orchestrator key event order s x
      by_result (ok _, db) done = inr (start_saga-Starts orchestrator key event order s db done)
      by_result (err e, db) (inl same) = inl (refl, (e, refl), inl same)
      by_result (err e, db) (inr (_, done)) = inl (refl, (e, refl), inr done)

  -- There is a pending order of the user at that time, whose items are those of the request with their
  -- new ids and its id, such that CreateOrder fails with an error and records nothing (a lost answer to
  -- the commit apart); or every price is the catalog's, the order, its items and its outbox event are
  -- recorded together, the event is published after that, and the orchestrator is called with the order
  -- and the key, whose outcome is that of CreateOrder.
  pub create_order-Starts :
      (get_product : ℕ → Result (Option ℕ)) (id : ℕ) (item_id : ℕ → ℕ) (time user : ℕ)
      (items : List OrderItem) (s : Service)
      → let r = create_order orchestrator key get_product id item_id event time user items s in
        (order : Order) × IsOrderFor id item_id time user items order
        × (Fails event order s r
            ⊎ (IsPriced get_product items × Starts orchestrator key event order s r))
  unfolding create_order
  create_order-Starts get_product id item_id time user items s = (
    new_order id item_id time user items,
    (refl, refl, refl, refl, refl, number_items-Numbers id item_id 0 items),
    elim (Option-cases (check_prices get_product items)) [
      | inr (e, refused) ↦ rw (create_order, refused) (inl (refl, (e, refl), inl refl))
      | inl priced ↦
          rw (create_order, priced)
            (elim (record_order-Starts (new_order id item_id time user items) s) [
              | inl fails ↦ inl fails
              | inr starts ↦ inr (check_prices-IsPriced get_product items priced, starts)
            ])
    ],
  )
