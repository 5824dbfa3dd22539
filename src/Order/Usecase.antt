-- ===== src/Order/Usecase.antt =====
-- CreateOrder, GetOrder, CancelOrder and UpdateOrderStatus:
-- services/order-service/internal/usecase/usecase.go and helpers.go. Timeouts are faults of the calls.
use go_ozon_marketplace.Prelude.{
  ℕ, ◌+◌, ◌*◌, ◌%◌, ◌^◌, Bool, ◌||◌, List, [], ◌∷◌, Option, none, some, ◌==◌, if◌then◌else◌,
}
use go_ozon_marketplace.Prelude.Effect.{
  Error, invalid_argument, failed_precondition, Result, ok, err, Action, fail, ◌>>=◌, ◌>>◌,
}
use go_ozon_marketplace.Database.{Db, run_tx}
use go_ozon_marketplace.Order.Status.{
  OrderStatus, same_status, can_transition, validate_transition, cancellable_directly,
}
use go_ozon_marketplace.Order.Status
use go_ozon_marketplace.Order.Domain.{OrderItem, Order}
use go_ozon_marketplace.Order.Repository.{
  Tables, OutboxEvent, create_order_rows, create_outbox_event, get_order_by_id, update_order_row,
}

-- The bit pattern of a Go int64: from 2^63 on it stands for a negative number.
abbrev pub int64 : ℕ → ℕ
int64 x = x % 2 ^ 64

-- The loop that adds up the prices, which wraps; the total is a bit pattern too.
unfoldable pub total_from : ℕ → List OrderItem → ℕ
total_from total [] = total
total_from total (i ∷ is) = total_from (int64 (total + int64 (i.price * i.quantity))) is

-- The loop over the products: `none` where every price is the catalog's. The catalog answers with an
-- error, with no product, or with a product's price.
unfoldable pub check_prices : (ℕ → Result (Option ℕ)) → List OrderItem → Option Error
check_prices get_product [] = none
check_prices get_product (i ∷ is) = elim (get_product i.product_id) [
  | err e ↦ some e
  | ok none ↦ some invalid_argument
  | ok (some price) ↦
      if price == i.price then check_prices get_product is else some invalid_argument
]

-- The items with new ids, the `n`th with `item_id n`, and the id of their order.
unfoldable pub number_items : ℕ → (ℕ → ℕ) → ℕ → List OrderItem → List OrderItem
number_items order item_id n [] = []
number_items order item_id n (i ∷ is) =
    record i { id = item_id n; order_id = order } ∷ number_items order item_id (n + 1) is

abbrev pub new_order : ℕ → (ℕ → ℕ) → ℕ → ℕ → List OrderItem → Order
new_order id item_id time user items = record {
  id = id;
  user_id = user;
  items = number_items id item_id 0 items;
  total_amount = total_from 0 items;
  status = Status.pending;
  created_at = time;
  updated_at = time;
}

-- outboxEventFromOrder
abbrev pub outbox_event_from_order : ℕ → Order → OutboxEvent
outbox_event_from_order id order = record {
  id = id;
  aggregate_id = order.id;
  payload = order;
  created_at = order.created_at;
}

-- The body of CreateOrder's transaction
unfoldable pub create_body : ℕ → Order → Action (Db Tables) (Unit {0})
create_body event order =
    create_order_rows order >> create_outbox_event (outbox_event_from_order event order)

-- The state of the use cases: the database, and the events that publishOrderEvent is called with, the
-- newest first; whether Redis is there to take them is left out.
pub record Service : Type 0 where
  pub db : Db Tables
  pub published : List (ℕ × OrderStatus)

abbrev pub on_db : {A : Type 0} → Action (Db Tables) A → Action Service A
on_db m s = let (r, db) = m s.db in (r, record s { db = db })

-- publishOrderEvent
abbrev pub publish_order_event : ℕ → OrderStatus → Action Service (Unit {0})
publish_order_event id st s = (ok tt, record s { published = (id, st) ∷ s.published })

-- The orchestrator that the use cases call, over their state: the OrderOrchestrator interface. An
-- order is processed under the idempotency key of the request.
pub record Orchestrator : Type 0 where
  pub process_order : Order → ℕ → Action Service (Unit {0})
  pub cancel_order : Order → Action Service (Unit {0})

-- The id is returned beside an error of the saga: the order has been created.
abbrev pub saga_result : ℕ → Result (Unit {0}) × Service → (Option ℕ × Option Error) × Service
saga_result id (ok _, s) = ((some id, none), s)
saga_result id (err e, s) = ((some id, some e), s)

abbrev pub start_saga : Orchestrator → ℕ → Order → Service → (Option ℕ × Option Error) × Service
start_saga orchestrator key order s =
    saga_result order.id
      (orchestrator.process_order order key (publish_order_event order.id order.status s).1)

-- CreateOrder once the prices are checked
unfoldable pub record_order :
    Orchestrator → ℕ → ℕ → Order → Service → (Option ℕ × Option Error) × Service
record_order orchestrator key event order s =
    let (r, s') = on_db (run_tx (create_body event order)) s in
    elim r [ err e ↦ ((none, some e), s') | ok _ ↦ start_saga orchestrator key order s' ]

-- CreateOrder under an idempotency key: the id, uuid.Nil as `none`, and the error. `id`, `item_id` and
-- `event` are what uuid.New gives, and `time` what the clock does.
unfoldable pub create_order :
    Orchestrator
    → ℕ
    → (ℕ → Result (Option ℕ))
    → ℕ
    → (ℕ → ℕ)
    → ℕ
    → ℕ
    → ℕ
    → List OrderItem
    → Service
    → (Option ℕ × Option Error) × Service
create_order orchestrator key get_product id item_id event time user items s =
    elim (check_prices get_product items) [
      | some e ↦ ((none, some e), s)
      | none ↦ record_order orchestrator key event (new_order id item_id time user items) s
    ]

-- GetOrder
unfoldable pub get_order : ℕ → Action Service Order
get_order id = on_db (get_order_by_id id)

abbrev pub refund_first : OrderStatus → Bool
refund_first st =
    same_status st Status.paid || same_status st Status.processing || same_status st Status.shipped

-- CancelOrder once it has the order
unfoldable pub cancel_loaded : Orchestrator → ℕ → ℕ → Order → Action Service (Unit {0})
cancel_loaded orchestrator id time order =
    if same_status order.status Status.cancelled
    then fail invalid_argument
    else if cancellable_directly order.status
    then on_db (update_order_row id Status.cancelled time)
      >> publish_order_event order.id Status.cancelled
    else if refund_first order.status
    then orchestrator.cancel_order order >> publish_order_event order.id Status.cancelled
    else fail failed_precondition

-- CancelOrder
unfoldable pub cancel_order : Orchestrator → ℕ → ℕ → Action Service (Unit {0})
cancel_order orchestrator id time =
    on_db (get_order_by_id id) >>= cancel_loaded orchestrator id time

-- UpdateOrderStatus once it has the order
unfoldable pub update_loaded : ℕ → OrderStatus → ℕ → Order → Action Service (Unit {0})
update_loaded id st time order = elim (validate_transition order.status st) [
  | some _ ↦ fail invalid_argument
  | none ↦ on_db (update_order_row id st time) >> publish_order_event order.id st
]

-- UpdateOrderStatus
unfoldable pub update_order_status : ℕ → OrderStatus → ℕ → Action Service (Unit {0})
update_order_status id st time = on_db (get_order_by_id id) >>= update_loaded id st time
