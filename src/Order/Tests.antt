-- ===== src/Order/Tests.antt =====
-- The theorems about services/order-service/internal/usecase/usecase.go at a concrete order.
use go_ozon_marketplace.Prelude.{
  ℕ, ◌<◌, ◌^◌, ◌≡◌, refl, ◌⊎◌, List, [], ◌∷◌, Option, some, arith, ◌==◌, if◌then◌else◌,
}
use go_ozon_marketplace.Prelude.Effect.{other, Result, ok, err}
use go_ozon_marketplace.Database.{answered, lost}
use go_ozon_marketplace.Order.Status.{OrderStatus}
use go_ozon_marketplace.Order.Status
use go_ozon_marketplace.Order.Domain.{Order, OrderItem}
use go_ozon_marketplace.Order.Repository.{OrderRow}
use go_ozon_marketplace.Order.Usecase.{
  Orchestrator, Service, new_order, create_order, update_order_status,
}
use go_ozon_marketplace.Order.Creation.{
  IsPriced, IsOrderFor, Fails, Starts, new_order-total, create_order-Starts,
}
use go_ozon_marketplace.Order.Usecase.{cancel_order, update_loaded}
use go_ozon_marketplace.Order.Repository.{get_order_by_id, update_order_row}
use go_ozon_marketplace.Order.Status.{
  same_status, OrderStatus-discrete, validate_transition, can_transition, allowed_transitions,
}
use go_ozon_marketplace.Database.{statement}
use go_ozon_marketplace.Order.Updates.{
  Updates, run_updates, StatusAt, IsForward, update_order_status-Updates, run_updates-IsForward,
}

abbrev basket : List OrderItem
basket =
    record { id = 0; order_id = 0; product_id = 7; quantity = 2; price = 10 }
    ∷ record { id = 0; order_id = 0; product_id = 8; quantity = 1; price = 5 }
    ∷ []

abbrev paid_row : OrderRow
paid_row = record {
  id = 1;
  user_id = 2;
  total_amount = 25;
  status = Status.paid;
  created_at = 5;
  updated_at = 5;
}

-- One paid order; the third database call is lost.
abbrev one_order : Service
one_order = record {
  db = (
    record { orders = paid_row ∷ []; order_items = []; outbox = [] },
    answered ∷ answered ∷ lost other ∷ [],
  );
  published = [];
}

abbrev no_saga : Orchestrator
no_saga = record { process_order = λ o key s. (ok tt, s); cancel_order = λ o s. (err other, s) }

abbrev catalog : ℕ → Result (Option ℕ)
catalog p = if p == 7 then ok (some 10) else ok (some 5)

new_order-total_example :
    let total = (new_order 3 (λ n. n) 6 2 basket).total_amount in (total ≡ 25) × (total < 2 ^ 63)
new_order-total_example = new_order-total 3 (λ n. n) 6 2 basket (omega arith)

create_order-Starts_example :
    let r = create_order no_saga 12 catalog 3 (λ n. n) 4 6 2 basket one_order in
    (order : Order) × IsOrderFor 3 (λ n. n) 6 2 basket order
    × (Fails 4 order one_order r
        ⊎ (IsPriced catalog basket × Starts no_saga 12 4 order one_order r))
create_order-Starts_example =
    create_order-Starts no_saga 12 4 catalog 3 (λ n. n) 6 2 basket one_order

update_order_status-Updates_example :
    Updates 1 Status.processing one_order.db.0
      (update_order_status 1 Status.processing 6 one_order).1.db.0
update_order_status-Updates_example = update_order_status-Updates 1 Status.processing 6 one_order

abbrev two_updates : List (ℕ × (OrderStatus × ℕ))
two_updates = (1, (Status.processing, 6)) ∷ (1, (Status.paid, 7)) ∷ []

run_updates-IsForward_example :
    (b : OrderStatus) × StatusAt 1 b (run_updates two_updates one_order).db.0.orders
    × IsForward Status.paid b
run_updates-IsForward_example =
    run_updates-IsForward two_updates one_order 1 Status.paid (paid_row, refl, refl)

abbrev willing : Orchestrator
willing = record { process_order = λ o key s. (ok tt, s); cancel_order = λ o s. (ok tt, s) }

-- What UpdateOrderStatus does from the order that it has read.
abbrev paid_order : Order
paid_order = record {
  id = 1;
  user_id = 2;
  items = [];
  total_amount = 25;
  status = Status.paid;
  created_at = 5;
  updated_at = 5;
}

abbrev faultless : Service
faultless = record {
  db = (record { orders = paid_row ∷ []; order_items = []; outbox = [] }, []);
  published = [];
}

abbrev both : Service
both = run_updates ((1, (Status.processing, 6)) ∷ (1, (Status.shipped, 7)) ∷ []) faultless

-- A call that read the order while it was paid, and writes after two other calls have taken it on to
-- shipped, takes it back to processing: the read takes no lock, and the write has no condition.
late_write_goes_back :
    ((get_order_by_id 1 faultless.db).0 ≡ ok paid_order)
    × StatusAt 1 Status.shipped both.db.0.orders
    × StatusAt 1 Status.processing
        (update_loaded 1 Status.processing 8 paid_order both).1.db.0.orders
unfolding get_order_by_id statement update_order_status update_loaded update_order_row
    validate_transition can_transition allowed_transitions same_status OrderStatus-discrete
late_write_goes_back = (
  refl,
  (record paid_row { status = Status.shipped; updated_at = 7 }, refl, refl),
  (record paid_row { status = Status.processing; updated_at = 8 }, refl, refl),
)
