-- ===== src/System/Tests.antt =====
-- Runs of the saga with all of its services.
use text.Mathlib.Text.{◌==◌ as text_eq}
use go_ozon_marketplace.Prelude.{
  ℕ, ◌≡◌, ◌≤◌, refl, inl, inr, false, List, [], ◌∷◌, Option, none, some, String, map, ◌==◌,
  Bool-cases, arith, if◌then◌else◌,
}
use go_ozon_marketplace.Prelude.Effect.{other}
use go_ozon_marketplace.Database.{answered, refused, lost, statement, run_tx}
use go_ozon_marketplace.Grpc.{
  Context, service, user, get_user_id, find_role, require_role, same_role,
}
use go_ozon_marketplace.Order.Status
use go_ozon_marketplace.Order.Status.{OrderStatus}
use go_ozon_marketplace.Order.Domain.{Order}
use go_ozon_marketplace.Order.Repository as Orders
use go_ozon_marketplace.Inventory.Tables.{Stock}
use go_ozon_marketplace.Inventory.Usecase as Stocks
use go_ozon_marketplace.Inventory.Invariant.{IsConsistent, held, total_count}
use go_ozon_marketplace.Payment.Tables as Payments
use go_ozon_marketplace.Payment.Invariant.{IsSound}
use go_ozon_marketplace.Saga.Env.{Key, given}
use go_ozon_marketplace.Saga.Steps.{
  prepare, execute, execute_start, execute_inventory, execute_payment, execute_confirm,
  reserve_item, compensate, release_all,
}
use go_ozon_marketplace.Saga.Retry.{backoff, retry_from, retry}
use go_ozon_marketplace.Saga.Orchestrator.{
  next_step, is_terminal, persist_saga, execute_with_retry, prepare_step, round, process_loop,
  process_saga, create_and_process, process_order, handle_step_failure, compensate_saga,
  compensation_plan, save_saga_as, compensate_all, compensate_with_retry,
}
use go_ozon_marketplace.Saga.Store.{insert_saga, get_by_order_id, save_row}
use go_ozon_marketplace.Inventory.Repository.{
  insert_reservation, update_stock_for_reserve, insert_ledger, select_reservation_for_update,
}
use go_ozon_marketplace.Inventory.Handler.{handle_reserve}
use go_ozon_marketplace.Payment.Repository.{create_or_get, update_status_if, insert_payment}
use go_ozon_marketplace.Payment.Usecase.{process_payment, process_body, settle}
use go_ozon_marketplace.Payment.Handler.{handle_process_payment}
use go_ozon_marketplace.System.{Platform, client_reserve, client_process_payment}
use go_ozon_marketplace.System.Safety.{
  Operation, process, cancel, recovery, operate_all, IsSafe, operations-IsSafe,
}

-- The texts of the uuids of the runs.
abbrev show : ℕ → String
show n =
    if n == 1
    then "1"
    else if n == 2
    then "2"
    else if n == 7
    then "7"
    else if n == 11
    then "11"
    else "?"

abbrev parse : String → Option ℕ
parse s =
    if text_eq s "1"
    then some 1
    else if text_eq s "2"
    then some 2
    else if text_eq s "7"
    then some 7
    else if text_eq s "11"
    then some 11
    else none

abbrev no_key : Key → Option ℕ
no_key k = none

abbrev working : Stocks.Redis → Stocks.Redis → Stocks.Redis
working before after = after

abbrev as_service : Context
as_service = record {
  identity = some (record { user_id = "1"; role = service });
  user_id_value = none;
  role_value = none;
}

abbrev as_buyer : Context
as_buyer = record {
  identity = some (record { user_id = "2"; role = user });
  user_id_value = none;
  role_value = none;
}

abbrev shelf : ℕ → Option Stock
shelf p = if p == 7 then some (record { product_id = 7; available = 10; reserved = 0 }) else none

abbrev one_item : Order
one_item = record {
  id = 1;
  user_id = 2;
  items = record { id = 3; order_id = 1; product_id = 7; quantity = 4; price = 10 } ∷ [];
  total_amount = 40;
  status = Status.pending;
  created_at = 5;
  updated_at = 5;
}

-- The order is in its table, and nothing else has happened; the payment is turned down.
abbrev start : Platform
start = record {
  orders = (
    record { orders = Orders.order_row one_item ∷ []; order_items = one_item.items; outbox = [] },
    [],
  );
  sagas = ([], []);
  inventory = record {
    db = (record { inventory = shelf; reservations = []; ledger = [] }, []);
    redis = none;
  };
  payments = record { db = (record { payments = []; refunds = [] }, []); dlq = none };
  network = [];
  timers = [];
  approvals = false ∷ [];
  clock = 10;
}

abbrev flaky : Platform
flaky = record start {
  network = lost other ∷ refused other ∷ answered ∷ lost other ∷ [];
  approvals = [];
}

shelf-IsConsistent : IsConsistent start.inventory.db.0
shelf-IsConsistent p = elim (Bool-cases (p == 7)) [
  | inl here ↦ rw here (refl, refl)
  | inr elsewhere ↦ rw elsewhere (refl, refl)
]

no_payments-IsSound : IsSound start.payments.db.0
no_payments-IsSound = (tt, tt, λ id. (refl, ground arith))

abbrev busy : List Operation
busy = process one_item (given 9) ∷ recovery ∷ cancel one_item ∷ []

operations-IsSafe_example :
    IsSafe flaky.inventory.db.0
      (operate_all parse show no_key working as_service as_buyer busy flaky)
    × ((p : ℕ)
        → held p
            (operate_all parse show no_key working as_service as_buyer busy
              flaky).inventory.db.0.reservations
          ≤ total_count (flaky.inventory.db.0.inventory p))
operations-IsSafe_example =
    operations-IsSafe parse show no_key working as_service as_buyer busy flaky shelf-IsConsistent
      no_payments-IsSound

abbrev after : Platform
after =
    operate_all parse show no_key working as_service as_buyer (process one_item (given 9) ∷ [])
      start

abbrev statuses : List Orders.OrderRow → List OrderStatus
statuses rows = map (λ r. r.status) rows

abbrev payment_statuses : List Payments.Payment → List Payments.Status
payment_statuses ps = map (λ p. p.status) ps

-- An order whose payment is turned down is paid for all that: the client does not read the status.
turned_down_and_paid :
    (statuses after.orders.0.orders ≡ Status.paid ∷ [])
    × (payment_statuses after.payments.db.0.payments ≡ Payments.failed ∷ [])
    × (held 7 after.inventory.db.0.reservations ≡ 4)
unfolding process_order create_and_process process_saga is_terminal process_loop next_step round
    prepare_step prepare execute_with_retry retry retry_from backoff execute execute_start
    execute_inventory execute_payment execute_confirm reserve_item persist_saga insert_saga
    get_by_order_id save_row client_reserve client_process_payment handle_reserve
    handle_process_payment Stocks.reserve Stocks.reserve_body Stocks.deduct run_tx statement
    insert_reservation update_stock_for_reserve insert_ledger Stocks.write_stock_to_cache
    Stocks.publish_inventory_event process_payment process_body settle create_or_get
    update_status_if insert_payment get_user_id find_role require_role same_role
    Orders.update_order_row
turned_down_and_paid = (refl, refl, refl)

-- Three requests to reserve the item take effect and their answers are lost.
abbrev deaf : Platform
deaf = record start { network = lost other ∷ lost other ∷ lost other ∷ []; approvals = [] }

-- The order is cancelled, and the units stay reserved: the saga does not know of them.
cancelled_and_held :
    let end =
      operate_all parse show no_key working as_service as_buyer
        (process one_item (given 9) ∷ [])
        deaf in
    (statuses end.orders.0.orders ≡ Status.cancelled ∷ [])
    × (held 7 end.inventory.db.0.reservations ≡ 4)
unfolding process_order create_and_process process_saga is_terminal process_loop next_step round
    prepare_step prepare execute_with_retry retry retry_from backoff execute execute_start
    execute_inventory reserve_item persist_saga insert_saga get_by_order_id save_row client_reserve
    handle_reserve Stocks.reserve Stocks.reserve_body Stocks.deduct Stocks.check_existing run_tx
    statement insert_reservation select_reservation_for_update update_stock_for_reserve
    insert_ledger Stocks.write_stock_to_cache Stocks.publish_inventory_event find_role require_role
    same_role Orders.update_order_row handle_step_failure compensate_saga compensation_plan
    save_saga_as compensate_all compensate_with_retry compensate release_all
cancelled_and_held = (refl, refl)
