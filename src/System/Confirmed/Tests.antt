-- ===== src/System/Confirmed/Tests.antt =====
-- A run of a saga with all of its services that is confirmed, though answers are lost on the way.
use go_ozon_marketplace.Prelude.{
  ℕ, zero, suc, ◌≡◌, refl, ap, [], ◌∷◌, Option, none, some, String, All, ◌==◌, if◌then◌else◌, arith,
}
use go_ozon_marketplace.Prelude.Effect.{other}
use go_ozon_marketplace.Database.{answered, lost, statement, run_tx}
use go_ozon_marketplace.Grpc.{
  Context, service, user, get_user_id, find_role, require_role, same_role,
}
use go_ozon_marketplace.Order.Status
use go_ozon_marketplace.Order.Domain.{Order}
use go_ozon_marketplace.Order.Repository as Orders
use go_ozon_marketplace.Inventory.Tables.{Stock, find_reservation}
use go_ozon_marketplace.Inventory.Effects.{active}
use go_ozon_marketplace.Inventory.Usecase as Stocks
use go_ozon_marketplace.Inventory.Repository.{
  insert_reservation, update_stock_for_reserve, insert_ledger, select_reservation_for_update,
}
use go_ozon_marketplace.Inventory.Handler.{handle_reserve, int_of_int32}
use go_ozon_marketplace.Payment.Repository.{
  create_or_get, update_status_if, insert_payment, select_by_order,
}
use go_ozon_marketplace.Payment.Usecase.{process_payment, process_body, settle}
use go_ozon_marketplace.Payment.Handler.{handle_process_payment}
use go_ozon_marketplace.Payment.Invariant.{IsSound}
use go_ozon_marketplace.Saga.Env.{Env, Key, given}
use go_ozon_marketplace.Saga.Types.{confirmed, int32}
use go_ozon_marketplace.Saga.Steps.{
  Change, prepare, execute, execute_start, execute_inventory, execute_payment, execute_confirm,
  reserve_item,
}
use go_ozon_marketplace.Saga.Retry.{backoff, retry_from, retry}
use go_ozon_marketplace.Saga.Orchestrator.{
  next_step, is_terminal, persist_saga, execute_with_retry, prepare_step, round, process_loop,
  process_saga, new_saga,
}
use go_ozon_marketplace.Saga.Store.{save_row}
use go_ozon_marketplace.Saga.Trace.{traced}
use go_ozon_marketplace.Saga.Guarantees.{IsFinal, run, run_total}
use go_ozon_marketplace.System.{Platform, platform, client_reserve, client_process_payment}
use go_ozon_marketplace.System.Confirmed.{confirmed-Recorded}
use go_ozon_marketplace.System.Confirmed.Money.{IsCharged}

-- The text of a uuid has as many characters as the number says, in these runs.
abbrev show : ℕ → String
show zero = ""
show (suc n) = String.◌∷◌ "x" (show n)

abbrev size : String → ℕ
size String.[] = 0
size (String.◌∷◌ c s) = suc (size s)

abbrev parse : String → Option ℕ
parse s = some (size s)

size-show : (n : ℕ) → size (show n) ≡ n
size-show zero = refl
size-show (suc n) = ap (λ m. suc m) (size-show n)

abbrev no_key : Key → Option ℕ
no_key k = none

abbrev working : Stocks.Redis → Stocks.Redis → Stocks.Redis
working before after = after

abbrev as_service : Context
as_service = record {
  identity = some (record { user_id = "x"; role = service });
  user_id_value = none;
  role_value = none;
}

abbrev as_buyer : Context
as_buyer = record {
  identity = some (record { user_id = "xx"; role = user });
  user_id_value = none;
  role_value = none;
}

abbrev shelf : ℕ → Option Stock
shelf p = if p == 7 then some (record { product_id = 7; available = 10; reserved = 0 }) else none

abbrev one_item : Order
one_item = record {
  id = 1;
  user_id = 2;
  items = record { id = 3; order_id = 1; product_id = 7; quantity = 4; price = 10 } ∷ [];
  total_amount = 40;
  status = Status.pending;
  created_at = 5;
  updated_at = 5;
}

abbrev env : Env
env = platform parse show no_key working as_service as_buyer

-- The saga has been created; the answers to the first reservation and to the first charge are lost.
abbrev start : Platform
start = record {
  orders = (
    record { orders = Orders.order_row one_item ∷ []; order_items = one_item.items; outbox = [] },
    [],
  );
  sagas = (new_saga 9 one_item 10 ∷ [], []);
  inventory = record {
    db = (record { inventory = shelf; reservations = []; ledger = [] }, []);
    redis = none;
  };
  payments = record { db = (record { payments = []; refunds = [] }, []); dlq = none };
  network = lost other ∷ answered ∷ lost other ∷ answered ∷ [];
  timers = [];
  approvals = [];
  clock = 10;
}

no_payments-IsSound : IsSound start.payments.db.0
no_payments-IsSound = (tt, tt, λ id. (refl, ground arith))

abbrev or_start : Option (Change (traced env)) → Change (traced env)
or_start none = (none, (new_saga 9 one_item 10, (start, [])))
or_start (some r) = r

abbrev ended : Change (traced env)
ended = or_start (run env one_item (given 9) 9 10 start)

it_ran : run env one_item (given 9) 9 10 start ≡ some ended
it_ran = by_result (run_total env one_item (given 9) 9 10 start)
  where
    by_result :
        ((r : Change (traced env)) × (run env one_item (given 9) 9 10 start ≡ some r)
          × (r.0 ≡ none → IsFinal r.1.0.status))
        → run env one_item (given 9) 9 10 start ≡ some ended
    by_result (r, e, _) = rw e refl

it_is_confirmed : ended.1.0.status ≡ confirmed
unfolding process_saga is_terminal process_loop next_step round prepare_step prepare
    execute_with_retry retry retry_from backoff execute execute_start execute_inventory
    execute_payment execute_confirm reserve_item persist_saga save_row client_reserve
    client_process_payment handle_reserve handle_process_payment Stocks.reserve Stocks.reserve_body
    Stocks.deduct Stocks.check_existing run_tx statement insert_reservation update_stock_for_reserve
    insert_ledger select_reservation_for_update Stocks.write_stock_to_cache
    Stocks.publish_inventory_event process_payment process_body settle create_or_get
    update_status_if insert_payment select_by_order get_user_id find_role require_role same_role
    Orders.update_order_row
it_is_confirmed = refl

confirmed-Recorded_example :
    All
      (λ i.
        find_reservation 1 i.product_id ended.1.1.0.inventory.db.0.reservations
        ≡ some (active (int_of_int32 (int32 i.quantity))))
      one_item.items
    × IsCharged show 1 ended.1.1.0.payments.db.0 ended.1.0.payment_id
confirmed-Recorded_example =
    confirmed-Recorded parse show no_key working as_service as_buyer
      (λ n. ap (λ m. some m) (size-show n)) one_item (given 9) 9 10 start {r = ended}
      no_payments-IsSound it_ran it_is_confirmed
