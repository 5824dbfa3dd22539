-- ===== src/Saga/Env.antt =====
-- What the orchestrator calls, as an interface over an abstract state: the order and saga
-- repositories, the clients of inventory-service and payment-service, uuid.New, the clock, and
-- the wait of `retry`. Any of these calls may fail, and may have had any effect when it does.
use go_ozon_marketplace.Prelude.{ℕ, Bool, List, String}
use go_ozon_marketplace.Prelude.Effect.{Error, Action}
use go_ozon_marketplace.Order.Status.{OrderStatus}
use go_ozon_marketplace.Order.Domain.{Order}
use go_ozon_marketplace.Saga.Types.{Saga}

-- An idempotency key: the `fmt.Sprintf` that built it, with its arguments.
pub data Key : Type 0 where
  given : ℕ → Key
  no_key : Key
  recovery : ℕ → Key
  reserve_key : Key → ℕ → Key
  release_key : ℕ → ℕ → Key
  payment_key : Key → Key
  refund_key : Key → String → Key
  order_key : ℕ → Key

pub record Env : Type 1 where
  pub State : Type 0
  -- `time.Now().UTC()`
  pub now : State → ℕ
  -- `uuid.New()`
  pub new_id : State → ℕ × State
  -- The wait of so many milliseconds in `retry`: `true` if the timer fires, `false` if the context
  -- is done first.
  pub wait : ℕ → State → Bool × State
  -- `ctx.Err()`
  pub ctx_err : Error
  -- SagaRepository
  pub create_saga : Saga → Action State (Unit {0})
  pub get_saga : ℕ → Action State Saga
  pub save_saga : Saga → Action State (Unit {0})
  pub list_incomplete : ℕ → Action State (List Saga)
  -- OrderRepository
  pub get_order : ℕ → Action State Order
  pub update_order_status : ℕ → OrderStatus → Action State (Unit {0})
  -- InventoryClient: product, quantity, order, key
  pub reserve : ℕ → ℕ → ℕ → Key → Action State (Unit {0})
  pub release : ℕ → ℕ → ℕ → Key → Action State (Unit {0})
  -- PaymentClient: order, amount in cents, key; payment, key
  pub process_payment : ℕ → ℕ → Key → Action State String
  pub refund : String → Key → Action State (Unit {0})
