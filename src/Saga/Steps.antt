-- ===== src/Saga/Steps.antt =====
-- The steps of the saga: services/order-service/internal/saga/steps.go. A step that mutates
-- `*Saga` returns the new one; it returns an error as `some`.
use go_ozon_marketplace.Prelude.{
  Bool, true, false, List, [], ◌∷◌, ◌++◌, Option, none, some, String, length, get_elem?,
  if◌then◌else◌,
}
use go_ozon_marketplace.Prelude.Effect.{Error, Result, ok, err}
use go_ozon_marketplace.Order.Status
use go_ozon_marketplace.Order.Domain.{Order, OrderItem}
use go_ozon_marketplace.Saga.Types.{
  Saga, SagaStatus, SagaReservedItem, reserving, reserved, paying, paid, confirming, confirmed,
  int32, is_empty,
}
use go_ozon_marketplace.Saga.Env.{Env, Key, reserve_key, release_key, payment_key, refund_key}

-- startStep, reserveInventoryStep, processPaymentStep and confirmOrderStep
pub data Step : Type 0 where
  start inventory payment confirm : Step

-- `Name`
unfoldable pub name : Step → String
name start = "start"
name inventory = "inventory"
name payment = "payment"
name confirm = "confirm"

abbrev pub is_paying : SagaStatus → Bool
is_paying paying = true
is_paying _ = false

abbrev pub is_confirming : SagaStatus → Bool
is_confirming confirming = true
is_confirming _ = false

-- `Prepare`, where the step is Preparable: the saga, and whether it is to be saved.
unfoldable pub prepare : Step → Saga → Bool × Saga
prepare payment saga =
    if is_paying saga.status
    then (false, saga)
    else (true, record saga { status = paying; current_step = "payment" })
prepare confirm saga =
    if is_confirming saga.status
    then (false, saga)
    else (true, record saga { status = confirming; current_step = "confirm" })
prepare start saga = (false, saga)
prepare inventory saga = (false, saga)

-- The item that the saga reserved, as it is recorded.
abbrev pub reserved_item : OrderItem → SagaReservedItem
reserved_item item = record { product_id = item.product_id; quantity = int32 item.quantity }

module _ (env : Env) where
  open env use {State, update_order_status, reserve, release, process_payment, refund}

  -- A call that changes the saga: the error, then the saga and the state of the environment.
  abbrev pub Change : Type 0
  Change = Option Error × (Saga × State)

  -- What `Execute` does with the result of its one remote call.
  abbrev pub changed : {A : Type 0} → (A → Saga) → Saga → Result A × State → Change
  changed f saga (ok a, s) = (none, (f a, s))
  changed f saga (err e, s) = (some e, (saga, s))

  -- startStep.Execute
  unfoldable pub execute_start : Order → Saga → State → Change
  execute_start order saga s =
      changed (λ _. record saga { status = reserving; current_step = "reserve" }) saga
        (update_order_status order.id Status.awaiting_payment s)

  -- The next item of the order is the one at the number of items reserved so far; past the end,
  -- where the source tests `idx >= len(order.Items)`, there is none.
  unfoldable pub reserve_item : Option OrderItem → Order → Key → Saga → State → Change
  reserve_item none order key saga s =
      (none, (record saga { status = reserved; current_step = "reserved" }, s))
  reserve_item (some item) order key saga s =
      changed (λ _. record saga { reserved_items = saga.reserved_items ++ reserved_item item ∷ [] })
        saga
        (reserve item.product_id (int32 item.quantity) order.id (reserve_key key item.product_id) s)

  -- reserveInventoryStep.Execute
  unfoldable pub execute_inventory : Order → Key → Saga → State → Change
  unfolding reserve_item
  execute_inventory order key saga s =
      reserve_item (get_elem? order.items (length saga.reserved_items)) order key saga s

  -- processPaymentStep.Execute
  unfoldable pub execute_payment : Order → Key → Saga → State → Change
  execute_payment order key saga s =
      changed (λ id. record saga { payment_id = id; status = paid; current_step = "paid" }) saga
        (process_payment order.id order.total_amount (payment_key key) s)

  -- confirmOrderStep.Execute
  unfoldable pub execute_confirm : Order → Saga → State → Change
  execute_confirm order saga s =
      changed (λ _. record saga { status = confirmed; current_step = "confirmed" }) saga
        (update_order_status order.id Status.paid s)

  unfoldable pub execute : Step → Order → Key → Saga → State → Change
  unfolding execute_start execute_inventory execute_payment execute_confirm
  execute start order key saga s = execute_start order saga s
  execute inventory order key saga s = execute_inventory order key saga s
  execute payment order key saga s = execute_payment order key saga s
  execute confirm order key saga s = execute_confirm order saga s

  -- `errors.Join(errs...)` of the errors met so far and one more result: of several errors the
  -- first is kept.
  abbrev pub join_error : Option Error → Result (Unit {0}) → Option Error
  join_error (some e) _ = some e
  join_error none (ok _) = none
  join_error none (err e) = some e

  -- The loop of reserveInventoryStep.Compensate: an error does not stop it.
  unfoldable pub release_all :
      List SagaReservedItem → Order → Option Error → State → Option Error × State
  release_all [] order errs s = (errs, s)
  release_all (item ∷ rest) order errs s =
      let (r, s') =
        release item.product_id item.quantity order.id (release_key order.id item.product_id) s in
      release_all rest order (join_error errs r) s'

  abbrev pub as_error : Result (Unit {0}) × State → Option Error × State
  as_error (ok _, s) = (none, s)
  as_error (err e, s) = (some e, s)

  -- `Compensate`, which leaves the saga as it is.
  unfoldable pub compensate : Step → Order → Key → Saga → State → Option Error × State
  unfolding release_all
  compensate inventory order key saga s = release_all saga.reserved_items order none s
  compensate payment order key saga s =
      if is_empty saga.payment_id
      then (none, s)
      else as_error (refund saga.payment_id (refund_key key saga.payment_id) s)
  compensate start order key saga s = (none, s)
  compensate confirm order key saga s = (none, s)
