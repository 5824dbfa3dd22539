-- ===== src/Saga/Recovery.antt =====
-- Cancellation of a paid order, recovery of incomplete sagas, and the recovery worker:
-- services/order-service/internal/saga/orchestrator.go.
pub mod Cancel
use go_ozon_marketplace.Prelude.{
  ℕ, ◌≡◌, Bool, true, false, List, [], ◌∷◌, Option, none, some, String, if◌then◌else◌,
}
use go_ozon_marketplace.Prelude.Effect.{Error, failed_precondition, Result, ok, err, Action}
use go_ozon_marketplace.Order.Status
use go_ozon_marketplace.Order.Domain.{Order}
use go_ozon_marketplace.Saga.Types.{Saga, cancelled, is_empty}
use go_ozon_marketplace.Saga.Env.{Env, Key, no_key, recovery, refund_key, order_key}
use go_ozon_marketplace.Saga.Steps.{inventory, as_error}
use go_ozon_marketplace.Saga.Retry.{retry}
use go_ozon_marketplace.Saga.Orchestrator.{persist_saga, compensate_with_retry, process_order}

module _ (env : Env) where
  open env use {
    State, wait, ctx_err, get_saga, list_incomplete, get_order, update_order_status, refund,
  }

  -- The refund of CancelOrder, none for a saga that holds no payment.
  unfoldable pub refund_with_retry : Saga → Order → State → Option Error × State
  refund_with_retry saga order s =
      if is_empty saga.payment_id
      then (none, s)
      else retry wait ctx_err
          (λ s'.
            as_error env
              (refund saga.payment_id (refund_key (order_key order.id) saga.payment_id) s'))
          s

  -- The end of CancelOrder: the saga is saved as cancelled, and a failure of that is only logged.
  unfoldable pub close_saga : Saga → State → Option Error × State
  close_saga saga s = (
    none,
    (persist_saga env (record saga { status = cancelled; current_step = "cancelled" }) s).1.1,
  )

  -- CancelOrder once it has the saga
  unfoldable pub cancel_saga : Order → Saga → State → Option Error × State
  cancel_saga order saga s =
      let (e₁, s₁) = refund_with_retry saga order s in
      let (e₂, s₂) = compensate_with_retry env inventory order no_key saga s₁ in
      let (e₃, s₃) = as_error env (update_order_status order.id Status.cancelled s₂) in
      elim e₁ [
        | some e ↦ (some e, s₁)
        | none ↦ elim e₂ [
          | some e ↦ (some e, s₂)
          | none ↦ elim e₃ [ some e ↦ (some e, s₃) | none ↦ close_saga saga s₃ ]
        ]
      ]

  -- CancelOrder
  unfoldable pub cancel_order : Order → State → Option Error × State
  cancel_order order s =
      let (r, s₁) = get_saga order.id s in
      elim r [ ok saga ↦ cancel_saga order saga s₁ | err _ ↦ (some failed_precondition, s₁) ]

  abbrev pub state_of : State → Option (Option Error × State) → State
  state_of s none = s
  state_of s (some (_, s')) = s'

  -- One saga of Recover: errors are only logged. (`process_order` has a result: its fuel suffices.)
  unfoldable pub recover_one : Saga → State → State
  recover_one saga s =
      let (r, s₁) = get_order saga.order_id s in
      elim r [
        | ok order ↦ state_of s₁ (process_order env order (recovery saga.order_id) s₁)
        | err _ ↦ s₁
      ]

  unfoldable pub recover_all : List Saga → State → State
  recover_all [] s = s
  recover_all (saga ∷ rest) s = recover_all rest (recover_one saga s)

  abbrev pub recover_limit : ℕ
  recover_limit = 100

  -- Recover
  unfoldable pub recover : State → Option Error × State
  recover s =
      let (r, s₁) = list_incomplete recover_limit s in
      elim r [ ok sagas ↦ (none, recover_all sagas s₁) | err e ↦ (some e, s₁) ]

  -- recoverOnce, with the lock's two calls (`none` where the worker has no lock): Recover runs only
  -- under the lock, which is given back whatever Recover returns.
  unfoldable pub recover_once : Option (Action State Bool × Action State (Unit {0})) → State → State
  recover_once none s = (recover s).1
  recover_once (some (try_lock, unlock)) s =
      let (r, s₁) = try_lock s in
      elim r [ ok locked ↦ if locked then (unlock (recover s₁).1).1 else s₁ | err _ ↦ s₁ ]
