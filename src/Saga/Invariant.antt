-- ===== src/Saga/Invariant.antt =====
-- What the state of a saga of services/order-service/internal/saga says of the calls made for it.
pub mod Quiet
pub mod Execute
pub mod Compensate
pub mod Failure
pub mod Process
use go_ozon_marketplace.Prelude.{
  ℕ, ◌+◌, ◌-◌, ◌≡◌, ◌⊎◌, ◌<◌, List, [], ◌∷◌, ◌++◌, String, map, length, take, All,
}
use go_ozon_marketplace.Order.Status
use go_ozon_marketplace.Order.Domain.{Order}
use go_ozon_marketplace.Saga.Types.{
  Saga, SagaStatus, SagaReservedItem, pending, reserving, reserved, paying, paid, confirming,
  confirmed, compensating, cancelled, failed,
}
use go_ozon_marketplace.Saga.Steps.{Step, start, inventory, payment, confirm, reserved_item}
use go_ozon_marketplace.Saga.Trace.{
  order_set, Log, reserves, charges, Was, WasReleased, WasRefunded, IsStill, wanted, IsCausal,
}

module _ (order : Order) where
  -- What holds in each status, of the reserved items, the payment id and the log.
  abbrev pub Phase : SagaStatus → List SagaReservedItem → String → Log → Type 0
  Phase pending items id log = (items ≡ []) × (charges log ≡ []) × (id ≡ "") × IsStill log
  Phase reserving items id log = (charges log ≡ []) × (id ≡ "")
  Phase reserved items id log = (items ≡ wanted order) × (charges log ≡ []) × (id ≡ "")
  Phase paying items id log = (items ≡ wanted order) × (charges log ≡ []) × (id ≡ "")
  Phase paid items id log = (items ≡ wanted order) × (charges log ≡ id ∷ [])
  Phase confirming items id log = (items ≡ wanted order) × (charges log ≡ id ∷ [])
  Phase confirmed items id log =
      (items ≡ wanted order) × (charges log ≡ id ∷ []) × Was (order_set order.id Status.paid) log
  Phase compensating items id log = Unit
  Phase cancelled items id log =
      All (λ i. WasReleased order.id i log) items
      × ((charges log ≡ []) ⊎ ((charges log ≡ id ∷ []) × ((id ≡ "") ⊎ WasRefunded id log)))
  Phase failed items id log = (items ≡ []) × (charges log ≡ []) × IsStill log

  -- The items recorded are those that were reserved, in order; they are the first items of the
  -- order; and no call came before the one that it depends on.
  abbrev pub IsAccurate : List SagaReservedItem → Log → Type 0
  IsAccurate items log =
      (reserves log ≡ items) × (items ≡ take (length items) (wanted order)) × IsCausal order [] log

  -- The record is accurate, and the status says what has been done.
  abbrev pub IsSound : Saga → Log → Type 0
  IsSound g log = IsAccurate g.reserved_items log × Phase g.status g.reserved_items g.payment_id log

-- The status in which a step is executed.
abbrev pub ready : Step → SagaStatus
ready start = pending
ready inventory = reserving
ready payment = paying
ready confirm = confirming

-- The rounds of ProcessOrder that are left, for an order of `n` items of which `k` are reserved.
abbrev pub rounds_left : ℕ → ℕ → SagaStatus → ℕ
rounds_left n k pending = n + 4
rounds_left n k reserving = n - k + 3
rounds_left n k reserved = 2
rounds_left n k paying = 2
rounds_left n k paid = 1
rounds_left n k confirming = 1
rounds_left n k _ = 0

abbrev pub left : Order → Saga → ℕ
left order g = rounds_left (length order.items) (length g.reserved_items) g.status
