-- ===== src/Order/Cancellation.antt =====
-- CancelOrder of services/order-service/internal/usecase/usecase.go: which orders it cancels, and how.
use go_ozon_marketplace.Prelude.{ℕ, ◌≡◌, ◌⊎◌, ◌∷◌}
use go_ozon_marketplace.Prelude.Effect.{ok}
use go_ozon_marketplace.Order.Status
use go_ozon_marketplace.Order.Domain.{Order}
use go_ozon_marketplace.Order.Repository.{update_order_row}
use go_ozon_marketplace.Order.Usecase.{Service, Orchestrator, cancel_order}

module _ (orchestrator : Orchestrator) (id time : ℕ) where
  -- A pending order, or one that awaits its payment, is cancelled in the table; a paid, processing or
  -- shipped one by the orchestrator. Either way this has succeeded, and the event is published after it.
  abbrev pub Cancels : Order → Service → Service → Type 0
  Cancels o s s' =
      (((o.status ≡ Status.pending) ⊎ (o.status ≡ Status.awaiting_payment))
        × (let (r, db) = update_order_row id Status.cancelled time s.db in
            (r ≡ ok tt)
            × (s' ≡ record { db = db; published = (o.id, Status.cancelled) ∷ s.published })))
      ⊎ (((o.status ≡ Status.paid) ⊎ (o.status ≡ Status.processing) ⊎ (o.status ≡ Status.shipped))
          × (let (r, after) = orchestrator.cancel_order o s in
              (r ≡ ok tt)
              × (s' ≡ record {
                db = after.db;
                published = (o.id, Status.cancelled) ∷ after.published;
              })))
