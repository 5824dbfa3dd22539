-- ===== src/Order/Status/Tests.antt =====
-- Concrete histories of an order's status, and the theorems about
-- services/order-service/internal/domain/status.go at them.
use go_ozon_marketplace.Prelude.{◌≡◌, refl, ◌≤◌, ◌<◌, ◌⊎◌, inl, true, List, [], ◌∷◌}
use go_ozon_marketplace.Prelude.Effect.{ok}
use go_ozon_marketplace.Order.Status.{
  OrderStatus, pending, awaiting_payment, paid, processing, shipped, delivered, cancelled, refunded,
  can_transition, cancellable_directly, parse_order_status, status_string,
}
use go_ozon_marketplace.Order.Status.Graph.{
  rank, accepts, last_status, changes, has_paid, before_payment, can_transition-rank,
  pending-has_paid, changes-bound, closed_stays, cancellable_directly-before_payment,
  parse_order_status-status_string,
}

abbrev delivery : List OrderStatus
delivery = awaiting_payment ∷ paid ∷ processing ∷ shipped ∷ delivered ∷ []

delivery-accepted : accepts pending delivery ≡ true
unfolding can_transition
delivery-accepted = refl

pending-has_paid_example : has_paid delivery ≡ true
pending-has_paid_example = pending-has_paid delivery delivery-accepted refl

changes-bound_example : changes pending delivery ≤ 6
changes-bound_example = changes-bound pending delivery delivery-accepted

paid-refunded : can_transition paid refunded ≡ true
unfolding can_transition
paid-refunded = refl

can_transition-rank_example : (paid ≡ refunded) ⊎ (rank paid < rank refunded)
can_transition-rank_example = can_transition-rank paid refunded paid-refunded

again_cancelled : accepts cancelled (cancelled ∷ cancelled ∷ []) ≡ true
unfolding can_transition
again_cancelled = refl

closed_stays_example : last_status cancelled (cancelled ∷ cancelled ∷ []) ≡ cancelled
closed_stays_example =
    closed_stays cancelled (cancelled ∷ cancelled ∷ []) (inl refl) again_cancelled

pending-cancellable : cancellable_directly pending ≡ true
unfolding cancellable_directly
pending-cancellable = refl

pending_direct : (can_transition pending cancelled ≡ true) × (before_payment pending ≡ true)
pending_direct = cancellable_directly-before_payment pending pending-cancellable

shipped_is_read : parse_order_status (λ s. s) (status_string shipped) ≡ ok shipped
shipped_is_read = parse_order_status-status_string (λ s. s) shipped refl
