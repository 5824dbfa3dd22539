-- ===== src/Order/Status/Graph.antt =====
-- What the transitions of services/order-service/internal/domain/status.go amount to.
use go_ozon_marketplace.Prelude.{
  ℕ, suc, ◌+◌, ◌≤◌, ◌<◌, ◌≡◌, refl, ◌⊎◌, inl, Bool, true, false, ◌&&◌, List, [], ◌∷◌, ◌||◌, String,
  if◌then◌else◌, arith,
}
use go_ozon_marketplace.Prelude.Effect.{ok}
use go_ozon_marketplace.Order.Status.{
  OrderStatus, unspecified, pending, awaiting_payment, paid, processing, shipped, delivered,
  cancelled, refunded, can_transition, same_status, status_string, parse_order_status,
  cancellable_directly,
}

-- How far an order has come.
abbrev pub rank : OrderStatus → ℕ
rank unspecified = 0
rank pending = 0
rank awaiting_payment = 1
rank paid = 2
rank processing = 3
rank shipped = 4
rank delivered = 5
rank cancelled = 6
rank refunded = 6

same_status-eq : (s t : OrderStatus) → same_status s t ≡ true → s ≡ t
unfolding same_status
same_status-eq unspecified unspecified h = refl
same_status-eq _ _ h = ground arith

-- A transition to another status goes forward, so no order comes back to a status that it left.
pub can_transition-rank :
    (s t : OrderStatus) → can_transition s t ≡ true → (s ≡ t) ⊎ (rank s < rank t)
unfolding can_transition
can_transition-rank unspecified unspecified h = inl refl
can_transition-rank _ _ h = ground arith

-- A sequence of status changes, each accepted by `can_transition`.
abbrev pub accepts : OrderStatus → List OrderStatus → Bool
accepts s [] = true
accepts s (t ∷ ts) = can_transition s t && accepts t ts

-- The status after the sequence.
abbrev pub last_status : OrderStatus → List OrderStatus → OrderStatus
last_status s [] = s
last_status s (t ∷ ts) = last_status t ts

-- The changes to another status.
abbrev pub changes : OrderStatus → List OrderStatus → ℕ
changes s [] = 0
changes s (t ∷ ts) = if same_status s t then changes t ts else suc (changes t ts)

-- Does `paid` occur?
abbrev pub has_paid : List OrderStatus → Bool
has_paid [] = false
has_paid (t ∷ ts) = same_status t paid || has_paid ts

abbrev pub before_payment : OrderStatus → Bool
before_payment pending = true
before_payment awaiting_payment = true
before_payment cancelled = true
before_payment _ = false

before_payment-step :
    (s t : OrderStatus)
    → before_payment s ≡ true
    → can_transition s t ≡ true
    → (before_payment t ≡ true) ⊎ (same_status t paid ≡ true)
unfolding can_transition
before_payment-step unspecified unspecified h k = cc
before_payment-step _ _ h k = ground arith

unpaid-history :
    (s : OrderStatus) (ts : List OrderStatus)
    → before_payment s ≡ true
    → accepts s ts ≡ true
    → has_paid ts ≡ false
    → before_payment (last_status s ts) ≡ true
unpaid-history s [] b a p = b
unpaid-history s (t ∷ ts) b a p = ground (arith, before_payment-step s t, unpaid-history t ts)

-- An order that starts as pending and is accepted into processing, shipped, delivered or refunded,
-- one status at a time, has been paid on the way.
pub pending-has_paid :
    (ts : List OrderStatus)
    → accepts pending ts ≡ true
    → before_payment (last_status pending ts) ≡ false
    → has_paid ts ≡ true
pending-has_paid ts a b = ground (arith, unpaid-history pending ts)

step-rank :
    (s t : OrderStatus)
    → can_transition s t ≡ true
    → rank s + (if same_status s t then 0 else 1) ≤ rank t
unfolding can_transition
step-rank unspecified unspecified h = omega arith
step-rank _ _ h = ground arith

changes-rank :
    (s : OrderStatus) (ts : List OrderStatus)
    → accepts s ts ≡ true
    → rank s + changes s ts ≤ rank (last_status s ts)
changes-rank s [] a = omega arith
changes-rank s (t ∷ ts) a = ground (arith, step-rank s t, changes-rank t ts)

rank-bound : (s : OrderStatus) → rank s ≤ 6
rank-bound unspecified = omega arith
rank-bound _ = omega arith

-- However many updates are accepted, the status of an order changes at most six times.
pub changes-bound :
    (s : OrderStatus) (ts : List OrderStatus) → accepts s ts ≡ true → changes s ts ≤ 6
changes-bound s ts a = omega (arith, changes-rank s ts a, rank-bound (last_status s ts))

-- No update takes an order out of cancelled or refunded.
pub closed_stays :
    (s : OrderStatus) (ts : List OrderStatus)
    → (s ≡ cancelled) ⊎ (s ≡ refunded)
    → accepts s ts ≡ true
    → last_status s ts ≡ s
unfolding can_transition
closed_stays s [] c a = refl
closed_stays cancelled (cancelled ∷ ts) c a = closed_stays cancelled ts c (ground arith)
closed_stays refunded (refunded ∷ ts) c a = closed_stays refunded ts c (ground arith)
closed_stays _ (_ ∷ ts) c a = ground arith

-- A status that may be cancelled directly may be cancelled by a transition too, and of an order in
-- it no payment has been recorded.
pub cancellable_directly-before_payment :
    (s : OrderStatus)
    → cancellable_directly s ≡ true
    → (can_transition s cancelled ≡ true) × (before_payment s ≡ true)
unfolding cancellable_directly can_transition
cancellable_directly-before_payment unspecified h = cc
cancellable_directly-before_payment _ h = ground arith

-- Parsing the string of a status gives the status, for a lower-casing function that keeps it.
pub parse_order_status-status_string :
    (to_lower : String → String) (s : OrderStatus)
    → to_lower (status_string s) ≡ status_string s
    → parse_order_status to_lower (status_string s) ≡ ok s
unfolding parse_order_status status_string
parse_order_status-status_string to_lower unspecified h = rw h
parse_order_status-status_string to_lower _ h = rw h
