-- ===== src/Order/Status.antt =====
-- The state machine of an order: services/order-service/internal/domain/status.go.
pub mod Graph
mod Tests
use go_ozon_marketplace.Prelude.{
  Bool, true, false, List, [], ◌∷◌, ◌||◌, Option, none, some, String, if◌then◌else◌, is_yes,
}
use go_ozon_marketplace.Prelude.Effect.{Result, ok, err, Error, other}
use text.Mathlib.Text.{◌==◌}

pub data OrderStatus : Type 0 where
  unspecified pending awaiting_payment paid processing : OrderStatus
  shipped delivered cancelled refunded : OrderStatus

unfoldable pub OrderStatus-discrete : Discrete OrderStatus
OrderStatus-discrete = hlevel

-- `s == t` on the status strings
unfoldable pub same_status : OrderStatus → OrderStatus → Bool
unfolding OrderStatus-discrete
same_status s t = is_yes (OrderStatus-discrete s t)

-- A status with no entry in the map has the nil slice.
unfoldable pub allowed_transitions : OrderStatus → List OrderStatus
allowed_transitions pending = awaiting_payment ∷ cancelled ∷ []
allowed_transitions awaiting_payment = paid ∷ cancelled ∷ []
allowed_transitions paid = processing ∷ cancelled ∷ refunded ∷ []
allowed_transitions processing = shipped ∷ cancelled ∷ refunded ∷ []
allowed_transitions shipped = delivered ∷ cancelled ∷ refunded ∷ []
allowed_transitions delivered = refunded ∷ []
allowed_transitions _ = []

-- the loop over the allowed next statuses
any_next : List OrderStatus → OrderStatus → Bool
any_next [] target = false
any_next (next ∷ rest) target = same_status next target || any_next rest target

unfoldable pub can_transition : OrderStatus → OrderStatus → Bool
unfolding same_status allowed_transitions any_next
can_transition s target =
    if same_status s target then true else any_next (allowed_transitions s) target

-- The error of `ValidateTransition` wraps no sentinel.
unfoldable pub validate_transition : OrderStatus → OrderStatus → Option Error
unfolding can_transition
validate_transition s target = if can_transition s target then none else some other

unfoldable pub cancellable_directly : OrderStatus → Bool
unfolding same_status
cancellable_directly s = same_status s pending || same_status s awaiting_payment

-- the string of each constant
unfoldable pub status_string : OrderStatus → String
status_string unspecified = "unspecified"
status_string pending = "pending"
status_string awaiting_payment = "awaiting_payment"
status_string paid = "paid"
status_string processing = "processing"
status_string shipped = "shipped"
status_string delivered = "delivered"
status_string cancelled = "cancelled"
status_string refunded = "refunded"

-- `strings.ToLower` is the standard library's, hence a parameter.
unfoldable pub parse_order_status : (String → String) → String → Result OrderStatus
parse_order_status to_lower status =
    let s = to_lower status in
    if s == "" || s == "unspecified"
    then ok unspecified
    else if s == "pending"
    then ok pending
    else if s == "awaiting_payment"
    then ok awaiting_payment
    else if s == "paid"
    then ok paid
    else if s == "processing"
    then ok processing
    else if s == "shipped"
    then ok shipped
    else if s == "delivered"
    then ok delivered
    else if s == "cancelled"
    then ok cancelled
    else if s == "refunded"
    then ok refunded
    else err other
