-- ===== src/Order/Handler.antt =====
-- The gRPC handler of services/order-service/internal/delivery/grpc/handler.go, ListOrders left out.
pub mod Access
mod Tests
use text.Mathlib.Text.{◌==◌ as text_eq}
use go_ozon_marketplace.Prelude.{
  ℕ, ◌%◌, ◌^◌, Bool, true, false, ◌||◌, not, List, [], ◌∷◌, Option, none, some, String, map,
  if◌then◌else◌,
}
use go_ozon_marketplace.Prelude.Effect.{Error, Result, ok, err, Action}
use go_ozon_marketplace.Errors.{
  Code, code_internal, code_invalid_argument, code_unauthenticated, code_permission_denied,
  code_not_found, code_failed_precondition, sentinel, to_status,
}
use go_ozon_marketplace.Grpc.{Context, Role, get_user_id, get_role, same_role, Reply, reply, status}
use go_ozon_marketplace.Order.Status.{OrderStatus}
use go_ozon_marketplace.Order.Status
use go_ozon_marketplace.Order.Domain.{OrderItem, Order}
use go_ozon_marketplace.Order.Usecase.{
  Service, Orchestrator, create_order, get_order, cancel_order, update_order_status,
}

-- orderv1.OrderStatus
pub data ProtoStatus : Type 0 where
  proto_unspecified proto_pending proto_awaiting_payment proto_paid proto_processing : ProtoStatus
  proto_shipped proto_delivered proto_cancelled proto_refunded : ProtoStatus

-- domainStatusToProto
unfoldable pub domain_status_to_proto : OrderStatus → ProtoStatus
domain_status_to_proto Status.pending = proto_pending
domain_status_to_proto Status.awaiting_payment = proto_awaiting_payment
domain_status_to_proto Status.paid = proto_paid
domain_status_to_proto Status.processing = proto_processing
domain_status_to_proto Status.shipped = proto_shipped
domain_status_to_proto Status.delivered = proto_delivered
domain_status_to_proto Status.cancelled = proto_cancelled
domain_status_to_proto Status.refunded = proto_refunded
domain_status_to_proto Status.unspecified = proto_unspecified

-- protoStatusToDomain
unfoldable pub proto_status_to_domain : ProtoStatus → OrderStatus
proto_status_to_domain proto_unspecified = Status.unspecified
proto_status_to_domain proto_pending = Status.pending
proto_status_to_domain proto_awaiting_payment = Status.awaiting_payment
proto_status_to_domain proto_paid = Status.paid
proto_status_to_domain proto_processing = Status.processing
proto_status_to_domain proto_shipped = Status.shipped
proto_status_to_domain proto_delivered = Status.delivered
proto_status_to_domain proto_cancelled = Status.cancelled
proto_status_to_domain proto_refunded = Status.refunded

-- orderv1.OrderItem, in requests and answers
pub record ProtoItem : Type 0 where
  pub product_id : String
  pub quantity : ℕ
  pub price_cents : ℕ

-- orderv1.Order
pub record ProtoOrder : Type 0 where
  pub order_id : String
  pub user_id : String
  pub items : List ProtoItem
  pub total_amount_cents : ℕ
  pub status : ProtoStatus
  pub created_at : ℕ
  pub updated_at : ℕ

-- The statuses that GetOrder, CancelOrder and UpdateOrderStatus give to the errors of the use cases.
abbrev pub get_status : Error → Code
get_status Error.not_found = code_not_found
get_status _ = code_internal

abbrev pub change_status : Error → Code
change_status Error.invalid_argument = code_invalid_argument
change_status Error.failed_precondition = code_failed_precondition
change_status _ = code_internal

-- `uuid.Parse` and `UUID.String`
module _ (parse : String → Option ℕ) (show : ℕ → String) where
  abbrev pub item_to_proto : OrderItem → ProtoItem
  item_to_proto i = record {
    product_id = show i.product_id;
    quantity = i.quantity % 2 ^ 32;
    price_cents = i.price;
  }

  -- mapOrderToProto
  unfoldable pub map_order_to_proto : Order → ProtoOrder
  map_order_to_proto o = record {
    order_id = show o.id;
    user_id = show o.user_id;
    items = map item_to_proto o.items;
    total_amount_cents = o.total_amount;
    status = domain_status_to_proto o.status;
    created_at = o.created_at;
    updated_at = o.updated_at;
  }

  abbrev pub new_item : ℕ → ProtoItem → OrderItem
  new_item product i = record {
    id = 0;
    order_id = 0;
    product_id = product;
    quantity = i.quantity;
    price = i.price_cents;
  }

  abbrev pub add_item : OrderItem → Option (List OrderItem) → Option (List OrderItem)
  add_item i none = none
  add_item i (some is) = some (i ∷ is)

  -- The loop of CreateOrder over the items: `none` if a product is no uuid.
  unfoldable pub parse_items : List ProtoItem → Option (List OrderItem)
  parse_items [] = some []
  parse_items (i ∷ is) =
      let rest = parse_items is in
      elim (parse i.product_id) [ none ↦ none | some p ↦ add_item (new_item p i) rest ]

  -- CreateOrder's answer: an error wins over the id.
  abbrev pub created : (Option ℕ × Option Error) × Service → Reply (String × ProtoStatus) × Service
  created ((id, some e), s) = (status (to_status (sentinel e)), s)
  created ((none, none), s) = (reply (show 0, proto_pending), s)
  created ((some id, none), s) = (reply (show id, proto_pending), s)

  -- CreateOrder, with the use case's dependencies and draws.
  unfoldable pub handle_create_order :
      Orchestrator
      → (ℕ → Result (Option ℕ))
      → ℕ
      → (ℕ → ℕ)
      → ℕ
      → ℕ
      → Context
      → List ProtoItem
      → ℕ
      → Service
      → Reply (String × ProtoStatus) × Service
  handle_create_order orchestrator get_product id item_id event time ctx items key s =
      elim (get_user_id ctx) [
        | none ↦ (status code_unauthenticated, s)
        | some caller ↦ elim (parse caller) [
          | none ↦ (status code_internal, s)
          | some u ↦ elim (parse_items items) [
            | none ↦ (status code_invalid_argument, s)
            | some is ↦
                created (create_order orchestrator key get_product id item_id event time u is s)
          ]
        ]
      ]

  -- `order.UserID.String() == authUserID || role == RoleAdmin`
  unfoldable pub may_see : Context → String → Order → Bool
  may_see ctx caller o = text_eq (show o.user_id) caller || same_role (get_role ctx) Role.admin

  -- The frame of GetOrder and CancelOrder, which look the order up and check that the caller may see it.
  abbrev pub with_order :
      {A : Type 0}
      → Context
      → String
      → (Order → Service → Reply A × Service)
      → Result Order × Service
      → Reply A × Service
  with_order ctx caller act (err e, s) = (status (get_status e), s)
  with_order ctx caller act (ok o, s) =
      if may_see ctx caller o then act o s else (status code_permission_denied, s)

  abbrev pub on_order :
      {A : Type 0}
      → (ℕ → Order → Service → Reply A × Service)
      → Context
      → String
      → Service
      → Reply A × Service
  on_order act ctx order s = elim (get_user_id ctx) [
    | none ↦ (status code_unauthenticated, s)
    | some caller ↦ elim (parse order) [
      | none ↦ (status code_invalid_argument, s)
      | some id ↦ with_order ctx caller (act id) (get_order id s)
    ]
  ]

  -- GetOrder
  unfoldable pub handle_get_order : Context → String → Service → Reply ProtoOrder × Service
  handle_get_order ctx order s = on_order (λ _ o s'. (reply (map_order_to_proto o), s')) ctx order s

  abbrev pub change_answer : {A : Type 0} → A → Result (Unit {0}) × Service → Reply A × Service
  change_answer a (ok _, s) = (reply a, s)
  change_answer a (err e, s) = (status (change_status e), s)

  -- CancelOrder, at the time `time`
  unfoldable pub handle_cancel_order :
      Orchestrator → ℕ → Context → String → Service → Reply Bool × Service
  handle_cancel_order orchestrator time ctx order s =
      on_order (λ id _ s'. change_answer true (cancel_order orchestrator id time s')) ctx order s

  abbrev pub may_update : Context → Bool
  may_update ctx = same_role (get_role ctx) Role.admin || same_role (get_role ctx) Role.service

  -- UpdateOrderStatus, at the time `time`
  unfoldable pub handle_update_order_status :
      ℕ → Context → String → ProtoStatus → Service → Reply (String × ProtoStatus) × Service
  handle_update_order_status time ctx order st s = elim (get_user_id ctx) [
    | none ↦ (status code_unauthenticated, s)
    | some _ ↦
        if may_update ctx
        then elim (parse order) [
          | none ↦ (status code_invalid_argument, s)
          | some id ↦
              change_answer (order, st) (update_order_status id (proto_status_to_domain st) time s)
        ]
        else (status code_permission_denied, s)
  ]
