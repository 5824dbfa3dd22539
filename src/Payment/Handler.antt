-- ===== src/Payment/Handler.antt =====
-- The gRPC handler of services/payment-service/internal/delivery/grpc/handler.go.
use text.Mathlib.Text.{◌==◌ as text_eq}
use go_ozon_marketplace.Prelude.{
  ℕ, Bool, ◌||◌, List, ◌∷◌, Option, none, some, String, if◌then◌else◌,
}
use go_ozon_marketplace.Prelude.Effect.{Result, ok, err, Action}
use go_ozon_marketplace.Database.{Db}
use go_ozon_marketplace.Errors.{
  code_internal, code_invalid_argument, code_unauthenticated, code_permission_denied, sentinel,
  to_status,
}
use go_ozon_marketplace.Grpc.{
  Context, Role, get_user_id, get_role, same_role, Reply, reply, status, to_reply,
}
use go_ozon_marketplace.Payment.Tables.{Status, Payment, Refund, Tables}
use go_ozon_marketplace.Payment.Usecase.{
  process_payment, refund, get_payment, get_refund, list_refunds,
}

-- The handler's database, and its dead letters, the newest first, if it has a producer for them.
pub record Server : Type 0 where
  pub db : Db Tables
  pub dlq : Option (List String)

abbrev pub on_db : {A : Type 0} → Action (Db Tables) A → Action Server A
on_db m s = let (r, db) = m s.db in (r, record s { db = db })

abbrev pub add_letter : String → Option (List String) → Option (List String)
add_letter text none = none
add_letter text (some ls) = some (text ∷ ls)

-- `h.dlq.SendToDLQ`, with the order of the request.
abbrev pub send_to_dlq : String → Server → Server
send_to_dlq text s = record s { dlq = add_letter text s.dlq }

-- paymentv1.PaymentStatus
pub data ProtoStatus : Type 0 where
  unspecified proto_pending proto_success proto_failed proto_refunded : ProtoStatus

-- statusToProto
unfoldable pub status_to_proto : Status → ProtoStatus
status_to_proto Status.pending = proto_pending
status_to_proto Status.success = proto_success
status_to_proto Status.failed = proto_failed
status_to_proto Status.refunded = proto_refunded

-- `uuid.Parse` and `UUID.String`
module _ (parse : String → Option ℕ) (show : ℕ → String) where
  abbrev pub payment_reply : Payment → String × ProtoStatus
  payment_reply p = (show p.id, status_to_proto p.status)

  -- The answer of ProcessPayment; an error goes to the dead letters too.
  abbrev pub processed : String → Result Payment × Server → Reply (String × ProtoStatus) × Server
  processed order (ok p, s) = (reply (payment_reply p), s)
  processed order (err e, s) = (status (to_status (sentinel e)), send_to_dlq order s)

  -- ProcessPayment; `approved` and `id` are what the use case draws.
  unfoldable pub handle_process_payment :
      Bool → ℕ → Context → String → ℕ → Server → Reply (String × ProtoStatus) × Server
  handle_process_payment approved id ctx order amount s = elim (get_user_id ctx) [
    | none ↦ (status code_unauthenticated, s)
    | some caller ↦ elim (parse order) [
      | none ↦ (status code_internal, s)
      | some o ↦ elim (parse caller) [
        | none ↦ (status code_internal, s)
        | some u ↦ processed order (on_db (process_payment approved id o u amount) s)
      ]
    ]
  ]

  -- `role == RoleAdmin || payment.UserID.String() == authUserID`
  unfoldable pub may_see : Context → String → Payment → Bool
  may_see ctx caller p = same_role (get_role ctx) Role.admin || text_eq (show p.user_id) caller

  -- The frame of the handlers that look a payment up and check that the caller may see it.
  abbrev pub with_payment :
      {A : Type 0}
      → Context
      → String
      → (Server → Reply A × Server)
      → Result Payment × Server
      → Reply A × Server
  with_payment ctx caller act (err e, s) = (status (to_status (sentinel e)), s)
  with_payment ctx caller act (ok p, s) =
      if may_see ctx caller p then act s else (status code_permission_denied, s)

  abbrev pub refund_answer : Result (Payment × Refund) × Server → Reply ProtoStatus × Server
  refund_answer (r, s) = (to_reply (λ (p, _). status_to_proto p.status) r, s)

  -- Refund; `id` is what the use case draws.
  unfoldable pub handle_refund :
      ℕ → Context → String → ℕ → Option ℕ → Server → Reply ProtoStatus × Server
  handle_refund id ctx payment amount key s = elim (get_user_id ctx) [
    | none ↦ (status code_unauthenticated, s)
    | some caller ↦ elim (parse payment) [
      | none ↦ (status code_internal, s)
      | some p ↦
          with_payment ctx caller (λ s'. refund_answer (on_db (refund id p amount key) s'))
            (on_db (get_payment p) s)
    ]
  ]

  abbrev pub refund_found : Context → String → Result Refund × Server → Reply Refund × Server
  refund_found ctx caller (err e, s) = (status (to_status (sentinel e)), s)
  refund_found ctx caller (ok r, s) =
      with_payment ctx caller (λ s'. (reply r, s')) (on_db (get_payment r.payment_id) s)

  -- GetRefund
  unfoldable pub handle_get_refund : Context → String → Server → Reply Refund × Server
  handle_get_refund ctx id s = elim (get_user_id ctx) [
    | none ↦ (status code_unauthenticated, s)
    | some caller ↦ elim (parse id) [
      | none ↦ (status code_invalid_argument, s)
      | some r ↦ refund_found ctx caller (on_db (get_refund r) s)
    ]
  ]

  abbrev pub refunds_answer : Result (List Refund) × Server → Reply (List Refund) × Server
  refunds_answer (r, s) = (to_reply (λ rs. rs) r, s)

  -- ListRefunds
  unfoldable pub handle_list_refunds : Context → String → Server → Reply (List Refund) × Server
  handle_list_refunds ctx payment s = elim (get_user_id ctx) [
    | none ↦ (status code_unauthenticated, s)
    | some caller ↦ elim (parse payment) [
      | none ↦ (status code_invalid_argument, s)
      | some p ↦
          with_payment ctx caller (λ s'. refunds_answer (on_db (list_refunds p) s'))
            (on_db (get_payment p) s)
    ]
  ]
