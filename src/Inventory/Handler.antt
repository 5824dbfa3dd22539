-- ===== src/Inventory/Handler.antt =====
-- The gRPC handler of services/inventory-service/internal/delivery/grpc/handler.go.
use go_ozon_marketplace.Prelude.{
  ℕ, zero, suc, ◌^◌, List, [], ◌∷◌, Option, none, some, String, ◌%◌, ltb, if◌then◌else◌,
}
use go_ozon_marketplace.Prelude.Effect.{Error, Result, ok, err, Action}
use go_ozon_marketplace.Errors.{
  Code, code_invalid_argument, code_not_found, code_internal, GoError, sentinel, wrap_error,
  to_status,
}
use go_ozon_marketplace.Grpc.{Context, Role, require_role, Reply, reply, status}
use go_ozon_marketplace.Inventory.Tables.{Stock, LedgerEntry}
use go_ozon_marketplace.Inventory.Usecase.{Service, Redis, reserve, release, get_stock, get_ledger}

-- Go's `int(q)` of the bit pattern of an int32, where 0 stands for a negative number: both are
-- refused.
abbrev pub int_of_int32 : ℕ → ℕ
int_of_int32 q = if ltb (q % 2 ^ 32) (2 ^ 31) then q % 2 ^ 32 else 0

-- ReserveRequest and ReleaseRequest; the idempotency key is not read.
pub record StockRequest : Type 0 where
  pub product_id : String
  pub quantity : ℕ
  pub order_id : String

-- GetStockResponse
pub record StockReply : Type 0 where
  pub available : ℕ
  pub reserved : ℕ

abbrev pub stock_reply : Stock → StockReply
stock_reply s = record { available = s.available % 2 ^ 32; reserved = s.reserved % 2 ^ 32 }

abbrev pub stock_status : Error → Code
stock_status Error.not_found = code_not_found
stock_status _ = code_internal

-- The error of Reserve and Release for a quantity: one that is not positive is refused by Wrap with the
-- code "invalid_quantity", which is that of no kind.
abbrev pub quantity_error : ℕ → Error → GoError
quantity_error zero e = wrap_error (sentinel Error.invalid_argument) "invalid_quantity"
quantity_error (suc _) e = sentinel e

abbrev pub stock_reply_to : ℕ → Result (Unit {0}) → Reply (Unit {0})
stock_reply_to q (ok u) = reply u
stock_reply_to q (err e) = status (to_status (quantity_error q e))

-- `uuid.Parse`
module _ (parse : String → Option ℕ) (redis_write : Redis → Redis → Redis) where
  -- Reserve and Release, which differ in the use case that they call.
  abbrev pub in_service :
      (ℕ → ℕ → Option ℕ → Action Service (Unit {0}))
      → Context
      → StockRequest
      → Service
      → Reply (Unit {0}) × Service
  in_service usecase ctx req s = elim (require_role ctx (Role.service ∷ [])) [
    | some code ↦ (status code, s)
    | none ↦ elim (parse req.product_id) [
      | none ↦ (status code_invalid_argument, s)
      | some product ↦ elim (parse req.order_id) [
        | none ↦ (status code_invalid_argument, s)
        | some order ↦
            let (r, s') = usecase product (int_of_int32 req.quantity) (some order) s in
            (stock_reply_to (int_of_int32 req.quantity) r, s')
      ]
    ]
  ]

  -- Reserve
  unfoldable pub handle_reserve : Context → StockRequest → Service → Reply (Unit {0}) × Service
  handle_reserve ctx req s = in_service (reserve redis_write) ctx req s

  -- Release
  unfoldable pub handle_release : Context → StockRequest → Service → Reply (Unit {0}) × Service
  handle_release ctx req s = in_service (release redis_write) ctx req s

  abbrev pub stock_answer : Result Stock → Reply StockReply
  stock_answer (ok s) = reply (stock_reply s)
  stock_answer (err e) = status (stock_status e)

  -- GetStock
  unfoldable pub handle_get_stock :
      (Redis → ℕ → Option Stock) → String → Service → Reply StockReply × Service
  handle_get_stock read product s = elim (parse product) [
    | none ↦ (status code_invalid_argument, s)
    | some p ↦ let (r, s') = get_stock redis_write read p s in (stock_answer r, s')
  ]

  abbrev pub ledger_answer : Result (List LedgerEntry) → Reply (List LedgerEntry)
  ledger_answer (ok es) = reply es
  ledger_answer (err e) = status code_internal

  -- GetLedger; an entry is answered as the table has it.
  unfoldable pub handle_get_ledger : String → Service → Reply (List LedgerEntry) × Service
  handle_get_ledger product s = elim (parse product) [
    | none ↦ (status code_invalid_argument, s)
    | some p ↦ let (r, s') = get_ledger p s in (ledger_answer r, s')
  ]
