-- ===== src/System/Safety/Reserving.antt =====
-- What the handlers of inventory-service keep of its tables.
use go_ozon_marketplace.Prelude.{ℕ, ◌∙◌, [], ◌∷◌, Option, none, some, String}
use go_ozon_marketplace.Prelude.Effect.{Result}
use go_ozon_marketplace.Errors.{Code}
use go_ozon_marketplace.Grpc.{Context, Role, Reply, status, require_role}
use go_ozon_marketplace.Inventory.Tables as Inventory
use go_ozon_marketplace.Inventory.Usecase as Stock
use go_ozon_marketplace.Inventory.Handler.{
  StockRequest, handle_reserve, handle_release, int_of_int32, stock_reply_to,
}
use go_ozon_marketplace.Inventory.Invariant.{IsConsistent, IsConserved}
use go_ozon_marketplace.Inventory.Guarantees.Sequences as Calls

-- Stock adds up, and no unit of `before` is lost or made.
abbrev pub IsStocked : Inventory.Tables → Stock.Service → Type 0
IsStocked before s = IsConsistent s.db.0 × IsConserved before s.db.0

module _ (parse : String → Option ℕ) (redis_write : Stock.Redis → Stock.Redis → Stock.Redis)
    (in_inventory : Context) (before : Inventory.Tables) where
  called :
      (c : Calls.Call) (s : Stock.Service)
      → IsStocked before s
      → IsStocked before (Calls.run_call redis_write c s).1
  called c s (h, k) = (
    Calls.run_calls-IsConsistent redis_write (c ∷ []) s h,
    λ p. Calls.run_calls-IsConserved redis_write (c ∷ []) s p ∙ k p,
  )

  -- The three guards of the handler, and the use case.
  served :
      (usecase : ℕ → ℕ → Option ℕ → Stock.Service → Result (Unit {0}) × Stock.Service) (q : ℕ)
      (c : Option Code) (p o : Option ℕ) (s : Stock.Service)
      → ((product order : ℕ) → IsStocked before (usecase product q (some order) s).1)
      → IsStocked before s
      → IsStocked before
          (elim c as (λ _. Reply (Unit {0}) × Stock.Service) [
            | some code ↦ (status code, s)
            | none ↦ elim p as (λ _. Reply (Unit {0}) × Stock.Service) [
              | none ↦ (status Code.code_invalid_argument, s)
              | some product ↦ elim o as (λ _. Reply (Unit {0}) × Stock.Service) [
                | none ↦ (status Code.code_invalid_argument, s)
                | some order ↦ (
                  stock_reply_to q (usecase product q (some order) s).0,
                  (usecase product q (some order) s).1,
                )
              ]
            ]
          ]).1
  served usecase q (some code) p o s k h = h
  served usecase q none none o s k h = h
  served usecase q none (some product) none s k h = h
  served usecase q none (some product) (some order) s k h = k product order

  pub handle_reserve-keeps :
      (req : StockRequest) (s : Stock.Service)
      → IsStocked before s
      → IsStocked before (handle_reserve parse redis_write in_inventory req s).1
  unfolding handle_reserve
  handle_reserve-keeps req s h =
      served (Stock.reserve redis_write) (int_of_int32 req.quantity)
        (require_role in_inventory (Role.service ∷ [])) (parse req.product_id) (parse req.order_id)
        s (λ p o. called (Calls.reserve_call p (int_of_int32 req.quantity) o) s h) h

  pub handle_release-keeps :
      (req : StockRequest) (s : Stock.Service)
      → IsStocked before s
      → IsStocked before (handle_release parse redis_write in_inventory req s).1
  unfolding handle_release
  handle_release-keeps req s h =
      served (Stock.release redis_write) (int_of_int32 req.quantity)
        (require_role in_inventory (Role.service ∷ [])) (parse req.product_id) (parse req.order_id)
        s (λ p o. called (Calls.release_call p (int_of_int32 req.quantity) o) s h) h
