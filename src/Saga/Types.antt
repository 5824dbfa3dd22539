-- ===== src/Saga/Types.antt =====
-- The state of a saga: services/order-service/internal/saga/domain.go.
use go_ozon_marketplace.Prelude.{ℕ, ◌%◌, ◌^◌, Bool, true, false, List, Option, String}
use go_ozon_marketplace.Prelude.Effect.{Error}

pub data SagaStatus : Type 0 where
  pending reserving reserved paying paid : SagaStatus
  confirming confirmed compensating cancelled failed : SagaStatus

-- `ProductID` is the product's uuid in text; the uuid itself stands for it.
pub record SagaReservedItem : Type 0 where
  pub product_id : ℕ
  pub quantity : ℕ

-- An error message is the error whose text it is; "" is `none`.
pub record Saga : Type 0 where
  pub id : ℕ
  pub order_id : ℕ
  pub status : SagaStatus
  pub current_step : String
  pub error_message : Option Error
  pub payment_id : String
  pub reserved_items : List SagaReservedItem
  pub created_at : ℕ
  pub updated_at : ℕ

-- The bit pattern of Go's `int32(x)`, which wraps.
abbrev pub int32 : ℕ → ℕ
int32 x = x % 2 ^ 32

abbrev pub is_empty : String → Bool
is_empty String.[] = true
is_empty (String.◌∷◌ _ _) = false
