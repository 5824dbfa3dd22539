-- ===== src/Order/Domain.antt =====
-- The order of services/order-service/internal/domain/order.go. A uuid is a number, a time is a
-- number of milliseconds. Quantities and prices are positive (the request validation of
-- api/proto/order/v1/order.proto refuses others), so they are natural numbers.
use go_ozon_marketplace.Prelude.{ℕ, List}
use go_ozon_marketplace.Order.Status.{OrderStatus}

pub record OrderItem : Type 0 where
  pub id : ℕ
  pub order_id : ℕ
  pub product_id : ℕ
  pub quantity : ℕ
  pub price : ℕ

pub record Order : Type 0 where
  pub id : ℕ
  pub user_id : ℕ
  pub items : List OrderItem
  pub total_amount : ℕ
  pub status : OrderStatus
  pub created_at : ℕ
  pub updated_at : ℕ
