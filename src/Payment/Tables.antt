-- ===== src/Payment/Tables.antt =====
-- The tables of services/payment-service (migrations and internal/domain). Amounts are cents, which
-- the table's check and the request's validation keep positive or zero. Times are left out.
use go_ozon_marketplace.Prelude.{
  ℕ, Bool, true, false, List, [], ◌∷◌, Option, none, some, ◌==◌, if◌then◌else◌,
}

pub data Status : Type 0 where
  pending success failed refunded : Status

-- A uuid is a number.
pub record Payment : Type 0 where
  pub id : ℕ
  pub order_id : ℕ
  pub user_id : ℕ
  pub amount : ℕ
  pub status : Status

-- The empty idempotency key is `none`.
pub record Refund : Type 0 where
  pub id : ℕ
  pub payment_id : ℕ
  pub amount : ℕ
  pub status : Status
  pub idempotency_key : Option ℕ

-- The newest row is the first.
pub record Tables : Type 0 where
  pub payments : List Payment
  pub refunds : List Refund

abbrev pub find_payment : ℕ → List Payment → Option Payment
find_payment id [] = none
find_payment id (p ∷ ps) = if p.id == id then some p else find_payment id ps

abbrev pub find_by_order : ℕ → List Payment → Option Payment
find_by_order order [] = none
find_by_order order (p ∷ ps) = if p.order_id == order then some p else find_by_order order ps

abbrev pub find_refund : ℕ → List Refund → Option Refund
find_refund id [] = none
find_refund id (r ∷ rs) = if r.id == id then some r else find_refund id rs

abbrev pub has_key : ℕ → Option ℕ → Bool
has_key k none = false
has_key k (some j) = j == k

abbrev pub find_by_key : ℕ → List Refund → Option Refund
find_by_key k [] = none
find_by_key k (r ∷ rs) = if has_key k r.idempotency_key then some r else find_by_key k rs

abbrev pub same_status : Status → Status → Bool
same_status pending pending = true
same_status success success = true
same_status failed failed = true
same_status refunded refunded = true
same_status _ _ = false

-- The payment of this id with another status.
abbrev pub set_status : ℕ → Status → List Payment → List Payment
set_status id st [] = []
set_status id st (p ∷ ps) =
    if p.id == id then record p { status = st } ∷ ps else p ∷ set_status id st ps

abbrev pub refunds_of : ℕ → List Refund → List Refund
refunds_of payment [] = []
refunds_of payment (r ∷ rs) =
    if r.payment_id == payment then r ∷ refunds_of payment rs else refunds_of payment rs
