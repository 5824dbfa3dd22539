-- ===== src/Inventory/Tables.antt =====
-- The tables of services/inventory-service (migrations and internal/domain). Quantities are positive
-- or zero by the tables' checks; Postgres refuses a value out of the range of its INT, and a refusal
-- is a fault of the statement.
use go_ozon_marketplace.Prelude.{
  ℕ, zero, suc, Bool, ◌&&◌, List, [], ◌∷◌, Option, none, some, ◌==◌, if◌then◌else◌,
}

-- A uuid is a number.
pub record Stock : Type 0 where
  pub product_id : ℕ
  pub available : ℕ
  pub reserved : ℕ

-- The column `status` of a reservation
pub data ReservationStatus : Type 0 where
  reserved released : ReservationStatus

pub record ReservationRow : Type 0 where
  pub quantity : ℕ
  pub status : ReservationStatus

-- A row with its primary key
pub record Reservation : Type 0 where
  pub order_id : ℕ
  pub product_id : ℕ
  pub row : ReservationRow

pub data ℤ : Type 0 where
  pos negsuc : ℕ → ℤ

-- Go's `-n`
abbrev pub negate : ℕ → ℤ
negate zero = pos 0
negate (suc n) = negsuc n

pub data LedgerOp : Type 0 where
  op_reserve op_release : LedgerOp

-- The entry's own id and time are the database's, and are left out.
pub record LedgerEntry : Type 0 where
  pub product_id : ℕ
  pub order_id : ℕ
  pub quantity_change : ℤ
  pub operation_type : LedgerOp

-- `inventory` is a table by its primary key; the rows of the others are lists, the newest first.
pub record Tables : Type 0 where
  pub inventory : ℕ → Option Stock
  pub reservations : List Reservation
  pub ledger : List LedgerEntry

-- Is this the row of the primary key `(order, product)`?
abbrev pub is_row : ℕ → ℕ → Reservation → Bool
is_row order product r = (r.order_id == order) && (r.product_id == product)

abbrev pub find_reservation : ℕ → ℕ → List Reservation → Option ReservationRow
find_reservation order product [] = none
find_reservation order product (r ∷ rs) =
    if is_row order product r then some r.row else find_reservation order product rs

-- The row of this key, if there is one, with another status.
abbrev pub set_status : ℕ → ℕ → ReservationStatus → List Reservation → List Reservation
set_status order product st [] = []
set_status order product st (r ∷ rs) =
    if is_row order product r
    then record r { row = record { quantity = r.row.quantity; status = st } } ∷ rs
    else r ∷ set_status order product st rs

abbrev pub set_stock : ℕ → Stock → (ℕ → Option Stock) → ℕ → Option Stock
set_stock product stock inventory p = if p == product then some stock else inventory p
