-- ===== src/Inventory/Repository.antt =====
-- The SQL statements of
-- services/inventory-service/internal/repository/postgres/inventory_postgres.go. The number of the
-- rows that a statement changed is its result.
use go_ozon_marketplace.Prelude.{
  ℕ, ◌+◌, ◌-◌, Bool, true, false, List, [], ◌∷◌, Option, none, some, ◌==◌, leb, if◌then◌else◌,
}
use go_ozon_marketplace.Prelude.Effect.{Result, ok, Action}
use go_ozon_marketplace.Database.{Db, statement, row_or_not_found}
use go_ozon_marketplace.Inventory.Tables.{
  Stock, ReservationStatus, reserved, ReservationRow, ℤ, LedgerOp, LedgerEntry, Tables,
  find_reservation, set_status, set_stock,
}

-- GetStock
unfoldable pub get_stock_row : ℕ → Action (Db Tables) Stock
get_stock_row product = statement (λ t. (row_or_not_found (t.inventory product), t))

abbrev pub inserted : ℕ → ℕ → ℕ → Tables → Option ReservationRow → Result ℕ × Tables
inserted order product quantity t (some _) = (ok 0, t)
inserted order product quantity t none =
    let row : ReservationRow = record { quantity = quantity; status = reserved } in
    (
      ok 1,
      record t {
        reservations =
            record { order_id = order; product_id = product; row = row } ∷ t.reservations;
      },
    )

-- InsertReservation
unfoldable pub insert_reservation : ℕ → ℕ → ℕ → Action (Db Tables) ℕ
insert_reservation order product quantity =
    statement
      (λ t. inserted order product quantity t (find_reservation order product t.reservations))

-- SelectReservationForUpdate
unfoldable pub select_reservation_for_update : ℕ → ℕ → Action (Db Tables) ReservationRow
select_reservation_for_update order product =
    statement (λ t. (row_or_not_found (find_reservation order product t.reservations), t))

-- UpdateReservationStatus
unfoldable pub update_reservation_status : ℕ → ℕ → ReservationStatus → Action (Db Tables) (Unit {0})
update_reservation_status order product st =
    statement (λ t. (ok tt, record t { reservations = set_status order product st t.reservations }))

-- The row's counts when a quantity is reserved, and when it is released.
abbrev pub reserve_stock : ℕ → Stock → Stock
reserve_stock q stock = record stock {
  available = stock.available - q;
  reserved = stock.reserved + q;
}

abbrev pub release_stock : ℕ → Stock → Stock
release_stock q stock = record stock {
  available = stock.available + q;
  reserved = stock.reserved - q;
}

abbrev pub updated : ℕ → Bool → Stock → Tables → Result ℕ × Tables
updated product false stock t = (ok 0, t)
updated product true stock t = (ok 1, record t { inventory = set_stock product stock t.inventory })

abbrev pub stock_reserved : ℕ → ℕ → Tables → Option Stock → Result ℕ × Tables
stock_reserved product q t none = (ok 0, t)
stock_reserved product q t (some stock) =
    updated product (leb q stock.available) (reserve_stock q stock) t

abbrev pub stock_released : ℕ → ℕ → Tables → Option Stock → Result ℕ × Tables
stock_released product q t none = (ok 0, t)
stock_released product q t (some stock) =
    updated product (leb q stock.reserved) (release_stock q stock) t

-- UpdateStockForReserve
unfoldable pub update_stock_for_reserve : ℕ → ℕ → Action (Db Tables) ℕ
update_stock_for_reserve product q =
    statement (λ t. stock_reserved product q t (t.inventory product))

-- UpdateStockForRelease
unfoldable pub update_stock_for_release : ℕ → ℕ → Action (Db Tables) ℕ
update_stock_for_release product q =
    statement (λ t. stock_released product q t (t.inventory product))

-- InsertLedger
unfoldable pub insert_ledger : ℕ → ℕ → ℤ → LedgerOp → Action (Db Tables) (Unit {0})
insert_ledger product order change op = statement (λ t. (
  ok tt,
  record t {
    ledger =
        record {
          product_id = product;
          order_id = order;
          quantity_change = change;
          operation_type = op;
        }
        ∷ t.ledger;
  },
))

abbrev pub of_product : ℕ → List LedgerEntry → List LedgerEntry
of_product product [] = []
of_product product (e ∷ es) =
    if e.product_id == product then e ∷ of_product product es else of_product product es

-- GetLedger: the newest entry first
unfoldable pub get_ledger_rows : ℕ → Action (Db Tables) (List LedgerEntry)
get_ledger_rows product = statement (λ t. (ok (of_product product t.ledger), t))
