-- ===== src/Inventory/Effects.antt =====
-- What `reserve` and `release` of services/inventory-service/internal/usecase/usecase.go do to the
-- tables, whichever database calls fail.
pub mod Bodies
use go_ozon_marketplace.Prelude.{
  ℕ, ◌+◌, ◌-◌, ◌≤◌, ◌≡◌, refl, ◌⊎◌, inl, inr, Bool, true, false, List, [], ◌∷◌, Option, none, some,
  ◌==◌, leb, if◌then◌else◌, arith, Option-cases, Bool-cases, ==_iff,
}
use go_ozon_marketplace.Prelude.Effect.{Error, Result, ok, err, Action}
use go_ozon_marketplace.Database.{Db, Fault, run_tx, row_or_not_found}
use go_ozon_marketplace.Database.Laws.{
  OnOk, AllOrNothing, bind-OnOk, statement-OnOk, run_tx-AllOrNothing,
}
use go_ozon_marketplace.Inventory.Tables.{
  Stock, ReservationRow, ReservationStatus, reserved, released, Reservation, ℤ, pos, negate,
  op_reserve, op_release, LedgerEntry, Tables, find_reservation, set_status, set_stock,
}
use go_ozon_marketplace.Inventory.Repository.{
  inserted, insert_reservation, select_reservation_for_update, update_reservation_status,
  reserve_stock, release_stock, updated, stock_reserved, stock_released, update_stock_for_reserve,
  update_stock_for_release, insert_ledger,
}
use go_ozon_marketplace.Inventory.Usecase.{
  check_existing, deduct, reserve_body, give_back, release_row, release_body,
}

-- An active reservation of a quantity, and one that was given back.
abbrev pub active : ℕ → ReservationRow
active q = record { quantity = q; status = reserved }

abbrev pub returned : ℕ → ReservationRow
returned q = record { quantity = q; status = released }

module _ (product q order : ℕ) where
  -- The tables with the new reservation.
  abbrev pub with_row : Tables → Tables
  with_row t = record t {
    reservations =
        record { order_id = order; product_id = product; row = active q } ∷ t.reservations;
  }

  abbrev pub with_stock : Stock → Tables → Tables
  with_stock stock t = record t { inventory = set_stock product stock t.inventory }

  abbrev pub with_status : Tables → Tables
  with_status t = record t { reservations = set_status order product released t.reservations }

  abbrev pub with_entry : LedgerEntry → Tables → Tables
  with_entry e t = record t { ledger = e ∷ t.ledger }

  abbrev pub reserve_entry : LedgerEntry
  reserve_entry = record {
    product_id = product;
    order_id = order;
    quantity_change = negate q;
    operation_type = op_reserve;
  }

  abbrev pub release_entry : LedgerEntry
  release_entry = record {
    product_id = product;
    order_id = order;
    quantity_change = pos q;
    operation_type = op_release;
  }

  -- The reservation is there already; or there was none, the stock suffices, and all three tables
  -- record it.
  abbrev pub Reserves : Tables → Tables → Type 0
  Reserves t t' =
      ((find_reservation order product t.reservations ≡ some (active q)) × (t' ≡ t))
      ⊎ ((find_reservation order product t.reservations ≡ none)
          × ((stock : Stock) × (t.inventory product ≡ some stock)
              × (q ≤ stock.available)
              × (t' ≡ with_entry reserve_entry (with_stock (reserve_stock q stock) (with_row t)))))

  -- The reservation was given back already; or it was active, and all three tables record that it
  -- is given back.
  abbrev pub Releases : Tables → Tables → Type 0
  Releases t t' =
      ((find_reservation order product t.reservations ≡ some (returned q)) × (t' ≡ t))
      ⊎ ((find_reservation order product t.reservations ≡ some (active q))
          × ((stock : Stock) × (t.inventory product ≡ some stock)
              × (q ≤ stock.reserved)
              × (t'
                  ≡ with_entry release_entry (with_status (with_stock (release_stock q stock) t)))))

  -- What the insertion of the reservation gives.
  abbrev pub Inserts : Tables → ℕ → Tables → Type 0
  Inserts t n t' =
      ((n ≡ 0) × (t' ≡ t))
      ⊎ ((n ≡ 1) × (find_reservation order product t.reservations ≡ none) × (t' ≡ with_row t))

  pub insert-Inserts :
      (t : Tables) (fs : List Fault) → OnOk (Inserts t) (insert_reservation order product q (t, fs))
  unfolding insert_reservation
  insert-Inserts t fs =
      statement-OnOk (Inserts t) _ t fs
        (by_row (find_reservation order product t.reservations) refl)
    where
      by_row :
          (o : Option ReservationRow)
          → find_reservation order product t.reservations ≡ o
          → let r = inserted order product q t o in OnOk (Inserts t) (r.0, (r.1, []))
      by_row none e = inr (refl, e, refl)
      by_row (some row) e = inl (refl, refl)

  abbrev pub Found : Tables → ReservationRow → Tables → Type 0
  Found t row t' = (find_reservation order product t.reservations ≡ some row) × (t' ≡ t)

  pub select-Found :
      (t : Tables) (fs : List Fault)
      → OnOk (Found t) (select_reservation_for_update order product (t, fs))
  unfolding select_reservation_for_update
  select-Found t fs =
      statement-OnOk (Found t) _ t fs (by_row (find_reservation order product t.reservations) refl)
    where
      by_row :
          (o : Option ReservationRow)
          → find_reservation order product t.reservations ≡ o
          → OnOk (Found t) (row_or_not_found o, (t, []))
      by_row none e = tt
      by_row (some row) e = (e, refl)

  -- What the update of the stock gives: no row was changed, or the one of the product was.
  abbrev pub Moves : (Stock → ℕ) → (Stock → Stock) → Tables → ℕ → Tables → Type 0
  Moves count move t n t' =
      (n ≡ 0)
      ⊎ ((n ≡ 1)
          × ((stock : Stock) × (t.inventory product ≡ some stock)
              × (q ≤ count stock)
              × (t' ≡ with_stock (move stock) t)))

  pub deduct-Moves :
      (t : Tables) (fs : List Fault)
      → OnOk
          (Moves (λ s. s.available) (reserve_stock q) t)
          (update_stock_for_reserve product q (t, fs))
  unfolding update_stock_for_reserve
  deduct-Moves t fs = statement-OnOk _ _ t fs (by_stock (t.inventory product) refl)
    where
      by_stock :
          (o : Option Stock)
          → t.inventory product ≡ o
          → let r = stock_reserved product q t o in
            OnOk (Moves (λ s. s.available) (reserve_stock q) t) (r.0, (r.1, []))
      by_stock none e = inl refl
      by_stock (some stock) e = elim (Bool-cases (leb q stock.available)) [
        | inl enough ↦ rw enough (inr (refl, (stock, e, ground arith, refl)))
        | inr short ↦ rw short (inl refl)
      ]

  pub give_back-Moves :
      (t : Tables) (fs : List Fault)
      → OnOk
          (Moves (λ s. s.reserved) (release_stock q) t)
          (update_stock_for_release product q (t, fs))
  unfolding update_stock_for_release
  give_back-Moves t fs = statement-OnOk _ _ t fs (by_stock (t.inventory product) refl)
    where
      by_stock :
          (o : Option Stock)
          → t.inventory product ≡ o
          → let r = stock_released product q t o in
            OnOk (Moves (λ s. s.reserved) (release_stock q) t) (r.0, (r.1, []))
      by_stock none e = inl refl
      by_stock (some stock) e = elim (Bool-cases (leb q stock.reserved)) [
        | inl enough ↦ rw enough (inr (refl, (stock, e, ground arith, refl)))
        | inr short ↦ rw short (inl refl)
      ]
