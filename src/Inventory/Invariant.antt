-- ===== src/Inventory/Invariant.antt =====
-- The tables of services/inventory-service agree with each other: what a product's row counts as
-- reserved, the active reservations, and the ledger.
pub mod Calls
use go_ozon_marketplace.Prelude.{
  ℕ, zero, suc, ◌+◌, ◌-◌, ◌≤◌, ◌≡◌, refl, ◌⊎◌, inl, inr, Bool, true, false, List, [], ◌∷◌, Option,
  none, some, ◌==◌, if◌then◌else◌, arith, Bool-cases, ==_iff, sym, ap, ◌&&◌,
}
use go_ozon_marketplace.Inventory.Tables.{
  Stock, ReservationRow, ReservationStatus, reserved, released, Reservation, op_reserve, op_release,
  LedgerOp, ℤ, pos, negsuc, negate, LedgerEntry, Tables, find_reservation, set_status, set_stock,
  is_row,
}
use go_ozon_marketplace.Inventory.Repository.{reserve_stock, release_stock}
use go_ozon_marketplace.Inventory.Effects.{
  active, Reserves, Releases, with_row, with_stock, with_status, with_entry, reserve_entry,
  release_entry,
}

abbrev pub amount : ReservationStatus → ℕ → ℕ
amount reserved q = q
amount released q = 0

-- What the orders hold of a product.
abbrev pub held : ℕ → List Reservation → ℕ
held p [] = 0
held p (r ∷ rs) = (if r.product_id == p then amount r.row.status r.row.quantity else 0) + held p rs

abbrev pub reserved_count : Option Stock → ℕ
reserved_count none = 0
reserved_count (some stock) = stock.reserved

-- All units of a product, free or reserved.
abbrev pub total_count : Option Stock → ℕ
total_count none = 0
total_count (some stock) = stock.available + stock.reserved

abbrev pub magnitude : ℤ → ℕ
magnitude (pos n) = n
magnitude (negsuc n) = suc n

abbrev pub taken_by : LedgerOp → ℕ → ℕ
taken_by op_reserve q = q
taken_by op_release q = 0

abbrev pub returned_by : LedgerOp → ℕ → ℕ
returned_by op_reserve q = 0
returned_by op_release q = q

-- The units of a product that the ledger says were taken, and were given back.
abbrev pub taken : ℕ → List LedgerEntry → ℕ
taken p [] = 0
taken p (e ∷ es) =
    (if e.product_id == p then taken_by e.operation_type (magnitude e.quantity_change) else 0)
    + taken p es

abbrev pub given_back : ℕ → List LedgerEntry → ℕ
given_back p [] = 0
given_back p (e ∷ es) =
    (if e.product_id == p then returned_by e.operation_type (magnitude e.quantity_change) else 0)
    + given_back p es

-- The row of each product counts as reserved what the active reservations hold, and so does the
-- ledger.
abbrev pub IsConsistent : Tables → Type 0
IsConsistent t =
    (p : ℕ)
    → (reserved_count (t.inventory p) ≡ held p t.reservations)
      × (taken p t.ledger ≡ held p t.reservations + given_back p t.ledger)

-- Two states of the tables have the same number of units of each product.
abbrev pub IsConserved : Tables → Tables → Type 0
IsConserved t t' = (p : ℕ) → total_count (t'.inventory p) ≡ total_count (t.inventory p)

magnitude-negate : (q : ℕ) → magnitude (negate q) ≡ q
magnitude-negate zero = refl
magnitude-negate (suc q) = refl

is_row-product :
    (order product : ℕ) (r : Reservation) → is_row order product r ≡ true → r.product_id ≡ product
is_row-product order product r h = ground arith

some-inj : {A : Type 0} {a b : A} → some a ≡ some b → a ≡ b
some-inj h = cc

-- One row: the quantity leaves the sum if the row is of the product.
row_released :
    (p product q h n : ℕ) (st : ReservationStatus) (pid : ℕ)
    → pid ≡ product
    → n ≡ q
    → st ≡ reserved
    → (if pid == p then amount st n else 0) + h
      ≡ (if product == p then q else 0) + ((if pid == p then amount released n else 0) + h)
row_released p product q h n st pid e₁ e₂ e₃ = rw (e₁, e₂, e₃) (ground arith)

-- Giving a reservation back takes its quantity off what its product's orders hold.
pub held-set_status :
    (p order product q : ℕ) (rs : List Reservation)
    → find_reservation order product rs ≡ some (active q)
    → held p rs ≡ (if product == p then q else 0) + held p (set_status order product released rs)
held-set_status p order product q [] f = cc
held-set_status p order product q (r ∷ rs) f = elim (Bool-cases (is_row order product r)) [
  | inl here ↦
      let row : r.row ≡ active q = some-inj (rw here at f) in
      rw here (
        row_released p product q (held p rs) r.row.quantity r.row.status r.product_id
          (is_row-product order product r here) (ap (λ x. x.quantity) row) (ap (λ x. x.status) row))
  | inr there ↦ rw there (omega (arith, held-set_status p order product q rs (rw there at f)))
]
