-- ===== src/Inventory/Tests.antt =====
-- The theorems about services/inventory-service/internal/usecase/usecase.go at a concrete stock.
use go_ozon_marketplace.Prelude.{
  ℕ, ◌≡◌, ◌≤◌, refl, inl, inr, List, [], ◌∷◌, Option, none, some, ◌==◌, if◌then◌else◌, Bool-cases,
}
use go_ozon_marketplace.Prelude.Effect.{other, ok}
use go_ozon_marketplace.Database.{answered, lost, statement, run_tx}
use go_ozon_marketplace.Inventory.Tables.{Stock, find_reservation}
use go_ozon_marketplace.Inventory.Repository.{
  get_stock_row, insert_reservation, select_reservation_for_update, update_reservation_status,
  update_stock_for_reserve, update_stock_for_release, insert_ledger,
}
use go_ozon_marketplace.Inventory.Usecase.{
  Redis, Service, reserve, release, reserve_body, release_body, deduct, give_back, check_existing,
  release_row, write_stock_to_cache, publish_inventory_event,
}
use go_ozon_marketplace.Inventory.Effects.{returned, Reserves, Releases}
use go_ozon_marketplace.Inventory.Invariant.{held, IsConsistent, IsConserved}
use go_ozon_marketplace.Inventory.Guarantees.{Does, reserve-Does, release-Does}
use go_ozon_marketplace.Inventory.Guarantees.Sequences.{
  Call, reserve_call, release_call, run_calls, run_calls-IsConsistent, run_calls-IsConserved,
  run_calls-no_oversell, reserve_retry, reserve-release,
}

-- Ten units of the product 7, none of any other.
abbrev shelf : ℕ → Option Stock
shelf p = if p == 7 then some (record { product_id = 7; available = 10; reserved = 0 }) else none

-- The first transaction loses the answer to its commit: its begin is answered, and so are its three
-- statements.
abbrev lossy : Service
lossy = record {
  db = (
    record { inventory = shelf; reservations = []; ledger = [] },
    answered ∷ answered ∷ answered ∷ answered ∷ lost other ∷ [],
  );
  redis = none;
}

abbrev steady : Service
steady = record {
  db = (record { inventory = shelf; reservations = []; ledger = [] }, []);
  redis = some (record { cached = λ p. none; published = [] });
}

-- A Redis whose commands succeed.
abbrev working : Redis → Redis → Redis
working before after = after

shelf-IsConsistent : IsConsistent steady.db.0
shelf-IsConsistent p = elim (Bool-cases (p == 7)) [
  | inl here ↦ rw here (refl, refl)
  | inr elsewhere ↦ rw elsewhere (refl, refl)
]

abbrev busy : List Call
busy = reserve_call 7 4 1 ∷ reserve_call 7 8 2 ∷ release_call 7 4 1 ∷ reserve_call 7 8 2 ∷ []

reserve-Does_example : Does (Reserves 7 4 1) lossy.db.0 (reserve working 7 4 (some 1) lossy)
reserve-Does_example = reserve-Does working 7 4 1 lossy

release-Does_example : Does (Releases 7 4 1) steady.db.0 (release working 7 4 (some 1) steady)
release-Does_example = release-Does working 7 4 1 steady

run_calls-IsConsistent_example : IsConsistent (run_calls working busy steady).db.0
run_calls-IsConsistent_example = run_calls-IsConsistent working busy steady shelf-IsConsistent

run_calls-IsConserved_example : IsConserved steady.db.0 (run_calls working busy steady).db.0
run_calls-IsConserved_example = run_calls-IsConserved working busy steady

run_calls-no_oversell_example : held 7 (run_calls working busy steady).db.0.reservations ≤ 10
run_calls-no_oversell_example = run_calls-no_oversell working busy steady 7 shelf-IsConsistent

-- The retry of a call whose commit was lost succeeds.
lossy-retry : (reserve working 7 4 (some 1) (reserve working 7 4 (some 1) lossy).1).0 ≡ ok tt
unfolding reserve reserve_body deduct check_existing run_tx statement insert_reservation
    select_reservation_for_update update_stock_for_reserve insert_ledger write_stock_to_cache
    publish_inventory_event get_stock_row
lossy-retry = refl

reserve_retry_example :
    Reserves 7 4 1 lossy.db.0
      (reserve working 7 4 (some 1) (reserve working 7 4 (some 1) lossy).1).1.db.0
reserve_retry_example = reserve_retry working 7 4 1 lossy lossy-retry

steady-reserve : (reserve working 7 4 (some 1) steady).0 ≡ ok tt
unfolding reserve reserve_body deduct run_tx statement insert_reservation update_stock_for_reserve
    insert_ledger write_stock_to_cache publish_inventory_event get_stock_row
steady-reserve = refl

steady-release : (release working 7 4 (some 1) (reserve working 7 4 (some 1) steady).1).0 ≡ ok tt
unfolding reserve release release_body release_row give_back update_reservation_status
    update_stock_for_release reserve_body deduct run_tx statement insert_reservation
    select_reservation_for_update update_stock_for_reserve insert_ledger write_stock_to_cache
    publish_inventory_event get_stock_row
steady-release = refl

reserve-release_example :
    let r = release working 7 4 (some 1) (reserve working 7 4 (some 1) steady).1 in
    ((x : ℕ) → r.1.db.0.inventory x ≡ steady.db.0.inventory x)
    × (find_reservation 1 7 r.1.db.0.reservations ≡ some (returned 4))
reserve-release_example = reserve-release working 7 4 1 steady refl steady-reserve steady-release
