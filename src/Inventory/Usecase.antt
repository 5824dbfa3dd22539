-- ===== src/Inventory/Usecase.antt =====
-- Reserve, Release, GetStock and GetLedger:
-- services/inventory-service/internal/usecase/usecase.go. Timeouts are faults of the calls.
use go_ozon_marketplace.Prelude.{ℕ, List, ◌∷◌, Option, none, some, ◌==◌, if◌then◌else◌}
use go_ozon_marketplace.Prelude.Effect.{
  invalid_argument, insufficient_stock, failed_precondition, conflict, other, Result, ok, err,
  Action, pure, fail, ◌>>=◌, ◌>>◌,
}
use go_ozon_marketplace.Database.{Db, run_tx}
use go_ozon_marketplace.Inventory.Tables.{
  Stock, ReservationRow, reserved, released, pos, negate, op_reserve, op_release, LedgerEntry,
  Tables,
}
use go_ozon_marketplace.Inventory.Repository.{
  get_stock_row, insert_reservation, select_reservation_for_update, update_reservation_status,
  update_stock_for_reserve, update_stock_for_release, insert_ledger, get_ledger_rows,
}

-- The checks of `reserve` on the reservation that is there already
unfoldable pub check_existing : ℕ → ReservationRow → Action (Db Tables) (Unit {0})
check_existing quantity existing = elim existing.status [
  | released ↦ fail failed_precondition
  | reserved ↦ if existing.quantity == quantity then pure tt else fail conflict
]

unfoldable pub deduct : ℕ → ℕ → ℕ → Action (Db Tables) (Unit {0})
deduct product quantity order = update_stock_for_reserve product quantity >>= λ affected.
    if affected == 0
    then fail insufficient_stock
    else insert_ledger product order (negate quantity) op_reserve

-- `reserve`, the body of the transaction
unfoldable pub reserve_body : ℕ → ℕ → ℕ → Action (Db Tables) (Unit {0})
reserve_body product quantity order = insert_reservation order product quantity >>= λ affected.
    if affected == 0
    then select_reservation_for_update order product >>= check_existing quantity
    else deduct product quantity order

unfoldable pub give_back : ℕ → ℕ → ℕ → Action (Db Tables) (Unit {0})
give_back product quantity order = update_stock_for_release product quantity >>= λ affected.
    if affected == 0
    then fail insufficient_stock
    else update_reservation_status order product released
      >> insert_ledger product order (pos quantity) op_release

-- The checks of `release` on the reservation, and what follows them
unfoldable pub release_row : ℕ → ℕ → ℕ → ReservationRow → Action (Db Tables) (Unit {0})
release_row product quantity order row = elim row.status [
  | released ↦ if row.quantity == quantity then pure tt else fail failed_precondition
  | reserved ↦ if row.quantity == quantity then give_back product quantity order else fail conflict
]

-- `release`, the body of the transaction
unfoldable pub release_body : ℕ → ℕ → ℕ → Action (Db Tables) (Unit {0})
release_body product quantity order =
    select_reservation_for_update order product >>= release_row product quantity order

-- The cache, none where there is no Redis client, and the messages published.
pub record Redis : Type 0 where
  pub cached : ℕ → Option Stock
  pub published : List Stock

-- The state of the service: the tables, the faults to come, and Redis.
pub record Service : Type 0 where
  pub db : Db Tables
  pub redis : Option Redis

-- A query on the service's state.
abbrev pub on_db : {A : Type 0} → Action (Db Tables) A → Action Service A
on_db m s = let (r, db) = m s.db in (r, record s { db = db })

abbrev pub cache_stock : ℕ → Stock → Redis → Redis
cache_stock product stock redis = record redis {
  cached = λ p. if p == product then some stock else redis.cached p;
}

abbrev pub publish_stock : Stock → Redis → Redis
publish_stock stock redis = record redis { published = stock ∷ redis.published }

module _ (redis_write : Redis → Redis → Redis) where
  -- Read the row, and change Redis by it; any failure is ignored. `redis_write before after` is what
  -- Redis holds after a command that would take it from `before` to `after` and that may fail.
  abbrev pub refresh : ℕ → (Stock → Redis → Redis) → Service → Service
  refresh product f s = elim s.redis [
    | none ↦ s
    | some redis ↦
        let (r, s') = on_db (get_stock_row product) s in
        elim r [
          | ok stock ↦ record s' { redis = some (redis_write redis (f stock redis)) }
          | err _ ↦ s'
        ]
  ]

  -- writeStockToCache
  unfoldable pub write_stock_to_cache : ℕ → Service → Service
  write_stock_to_cache product = refresh product (cache_stock product)

  -- publishInventoryEvent
  unfoldable pub publish_inventory_event : ℕ → Service → Service
  publish_inventory_event product = refresh product publish_stock

  abbrev pub after_tx : ℕ → Result (Unit {0}) × Service → Result (Unit {0}) × Service
  after_tx product (err e, s) = (err e, s)
  after_tx product (ok _, s) =
      (ok tt, publish_inventory_event product (write_stock_to_cache product s))

  -- The frame of Reserve and Release. `order` is what uuid.Parse makes of the order's id; a negative
  -- quantity is refused as 0 is.
  abbrev pub in_tx :
      (ℕ → ℕ → ℕ → Action (Db Tables) (Unit {0})) → ℕ → ℕ → Option ℕ → Action Service (Unit {0})
  in_tx body product quantity order s =
      if quantity == 0 then (err invalid_argument, s) else elim order [
        | none ↦ (err other, s)
        | some o ↦ after_tx product (on_db (run_tx (body product quantity o)) s)
      ]

  -- Reserve
  unfoldable pub reserve : ℕ → ℕ → Option ℕ → Action Service (Unit {0})
  reserve product quantity order = in_tx reserve_body product quantity order

  -- Release
  unfoldable pub release : ℕ → ℕ → Option ℕ → Action Service (Unit {0})
  release product quantity order = in_tx release_body product quantity order

  abbrev pub fetch_stock : ℕ → Action Service Stock
  fetch_stock product s =
      let (r, s') = on_db (get_stock_row product) s in
      elim r [
        | err e ↦ (err e, s')
        | ok stock ↦ elim s'.redis [
          | none ↦ (ok stock, s')
          | some redis ↦ (
            ok stock,
            record s' { redis = some (redis_write redis (cache_stock product stock redis)) },
          )
        ]
      ]

  -- GetStock; `read` is what the cache answers, `none` where it fails or has nothing.
  unfoldable pub get_stock : (Redis → ℕ → Option Stock) → ℕ → Action Service Stock
  get_stock read product s = elim s.redis [
    | none ↦ fetch_stock product s
    | some redis ↦ elim (read redis product) [
      | some stock ↦ (ok stock, s)
      | none ↦ fetch_stock product s
    ]
  ]

-- GetLedger
unfoldable pub get_ledger : ℕ → Action Service (List LedgerEntry)
get_ledger product = on_db (get_ledger_rows product)
