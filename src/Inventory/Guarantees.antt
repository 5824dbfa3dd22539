-- ===== src/Inventory/Guarantees.antt =====
-- What Reserve and Release of services/inventory-service/internal/usecase/usecase.go promise, for
-- every schedule of database faults and every behaviour of Redis.
pub mod Sequences
use mathlib.Core.Path.{subst}
use go_ozon_marketplace.Prelude.{
  ℕ, ◌+◌, ◌≤◌, ◌≡◌, refl, sym, ap, ◌∙◌, ◌⊎◌, inl, inr, Bool, true, false, List, [], ◌∷◌, Option,
  none, some, ◌==◌, if◌then◌else◌, arith, Bool-cases, Option-cases,
}
use go_ozon_marketplace.Prelude.Effect.{Error, Result, ok, err, Action, Result-cases}
use go_ozon_marketplace.Database.{Db, Fault, run_tx}
use go_ozon_marketplace.Database.Laws.{OnOk, AllOrNothing, run_tx-AllOrNothing, statement-reads}
use go_ozon_marketplace.Inventory.Tables.{Stock, Tables, find_reservation}
use go_ozon_marketplace.Inventory.Repository.{get_stock_row}
use go_ozon_marketplace.Inventory.Usecase.{
  Redis, Service, on_db, refresh, after_tx, in_tx, reserve, release, reserve_body, release_body,
  write_stock_to_cache, publish_inventory_event, cache_stock, publish_stock,
}
use go_ozon_marketplace.Inventory.Effects.{active, returned, Reserves, Releases}
use go_ozon_marketplace.Inventory.Effects.Bodies.{reserve_body-OnOk, release_body-OnOk}
use go_ozon_marketplace.Inventory.Invariant.{held, total_count, IsConsistent, IsConserved}
use go_ozon_marketplace.Inventory.Invariant.Calls.{
  Reserves-IsConserved, Releases-IsConserved, Reserves-IsConsistent, Releases-IsConsistent,
}

-- A call on the tables `t` that ends in `r` has done `Q`, or nothing; and `Q` where it reports
-- success.
abbrev pub Does : (Tables → Tables → Type 0) → Tables → Result (Unit {0}) × Service → Type 0
Does Q t r = (r.0 ≡ ok tt → Q t r.1.db.0) × ((r.1.db.0 ≡ t) ⊎ Q t r.1.db.0)

read-tables : (product : ℕ) (s : Service) → (on_db (get_stock_row product) s).1.db.0 ≡ s.db.0
unfolding get_stock_row
read-tables product s = statement-reads _ s.db.0 s.db.1 refl

module _ (redis_write : Redis → Redis → Redis) where
  refresh-tables :
      (product : ℕ) (f : Stock → Redis → Redis) (s : Service)
      → (refresh redis_write product f s).db.0 ≡ s.db.0
  refresh-tables product f s = by_redis s.redis
    where
      by_answer :
          (redis : Redis) (r : Result Stock) (s' : Service)
          → s'.db.0 ≡ s.db.0
          → (elim r as (λ _. Service) [
            | ok stock ↦ record s' { redis = some (redis_write redis (f stock redis)) }
            | err _ ↦ s'
          ]).db.0
            ≡ s.db.0
      by_answer redis (ok stock) s' h = h
      by_answer redis (err _) s' h = h

      by_redis :
          (o : Option Redis)
          → (elim o as (λ _. Service) [
            | none ↦ s
            | some redis ↦ elim (on_db (get_stock_row product) s).0 as (λ _. Service) [
              | ok stock ↦ record (on_db (get_stock_row product) s).1 {
                redis = some (redis_write redis (f stock redis));
              }
              | err _ ↦ (on_db (get_stock_row product) s).1
            ]
          ]).db.0
            ≡ s.db.0
      by_redis none = refl
      by_redis (some redis) =
          by_answer redis (on_db (get_stock_row product) s).0 (on_db (get_stock_row product) s).1
            (read-tables product s)

  after-tables :
      (product : ℕ) (s : Service)
      → (publish_inventory_event redis_write product
          (write_stock_to_cache redis_write product s)).db.0
        ≡ s.db.0
  unfolding publish_inventory_event write_stock_to_cache
  after-tables product s =
      refresh-tables product publish_stock _ ∙ refresh-tables product (cache_stock product) s

  after_tx-Does :
      (Q : Tables → Tables → Type 0) (t : Tables) (product : ℕ) (redis : Option Redis)
      (r : Result (Unit {0}) × Db Tables)
      → AllOrNothing (λ _ t'. Q t t') t r
      → Does Q t (after_tx redis_write product (r.0, record { db = r.1; redis = redis }))
  after_tx-Does Q t product redis (ok tt, db) q =
      let same = after-tables product (record { db = db; redis = redis }) in
      (λ _. subst (Q t) (sym same) q, inr (subst (Q t) (sym same) q))
  after_tx-Does Q t product redis (err e, db) (inl same) = (λ h. cc, inl same)
  after_tx-Does Q t product redis (err e, db) (inr (_, q)) = (λ h. cc, inr q)

  in_tx-Does :
      (Q : Tables → Tables → Type 0) (body : ℕ → ℕ → ℕ → Action (Db Tables) (Unit {0}))
      (product q order : ℕ) (s : Service)
      → ((gs : List Fault) → OnOk (λ _ t'. Q s.db.0 t') (body product q order (s.db.0, gs)))
      → Does Q s.db.0 (in_tx redis_write body product q (some order) s)
  in_tx-Does Q body product q order s h = elim (Bool-cases (q == 0)) [
    | inl zero_ ↦ rw zero_ (λ e. cc, inl refl)
    | inr positive ↦ rw positive (
        after_tx-Does Q s.db.0 product s.redis (run_tx (body product q order) s.db)
          (run_tx-AllOrNothing (λ _ t'. Q s.db.0 t') (body product q order) s.db.0 s.db.1 h))
  ]

  -- Reserve is atomic: it leaves the tables as they were; or the product has an active reservation
  -- of the quantity for the order, which was there already, with no table changed, or is new, with
  -- the stock moved and the ledger written. If it reports success it is the latter.
  pub reserve-Does :
      (product q order : ℕ) (s : Service)
      → Does (Reserves product q order) s.db.0 (reserve redis_write product q (some order) s)
  unfolding reserve
  reserve-Does product q order s =
      in_tx-Does (Reserves product q order) reserve_body product q order s
        (reserve_body-OnOk product q order s.db.0)

  -- Release is atomic: it leaves the tables as they were; or the reservation of the quantity is
  -- given back, which it was already, with no table changed, or is now, with the stock moved and the
  -- ledger written. If it reports success it is the latter.
  pub release-Does :
      (product q order : ℕ) (s : Service)
      → Does (Releases product q order) s.db.0 (release redis_write product q (some order) s)
  unfolding release
  release-Does product q order s =
      in_tx-Does (Releases product q order) release_body product q order s
        (release_body-OnOk product q order s.db.0)
