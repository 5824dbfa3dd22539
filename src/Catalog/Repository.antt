-- ===== src/Catalog/Repository.antt =====
-- The SQL statements of services/catalog-service/internal/repository/postgres/product_postgres.go, and
-- Create of outbox_postgres.go. A violated key is an error.
use go_ozon_marketplace.Prelude.{ℕ, ◌∷◌, Option, none, some, ◌==◌, if◌then◌else◌}
use go_ozon_marketplace.Prelude.Effect.{
  Error, already_exists, not_found, other, Result, ok, err, Action,
}
use go_ozon_marketplace.Database.{Db, statement, row_or_not_found}
use go_ozon_marketplace.Catalog.{
  Product, OutboxEvent, Tables, find_product, find_by_key, has_event, set_product, remove_product,
}

-- What Create makes of the id that is returned.
abbrev pub created : Product → Result ℕ → Option ℕ × Option Error
created p (err e) = (none, some e)
created p (ok id) = if id == p.id then (some id, none) else (some id, some already_exists)

module _ {Bytes : Type 0} where
  -- The INSERT: the id of the new row, or of the one that has the key.
  abbrev pub add_product :
      Product → Tables Bytes → Option Product → Option Product → Result ℕ × Tables Bytes
  add_product p t (some old) _ = (ok old.id, t)
  add_product p t none (some _) = (err other, t)
  add_product p t none none = (ok p.id, record t { products = p ∷ t.products })

  unfoldable pub insert_product : Product → Action (Db (Tables Bytes)) ℕ
  insert_product p = statement (λ t.
      add_product p t (find_by_key p.idempotency_key t.products) (find_product p.id t.products))

  -- Create: the id, uuid.Nil as `none`, and the error.
  unfoldable pub create :
      Product → Db (Tables Bytes) → (Option ℕ × Option Error) × Db (Tables Bytes)
  create p s = let (r, s') = insert_product p s in (created p r, s')

  -- GetByID
  unfoldable pub get_by_id : ℕ → Action (Db (Tables Bytes)) Product
  get_by_id id = statement (λ t. (row_or_not_found (find_product id t.products), t))

  abbrev pub replace : Product → Tables Bytes → Option Product → Result (Unit {0}) × Tables Bytes
  replace p t none = (err not_found, t)
  replace p t (some _) = (ok tt, record t { products = set_product p t.products })

  -- Update
  unfoldable pub update : Product → Action (Db (Tables Bytes)) (Unit {0})
  update p = statement (λ t. replace p t (find_product p.id t.products))

  abbrev pub remove : ℕ → Tables Bytes → Option Product → Result (Unit {0}) × Tables Bytes
  remove id t none = (err not_found, t)
  remove id t (some _) = (ok tt, record t { products = remove_product id t.products })

  -- Delete
  unfoldable pub delete : ℕ → Action (Db (Tables Bytes)) (Unit {0})
  delete id = statement (λ t. remove id t (find_product id t.products))

  -- OutboxPostgres.Create
  unfoldable pub create_outbox_event : OutboxEvent Bytes → Action (Db (Tables Bytes)) (Unit {0})
  create_outbox_event e = statement (λ t.
      if has_event e.id t.outbox
      then (err other, t)
      else (ok tt, record t { outbox = e ∷ t.outbox }))
