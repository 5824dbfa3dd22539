-- ===== src/Catalog/Usecase.antt =====
-- CreateProduct, GetProduct, UpdateProduct and DeleteProduct of
-- services/catalog-service/internal/usecase/usecase.go. Timeouts are faults of the calls.
use go_ozon_marketplace.Prelude.{ℕ, List, [], ◌∷◌, Option, none, some, String}
use go_ozon_marketplace.Prelude.Effect.{Error, Result, Action, fail, ◌>>=◌, ◌>>◌}
use go_ozon_marketplace.Database.{Db, Fault, answered, next_fault, run_tx}
use go_ozon_marketplace.Catalog.{
  Product, OutboxEvent, Tables, Json, EventType, product_created, product_updated, product_deleted,
}
use go_ozon_marketplace.Catalog.Repository.{create, get_by_id, update, delete, create_outbox_event}

-- The fields of UpdateProduct's request: `none` is a nil pointer.
pub record Patch : Type 0 where
  pub name : Option String
  pub description : Option String
  pub price : Option ℕ
  pub categories : List String

abbrev pub or_old : {A : Type 0} → A → Option A → A
or_old old none = old
or_old old (some new) = new

abbrev pub or_old_list : List String → List String → List String
or_old_list old [] = old
or_old_list old (c ∷ cs) = c ∷ cs

unfoldable pub apply_patch : Patch → Product → Product
apply_patch patch p = record p {
  name = or_old p.name patch.name;
  description = or_old p.description patch.description;
  price = or_old p.price patch.price;
  categories = or_old_list p.categories patch.categories;
}

module _ {Bytes : Type 0} (json : Json Bytes) where
  -- The event of a product: `id` is what uuid.New gives, and `time` what the clock does.
  abbrev pub product_event : ℕ → ℕ → EventType → Product → OutboxEvent Bytes
  product_event id time type p = record {
    id = id;
    aggregate_id = json.show p.id;
    event_type = type;
    payload = json.marshal p;
    created_at = time;
  }

  abbrev pub deleted_event : ℕ → ℕ → ℕ → OutboxEvent Bytes
  deleted_event id time product = record {
    id = id;
    aggregate_id = json.show product;
    event_type = product_deleted;
    payload = json.marshal_deleted (json.show product);
    created_at = time;
  }

  abbrev pub record_created :
      OutboxEvent Bytes
      → (Option ℕ × Option Error) × Db (Tables Bytes)
      → Result (Unit {0}) × Db (Tables Bytes)
  record_created event ((_, some e), s) = fail e s
  record_created event ((_, none), s) = create_outbox_event event s

  -- The body of CreateProduct's transaction
  unfoldable pub create_body : OutboxEvent Bytes → Product → Action (Db (Tables Bytes)) (Unit {0})
  create_body event p s = record_created event (create p s)

  -- `createdID`, which the body sets to what Create returns, if the transaction begins.
  abbrev pub created_id : Product → Tables Bytes → List Fault → Fault → Option ℕ
  created_id p t fs answered = (create p (t, fs)).0.0
  created_id p t fs _ = none

  -- CreateProduct, where `p` is the request's product with a new id: the id, and the error.
  unfoldable pub create_product :
      ℕ → ℕ → Product → Db (Tables Bytes) → (Option ℕ × Result (Unit {0})) × Db (Tables Bytes)
  create_product event time p (t, fs) =
      let (r, s) = run_tx (create_body (product_event event time product_created p) p) (t, fs) in
      ((created_id p t (next_fault fs).1 (next_fault fs).0, r), s)

  -- GetProduct
  unfoldable pub get_product : ℕ → Action (Db (Tables Bytes)) Product
  get_product id = get_by_id id

  unfoldable pub update_loaded : ℕ → ℕ → Patch → Product → Action (Db (Tables Bytes)) (Unit {0})
  update_loaded event time patch existing =
      update (apply_patch patch existing)
      >> create_outbox_event (product_event event time product_updated (apply_patch patch existing))

  unfoldable pub update_body : ℕ → ℕ → ℕ → Patch → Action (Db (Tables Bytes)) (Unit {0})
  update_body event time id patch = get_by_id id >>= update_loaded event time patch

  -- UpdateProduct
  unfoldable pub update_product : ℕ → ℕ → ℕ → Patch → Action (Db (Tables Bytes)) (Unit {0})
  update_product event time id patch = run_tx (update_body event time id patch)

  unfoldable pub delete_body : ℕ → ℕ → ℕ → Action (Db (Tables Bytes)) (Unit {0})
  delete_body event time id = delete id >> create_outbox_event (deleted_event event time id)

  -- DeleteProduct
  unfoldable pub delete_product : ℕ → ℕ → ℕ → Action (Db (Tables Bytes)) (Unit {0})
  delete_product event time id = run_tx (delete_body event time id)
