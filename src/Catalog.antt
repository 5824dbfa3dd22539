-- ===== src/Catalog.antt =====
-- The catalog service: its products, its outbox, and what is read from them.
-- services/catalog-service/internal/domain and the tables of its migrations. Prices are zero or more,
-- which the table checks. The JSON of a payload, and the texts of uuids and times, are made and read by
-- libraries: the type `Bytes` and the fields of `Json`.
pub mod Repository
pub mod Usecase
pub mod Projection
pub mod Handler
pub mod Lookup
pub mod Effects
pub mod Requests
pub mod Sync
mod Tests
use go_ozon_marketplace.Prelude.{
  ℕ, Bool, false, true, List, [], ◌∷◌, Option, none, some, String, ◌==◌, if◌then◌else◌,
}

-- A uuid and an idempotency key are numbers. A time is a number in the unit of the database.
pub record Product : Type 0 where
  pub id : ℕ
  pub name : String
  pub description : String
  pub price : ℕ
  pub categories : List String
  pub idempotency_key : ℕ
  pub created_at : ℕ

-- The event types that the use cases write, and any other one.
pub data EventType : Type 0 where
  product_created product_updated product_deleted : EventType
  unknown : String → EventType

-- `json.Marshal` and `json.Unmarshal` of a product and of the map with the key `product_id`;
-- `uuid.Parse` and `UUID.String`; the RFC 3339 text of a time.
pub record Json (Bytes : Type 0) : Type 0 where
  pub marshal : Product → Bytes
  pub marshal_deleted : String → Bytes
  pub unmarshal : Bytes → Option Product
  pub unmarshal_deleted : Bytes → Option String
  pub parse : String → Option ℕ
  pub show : ℕ → String
  pub format : ℕ → String

-- An event as the use cases write it. What the relay does with the rows is the Outbox modules' concern.
pub record OutboxEvent (Bytes : Type 0) : Type 0 where
  pub id : ℕ
  pub aggregate_id : String
  pub event_type : EventType
  pub payload : Bytes
  pub created_at : ℕ

-- The newest row is the first.
pub record Tables (Bytes : Type 0) : Type 0 where
  pub products : List Product
  pub outbox : List (OutboxEvent Bytes)

abbrev pub find_product : ℕ → List Product → Option Product
find_product id [] = none
find_product id (p ∷ ps) = if p.id == id then some p else find_product id ps

abbrev pub find_by_key : ℕ → List Product → Option Product
find_by_key k [] = none
find_by_key k (p ∷ ps) = if p.idempotency_key == k then some p else find_by_key k ps

abbrev pub has_event : {Bytes : Type 0} → ℕ → List (OutboxEvent Bytes) → Bool
has_event id [] = false
has_event id (e ∷ es) = if e.id == id then true else has_event id es

-- The row after UPDATE ... SET name, description, price, categories.
abbrev pub set_columns : Product → Product → Product
set_columns new row = record row {
  name = new.name;
  description = new.description;
  price = new.price;
  categories = new.categories;
}

abbrev pub set_product : Product → List Product → List Product
set_product new [] = []
set_product new (p ∷ ps) = (if p.id == new.id then set_columns new p else p) ∷ set_product new ps

abbrev pub remove_product : ℕ → List Product → List Product
remove_product id [] = []
remove_product id (p ∷ ps) =
    let rest = remove_product id ps in if p.id == id then rest else p ∷ rest
