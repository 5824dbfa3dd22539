-- ===== src/Catalog/Projection.antt =====
-- The handler of the catalog's outbox events, services/catalog-service/internal/outbox/handler.go, with
-- the index that it writes, internal/repository/elasticsearch/product_es.go. The client of
-- Elasticsearch is a library: an index of the type `H`, with functions that put and erase a document.
use go_ozon_marketplace.Prelude.{ℕ, List, Option, none, some, String}
use go_ozon_marketplace.Prelude.Effect.{Error, Result, ok, err, Action}
use go_ozon_marketplace.Database.{Db, statement}
use go_ozon_marketplace.Catalog.{
  Product, OutboxEvent, Json, EventType, product_created, product_updated, product_deleted, unknown,
}

-- What the index holds of a product.
pub record Document : Type 0 where
  pub id : String
  pub name : String
  pub description : String
  pub price_cents : ℕ
  pub categories : List String
  pub created_at : String

-- Handle: done, ErrPoison, or the error of the index.
pub data Outcome : Type 0 where
  done poison : Outcome
  failed : Error → Outcome

pub record Elastic (H : Type 0) : Type 0 where
  pub put : String → Document → H → H
  pub erase : String → H → H

module _ {Bytes H : Type 0} (json : Json Bytes) (elastic : Elastic H) where
  unfoldable pub document : Product → Document
  document p = record {
    id = json.show p.id;
    name = p.name;
    description = p.description;
    price_cents = p.price;
    categories = p.categories;
    created_at = json.format p.created_at;
  }

  -- ProductES.Index
  unfoldable pub index : Product → Action (Db H) (Unit {0})
  index p = statement (λ h. (ok tt, elastic.put (json.show p.id) (document p) h))

  -- ProductES.Delete: that the document is not found is no error.
  unfoldable pub delete : ℕ → Action (Db H) (Unit {0})
  delete id = statement (λ h. (ok tt, elastic.erase (json.show id) h))

  abbrev pub outcome : Result (Unit {0}) × Db H → Outcome × Db H
  outcome (ok _, s) = (done, s)
  outcome (err e, s) = (failed e, s)

  abbrev pub handle_product : Option Product → Db H → Outcome × Db H
  handle_product none s = (poison, s)
  handle_product (some p) s = outcome (index p s)

  abbrev pub handle_id : Option ℕ → Db H → Outcome × Db H
  handle_id none s = (poison, s)
  handle_id (some id) s = outcome (delete id s)

  abbrev pub handle_deleted : Option String → Db H → Outcome × Db H
  handle_deleted none s = (poison, s)
  handle_deleted (some text) s = handle_id (json.parse text) s

  abbrev pub handle_payload : EventType → Bytes → Db H → Outcome × Db H
  handle_payload product_created payload s = handle_product (json.unmarshal payload) s
  handle_payload product_updated payload s = handle_product (json.unmarshal payload) s
  handle_payload product_deleted payload s = handle_deleted (json.unmarshal_deleted payload) s
  handle_payload (unknown _) payload s = (poison, s)

  -- ESHandler.Handle
  unfoldable pub handle : OutboxEvent Bytes → Db H → Outcome × Db H
  handle event s = handle_payload event.event_type event.payload s
