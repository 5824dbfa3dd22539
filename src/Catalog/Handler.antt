-- ===== src/Catalog/Handler.antt =====
-- The gRPC handler of services/catalog-service/internal/delivery/grpc/handler.go. A list and a search
-- are left out.
use go_ozon_marketplace.Prelude.{ℕ, List, [], ◌∷◌, Option, none, some, String}
use go_ozon_marketplace.Prelude.Effect.{Error, already_exists, not_found, Result, ok, err, Action}
use go_ozon_marketplace.Database.{Db}
use go_ozon_marketplace.Errors.{
  Code, code_already_exists, code_not_found, code_internal, code_invalid_argument, sentinel,
  to_status,
}
use go_ozon_marketplace.Grpc.{Context, Role, Reply, reply, status, require_role}
use go_ozon_marketplace.Catalog.{Product, Tables, Json}
use go_ozon_marketplace.Catalog.Usecase.{
  Patch, create_product, get_product, update_product, delete_product,
}

-- catalogv1.Product
pub record ProtoProduct : Type 0 where
  pub product_id : String
  pub name : String
  pub description : String
  pub price_cents : ℕ
  pub categories : List String
  pub created_at : String

-- The statuses of UpdateProduct and DeleteProduct, and of GetProduct's use case.
abbrev pub change_status : Error → Code
change_status not_found = code_not_found
change_status _ = code_internal

-- CreateProduct's: an error that is not ErrAlreadyExists goes to the interceptor.
abbrev pub create_status : Error → Code
create_status already_exists = code_already_exists
create_status e = to_status (sentinel e)

module _ {Bytes : Type 0} (json : Json Bytes) where
  -- toProtoProduct
  unfoldable pub to_proto_product : Product → ProtoProduct
  to_proto_product p = record {
    product_id = json.show p.id;
    name = p.name;
    description = p.description;
    price_cents = p.price;
    categories = p.categories;
    created_at = json.format p.created_at;
  }

  -- The text of the id; uuid.Nil has a text too, which an answer without an error does not hold.
  abbrev pub created_reply : Option ℕ × Result (Unit {0}) → Reply (Option String)
  created_reply (none, ok _) = reply none
  created_reply (some id, ok _) = reply (some (json.show id))
  created_reply (_, err e) = status (create_status e)

  -- CreateProduct
  unfoldable pub handle_create_product :
      ℕ → ℕ → Product → Db (Tables Bytes) → Reply (Option String) × Db (Tables Bytes)
  handle_create_product event time p s =
      let (r, s') = create_product json event time p s in (created_reply r, s')

  abbrev pub product_reply : Result Product → Reply ProtoProduct
  product_reply (ok p) = reply (to_proto_product p)
  product_reply (err e) = status (change_status e)

  -- GetProduct; the error of uuid.Parse goes to the interceptor.
  unfoldable pub handle_get_product :
      String → Db (Tables Bytes) → Reply ProtoProduct × Db (Tables Bytes)
  handle_get_product text s = elim (json.parse text) [
    | none ↦ (status code_internal, s)
    | some id ↦ let (r, s') = get_product json id s in (product_reply r, s')
  ]

  abbrev pub change_reply : Result (Unit {0}) → Reply (Unit {0})
  change_reply (ok _) = reply tt
  change_reply (err e) = status (change_status e)

  -- What UpdateProduct and DeleteProduct do before and after their use case.
  abbrev pub for_admin :
      (ℕ → Action (Db (Tables Bytes)) (Unit {0}))
      → Context
      → String
      → Db (Tables Bytes)
      → Reply (Unit {0}) × Db (Tables Bytes)
  for_admin act ctx text s = elim (require_role ctx (Role.admin ∷ [])) [
    | some code ↦ (status code, s)
    | none ↦ elim (json.parse text) [
      | none ↦ (status code_invalid_argument, s)
      | some id ↦ let (r, s') = act id s in (change_reply r, s')
    ]
  ]

  -- UpdateProduct
  unfoldable pub handle_update_product :
      ℕ → ℕ → Context → String → Patch → Db (Tables Bytes) → Reply (Unit {0}) × Db (Tables Bytes)
  handle_update_product event time ctx text patch s =
      for_admin (λ id. update_product json event time id patch) ctx text s

  -- DeleteProduct
  unfoldable pub handle_delete_product :
      ℕ → ℕ → Context → String → Db (Tables Bytes) → Reply (Unit {0}) × Db (Tables Bytes)
  handle_delete_product event time ctx text s =
      for_admin (delete_product json event time) ctx text s
