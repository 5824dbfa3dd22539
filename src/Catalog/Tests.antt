-- ===== src/Catalog/Tests.antt =====
-- Requests to the catalog, with an answer that is lost, and the index that their events make.
use go_ozon_marketplace.Prelude.{
  ℕ, zero, suc, ◌≡◌, ◌≢◌, refl, ap, ◌⊎◌, inl, inr, false, true, List, [], ◌∷◌, Option, none, some,
  String, ◌==◌, if◌then◌else◌, arith, ==_iff,
}
use go_ozon_marketplace.Prelude.Effect.{other}
use go_ozon_marketplace.Database.{Db, answered, lost, statement, run_tx}
use go_ozon_marketplace.Catalog.{Product, Tables, Json, find_product}
use go_ozon_marketplace.Catalog.Repository
use go_ozon_marketplace.Catalog.Usecase
use go_ozon_marketplace.Catalog.Projection.{Document, Elastic}
use go_ozon_marketplace.Catalog.Requests.{Operation, create, update, remove, operate_all}
use go_ozon_marketplace.Catalog.Sync.{InSync, operate_all-InSync}

-- A payload is the value itself; the text of a uuid has as many characters as the number says.
abbrev Payload : Type 0
Payload = Product ⊎ String

abbrev show : ℕ → String
show zero = ""
show (suc n) = String.◌∷◌ "x" (show n)

abbrev size : String → ℕ
size String.[] = 0
size (String.◌∷◌ c s) = suc (size s)

size-show : (n : ℕ) → size (show n) ≡ n
size-show zero = refl
size-show (suc n) = ap (λ m. suc m) (size-show n)

abbrev product_of : Payload → Option Product
product_of (inl p) = some p
product_of (inr _) = none

abbrev text_of : Payload → Option String
text_of (inl _) = none
text_of (inr s) = some s

abbrev json : Json Payload
json = record {
  marshal = λ p. inl p;
  marshal_deleted = λ s. inr s;
  unmarshal = product_of;
  unmarshal_deleted = text_of;
  parse = λ s. some (size s);
  show = show;
  format = show;
}

abbrev Index : Type 0
Index = ℕ → Option Document

abbrev elastic : Elastic Index
elastic = record {
  put = λ k d h n. if size k == n then some d else h n;
  erase = λ k h n. if size k == n then none else h n;
}

abbrev get : Index → String → Option Document
get h k = h (size k)

abbrev nothing : Index
nothing n = none

same : (n : ℕ) → (n == n) ≡ true
same n = (==_iff n n).1 refl

apart : (i j : ℕ) → i ≢ j → (size (show i) == size (show j)) ≡ false
apart i j h = rw (size-show i, size-show j) (grind arith)

abbrev lamp : Product
lamp = record {
  id = 1;
  name = "lamp";
  description = "";
  price = 10;
  categories = [];
  idempotency_key = 5;
  created_at = 3;
}

abbrev chair : Product
chair = record lamp { id = 2; name = "chair"; idempotency_key = 6 }

abbrev dearer : Usecase.Patch
dearer = record { name = none; description = none; price = some 12; categories = [] }

-- The answer to the commit of the update is lost, and the chair comes and goes.
abbrev requests : List Operation
requests = create 10 3 lamp ∷ create 11 4 chair ∷ update 12 5 1 dearer ∷ remove 13 6 2 ∷ []

abbrev start : Db (Tables Payload)
start = (
  record { products = []; outbox = [] },
  answered
      ∷ answered
      ∷ answered
      ∷ answered
      ∷ answered
      ∷ answered
      ∷ answered
      ∷ answered
      ∷ answered
      ∷ answered
      ∷ answered
      ∷ answered
      ∷ lost other
      ∷ [],
)

operate_all-InSync_example : InSync json elastic get nothing (operate_all json requests start).0
operate_all-InSync_example =
    operate_all-InSync json elastic get (λ k d h. rw (same (size k)) refl)
      (λ i j d h other. rw (apart i j other) refl) (λ k h. rw (same (size k)) refl)
      (λ i j h other. rw (apart i j other) refl) (λ p. refl) (λ s. refl)
      (λ n. ap (λ m. some m) (size-show n)) nothing requests start
      (((λ e. absurd omega arith), tt), (tt, tt)) (refl, (refl, tt)) (λ id. refl)

-- The price of the lamp has changed in the table, though the client got an error.
lamp_is_dearer :
    find_product 1 (operate_all json requests start).0.products ≡ some (record lamp { price = 12 })
unfolding Usecase.create_product Usecase.create_body Repository.create Repository.insert_product
    Usecase.update_product Usecase.update_body Usecase.update_loaded Usecase.apply_patch
    Repository.update Repository.get_by_id Usecase.delete_product Usecase.delete_body
    Repository.delete Repository.create_outbox_event statement run_tx
lamp_is_dearer = refl
