-- ===== src/Catalog/Requests.antt =====
-- Requests that change the products, one after the other.
use go_ozon_marketplace.Prelude.{ℕ, ◌≡◌, ◌≢◌, List, [], ◌∷◌, none, All}
use go_ozon_marketplace.Database.{Db}
use go_ozon_marketplace.Catalog.{Product, Tables, Json, find_product}
use go_ozon_marketplace.Catalog.Lookup.{absent-more}
use go_ozon_marketplace.Catalog.Usecase.{Patch, create_product, update_product, delete_product}

-- A request that changes products, with the id and the time of its event.
pub data Operation : Type 0 where
  create : ℕ → ℕ → Product → Operation
  update : ℕ → ℕ → ℕ → Patch → Operation
  remove : ℕ → ℕ → ℕ → Operation

abbrev pub operate :
    {Bytes : Type 0} → Json Bytes → Operation → Db (Tables Bytes) → Db (Tables Bytes)
operate json (create event time p) s = (create_product json event time p s).1
operate json (update event time id patch) s = (update_product json event time id patch s).1
operate json (remove event time id) s = (delete_product json event time id s).1

abbrev pub operate_all :
    {Bytes : Type 0} → Json Bytes → List Operation → Db (Tables Bytes) → Db (Tables Bytes)
operate_all json [] s = s
operate_all json (o ∷ os) s = operate_all json os (operate json o s)

-- The new ids of the products to be created.
abbrev pub created_ids : List Operation → List ℕ
created_ids [] = []
created_ids (create _ _ p ∷ os) = p.id ∷ created_ids os
created_ids (update _ _ _ _ ∷ os) = created_ids os
created_ids (remove _ _ _ ∷ os) = created_ids os

abbrev pub AllDiffer : List ℕ → Type 0
AllDiffer [] = Unit
AllDiffer (i ∷ is) = All (λ j. i ≢ j) is × AllDiffer is

abbrev pub AllAbsent : List ℕ → List Product → Type 0
AllAbsent ids ps = All (λ i. find_product i ps ≡ none) ids

pub All-step : (P Q : ℕ → Type 0) (ids : List ℕ) → ((i : ℕ) → P i → Q i) → All P ids → All Q ids
All-step P Q [] f h = tt
All-step P Q (i ∷ is) f (h, hs) = (f i h, All-step P Q is f hs)

pub AllAbsent-more :
    (p : Product) (ids : List ℕ) (ps : List Product)
    → All (λ j. p.id ≢ j) ids
    → AllAbsent ids ps
    → AllAbsent ids (p ∷ ps)
AllAbsent-more p [] ps other h = tt
AllAbsent-more p (i ∷ is) ps (o, os) (h, hs) =
    (absent-more p i ps o h, AllAbsent-more p is ps os hs)
