-- ===== src/Catalog/Sync.antt =====
-- The search index of the catalog, as its outbox events make it, against its table of products:
-- services/catalog-service/internal/usecase/usecase.go with internal/outbox/handler.go.
use mathlib.Core.Path.{subst}
use mathlib.Core.Option.{map}
use go_ozon_marketplace.Prelude.{
  ℕ, ◌≡◌, ◌≢◌, refl, sym, ap, ◌∙◌, inl, inr, List, [], ◌∷◌, Option, none, some, String, ◌==◌,
  if◌then◌else◌, Bool-cases, ==_iff, All,
}
use go_ozon_marketplace.Database.{Db, statement, run_tx}
use go_ozon_marketplace.Database.Laws.{AllOrNothing-keeps, run_tx-AllOrNothing}
use go_ozon_marketplace.Catalog.{
  Product, OutboxEvent, Tables, Json, product_created, product_updated, find_product, set_columns,
  remove_product,
}
use go_ozon_marketplace.Catalog.Lookup.{
  differ, find_product-id, find-set_product, find-remove_product, absent-set_product,
  absent-remove_product,
}
use go_ozon_marketplace.Catalog.Usecase.{
  Patch, apply_patch, product_event, deleted_event, create_body, create_product, update_body,
  update_product, delete_body, delete_product,
}
use go_ozon_marketplace.Catalog.Projection.{Document, Elastic, document, index, delete, handle}
use go_ozon_marketplace.Catalog.Effects.{
  Writes, Updated, create_body-Writes, update_body-Writes, delete_body-Writes,
}
use go_ozon_marketplace.Catalog.Requests.{
  Operation, create, update, remove, operate_all, created_ids, AllDiffer, AllAbsent, All-step,
  AllAbsent-more,
}

module _ {Bytes H : Type 0} (json : Json Bytes) (elastic : Elastic H) where
  -- The index after the handler has had the events of an outbox, the oldest first.
  abbrev pub replay : List (OutboxEvent Bytes) → H → H
  replay [] h = h
  replay (e ∷ es) h = (handle json elastic e (replay es h, [])).1.0

  abbrev pub InSync : (H → String → Option Document) → H → Tables Bytes → Type 0
  InSync get fresh t =
      (id : ℕ)
      → get (replay t.outbox fresh) (json.show id)
        ≡ map (document json elastic) (find_product id t.products)

  module _ (get : H → String → Option Document)
      (get-put : (k : String) (d : Document) (h : H) → get (elastic.put k d h) k ≡ some d)
      (get-put_other : (i j : ℕ) (d : Document) (h : H)
        → i ≢ j
        → get (elastic.put (json.show i) d h) (json.show j) ≡ get h (json.show j))
      (get-erase : (k : String) (h : H) → get (elastic.erase k h) k ≡ none)
      (get-erase_other : (i j : ℕ) (h : H)
        → i ≢ j
        → get (elastic.erase (json.show i) h) (json.show j) ≡ get h (json.show j))
      (unmarshal-marshal : (p : Product) → json.unmarshal (json.marshal p) ≡ some p)
      (unmarshal-marshal_deleted : (id : String)
        → json.unmarshal_deleted (json.marshal_deleted id) ≡ some id)
      (parse-show : (n : ℕ) → json.parse (json.show n) ≡ some n) (fresh : H) where
    abbrev doc : Product → Document
    doc = document json elastic

    put_at :
        (p : Product) (j : ℕ) (h : H)
        → get (elastic.put (json.show p.id) (doc p) h) (json.show j)
          ≡ (if p.id == j then some (doc p) else get h (json.show j))
    put_at p j h = elim (Bool-cases (p.id == j)) [
      | inl a ↦ rw a (
          subst (λ k. get (elastic.put (json.show p.id) (doc p) h) (json.show k) ≡ some (doc p))
            ((==_iff p.id j).0 a) (get-put (json.show p.id) (doc p) h))
      | inr a ↦ rw a (get-put_other p.id j (doc p) h (differ p.id j a))
    ]

    erase_at :
        (id j : ℕ) (h : H)
        → get (elastic.erase (json.show id) h) (json.show j)
          ≡ (if id == j then none else get h (json.show j))
    erase_at id j h = elim (Bool-cases (id == j)) [
      | inl a ↦ rw a (
          subst (λ k. get (elastic.erase (json.show id) h) (json.show k) ≡ none) ((==_iff id j).0 a)
            (get-erase (json.show id) h))
      | inr a ↦ rw a (get-erase_other id j h (differ id j a))
    ]

    handle-created :
        (event time : ℕ) (p : Product) (h : H)
        → (handle json elastic (product_event json event time product_created p) (h, [])).1.0
          ≡ elastic.put (json.show p.id) (doc p) h
    unfolding handle index statement
    handle-created event time p h = rw (unmarshal-marshal p) refl

    handle-updated :
        (event time : ℕ) (p : Product) (h : H)
        → (handle json elastic (product_event json event time product_updated p) (h, [])).1.0
          ≡ elastic.put (json.show p.id) (doc p) h
    unfolding handle index statement
    handle-updated event time p h = rw (unmarshal-marshal p) refl

    handle-deleted :
        (event time id : ℕ) (h : H)
        → (handle json elastic (deleted_event json event time id) (h, [])).1.0
          ≡ elastic.erase (json.show id) h
    unfolding handle delete statement
    handle-deleted event time id h =
        rw (unmarshal-marshal_deleted (json.show id), parse-show id) refl

    abbrev Synced : Tables Bytes → Type 0
    Synced = InSync get fresh

    created-InSync :
        (event time : ℕ) (p : Product) (t t' : Tables Bytes)
        → Synced t
        → Writes t (p ∷ t.products) (product_event json event time product_created p) t'
        → Synced t'
    created-InSync event time p t t' h same = rw same (λ j.
        ap (λ x. get x (json.show j)) (handle-created event time p (replay t.outbox fresh))
        ∙ put_at p j (replay t.outbox fresh)
        ∙ elim (Bool-cases (p.id == j)) [ inl a ↦ rw a refl | inr a ↦ rw a (h j) ])

    patched :
        (patch : Patch) (old : Product)
        → set_columns (apply_patch patch old) old ≡ apply_patch patch old
    unfolding apply_patch
    patched patch old = refl

    patched-id : (patch : Patch) (old : Product) → (apply_patch patch old).id ≡ old.id
    unfolding apply_patch
    patched-id patch old = refl

    Updated-InSync :
        (event time id : ℕ) (patch : Patch) (t t' : Tables Bytes)
        → Synced t
        → Updated t json event time id patch t'
        → Synced t'
    Updated-InSync event time id patch t t' h (old, found, same) = rw same (λ j.
        let new = apply_patch patch old in
        ap (λ x. get x (json.show j)) (handle-updated event time new (replay t.outbox fresh))
        ∙ put_at new j (replay t.outbox fresh)
        ∙ elim (Bool-cases (new.id == j)) [
          | inl a ↦
              let at : find_product j t.products ≡ some old =
                subst (λ k. find_product k t.products ≡ some old)
                  (sym (find_product-id id t.products found)
                    ∙ sym (patched-id patch old)
                    ∙ (==_iff new.id j).0 a)
                  found in
              rw (find-set_product new j t.products, a, at, patched patch old) refl
          | inr a ↦ rw (find-set_product new j t.products, a) (h j)
        ])

    deleted-InSync :
        (event time id : ℕ) (t t' : Tables Bytes)
        → Synced t
        → Writes t (remove_product id t.products) (deleted_event json event time id) t'
        → Synced t'
    deleted-InSync event time id t t' h same = rw same (λ j.
        ap (λ x. get x (json.show j)) (handle-deleted event time id (replay t.outbox fresh))
        ∙ erase_at id j (replay t.outbox fresh)
        ∙ elim (Bool-cases (id == j)) [
          | inl a ↦ rw (find-remove_product id j t.products, a) refl
          | inr a ↦ rw (find-remove_product id j t.products, a) (h j)
        ])

    -- In step with the index, and without the products that are yet to be created.
    abbrev Ready : List ℕ → Tables Bytes → Type 0
    Ready ids t = Synced t × AllAbsent ids t.products

    created-Ready :
        (event time : ℕ) (p : Product) (ids : List ℕ) (s : Db (Tables Bytes))
        → find_product p.id s.0.products ≡ none
        → All (λ j. p.id ≢ j) ids
        → Ready ids s.0
        → Ready ids (create_product json event time p s).1.0
    unfolding create_product
    created-Ready event time p ids (t, fs) new other (h, absent) =
        let e = product_event json event time product_created p in
        AllOrNothing-keeps (λ _ t'. Writes t (p ∷ t.products) e t') (Ready ids) t
          (run_tx (create_body json e p) (t, fs))
          (run_tx-AllOrNothing _ (create_body json e p) t fs
            (λ gs. create_body-Writes t e p json gs new))
          (h, absent)
          (λ _ t' w. (
            created-InSync event time p t t' h w,
            rw w (AllAbsent-more p ids t.products other absent),
          ))

    updated-Ready :
        (event time id : ℕ) (patch : Patch) (ids : List ℕ) (s : Db (Tables Bytes))
        → Ready ids s.0
        → Ready ids (update_product json event time id patch s).1.0
    unfolding update_product
    updated-Ready event time id patch ids (t, fs) (h, absent) =
        AllOrNothing-keeps (λ _ t'. Updated t json event time id patch t') (Ready ids) t
          (run_tx (update_body json event time id patch) (t, fs))
          (run_tx-AllOrNothing _ (update_body json event time id patch) t fs
            (update_body-Writes t json event time id patch))
          (h, absent)
          (λ _ t' (old, found, w). (
            Updated-InSync event time id patch t t' h (old, found, w),
            rw w (
                All-step _ _ ids (λ j. absent-set_product (apply_patch patch old) j t.products)
                  absent),
          ))

    deleted-Ready :
        (event time id : ℕ) (ids : List ℕ) (s : Db (Tables Bytes))
        → Ready ids s.0
        → Ready ids (delete_product json event time id s).1.0
    unfolding delete_product
    deleted-Ready event time id ids (t, fs) (h, absent) =
        AllOrNothing-keeps
          (λ _ t'. Writes t (remove_product id t.products) (deleted_event json event time id) t')
          (Ready ids) t (run_tx (delete_body json event time id) (t, fs))
          (run_tx-AllOrNothing _ (delete_body json event time id) t fs
            (delete_body-Writes t json event time id))
          (h, absent)
          (λ _ t' w. (
            deleted-InSync event time id t t' h w,
            rw w (All-step _ _ ids (λ j. absent-remove_product id j t.products) absent),
          ))

    -- Whatever calls of the database fail in however many requests that create, update and delete
    -- products: if the index that the events of the outbox make agrees with the table of products,
    -- it agrees with it afterwards. A uuid that is made for a product is new; JSON and uuids are read
    -- back as they were written; the index finds what was put last under an id and not erased.
    pub operate_all-InSync :
        (os : List Operation) (s : Db (Tables Bytes))
        → AllDiffer (created_ids os)
        → AllAbsent (created_ids os) s.0.products
        → InSync get fresh s.0
        → InSync get fresh (operate_all json os s).0
    operate_all-InSync [] s apart absent h = h
    operate_all-InSync (create event time p ∷ os) s (other, apart) (new, absent) h =
        let (h', absent') = created-Ready event time p (created_ids os) s new other (h, absent) in
        operate_all-InSync os (create_product json event time p s).1 apart absent' h'
    operate_all-InSync (update event time id patch ∷ os) s apart absent h =
        let (h', absent') = updated-Ready event time id patch (created_ids os) s (h, absent) in
        operate_all-InSync os (update_product json event time id patch s).1 apart absent' h'
    operate_all-InSync (remove event time id ∷ os) s apart absent h =
        let (h', absent') = deleted-Ready event time id (created_ids os) s (h, absent) in
        operate_all-InSync os (delete_product json event time id s).1 apart absent' h'
