-- ===== src/Catalog/Effects.antt =====
-- What the use cases of services/catalog-service/internal/usecase/usecase.go leave in the tables.
use mathlib.Core.Path.{subst}
use go_ozon_marketplace.Prelude.{
  ℕ, ◌≡◌, ◌≢◌, refl, inl, inr, List, [], ◌∷◌, Option, none, some, ◌==◌, if◌then◌else◌, Bool-cases,
  arith, ==_iff,
}
use go_ozon_marketplace.Prelude.Effect.{Result, ok, err}
use go_ozon_marketplace.Database.{Db, Fault, row_or_not_found}
use go_ozon_marketplace.Database.Laws.{OnOk, bind-OnOk, map-OnOk, statement-OnOk}
use go_ozon_marketplace.Catalog.{
  Product, OutboxEvent, Tables, Json, product_updated, find_product, find_by_key, has_event,
  set_product, remove_product,
}
use go_ozon_marketplace.Catalog.Repository.{
  add_product, insert_product, created, create, get_by_id, replace, update, remove, delete,
  create_outbox_event,
}
use go_ozon_marketplace.Catalog.Usecase.{
  Patch, apply_patch, product_event, deleted_event, record_created, create_body, update_loaded,
  update_body, delete_body,
}

-- The row that has a key is not one of an id that no row has.
key_elsewhere :
    (k i : ℕ) (ps : List Product) {old : Product}
    → find_by_key k ps ≡ some old
    → find_product i ps ≡ none
    → old.id ≢ i
key_elsewhere k i [] found free same = absurd cc
key_elsewhere k i (p ∷ ps) {old} found free same = elim (Bool-cases (p.idempotency_key == k)) [
  | inl a ↦ elim (Bool-cases (p.id == i)) [
    | inl b ↦ absurd grind arith
    | inr b ↦ absurd grind arith
  ]
  | inr a ↦ elim (Bool-cases (p.id == i)) [
    | inl b ↦ absurd grind arith
    | inr b ↦
        key_elsewhere k i ps
          (subst (λ c. (if c then some p else find_by_key k ps) ≡ some old) a found)
          (subst (λ c. (if c then some p else find_product i ps) ≡ none) b free) same
  ]
]

module _ {Bytes : Type 0} (t : Tables Bytes) where
  -- One event more, and these products.
  abbrev pub Writes : List Product → OutboxEvent Bytes → Tables Bytes → Type 0
  Writes ps e t' = t' ≡ record { products = ps; outbox = e ∷ t.outbox }

  event-Writes :
      (ps : List Product) (e : OutboxEvent Bytes) (t' : Tables Bytes) (fs : List Fault)
      → t' ≡ record { products = ps; outbox = t.outbox }
      → OnOk (λ _ u. Writes ps e u) (create_outbox_event e (t', fs))
  unfolding create_outbox_event
  event-Writes ps e t' fs same = rw same (
      statement-OnOk _ _ (record { products = ps; outbox = t.outbox }) fs
        (elim (Bool-cases (has_event e.id t.outbox)) [
          | inl taken ↦ rw taken tt
          | inr free ↦ rw free refl
        ]))

  insert-Adds :
      (p : Product) (fs : List Fault)
      → find_product p.id t.products ≡ none
      → OnOk
          (λ id t'. id ≡ p.id → t' ≡ record { products = p ∷ t.products; outbox = t.outbox })
          (insert_product p (t, fs))
  unfolding insert_product
  insert-Adds p fs new = statement-OnOk _ _ t fs (
      by_key (find_by_key p.idempotency_key t.products) (find_product p.id t.products)
        (λ old h. key_elsewhere p.idempotency_key p.id t.products h new))
    where
      by_key :
          (o q : Option Product)
          → ((old : Product) → o ≡ some old → old.id ≢ p.id)
          → let r = add_product p t o q in
            OnOk
              (λ id t'. id ≡ p.id → t' ≡ record { products = p ∷ t.products; outbox = t.outbox })
              (r.0, (r.1, []))
      by_key (some old) q other = λ same. absurd (other old refl same)
      by_key none (some _) other = tt
      by_key none none other = λ same. refl

  pub create_body-Writes :
      (e : OutboxEvent Bytes) (p : Product) (json : Json Bytes) (fs : List Fault)
      → find_product p.id t.products ≡ none
      → OnOk (λ _ t'. Writes (p ∷ t.products) e t') (create_body json e p (t, fs))
  unfolding create_body create
  create_body-Writes e p json fs new = by_result (insert_product p (t, fs)) (insert-Adds p fs new)
    where
      by_result :
          (r : Result ℕ × Db (Tables Bytes))
          → OnOk
              (λ id t'. id ≡ p.id → t' ≡ record { products = p ∷ t.products; outbox = t.outbox })
              r
          → OnOk (λ _ t'. Writes (p ∷ t.products) e t') (record_created json e (created p r.0, r.1))
      by_result (err x, s) h = tt
      by_result (ok id, (t', gs)) h = elim (Bool-cases (id == p.id)) [
        | inl b ↦ rw b (event-Writes (p ∷ t.products) e t' gs (h ((==_iff id p.id).0 b)))
        | inr b ↦ rw b tt
      ]

  looked_up :
      (o : Option Product) → OnOk (λ old u. (u ≡ t) × (o ≡ some old)) (row_or_not_found o, (t, []))
  looked_up none = tt
  looked_up (some p) = (refl, refl)

  replaced :
      (p : Product) (o : Option Product)
      → let r = replace p t o in
        OnOk
          (λ _ u. u ≡ record { products = set_product p t.products; outbox = t.outbox })
          (r.0, (r.1, []))
  replaced p none = tt
  replaced p (some _) = refl

  removed :
      (id : ℕ) (o : Option Product)
      → let r = remove id t o in
        OnOk
          (λ _ u. u ≡ record { products = remove_product id t.products; outbox = t.outbox })
          (r.0, (r.1, []))
  removed id none = tt
  removed id (some _) = refl

  update_loaded-Writes :
      (json : Json Bytes) (event time : ℕ) (patch : Patch) (old : Product) (fs : List Fault)
      → let new = apply_patch patch old in
        OnOk
          (λ _ t'.
            Writes
              (set_product new t.products)
              (product_event json event time product_updated new)
              t')
          (update_loaded json event time patch old (t, fs))
  unfolding update_loaded update
  update_loaded-Writes json event time patch old fs =
      let new = apply_patch patch old in
      let e = product_event json event time product_updated new in
      bind-OnOk (λ _ u. u ≡ record { products = set_product new t.products; outbox = t.outbox })
        (λ _ t'. Writes (set_product new t.products) e t') (update new) (λ _. create_outbox_event e)
        (t, fs) (statement-OnOk _ _ t fs (replaced new (find_product new.id t.products)))
        (λ _ u gs same. event-Writes (set_product new t.products) e u gs same)

  abbrev pub Updated : Json Bytes → ℕ → ℕ → ℕ → Patch → Tables Bytes → Type 0
  Updated json event time id patch t' =
      (old : Product) × (find_product id t.products ≡ some old)
      × let new = apply_patch patch old in
        Writes (set_product new t.products) (product_event json event time product_updated new) t'

  pub update_body-Writes :
      (json : Json Bytes) (event time id : ℕ) (patch : Patch) (fs : List Fault)
      → OnOk
          (λ _ t'. Updated json event time id patch t')
          (update_body json event time id patch (t, fs))
  unfolding update_body get_by_id
  update_body-Writes json event time id patch fs =
      bind-OnOk (λ old u. (u ≡ t) × (find_product id t.products ≡ some old))
        (λ _ t'. Updated json event time id patch t') (get_by_id id)
        (update_loaded json event time patch) (t, fs)
        (statement-OnOk _ _ t fs (looked_up (find_product id t.products)))
        (λ old u gs (same, found). rw same (
          map-OnOk _ (λ _ t'. Updated json event time id patch t')
            (update_loaded json event time patch old (t, gs)) (λ _ t' w. (old, found, w))
            (update_loaded-Writes json event time patch old gs)))

  pub delete_body-Writes :
      (json : Json Bytes) (event time id : ℕ) (fs : List Fault)
      → OnOk
          (λ _ t'. Writes (remove_product id t.products) (deleted_event json event time id) t')
          (delete_body json event time id (t, fs))
  unfolding delete_body delete
  delete_body-Writes json event time id fs =
      let e = deleted_event json event time id in
      bind-OnOk (λ _ u. u ≡ record { products = remove_product id t.products; outbox = t.outbox })
        (λ _ t'. Writes (remove_product id t.products) e t') (delete id)
        (λ _. create_outbox_event e) (t, fs)
        (statement-OnOk _ _ t fs (removed id (find_product id t.products)))
        (λ _ u gs same. event-Writes (remove_product id t.products) e u gs same)
