-- ===== src/Catalog/Lookup.antt =====
-- What is found in the table of products after a statement of product_postgres.go.
use mathlib.Core.Path.{subst}
use mathlib.Core.Option.{map}
use go_ozon_marketplace.Prelude.{
  ℕ, ◌≡◌, ◌≢◌, refl, sym, ap, ◌∙◌, inl, inr, true, false, List, [], ◌∷◌, none, some, ◌==◌,
  if◌then◌else◌, Bool-cases, arith, ==_iff,
}
use go_ozon_marketplace.Catalog.{Product, find_product, set_columns, set_product, remove_product}

trans_eq : (a b c : ℕ) → (a == b) ≡ true → (a == c) ≡ true → (b == c) ≡ true
trans_eq a b c h k = (==_iff b c).1 (sym ((==_iff a b).0 h) ∙ (==_iff a c).0 k)

other_eq : (a b c : ℕ) → (a == b) ≡ false → (a == c) ≡ true → (b == c) ≡ false
other_eq a b c h k = grind arith

pub differ : (a b : ℕ) → (a == b) ≡ false → a ≢ b
differ a b h k = grind arith

pub find_product-id :
    (id : ℕ) (ps : List Product) {p : Product} → find_product id ps ≡ some p → p.id ≡ id
find_product-id id [] found = absurd cc
find_product-id id (q ∷ qs) {p} found = elim (Bool-cases (q.id == id)) [
  | inl a ↦
      sym (
        ap (λ o. elim o [ none ↦ q.id | some x ↦ x.id ])
          (subst (λ c. (if c then some q else find_product id qs) ≡ some p) a found))
      ∙ (==_iff q.id id).0 a
  | inr a ↦
      find_product-id id qs
        (subst (λ c. (if c then some q else find_product id qs) ≡ some p) a found)
]

pub find-set_product :
    (new : Product) (j : ℕ) (ps : List Product)
    → find_product j (set_product new ps)
      ≡ (if new.id == j then map (set_columns new) (find_product j ps) else find_product j ps)
find-set_product new j [] = elim (Bool-cases (new.id == j)) [
  | inl a ↦ rw a refl
  | inr a ↦ rw a refl
]
find-set_product new j (p ∷ ps) =
    let rest = find-set_product new j ps in
    elim (Bool-cases (p.id == new.id)) [
      | inl a ↦ elim (Bool-cases (p.id == j)) [
        | inl b ↦ rw (a, b, trans_eq p.id new.id j a b) refl
        | inr b ↦ rw (a, b) rest
      ]
      | inr a ↦ elim (Bool-cases (p.id == j)) [
        | inl b ↦ rw (a, b, other_eq p.id new.id j a b) refl
        | inr b ↦ rw (a, b) rest
      ]
    ]

pub find-remove_product :
    (id j : ℕ) (ps : List Product)
    → find_product j (remove_product id ps) ≡ (if id == j then none else find_product j ps)
find-remove_product id j [] = elim (Bool-cases (id == j)) [ inl a ↦ rw a refl | inr a ↦ rw a refl ]
find-remove_product id j (p ∷ ps) =
    let rest = find-remove_product id j ps in
    elim (Bool-cases (p.id == id)) [
      | inl a ↦ elim (Bool-cases (p.id == j)) [
        | inl b ↦ rw (a, b) (rest ∙ rw (trans_eq p.id id j a b) refl)
        | inr b ↦ rw (a, b) rest
      ]
      | inr a ↦ elim (Bool-cases (p.id == j)) [
        | inl b ↦ rw (a, b, other_eq p.id id j a b) refl
        | inr b ↦ rw (a, b) rest
      ]
    ]

pub absent-set_product :
    (new : Product) (j : ℕ) (ps : List Product)
    → find_product j ps ≡ none
    → find_product j (set_product new ps) ≡ none
absent-set_product new j ps h = elim (Bool-cases (new.id == j)) [
  | inl a ↦ rw (find-set_product new j ps, a, h) refl
  | inr a ↦ rw (find-set_product new j ps, a, h) refl
]

pub absent-remove_product :
    (id j : ℕ) (ps : List Product)
    → find_product j ps ≡ none
    → find_product j (remove_product id ps) ≡ none
absent-remove_product id j ps h = elim (Bool-cases (id == j)) [
  | inl a ↦ rw (find-remove_product id j ps, a) refl
  | inr a ↦ rw (find-remove_product id j ps, a) h
]

pub absent-more :
    (p : Product) (j : ℕ) (ps : List Product)
    → p.id ≢ j
    → find_product j ps ≡ none
    → find_product j (p ∷ ps) ≡ none
absent-more p j ps other h = elim (Bool-cases (p.id == j)) [
  | inl a ↦ absurd (other ((==_iff p.id j).0 a))
  | inr a ↦ rw a h
]
