-- ===== src/Inventory/Invariant/Calls.antt =====
-- Reserve and Release of services/inventory-service/internal/usecase/usecase.go keep the tables
-- consistent and lose no unit of a product.
use go_ozon_marketplace.Prelude.{
  ℕ, ◌≡◌, refl, sym, ap, ◌⊎◌, inl, inr, true, false, Option, some, ◌==◌, if◌then◌else◌, arith,
  Bool-cases, ==_iff,
}
use mathlib.Core.Path.{subst}
use go_ozon_marketplace.Inventory.Tables.{Stock, Tables, set_stock}
use go_ozon_marketplace.Inventory.Repository.{reserve_stock, release_stock}
use go_ozon_marketplace.Inventory.Effects.{Reserves, Releases}
use go_ozon_marketplace.Inventory.Invariant.{
  reserved_count, total_count, IsConsistent, IsConserved, magnitude-negate, held-set_status,
}

-- A fact about the counts of every product, before and after one product's row is changed.
at_product :
    (f : Option Stock → ℕ) (p product : ℕ) (stock stock' : Stock) (inv : ℕ → Option Stock)
    → inv product ≡ some stock
    → ((f (set_stock product stock' inv p) ≡ f (some stock'))
        × (f (inv p) ≡ f (some stock))
        × ((product == p) ≡ true))
      ⊎ ((f (set_stock product stock' inv p) ≡ f (inv p)) × ((product == p) ≡ false))
at_product f p product stock stock' inv e = elim (Bool-cases (p == product)) [
  | inl same ↦
      let eq : p ≡ product = (==_iff p product).0 same in
      inl (ap (λ b. f (if b then some stock' else inv p)) same, rw eq (ap f e), ground (arith, eq))
  | inr other ↦ inr (ap (λ b. f (if b then some stock' else inv p)) other, ground (arith, other))
]

module _ (product q order : ℕ) {t t' : Tables} where
  pub Reserves-IsConserved : Reserves product q order t t' → IsConserved t t'
  Reserves-IsConserved (inl (f, same)) p = rw same refl
  Reserves-IsConserved (inr (f, (stock, e, enough, done))) p =
      rw done (elim (at_product total_count p product stock (reserve_stock q stock) t.inventory e) [
        | inl (after, before, _) ↦ omega (arith, after, before, enough)
        | inr (after, _) ↦ after
      ])

  pub Releases-IsConserved : Releases product q order t t' → IsConserved t t'
  Releases-IsConserved (inl (f, same)) p = rw same refl
  Releases-IsConserved (inr (f, (stock, e, enough, done))) p =
      rw done (elim (at_product total_count p product stock (release_stock q stock) t.inventory e) [
        | inl (after, before, _) ↦ omega (arith, after, before, enough)
        | inr (after, _) ↦ after
      ])

  pub Reserves-IsConsistent : Reserves product q order t t' → IsConsistent t → IsConsistent t'
  Reserves-IsConsistent (inl (f, same)) c = subst IsConsistent (sym same) c
  Reserves-IsConsistent (inr (f, (stock, e, enough, done))) c = subst IsConsistent (sym done) (λ p.
      elim (at_product reserved_count p product stock (reserve_stock q stock) t.inventory e) [
        | inl (after, before, hit) ↦
            rw hit
              (omega (arith, after, before, (c p).0), omega (arith, (c p).1, magnitude-negate q))
        | inr (after, miss) ↦ rw miss (omega (arith, after, (c p).0), omega (arith, (c p).1))
      ])

  pub Releases-IsConsistent : Releases product q order t t' → IsConsistent t → IsConsistent t'
  Releases-IsConsistent (inl (f, same)) c = subst IsConsistent (sym same) c
  Releases-IsConsistent (inr (f, (stock, e, enough, done))) c = subst IsConsistent (sym done) (λ p.
      let h = held-set_status p order product q t.reservations f in
      elim (at_product reserved_count p product stock (release_stock q stock) t.inventory e) [
        | inl (after, before, hit) ↦
            let h' = rw hit at h in
            rw hit (omega (arith, after, before, (c p).0, h', enough), omega (arith, (c p).1, h'))
        | inr (after, miss) ↦
            let h' = rw miss at h in
            rw miss (omega (arith, after, (c p).0, h'), omega (arith, (c p).1, h'))
      ])
