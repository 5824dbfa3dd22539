-- ===== src/Inventory/Guarantees/Sequences.antt =====
-- Several calls of Reserve and Release of services/inventory-service/internal/usecase/usecase.go,
-- one after the other: sequences of any calls, retries, and a reservation that is given back.
use mathlib.Core.Path.{subst}
use go_ozon_marketplace.Prelude.{
  ℕ, ◌+◌, ◌-◌, ◌≤◌, ◌≡◌, refl, sym, ap, ◌∙◌, inl, inr, true, List, [], ◌∷◌, Option, none, some,
  ◌==◌, arith, Bool-cases, ==_iff,
}
use go_ozon_marketplace.Prelude.Effect.{Result, ok}
use go_ozon_marketplace.Inventory.Tables.{
  Stock, Reservation, Tables, find_reservation, set_stock, set_status, released, is_row,
}
use go_ozon_marketplace.Inventory.Repository.{reserve_stock, release_stock}
use go_ozon_marketplace.Inventory.Usecase.{Redis, Service, reserve, release}
use go_ozon_marketplace.Inventory.Effects.{
  active, returned, Reserves, Releases, with_row, with_stock, with_entry, reserve_entry,
}
use go_ozon_marketplace.Inventory.Invariant.{
  held, reserved_count, total_count, IsConsistent, IsConserved,
}
use go_ozon_marketplace.Inventory.Invariant.Calls.{
  Reserves-IsConserved, Releases-IsConserved, Reserves-IsConsistent, Releases-IsConsistent,
}
use go_ozon_marketplace.Inventory.Guarantees.{Does, reserve-Does, release-Does}

-- A call with its product, quantity and order.
pub data Call : Type 0 where
  reserve_call release_call : ℕ → ℕ → ℕ → Call

-- Does the change of the tables come of this call?
abbrev Makes : Call → Tables → Tables → Type 0
Makes (reserve_call p q o) = Reserves p q o
Makes (release_call p q o) = Releases p q o

module _ (redis_write : Redis → Redis → Redis) where
  abbrev pub run_call : Call → Service → Result (Unit {0}) × Service
  run_call (reserve_call p q o) s = reserve redis_write p q (some o) s
  run_call (release_call p q o) s = release redis_write p q (some o) s

  -- The service after the calls, whatever they return.
  abbrev pub run_calls : List Call → Service → Service
  run_calls [] s = s
  run_calls (c ∷ cs) s = run_calls cs (run_call c s).1

  run_call-Does : (c : Call) (s : Service) → Does (Makes c) s.db.0 (run_call c s)
  run_call-Does (reserve_call p q o) s = reserve-Does redis_write p q o s
  run_call-Does (release_call p q o) s = release-Does redis_write p q o s

  Makes-keeps :
      (c : Call) (t t' : Tables)
      → Makes c t t'
      → (IsConsistent t → IsConsistent t') × IsConserved t t'
  Makes-keeps (reserve_call p q o) t t' m =
      (Reserves-IsConsistent p q o m, Reserves-IsConserved p q o m)
  Makes-keeps (release_call p q o) t t' m =
      (Releases-IsConsistent p q o m, Releases-IsConserved p q o m)

  run_call-keeps :
      (c : Call) (s : Service)
      → (IsConsistent s.db.0 → IsConsistent (run_call c s).1.db.0)
        × IsConserved s.db.0 (run_call c s).1.db.0
  run_call-keeps c s = elim ((run_call-Does c s).1) [
    | inl same ↦
        (λ k. subst IsConsistent (sym same) k, λ p. ap (λ t. total_count (t.inventory p)) same)
    | inr made ↦ Makes-keeps c s.db.0 (run_call c s).1.db.0 made
  ]

  -- However many calls are made, with whichever database faults, a consistent service stays so: of
  -- every product the row, the active reservations and the ledger agree on what is reserved.
  pub run_calls-IsConsistent :
      (cs : List Call) (s : Service) → IsConsistent s.db.0 → IsConsistent (run_calls cs s).db.0
  run_calls-IsConsistent [] s k = k
  run_calls-IsConsistent (c ∷ cs) s k =
      run_calls-IsConsistent cs (run_call c s).1 ((run_call-keeps c s).0 k)

  -- No call loses or creates a unit of a product: free and reserved units add up to the same number.
  pub run_calls-IsConserved :
      (cs : List Call) (s : Service) → IsConserved s.db.0 (run_calls cs s).db.0
  run_calls-IsConserved [] s p = refl
  run_calls-IsConserved (c ∷ cs) s p =
      run_calls-IsConserved cs (run_call c s).1 p ∙ (run_call-keeps c s).1 p

  held-total :
      (t : Tables) (p : ℕ) → IsConsistent t → held p t.reservations ≤ total_count (t.inventory p)
  held-total t p k = by_stock (t.inventory p) (k p).0
    where
      by_stock :
          (o : Option Stock)
          → reserved_count o ≡ held p t.reservations
          → held p t.reservations ≤ total_count o
      by_stock none h = omega (arith, h)
      by_stock (some stock) h = omega (arith, h)

  -- No product is oversold: from a consistent state, after any calls, the orders hold no more units
  -- of a product than there were at the start, free and reserved together.
  pub run_calls-no_oversell :
      (cs : List Call) (s : Service) (p : ℕ)
      → IsConsistent s.db.0
      → held p (run_calls cs s).db.0.reservations ≤ total_count (s.db.0.inventory p)
  run_calls-no_oversell cs s p k = omega (
    arith,
    held-total (run_calls cs s).db.0 p (run_calls-IsConsistent cs s k),
    run_calls-IsConserved cs s p,
  )

  find-with_row :
      (p q o : ℕ) (t : Tables)
      → find_reservation o p (with_row p q o t).reservations ≡ some (active q)
  find-with_row p q o t = ground arith

  Reserves-twice :
      (p q o : ℕ) {t t' t'' : Tables}
      → Reserves p q o t t'
      → Reserves p q o t' t''
      → Reserves p q o t t''
  Reserves-twice p q o {t} {t'} {t''} (inl (f, same)) r = subst (λ u. Reserves p q o u t'') same r
  Reserves-twice p q o {t} {t'} {t''} (inr first) (inl (f, same)) =
      subst (Reserves p q o t) (sym same) (inr first)
  Reserves-twice p q o {t} {t'} {t''} (inr (new, (stock, e, enough, done))) (inr (f, second)) =
      let old : find_reservation o p t'.reservations ≡ some (active q) =
        subst (λ u. find_reservation o p u.reservations ≡ some (active q)) (sym done)
          (find-with_row p q o t) in
      absurd (cc (old, f))

  -- A retry of Reserve that succeeds has, together with the call that it repeats, reserved exactly
  -- once, whatever became of that call.
  pub reserve_retry :
      (p q o : ℕ) (s : Service)
      → let first = reserve redis_write p q (some o) s in
        let again = reserve redis_write p q (some o) first.1 in
        again.0 ≡ ok tt → Reserves p q o s.db.0 again.1.db.0
  reserve_retry p q o s success =
      let first = (reserve redis_write p q (some o) s).1 in
      let second : Reserves p q o first.db.0 (reserve redis_write p q (some o) first).1.db.0 =
        (reserve-Does redis_write p q o first).0 success in
      elim ((reserve-Does redis_write p q o s).1) [
        | inl same ↦
            subst (λ t. Reserves p q o t (reserve redis_write p q (some o) first).1.db.0) same
              second
        | inr done ↦ Reserves-twice p q o done second
      ]

  there_and_back :
      (q : ℕ) (stock : Stock)
      → q ≤ stock.available
      → release_stock q (reserve_stock q stock) ≡ stock
  there_and_back q stock enough =
      let e₁ : stock.available - q + q ≡ stock.available = omega arith in
      let e₂ : stock.reserved + q - q ≡ stock.reserved = omega arith in rw (e₁, e₂) refl

  some-inj : {A : Type 0} {a b : A} → some a ≡ some b → a ≡ b
  some-inj h = cc

  restored :
      (p q x : ℕ) (stock back : Stock) (inv : ℕ → Option Stock)
      → inv p ≡ some stock
      → q ≤ stock.available
      → set_stock p (reserve_stock q stock) inv p ≡ some back
      → set_stock p (release_stock q back) (set_stock p (reserve_stock q stock) inv) x ≡ inv x
  restored p q x stock back inv e enough b = elim (Bool-cases (x == p)) [
    | inl same ↦
        let self : (p == p) ≡ true = ground arith in
        let moved : reserve_stock q stock ≡ back = some-inj (rw self at b) in
        let eq : x ≡ p = (==_iff x p).0 same in
        rw same (rw (sym moved) (ap some (there_and_back q stock enough)) ∙ sym e ∙ ap inv (sym eq))
    | inr other ↦ rw other refl
  ]

  find-set_status :
      (p q o : ℕ) (rs : List Reservation)
      → find_reservation o p rs ≡ some (active q)
      → find_reservation o p (set_status o p released rs) ≡ some (returned q)
  find-set_status p q o [] f = cc
  find-set_status p q o (r ∷ rs) f = elim (Bool-cases (is_row o p r)) [
    | inl here ↦
        let row : r.row ≡ active q = some-inj (rw here at f) in
        rw (here, here) (ap (λ w. some (returned w.quantity)) row)
    | inr there ↦ rw (there, there) (find-set_status p q o rs (rw there at f))
  ]

  -- What is known of the tables after the two calls.
  abbrev Restored : ℕ → ℕ → ℕ → Tables → Tables → Type 0
  Restored p q o t t' =
      ((x : ℕ) → t'.inventory x ≡ t.inventory x)
      × (find_reservation o p t'.reservations ≡ some (returned q))

  given_back-Restored :
      (p q o : ℕ) (t t'' : Tables) (stock : Stock)
      → t.inventory p ≡ some stock
      → q ≤ stock.available
      → Releases p q o
          (with_entry p q o
            (reserve_entry p q o)
            (with_stock p q o (reserve_stock q stock) (with_row p q o t)))
          t''
      → Restored p q o t t''
  given_back-Restored p q o t t'' stock e enough (inl (f, same)) =
      absurd (cc (f, find-with_row p q o t))
  given_back-Restored p q o t t'' stock e enough (inr (f, (back, b, enough', done))) = rw done (
    λ x. restored p q x stock back t.inventory e enough b,
    find-set_status p q o (with_row p q o t).reservations f,
  )

  Reserves-Releases :
      (p q o : ℕ) {t t' t'' : Tables}
      → find_reservation o p t.reservations ≡ none
      → Reserves p q o t t'
      → Releases p q o t' t''
      → Restored p q o t t''
  Reserves-Releases p q o new (inl (f, same)) rel = absurd (cc (new, f))
  Reserves-Releases p q o {t} {t'} {t''} new (inr (f, (stock, e, enough, done))) rel =
      given_back-Restored p q o t t'' stock e enough (subst (λ u. Releases p q o u t'') done rel)

  -- After a new reservation that is then given back, the stock of every product is what it was.
  pub reserve-release :
      (p q o : ℕ) (s : Service)
      → find_reservation o p s.db.0.reservations ≡ none
      → let r = reserve redis_write p q (some o) s in
        let r' = release redis_write p q (some o) r.1 in
        r.0 ≡ ok tt
        → r'.0 ≡ ok tt
        → ((x : ℕ) → r'.1.db.0.inventory x ≡ s.db.0.inventory x)
          × (find_reservation o p r'.1.db.0.reservations ≡ some (returned q))
  reserve-release p q o s new success success' =
      let r = (reserve redis_write p q (some o) s).1 in
      Reserves-Releases p q o new ((reserve-Does redis_write p q o s).0 success)
        ((release-Does redis_write p q o r).0 success')
