-- ===== src/Inventory/Effects/Bodies.antt =====
-- The transactions of Reserve and Release in
-- services/inventory-service/internal/usecase/usecase.go as a whole.
use go_ozon_marketplace.Prelude.{
  ℕ, ◌≡◌, refl, ◌∙◌, ap, inl, inr, List, none, some, ◌==◌, if◌then◌else◌, Bool-cases, ==_iff,
}
use go_ozon_marketplace.Prelude.Effect.{Action, fail, insufficient_stock, ◌>>=◌, ◌>>◌}
use go_ozon_marketplace.Database.{Db, Fault}
use go_ozon_marketplace.Database.Laws.{OnOk, map-OnOk, bind-OnOk, statement-OnOk}
use go_ozon_marketplace.Inventory.Tables.{
  ReservationStatus, reserved, released, pos, negate, op_reserve, op_release, Tables,
  find_reservation,
}
use go_ozon_marketplace.Inventory.Repository.{
  insert_ledger, insert_reservation, select_reservation_for_update, update_reservation_status,
  update_stock_for_reserve, update_stock_for_release, reserve_stock, release_stock,
}
use go_ozon_marketplace.Inventory.Usecase.{
  check_existing, deduct, reserve_body, give_back, release_row, release_body,
}
use go_ozon_marketplace.Inventory.Effects.{
  active, returned, with_row, with_stock, with_status, with_entry, reserve_entry, release_entry,
  Reserves, Releases, Inserts, Found, Moves, insert-Inserts, select-Found, deduct-Moves,
  give_back-Moves,
}

module _ (product q order : ℕ) where
  abbrev Is : Tables → Unit {0} → Tables → Type 0
  Is expected _ t = t ≡ expected

  reserve_ledger-Is :
      (t : Tables) (fs : List Fault)
      → OnOk
          (Is (with_entry product q order (reserve_entry product q order) t))
          (insert_ledger product order (negate q) op_reserve (t, fs))
  unfolding insert_ledger
  reserve_ledger-Is t fs = statement-OnOk _ _ t fs refl

  release_ledger-Is :
      (t : Tables) (fs : List Fault)
      → OnOk
          (Is (with_entry product q order (release_entry product q order) t))
          (insert_ledger product order (pos q) op_release (t, fs))
  unfolding insert_ledger
  release_ledger-Is t fs = statement-OnOk _ _ t fs refl

  status-Is :
      (t : Tables) (fs : List Fault)
      → OnOk
          (Is (with_status product q order t))
          (update_reservation_status order product released (t, fs))
  unfolding update_reservation_status
  status-Is t fs = statement-OnOk _ _ t fs refl

  check_existing-OnOk :
      (t : Tables) (fs : List Fault) (n : ℕ) (st : ReservationStatus)
      → find_reservation order product t.reservations ≡ some (record { quantity = n; status = st })
      → OnOk
          (λ _ t'. Reserves product q order t t')
          (check_existing q (record { quantity = n; status = st }) (t, fs))
  unfolding check_existing
  check_existing-OnOk t fs n released f = tt
  check_existing-OnOk t fs n reserved f = elim (Bool-cases (n == q)) [
    | inl same ↦ rw same (inl (f ∙ ap (λ n'. some (active n')) ((==_iff n q).0 same), refl))
    | inr differs ↦ rw differs tt
  ]

  -- What follows the first statement of each of the calls.
  abbrev record_reserve : ℕ → Action (Db Tables) (Unit {0})
  record_reserve n =
      if n == 0 then fail insufficient_stock else insert_ledger product order (negate q) op_reserve

  abbrev after_insert : ℕ → Action (Db Tables) (Unit {0})
  after_insert n =
      if n == 0
      then select_reservation_for_update order product >>= check_existing q
      else deduct product q order

  abbrev record_release : ℕ → Action (Db Tables) (Unit {0})
  record_release n =
      if n == 0
      then fail insufficient_stock
      else update_reservation_status order product released
        >> insert_ledger product order (pos q) op_release

  deduct-OnOk :
      (t : Tables) (fs : List Fault)
      → find_reservation order product t.reservations ≡ none
      → OnOk
          (λ _ t'. Reserves product q order t t')
          (deduct product q order (with_row product q order t, fs))
  unfolding deduct
  deduct-OnOk t fs new =
      bind-OnOk _ (λ _ t'. Reserves product q order t t') (update_stock_for_reserve product q)
        record_reserve (with_row product q order t, fs)
        (deduct-Moves product q order (with_row product q order t) fs) record_it
    where
      record_it :
          (n : ℕ) (t' : Tables) (gs : List Fault)
          → Moves product q order
              (λ s. s.available)
              (reserve_stock q)
              (with_row product q order t)
              n
              t'
          → OnOk (λ _ u. Reserves product q order t u) (record_reserve n (t', gs))
      record_it n t' gs (inl none_moved) = rw none_moved tt
      record_it n t' gs (inr (one, (stock, e, enough, moved))) =
          rw (one, moved)
            (map-OnOk _ (λ _ u. Reserves product q order t u) _
              (λ _ u done. inr (new, (stock, e, enough, done)))
              (reserve_ledger-Is
                (with_stock product q order (reserve_stock q stock) (with_row product q order t))
                gs))

  -- The transaction of Reserve, where it succeeds.
  pub reserve_body-OnOk :
      (t : Tables) (fs : List Fault)
      → OnOk (λ _ t'. Reserves product q order t t') (reserve_body product q order (t, fs))
  unfolding reserve_body
  reserve_body-OnOk t fs =
      bind-OnOk _ (λ _ t'. Reserves product q order t t') (insert_reservation order product q)
        after_insert (t, fs) (insert-Inserts product q order t fs) go_on
    where
      go_on :
          (n : ℕ) (t' : Tables) (gs : List Fault)
          → Inserts product q order t n t'
          → OnOk (λ _ u. Reserves product q order t u) (after_insert n (t', gs))
      go_on n t' gs (inl (old, same)) =
          rw (old, same)
            (bind-OnOk (Found product q order t) (λ _ u. Reserves product q order t u)
              (select_reservation_for_update order product) (check_existing q) (t, gs)
              (select-Found product q order t gs)
              (λ row u hs found.
                rw found.1 (check_existing-OnOk t hs row.quantity row.status found.0)))
      go_on n t' gs (inr (one, new, added)) = rw (one, added) (deduct-OnOk t gs new)

  give_back-OnOk :
      (t : Tables) (fs : List Fault)
      → find_reservation order product t.reservations ≡ some (active q)
      → OnOk (λ _ t'. Releases product q order t t') (give_back product q order (t, fs))
  unfolding give_back
  give_back-OnOk t fs found =
      bind-OnOk _ (λ _ t'. Releases product q order t t') (update_stock_for_release product q)
        record_release (t, fs) (give_back-Moves product q order t fs) record_it
    where
      record_it :
          (n : ℕ) (t' : Tables) (gs : List Fault)
          → Moves product q order (λ s. s.reserved) (release_stock q) t n t'
          → OnOk (λ _ u. Releases product q order t u) (record_release n (t', gs))
      record_it n t' gs (inl none_moved) = rw none_moved tt
      record_it n t' gs (inr (one, (stock, e, enough, moved))) =
          let t₁ = with_stock product q order (release_stock q stock) t in
          rw (one, moved)
            (bind-OnOk (Is (with_status product q order t₁)) (λ _ u. Releases product q order t u)
              (update_reservation_status order product released)
              (λ _. insert_ledger product order (pos q) op_release) (t₁, gs) (status-Is t₁ gs)
              (λ _ u hs same. rw same (
                map-OnOk _ (λ _ w. Releases product q order t w) _
                  (λ _ w done. inr (found, (stock, e, enough, done)))
                  (release_ledger-Is (with_status product q order t₁) hs))))

  release_row-OnOk :
      (t : Tables) (fs : List Fault) (n : ℕ) (st : ReservationStatus)
      → find_reservation order product t.reservations ≡ some (record { quantity = n; status = st })
      → OnOk
          (λ _ t'. Releases product q order t t')
          (release_row product q order (record { quantity = n; status = st }) (t, fs))
  unfolding release_row
  release_row-OnOk t fs n released f = elim (Bool-cases (n == q)) [
    | inl same ↦ rw same (inl (f ∙ ap (λ n'. some (returned n')) ((==_iff n q).0 same), refl))
    | inr differs ↦ rw differs tt
  ]
  release_row-OnOk t fs n reserved f = elim (Bool-cases (n == q)) [
    | inl same ↦
        rw same (give_back-OnOk t fs (f ∙ ap (λ n'. some (active n')) ((==_iff n q).0 same)))
    | inr differs ↦ rw differs tt
  ]

  -- The transaction of Release, where it succeeds.
  pub release_body-OnOk :
      (t : Tables) (fs : List Fault)
      → OnOk (λ _ t'. Releases product q order t t') (release_body product q order (t, fs))
  unfolding release_body
  release_body-OnOk t fs =
      bind-OnOk (Found product q order t) (λ _ u. Releases product q order t u)
        (select_reservation_for_update order product) (release_row product q order) (t, fs)
        (select-Found product q order t fs)
        (λ row u hs found. rw found.1 (release_row-OnOk t hs row.quantity row.status found.0))
