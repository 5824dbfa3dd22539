-- ===== src/Payment/Effects.antt =====
-- What ProcessPayment and Refund of services/payment-service/internal/usecase/usecase.go do to the
-- tables, whichever database calls fail.
pub mod Refunds
use go_ozon_marketplace.Prelude.{
  ℕ, ◌+◌, ◌≤◌, ◌≡◌, refl, sym, ap, ◌∙◌, ◌⊎◌, inl, inr, Bool, true, false, List, [], ◌∷◌, Option,
  none, some, ◌==◌, ltb, if◌then◌else◌, arith, Bool-cases, All,
}
use go_ozon_marketplace.Prelude.Effect.{
  Error, failed_precondition, Result, ok, err, Action, pure, fail, ◌>>=◌, ◌>>◌,
}
use go_ozon_marketplace.Database.{Db, Fault, run_tx, row_or_not_found}
use go_ozon_marketplace.Database.Laws.{OnOk, bind-OnOk, map-OnOk, statement-OnOk}
use go_ozon_marketplace.Payment.Tables.{
  Status, pending, success, failed, refunded, Payment, Refund, Tables, find_payment, find_by_order,
  find_refund, find_by_key, same_status, set_status,
}
use go_ozon_marketplace.Payment.Repository.{
  add_payment, insert_payment, select_by_order, or_select, create_or_get, get_by_id, set_if,
  update_status_if,
}
use go_ozon_marketplace.Payment.Usecase.{settle, final_status, new_payment, process_body}

-- No payment of the table is pending.
abbrev pub NonePending : List Payment → Type 0
NonePending ps = All (λ p. same_status p.status pending ≡ false) ps

find_by_order-NonePending :
    (order : ℕ) (ps : List Payment) {p : Payment}
    → NonePending ps
    → find_by_order order ps ≡ some p
    → same_status p.status pending ≡ false
find_by_order-NonePending order [] n f = cc
find_by_order-NonePending order (x ∷ ps) {p} n f = elim (Bool-cases (x.order_id == order)) [
  | inl here ↦ let same : some x ≡ some p = rw here at f in cc (n.0, same)
  | inr there ↦ find_by_order-NonePending order ps n.1 (rw there at f)
]

-- What INSERT or SELECT of a payment of the order gives: the one that is there, or the new one.
abbrev pub Creates : Payment → Tables → Payment → Tables → Type 0
Creates p t a t' =
    ((find_by_order p.order_id t.payments ≡ some a) × (t' ≡ t))
    ⊎ ((find_by_order p.order_id t.payments ≡ none)
        × (find_payment p.id t.payments ≡ none)
        × (a ≡ p)
        × (t' ≡ record t { payments = p ∷ t.payments }))

module _ (p : Payment) (t : Tables) where
  -- The INSERT alone
  abbrev Inserts : Option Payment → Tables → Type 0
  Inserts none t' = t' ≡ t
  Inserts (some a) t' = Creates p t a t'

  insert-Inserts : (fs : List Fault) → OnOk Inserts (insert_payment p (t, fs))
  unfolding insert_payment
  insert-Inserts fs =
      statement-OnOk Inserts _ t fs
        (by_row (find_by_order p.order_id t.payments) (find_payment p.id t.payments) refl refl)
    where
      by_row :
          (o o' : Option Payment)
          → find_by_order p.order_id t.payments ≡ o
          → find_payment p.id t.payments ≡ o'
          → let r = add_payment p t o o' in OnOk Inserts (r.0, (r.1, []))
      by_row (some a) o' e e' = refl
      by_row none (some b) e e' = tt
      by_row none none e e' = inr (e, e', refl, refl)

  select-Creates : (fs : List Fault) → OnOk (Creates p t) (select_by_order p.order_id (t, fs))
  unfolding select_by_order
  select-Creates fs =
      statement-OnOk (Creates p t) _ t fs (by_row (find_by_order p.order_id t.payments) refl)
    where
      by_row :
          (o : Option Payment)
          → find_by_order p.order_id t.payments ≡ o
          → OnOk (Creates p t) (row_or_not_found o, (t, []))
      by_row none e = tt
      by_row (some a) e = inl (e, refl)

  create_or_get-Creates : (fs : List Fault) → OnOk (Creates p t) (create_or_get p (t, fs))
  unfolding create_or_get
  create_or_get-Creates fs =
      bind-OnOk Inserts (Creates p t) (insert_payment p) (or_select p.order_id) (t, fs)
        (insert-Inserts fs) go_on
    where
      go_on :
          (o : Option Payment) (t' : Tables) (gs : List Fault)
          → Inserts o t'
          → OnOk (Creates p t) (or_select p.order_id o (t', gs))
      go_on none t' gs same = rw same (select-Creates gs)
      go_on (some a) t' gs made = made

-- The update of the status of a payment gives whether there was one with the status expected.
abbrev pub Sets : ℕ → Status → Status → Tables → Bool → Tables → Type 0
Sets id new expected t updated t' =
    ((updated ≡ false) × (t' ≡ t))
    ⊎ ((updated ≡ true) × (t' ≡ record t { payments = set_status id new t.payments }))

pub update_status_if-Sets :
    (id : ℕ) (new expected : Status) (t : Tables) (fs : List Fault)
    → OnOk (Sets id new expected t) (update_status_if id new expected (t, fs))
unfolding update_status_if
update_status_if-Sets id new expected t fs =
    statement-OnOk (Sets id new expected t) _ t fs (by_row (find_payment id t.payments))
  where
    by_row :
        (o : Option Payment)
        → let r = set_if id new expected t o in OnOk (Sets id new expected t) (r.0, (r.1, []))
    by_row none = inl (refl, refl)
    by_row (some p) = elim (Bool-cases (same_status p.status expected)) [
      | inl as_expected ↦ rw as_expected (inr (refl, refl))
      | inr otherwise ↦ rw otherwise (inl (refl, refl))
    ]

module _ (approved : Bool) (id order user amount : ℕ) (t : Tables) where
  abbrev pub settled_payment : Payment
  settled_payment = record (new_payment id order user amount) { status = final_status approved }

  -- The order has the payment already, and no table is changed; or it has none, and the payment is
  -- inserted with its final status.
  abbrev pub Processes : Payment → Tables → Type 0
  Processes a t' =
      ((find_by_order order t.payments ≡ some a) × (t' ≡ t))
      ⊎ ((find_by_order order t.payments ≡ none)
          × (find_payment id t.payments ≡ none)
          × (a ≡ settled_payment)
          × (t' ≡ record t { payments = settled_payment ∷ t.payments }))

  -- The new payment, which is pending, does get the final status.
  abbrev inserted : Tables
  inserted = record t { payments = new_payment id order user amount ∷ t.payments }

  abbrev settled : Tables
  settled = record t { payments = settled_payment ∷ t.payments }

  inserted-settled :
      (fs : List Fault)
      → OnOk
          (λ _ t'. t' ≡ settled)
          (update_status_if id (final_status approved) pending (inserted, fs))
  unfolding update_status_if
  inserted-settled fs =
      let self : (id == id) ≡ true = ground arith in
      statement-OnOk (λ _ t'. t' ≡ settled) _ inserted fs (rw (self, self) refl)

  settle-Processes :
      (a : Payment) (t' : Tables) (fs : List Fault)
      → NonePending t.payments
      → Creates (new_payment id order user amount) t a t'
      → OnOk Processes (settle (final_status approved) a (t', fs))
  unfolding settle
  settle-Processes a t' fs n (inl (found, same)) =
      rw (find_by_order-NonePending order t.payments n found) (inl (found, same))
  settle-Processes a t' fs n (inr (no_order, no_id, e, same)) =
      rw (e, same)
        (bind-OnOk (λ _ u. u ≡ settled) Processes
          (update_status_if id (final_status approved) pending) (λ _. pure settled_payment)
          (inserted, fs) (inserted-settled fs) (λ _ u gs done. inr (no_order, no_id, refl, done)))

  pub process_body-Processes :
      (fs : List Fault)
      → NonePending t.payments
      → OnOk Processes (process_body approved id order user amount (t, fs))
  unfolding process_body
  process_body-Processes fs n =
      bind-OnOk (Creates (new_payment id order user amount) t) Processes
        (create_or_get (new_payment id order user amount)) (settle (final_status approved)) (t, fs)
        (create_or_get-Creates (new_payment id order user amount) t fs)
        (λ a t' gs made. settle-Processes a t' gs n made)
