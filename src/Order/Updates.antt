-- ===== src/Order/Updates.antt =====
-- UpdateOrderStatus of services/order-service/internal/usecase/usecase.go over time: the status that
-- the database holds of an order moves along the transitions of internal/domain/status.go only.
use mathlib.Core.Path.{subst}
use go_ozon_marketplace.Prelude.{
  ℕ, ◌<◌, ◌≡◌, refl, sym, ap, ◌∙◌, ◌⊎◌, inl, inr, true, false, List, [], ◌∷◌, Option, none, some,
  ◌==◌, if◌then◌else◌, arith, Bool-cases, Option-cases, ==_iff,
}
use go_ozon_marketplace.Prelude.Effect.{Result, ok, err}
use go_ozon_marketplace.Database.{Db, Fault, row_or_not_found}
use go_ozon_marketplace.Database.Laws.{OnOk, statement-OnOk, statement-reads, statement-state}
use go_ozon_marketplace.Order.Status.{OrderStatus, can_transition, validate_transition}
use go_ozon_marketplace.Order.Status.Graph.{rank, can_transition-rank}
use go_ozon_marketplace.Order.Domain.{Order}
use go_ozon_marketplace.Order.Repository.{
  Tables, OrderRow, find_order, joined_row, get_order_by_id, set_order_status, status_updated,
  update_order_row,
}
use go_ozon_marketplace.Order.Usecase.{
  Service, on_db, publish_order_event, update_loaded, update_order_status,
}

-- The row of an order has its status set, or the table is as it was. Either the order is not there,
-- or the transition is allowed.
abbrev pub Updates : ℕ → OrderStatus → Tables → Tables → Type 0
Updates id st t t' =
    (t' ≡ t)
    ⊎ ((row : OrderRow) × (find_order id t.orders ≡ some row)
        × (can_transition row.status st ≡ true)
        × ((time : ℕ) × (t' ≡ record t { orders = set_order_status id st time t.orders })))

validate_transition-none :
    (s st : OrderStatus) → validate_transition s st ≡ none → can_transition s st ≡ true
unfolding validate_transition
validate_transition-none s st h = elim (Bool-cases (can_transition s st)) [
  | inl allowed ↦ allowed
  | inr refused ↦ absurd (let h' = rw refused at h in cc h')
]

module _ (id : ℕ) (st : OrderStatus) (time : ℕ) where
  abbrev Loads : Tables → Order → Tables → Type 0
  Loads t o t' =
      ((row : OrderRow) × (find_order id t.orders ≡ some row) × (o.status ≡ row.status)) × (t' ≡ t)

  load-Loads : (t : Tables) (fs : List Fault) → OnOk (Loads t) (get_order_by_id id (t, fs))
  unfolding get_order_by_id
  load-Loads t fs = statement-OnOk (Loads t) _ t fs (by_row (find_order id t.orders) refl)
    where
      by_row :
          (o : Option OrderRow)
          → find_order id t.orders ≡ o
          → OnOk (Loads t) (row_or_not_found (joined_row t o), (t, []))
      by_row none e = tt
      by_row (some row) e = ((row, e, refl), refl)

  load-reads : (t : Tables) (fs : List Fault) → (get_order_by_id id (t, fs)).1.0 ≡ t
  unfolding get_order_by_id
  load-reads t fs = statement-reads _ t fs refl

  row-Updates :
      (t : Tables) (fs : List Fault) (row : OrderRow)
      → find_order id t.orders ≡ some row
      → can_transition row.status st ≡ true
      → Updates id st t (update_order_row id st time (t, fs)).1.0
  unfolding update_order_row
  row-Updates t fs row f allowed =
      elim (statement-state (λ u. status_updated id st time u (find_order id u.orders)) t fs) [
        | inl same ↦ inl same
        | inr set ↦ inr (row, f, allowed, (time, set ∙ rw f refl))
      ]

  published-Updates :
      (order : ℕ) (t : Tables) (r : Result (Unit {0}) × Service)
      → Updates id st t r.1.db.0
      → Updates id st t
          (elim r.0 as (λ _. Result (Unit {0}) × Service) [
            | ok _ ↦ publish_order_event order st r.1
            | err e ↦ (err e, r.1)
          ]).1.db.0
  published-Updates order t (ok _, s) u = u
  published-Updates order t (err e, s) u = u

  update_loaded-Updates :
      (o : Order) (s : Service) (row : OrderRow)
      → find_order id s.db.0.orders ≡ some row
      → o.status ≡ row.status
      → Updates id st s.db.0 (update_loaded id st time o s).1.db.0
  unfolding update_loaded
  update_loaded-Updates o s row f e = elim (Option-cases (validate_transition o.status st)) [
    | inr (x, refused) ↦ rw (update_loaded, refused) (inl refl)
    | inl valid ↦
        let allowed : can_transition row.status st ≡ true =
          subst (λ a. can_transition a st ≡ true) e (validate_transition-none o.status st valid) in
        rw (update_loaded, valid)
          (published-Updates o.id s.db.0 (on_db (update_order_row id st time) s)
            (row-Updates s.db.0 s.db.1 row f allowed))
  ]

  -- UpdateOrderStatus leaves the tables as they were, or sets the status of the order to the one
  -- asked for, which is allowed after the one that the row had.
  pub update_order_status-Updates :
      (s : Service) → Updates id st s.db.0 (update_order_status id st time s).1.db.0
  unfolding update_order_status
  update_order_status-Updates s =
      by_result (get_order_by_id id s.db) (load-Loads s.db.0 s.db.1) (load-reads s.db.0 s.db.1)
    where
      by_result :
          (r : Result Order × Db Tables)
          → OnOk (Loads s.db.0) r
          → r.1.0 ≡ s.db.0
          → Updates id st s.db.0
              (elim r.0 as (λ _. Result (Unit {0}) × Service) [
                | ok o ↦ update_loaded id st time o (record s { db = r.1 })
                | err e ↦ (err e, record s { db = r.1 })
              ]).1.db.0
      by_result (ok o, (t, fs)) ((row, f, e), _) same =
          subst
            (λ u. Updates id st u (update_loaded id st time o (record s { db = (t, fs) })).1.db.0)
            same
            (update_loaded-Updates o (record s { db = (t, fs) }) row
              (subst (λ u. find_order id u.orders ≡ some row) (sym same) f) e)
      by_result (err e, (t, fs)) h same = inl same

-- An update: the order, the status asked for, and the time.
abbrev pub run_updates : List (ℕ × (OrderStatus × ℕ)) → Service → Service
run_updates [] s = s
run_updates ((id, (st, time)) ∷ us) s = run_updates us (update_order_status id st time s).1

-- The status has not changed, or it has gone forward.
abbrev pub IsForward : OrderStatus → OrderStatus → Type 0
IsForward a b = (a ≡ b) ⊎ (rank a < rank b)

abbrev pub StatusAt : ℕ → OrderStatus → List OrderRow → Type 0
StatusAt x a os = (row : OrderRow) × (find_order x os ≡ some row) × (row.status ≡ a)

some-inj : {A : Type 0} {a b : A} → some a ≡ some b → a ≡ b
some-inj h = cc

StatusAt-set_order_status :
    (x id time : ℕ) (st a : OrderStatus) (os : List OrderRow)
    → StatusAt x a os
    → StatusAt x (if id == x then st else a) (set_order_status id st time os)
StatusAt-set_order_status x id time st a [] (row, f, e) = cc
StatusAt-set_order_status x id time st a (o ∷ os) (row, f, e) = elim (Bool-cases (o.id == id)) [
  | inl this ↦ elim (Bool-cases (o.id == x)) [
    | inl here ↦
        let same : (id == x) ≡ true = ground (arith, this, here) in
        rw (this, here, same) (record o { status = st; updated_at = time }, refl, refl)
    | inr there ↦
        let other : (id == x) ≡ false = ground (arith, this, there) in
        rw (this, there, other) (row, rw there at f, e)
  ]
  | inr that ↦ elim (Bool-cases (o.id == x)) [
    | inl here ↦
        let other : (id == x) ≡ false = ground (arith, that, here) in
        let same : o ≡ row = some-inj (rw here at f) in
        rw (that, here, other) (o, refl, ap (λ r. r.status) same ∙ e)
    | inr there ↦
        rw (that, there) (StatusAt-set_order_status x id time st a os (row, rw there at f, e))
  ]
]

Updates-IsForward :
    (x id : ℕ) (st a : OrderStatus) {t t' : Tables}
    → Updates id st t t'
    → StatusAt x a t.orders
    → (b : OrderStatus) × StatusAt x b t'.orders × IsForward a b
Updates-IsForward x id st a {t} (inl same) at_a =
    (a, subst (λ u. StatusAt x a u.orders) (sym same) at_a, inl refl)
Updates-IsForward x id st a {t} (inr (row, f, allowed, (time, same))) (row', f', e) =
    let set = StatusAt-set_order_status x id time st a t.orders (row', f', e) in
    let at_b = subst (λ u. StatusAt x (if id == x then st else a) u.orders) (sym same) set in
    elim (Bool-cases (id == x)) [
      | inr other ↦ (a, rw other at at_b, inl refl)
      | inl this ↦
          let here : find_order x t.orders ≡ some row =
            ap (λ y. find_order y t.orders) (sym ((==_iff id x).0 this)) ∙ f in
          let one : row ≡ row' = some-inj (sym here ∙ f') in
          let from : row.status ≡ a = ap (λ r. r.status) one ∙ e in
          (
            st,
            rw this at at_b,
            can_transition-rank a st (subst (λ y. can_transition y st ≡ true) from allowed),
          )
    ]

IsForward-trans : (a b c : OrderStatus) → IsForward a b → IsForward b c → IsForward a c
IsForward-trans a b c (inl e) g = subst (λ y. IsForward y c) (sym e) g
IsForward-trans a b c (inr l) (inl e) = inr (subst (λ y. rank a < rank y) e l)
IsForward-trans a b c (inr l) (inr m) = inr (omega (arith, l, m))

-- Whatever updates are asked for, each when the one before it has ended, with whichever database
-- faults, the status of an order in the database never goes back to one that it has left: it is the
-- same, or of a higher rank. Of calls that overlap it says nothing.
pub run_updates-IsForward :
    (us : List (ℕ × (OrderStatus × ℕ))) (s : Service) (x : ℕ) (a : OrderStatus)
    → StatusAt x a s.db.0.orders
    → (b : OrderStatus) × StatusAt x b (run_updates us s).db.0.orders × IsForward a b
run_updates-IsForward [] s x a h = (a, h, inl refl)
run_updates-IsForward ((id, (st, time)) ∷ us) s x a h =
    let (b, at_b, fwd) = Updates-IsForward x id st a (update_order_status-Updates id st time s) h in
    let (c, at_c, fwd') = run_updates-IsForward us (update_order_status id st time s).1 x b at_b in
    (c, at_c, IsForward-trans a b c fwd fwd')
