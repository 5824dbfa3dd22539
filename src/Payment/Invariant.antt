-- ===== src/Payment/Invariant.antt =====
-- What every call of services/payment-service keeps of its tables: an order has one payment, no
-- payment is left pending, and what is refunded of a payment is covered by it.
use go_ozon_marketplace.Prelude.{
  ℕ, ◌+◌, ◌≤◌, ◌≡◌, refl, sym, ap, ◌∙◌, inl, inr, Bool, true, false, List, [], ◌∷◌, Option, none,
  some, ◌==◌, if◌then◌else◌, arith, Bool-cases, ==_iff,
}
use mathlib.Core.Path.{subst}
use go_ozon_marketplace.Payment.Tables.{
  Status, pending, refunded, Payment, Refund, Tables, find_payment, find_by_order, same_status,
  set_status,
}
use go_ozon_marketplace.Payment.Usecase.{final_status}
use go_ozon_marketplace.Payment.Effects.{NonePending, Processes}
use go_ozon_marketplace.Payment.Effects.Refunds.{Refunds}

-- No order, and no id, has two payments.
abbrev pub IsUnique : List Payment → Type 0
IsUnique [] = Unit
IsUnique (p ∷ ps) =
    (find_by_order p.order_id ps ≡ none) × (find_payment p.id ps ≡ none) × IsUnique ps

-- How many refunds a payment has, and how much they are together.
abbrev pub refund_count : ℕ → List Refund → ℕ
refund_count id [] = 0
refund_count id (r ∷ rs) = (if r.payment_id == id then 1 else 0) + refund_count id rs

abbrev pub refund_sum : ℕ → List Refund → ℕ
refund_sum id [] = 0
refund_sum id (r ∷ rs) = (if r.payment_id == id then r.amount else 0) + refund_sum id rs

-- The refunds that a payment's status accounts for, and the amount that covers them.
abbrev pub refunds_due : Option Payment → ℕ
refunds_due none = 0
refunds_due (some p) = if same_status p.status refunded then 1 else 0

abbrev pub amount_due : Option Payment → ℕ
amount_due none = 0
amount_due (some p) = if same_status p.status refunded then p.amount else 0

abbrev pub IsCovered : Tables → Type 0
IsCovered t =
    (id : ℕ)
    → (refund_count id t.refunds ≡ refunds_due (find_payment id t.payments))
      × (refund_sum id t.refunds ≤ amount_due (find_payment id t.payments))

abbrev pub IsSound : Tables → Type 0
IsSound t = IsUnique t.payments × NonePending t.payments × IsCovered t

find_by_order-set_status :
    (order id : ℕ) (st : Status) (ps : List Payment)
    → find_by_order order ps ≡ none
    → find_by_order order (set_status id st ps) ≡ none
find_by_order-set_status order id st [] f = refl
find_by_order-set_status order id st (p ∷ ps) f = elim (Bool-cases (p.order_id == order)) [
  | inl here ↦ absurd (let g = rw here at f in cc g)
  | inr there ↦ elim (Bool-cases (p.id == id)) [
    | inl this ↦ rw (this, there) (rw there at f)
    | inr that ↦ rw (that, there) (find_by_order-set_status order id st ps (rw there at f))
  ]
]

abbrev with_status : Status → Option Payment → Option Payment
with_status st none = none
with_status st (some p) = some (record p { status = st })

-- The payment found under an id after the status of one is set: that one changed, or as before.
find_payment-set_status :
    (x id : ℕ) (st : Status) (ps : List Payment)
    → find_payment x (set_status id st ps)
      ≡ (if id == x then with_status st (find_payment x ps) else find_payment x ps)
find_payment-set_status x id st [] = elim (Bool-cases (id == x)) [
  | inl same ↦ rw same refl
  | inr other ↦ rw other refl
]
find_payment-set_status x id st (p ∷ ps) = elim (Bool-cases (p.id == id)) [
  | inl this ↦ elim (Bool-cases (p.id == x)) [
    | inl here ↦
        let same : (id == x) ≡ true = ground (arith, this, here) in rw (this, here, same) refl
    | inr there ↦
        let other : (id == x) ≡ false = ground (arith, this, there) in rw (this, there, other) refl
  ]
  | inr that ↦ elim (Bool-cases (p.id == x)) [
    | inl here ↦
        let other : (id == x) ≡ false = ground (arith, that, here) in rw (that, here, other) refl
    | inr there ↦ rw (that, there) (find_payment-set_status x id st ps)
  ]
]

find_payment-id :
    (id : ℕ) (ps : List Payment) {q : Payment} → find_payment id ps ≡ some q → q.id ≡ id
find_payment-id id [] f = cc
find_payment-id id (p ∷ ps) {q} f = elim (Bool-cases (p.id == id)) [
  | inl here ↦
      let same : some p ≡ some q = rw here at f in
      let e : p ≡ q = cc same in sym (ap (λ w. w.id) e) ∙ (==_iff p.id id).0 here
  | inr there ↦ find_payment-id id ps (rw there at f)
]

with_status-none :
    (x id : ℕ) (st : Status) (ps : List Payment)
    → find_payment x ps ≡ none
    → find_payment x (set_status id st ps) ≡ none
with_status-none x id st ps f = find_payment-set_status x id st ps ∙ elim (Bool-cases (id == x)) [
  | inl same ↦ rw same (ap (with_status st) f)
  | inr other ↦ rw other f
]

set_status-IsUnique :
    (id : ℕ) (st : Status) (ps : List Payment) → IsUnique ps → IsUnique (set_status id st ps)
set_status-IsUnique id st [] u = tt
set_status-IsUnique id st (p ∷ ps) u = elim (Bool-cases (p.id == id)) [
  | inl this ↦ rw this u
  | inr that ↦ rw that (
    find_by_order-set_status p.order_id id st ps u.0,
    with_status-none p.id id st ps u.1,
    set_status-IsUnique id st ps u.2,
  )
]

set_status-NonePending :
    (id : ℕ) (st : Status) (ps : List Payment)
    → same_status st pending ≡ false
    → NonePending ps
    → NonePending (set_status id st ps)
set_status-NonePending id st [] e n = tt
set_status-NonePending id st (p ∷ ps) e n = elim (Bool-cases (p.id == id)) [
  | inl this ↦ rw this (e, n.1)
  | inr that ↦ rw that (n.0, set_status-NonePending id st ps e n.1)
]

final_status-settled :
    (approved : Bool)
    → (same_status (final_status approved) pending ≡ false)
      × (same_status (final_status approved) refunded ≡ false)
final_status-settled true = (refl, refl)
final_status-settled false = (refl, refl)

module _ (approved : Bool) (id order user amount : ℕ) {t t' : Tables} {a : Payment} where
  -- ProcessPayment keeps the tables sound.
  pub Processes-IsSound : Processes approved id order user amount t a t' → IsSound t → IsSound t'
  Processes-IsSound (inl (_, same)) s = subst IsSound (sym same) s
  Processes-IsSound (inr (no_order, no_id, _, same)) (u, n, c) = subst IsSound (sym same) (
    (no_order, no_id, u),
    ((final_status-settled approved).0, n),
    λ x. elim (Bool-cases (id == x)) [
      | inl this ↦
          let e : id ≡ x = (==_iff id x).0 this in
          let before : find_payment x t.payments ≡ none =
            ap (λ y. find_payment y t.payments) (sym e) ∙ no_id in
          let c' = rw before at (c x) in rw (this, (final_status-settled approved).1) c'
      | inr that ↦ rw that (c x)
    ],
  )

module _ (id payment amount : ℕ) (key : Option ℕ) {t t' : Tables} {a : Payment × Refund} where
  -- Refund keeps the tables sound.
  pub Refunds-IsSound : Refunds t id payment amount key a t' → IsSound t → IsSound t'
  Refunds-IsSound (inl (k, e, f, g, same)) s = subst IsSound (sym same) s
  Refunds-IsSound (inr (q, f, st, le, _, _, same)) (u, n, c) = subst IsSound (sym same) (
    set_status-IsUnique q.id refunded t.payments u,
    set_status-NonePending q.id refunded t.payments refl n,
    λ x. rw find_payment-set_status (elim (Bool-cases (q.id == x)) [
      | inl this ↦
          let e : payment ≡ x =
            sym (find_payment-id payment t.payments f) ∙ (==_iff q.id x).0 this in
          let found : find_payment x t.payments ≡ some q =
            ap (λ y. find_payment y t.payments) (sym e) ∙ f in
          let c' = rw (found, st) at (c x) in
          rw (this, found) (omega (arith, c'.0), omega (arith, c'.1, le))
      | inr that ↦ rw that (omega (arith, (c x).0), omega (arith, (c x).1))
    ]),
  )
