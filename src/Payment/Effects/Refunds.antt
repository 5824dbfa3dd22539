-- ===== src/Payment/Effects/Refunds.antt =====
-- The transaction of Refund in services/payment-service/internal/usecase/usecase.go.
use go_ozon_marketplace.Prelude.{
  ℕ, ◌≤◌, ◌≡◌, refl, ◌⊎◌, inl, inr, Bool, true, false, List, [], ◌∷◌, Option, none, some, ltb,
  if◌then◌else◌, arith, Bool-cases,
}
use go_ozon_marketplace.Prelude.Effect.{
  not_found, other, failed_precondition, Result, ok, err, Action, pure, fail, ◌>>=◌,
}
use go_ozon_marketplace.Database.{Db, Fault, row_or_not_found}
use go_ozon_marketplace.Database.Laws.{OnOk, bind-OnOk, statement-OnOk, statement-reads}
use go_ozon_marketplace.Payment.Tables.{
  Status, success, refunded, Payment, Refund, Tables, find_payment, find_refund, find_by_key,
  same_status, set_status,
}
use go_ozon_marketplace.Payment.Repository.{
  get_by_id, update_status_if, create_refund, is_some, key_taken, get_refund_by_idempotency_key,
}
use go_ozon_marketplace.Payment.Usecase.{
  existing_refund, found_or_none, refund_amount, new_refund, record_refund, refund_payment,
  refund_unless, refund_body,
}
use go_ozon_marketplace.Payment.Effects.{Sets, update_status_if-Sets}

module _ (t : Tables) where
  abbrev Got : ℕ → Payment → Tables → Type 0
  Got id p t' = (find_payment id t.payments ≡ some p) × (t' ≡ t)

  get-Got : (id : ℕ) (fs : List Fault) → OnOk (Got id) (get_by_id id (t, fs))
  unfolding get_by_id
  get-Got id fs = statement-OnOk (Got id) _ t fs (by_row (find_payment id t.payments) refl)
    where
      by_row :
          (o : Option Payment)
          → find_payment id t.payments ≡ o
          → OnOk (Got id) (row_or_not_found o, (t, []))
      by_row none e = tt
      by_row (some p) e = (e, refl)

  -- The row of a refund is added, or the statement fails.
  abbrev Adds : Refund → Unit {0} → Tables → Type 0
  Adds r _ t' =
      (key_taken r.idempotency_key t.refunds ≡ false) × (t' ≡ record t { refunds = r ∷ t.refunds })

  create_refund-Adds : (r : Refund) (fs : List Fault) → OnOk (Adds r) (create_refund r (t, fs))
  unfolding create_refund
  create_refund-Adds r fs = statement-OnOk (Adds r) _ t fs (
      by_checks (is_some (find_refund r.id t.refunds)) (key_taken r.idempotency_key t.refunds)
        (is_some (find_payment r.payment_id t.payments)) refl)
    where
      by_checks :
          (b₁ b₂ b₃ : Bool)
          → key_taken r.idempotency_key t.refunds ≡ b₂
          → let x : Result (Unit {0}) × Tables =
              if b₁
              then (err other, t)
              else if b₂
              then (err other, t)
              else if b₃
              then (ok tt, record t { refunds = r ∷ t.refunds })
              else (err other, t) in
            OnOk (Adds r) (x.0, (x.1, []))
      by_checks true b₂ b₃ e = tt
      by_checks false true b₃ e = tt
      by_checks false false true e = (e, refl)
      by_checks false false false e = tt

  -- The key has a refund; or it has none, or there is no key. The tables are as they were.
  abbrev Looks : Option ℕ → Option Refund → Tables → Type 0
  Looks key none t' = t' ≡ t
  Looks key (some r) t' = ((k : ℕ) × (key ≡ some k) × (find_by_key k t.refunds ≡ some r)) × (t' ≡ t)

  abbrev Keyed : ℕ → Refund → Tables → Type 0
  Keyed k r t' = (find_by_key k t.refunds ≡ some r) × (t' ≡ t)

  Keyed-lookup :
      (k : ℕ) (fs : List Fault) → OnOk (Keyed k) (get_refund_by_idempotency_key k (t, fs))
  unfolding get_refund_by_idempotency_key
  Keyed-lookup k fs = statement-OnOk (Keyed k) _ t fs (by_row (find_by_key k t.refunds) refl)
    where
      by_row :
          (o : Option Refund)
          → find_by_key k t.refunds ≡ o
          → OnOk (Keyed k) (row_or_not_found o, (t, []))
      by_row none e = tt
      by_row (some r) e = (e, refl)

  keyed-reads : (k : ℕ) (fs : List Fault) → (get_refund_by_idempotency_key k (t, fs)).1.0 ≡ t
  unfolding get_refund_by_idempotency_key
  keyed-reads k fs = statement-reads _ t fs refl

  found-Looks :
      (k : ℕ) (r : Result Refund × Db Tables)
      → OnOk (Keyed k) r
      → r.1.0 ≡ t
      → OnOk (Looks (some k)) (found_or_none r)
  found-Looks k (ok r, (t', fs)) (f, same) s = ((k, refl, f), same)
  found-Looks k (err not_found, (t', fs)) q s = s
  found-Looks k (err _, (t', fs)) q s = tt

  existing-Looks :
      (key : Option ℕ) (fs : List Fault) → OnOk (Looks key) (existing_refund key (t, fs))
  unfolding existing_refund
  existing-Looks none fs = refl
  existing-Looks (some k) fs =
      found-Looks k (get_refund_by_idempotency_key k (t, fs)) (Keyed-lookup k fs) (keyed-reads k fs)

  module _ (id payment amount : ℕ) (key : Option ℕ) where
    -- The payment is refunded: it had succeeded, and the amount is not more than what was paid.
    abbrev pub NewRefund : Payment × Refund → Tables → Type 0
    NewRefund a t' =
        (q : Payment) × (find_payment payment t.payments ≡ some q)
        × (q.status ≡ success)
        × (refund_amount amount q ≤ q.amount)
        × (key_taken key t.refunds ≡ false)
        × (a ≡ (record q { status = refunded }, new_refund id q amount key))
        × (t' ≡ record {
          payments = set_status q.id refunded t.payments;
          refunds = new_refund id q amount key ∷ t.refunds;
        })

    -- The refund that was made with this key before, with its payment; no table is changed.
    abbrev pub OldRefund : Payment × Refund → Tables → Type 0
    OldRefund a t' =
        (k : ℕ) × (key ≡ some k)
        × (find_by_key k t.refunds ≡ some a.1)
        × (find_payment a.1.payment_id t.payments ≡ some a.0)
        × (t' ≡ t)

    abbrev pub Refunds : Payment × Refund → Tables → Type 0
    Refunds a t' = OldRefund a t' ⊎ NewRefund a t'

    abbrev finish : Payment → Bool → Action (Db Tables) (Payment × Refund)
    finish q updated =
        if updated
        then pure (record q { status = refunded }, new_refund id q amount key)
        else fail failed_precondition

    finish-Refunds :
        (q : Payment) (updated : Bool) (t' : Tables) (fs : List Fault)
        → find_payment payment t.payments ≡ some q
        → q.status ≡ success
        → refund_amount amount q ≤ q.amount
        → key_taken key t.refunds ≡ false
        → Sets q.id refunded success
            (record t { refunds = new_refund id q amount key ∷ t.refunds })
            updated
            t'
        → OnOk Refunds (finish q updated (t', fs))
    finish-Refunds q updated t' fs f st le new (inl (no_row, same)) = rw no_row tt
    finish-Refunds q updated t' fs f st le new (inr (one_row, set)) =
        rw one_row (inr (q, f, st, le, new, refl, set))

    record_refund-Refunds :
        (q : Payment) (fs : List Fault)
        → find_payment payment t.payments ≡ some q
        → q.status ≡ success
        → refund_amount amount q ≤ q.amount
        → OnOk Refunds (record_refund id amount key q (t, fs))
    unfolding record_refund
    record_refund-Refunds q fs f st le =
        let t₁ : Tables = record t { refunds = new_refund id q amount key ∷ t.refunds } in
        bind-OnOk (Adds (new_refund id q amount key)) Refunds
          (create_refund (new_refund id q amount key))
          (λ _. update_status_if q.id refunded success >>= finish q) (t, fs)
          (create_refund-Adds (new_refund id q amount key) fs)
          (λ _ u gs (new, same). rw same (
            bind-OnOk (Sets q.id refunded success t₁) Refunds
              (update_status_if q.id refunded success) (finish q) (t₁, gs)
              (update_status_if-Sets q.id refunded success t₁ gs)
              (λ updated w hs sets. finish-Refunds q updated w hs f st le new sets)))

    same_status-success : (st : Status) → same_status st success ≡ true → st ≡ success
    same_status-success success h = refl
    same_status-success _ h = cc

    refund_payment-Refunds :
        (q : Payment) (fs : List Fault)
        → find_payment payment t.payments ≡ some q
        → OnOk Refunds (refund_payment id amount key q (t, fs))
    unfolding refund_payment
    refund_payment-Refunds q fs f = elim (Bool-cases (same_status q.status success)) [
      | inr otherwise ↦ rw otherwise tt
      | inl paid ↦ elim (Bool-cases (ltb q.amount (refund_amount amount q))) [
        | inl too_much ↦ rw (paid, too_much) tt
        | inr allowed ↦
            rw (paid, allowed)
              (record_refund-Refunds q fs f (same_status-success q.status paid)
                (ground (arith, allowed)))
      ]
    ]

    refund_unless-Refunds :
        (o : Option Refund) (fs : List Fault)
        → Looks key o t
        → OnOk Refunds (refund_unless id payment amount key o (t, fs))
    refund_unless-Refunds none fs h =
        bind-OnOk (Got payment) Refunds (get_by_id payment) (refund_payment id amount key) (t, fs)
          (get-Got payment fs) (λ q u gs got. rw got.1 (refund_payment-Refunds q gs got.0))
    refund_unless-Refunds (some r) fs ((k, e, f), _) =
        bind-OnOk (Got r.payment_id) Refunds (get_by_id r.payment_id) (λ p. pure (p, r)) (t, fs)
          (get-Got r.payment_id fs) (λ p u gs got. inl (k, e, f, got.0, got.1))

    looked : (o : Option Refund) (t' : Tables) → Looks key o t' → (t' ≡ t) × Looks key o t
    looked none t' same = (same, refl)
    looked (some r) t' (f, same) = (same, (f, refl))

    -- The transaction of Refund, where it succeeds.
    pub refund_body-Refunds :
        (fs : List Fault) → OnOk Refunds (refund_body id payment amount key (t, fs))
    unfolding refund_body
    refund_body-Refunds fs =
        bind-OnOk (Looks key) Refunds (existing_refund key) (refund_unless id payment amount key)
          (t, fs) (existing-Looks key fs)
          (λ o u gs h. let (same, h') = looked o u h in rw same (refund_unless-Refunds o gs h'))
