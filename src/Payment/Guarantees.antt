-- ===== src/Payment/Guarantees.antt =====
-- What ProcessPayment and Refund of services/payment-service/internal/usecase/usecase.go promise, for
-- every schedule of database faults.
use mathlib.Core.Path.{subst}
use go_ozon_marketplace.Prelude.{
  ℕ, ◌≡◌, sym, ap, inl, inr, Bool, true, false, List, [], ◌∷◌, Option, some, ◌==◌, arith,
}
use go_ozon_marketplace.Prelude.Effect.{Result, ok, err}
use go_ozon_marketplace.Database.{Db, Fault}
use go_ozon_marketplace.Database.Laws.{AllOrNothing, AllOrNothing-keeps, run_tx-AllOrNothing}
use go_ozon_marketplace.Payment.Tables.{Payment, Refund, Tables, find_by_order, find_by_key}
use go_ozon_marketplace.Payment.Repository.{key_taken}
use go_ozon_marketplace.Payment.Usecase.{process_payment, refund, process_body, refund_body}
use go_ozon_marketplace.Payment.Effects.{Processes, process_body-Processes}
use go_ozon_marketplace.Payment.Effects.Refunds.{Refunds, refund_body-Refunds}
use go_ozon_marketplace.Payment.Invariant.{IsSound, Processes-IsSound, Refunds-IsSound}

-- ProcessPayment on sound tables is atomic: it changes nothing; or the order has the payment
-- returned, which it had, with no table changed, or which is new and has its final status. If it
-- reports success it is the latter.
pub process_payment-Processes :
    (approved : Bool) (id order user amount : ℕ) (t : Tables) (fs : List Fault)
    → IsSound t
    → AllOrNothing
        (Processes approved id order user amount t)
        t
        (process_payment approved id order user amount (t, fs))
unfolding process_payment
process_payment-Processes approved id order user amount t fs s =
    run_tx-AllOrNothing (Processes approved id order user amount t)
      (process_body approved id order user amount) t fs
      (λ gs. process_body-Processes approved id order user amount t gs s.1)

-- Refund is atomic: it changes nothing; or it returns the refund that was made with this key before,
-- with no table changed, or a new refund of a payment that had succeeded, of at most its amount,
-- after which that payment is refunded. If it reports success it is the latter.
pub refund-Refunds :
    (id payment amount : ℕ) (key : Option ℕ) (t : Tables) (fs : List Fault)
    → AllOrNothing (Refunds t id payment amount key) t (refund id payment amount key (t, fs))
unfolding refund
refund-Refunds id payment amount key t fs =
    run_tx-AllOrNothing (Refunds t id payment amount key) (refund_body id payment amount key) t fs
      (λ gs. refund_body-Refunds t id payment amount key gs)

-- A call, with the uuid that it draws.
pub data Call : Type 0 where
  process_call : Bool → ℕ → ℕ → ℕ → ℕ → Call
  refund_call : ℕ → ℕ → ℕ → Option ℕ → Call

-- The tables and the faults to come after the calls, whatever they return.
abbrev pub run_calls : List Call → Db Tables → Db Tables
run_calls [] s = s
run_calls (process_call approved id order user amount ∷ cs) s =
    run_calls cs (process_payment approved id order user amount s).1
run_calls (refund_call id payment amount key ∷ cs) s =
    run_calls cs (refund id payment amount key s).1

-- However many calls are made, with whichever faults, sound tables stay so: no order has two
-- payments, no payment stays pending, a payment has one refund if its status is refunded and else
-- none, and what is refunded is at most what was paid.
pub run_calls-IsSound : (cs : List Call) (s : Db Tables) → IsSound s.0 → IsSound (run_calls cs s).0
run_calls-IsSound [] s h = h
run_calls-IsSound (process_call approved id order user amount ∷ cs) s h = run_calls-IsSound cs _ (
    AllOrNothing-keeps (Processes approved id order user amount s.0) IsSound s.0
      (process_payment approved id order user amount s)
      (process_payment-Processes approved id order user amount s.0 s.1 h) h
      (λ a t made. Processes-IsSound approved id order user amount made h))
run_calls-IsSound (refund_call id payment amount key ∷ cs) s h = run_calls-IsSound cs _ (
    AllOrNothing-keeps (Refunds s.0 id payment amount key) IsSound s.0
      (refund id payment amount key s) (refund-Refunds id payment amount key s.0 s.1) h
      (λ a t made. Refunds-IsSound id payment amount key made h))

on_success :
    {A : Type 0} (Q : A → Tables → Type 0) (t : Tables) (r : Result A × Db Tables) {a : A}
    → AllOrNothing Q t r
    → r.0 ≡ ok a
    → Q a r.1.0
on_success Q t (ok b, (t', fs)) {a} q e = subst (λ x. Q x t') (let same : b ≡ a = cc e in same) q
on_success Q t (err x, s) q e = cc

pub found_after :
    (approved : Bool) (id order user amount : ℕ) {t t' : Tables} {a : Payment}
    → Processes approved id order user amount t a t'
    → find_by_order order t'.payments ≡ some a
found_after approved id order user amount {t} {t'} {a} (inl (f, same)) =
    subst (λ u. find_by_order order u.payments ≡ some a) (sym same) f
found_after approved id order user amount {t} {t'} {a} (inr (f, g, e, same)) =
    let self : (order == order) ≡ true = ground arith in
    subst (λ u. find_by_order order u.payments ≡ some a) (sym same) (rw self (ap some (sym e)))

-- ProcessPayment is idempotent for an order: a second success returns the first payment, whatever
-- amount, outcome and uuid it comes with, and changes no table.
pub process_payment-retry :
    (approved approved' : Bool) (id id' order user user' amount amount' : ℕ) (s : Db Tables)
    {a b : Payment}
    → IsSound s.0
    → let first = process_payment approved id order user amount s in
      let again = process_payment approved' id' order user' amount' first.1 in
      first.0 ≡ ok a → again.0 ≡ ok b → (b ≡ a) × (again.1.0 ≡ first.1.0)
process_payment-retry approved approved' id id' order user user' amount amount' s {a} {b} h e e' =
    let first = process_payment approved id order user amount s in
    let made : Processes approved id order user amount s.0 a first.1.0 =
      on_success _ s.0 first (process_payment-Processes approved id order user amount s.0 s.1 h)
        e in
    let found = found_after approved id order user amount made in
    let sound : IsSound first.1.0 = Processes-IsSound approved id order user amount made h in
    elim (on_success (Processes approved' id' order user' amount' first.1.0) first.1.0
      (process_payment approved' id' order user' amount' first.1)
      (process_payment-Processes approved' id' order user' amount' first.1.0 first.1.1 sound) e') [
        | inl (f, same) ↦ (cc (found, f), same)
        | inr (f, g, w, same) ↦ absurd (cc (found, f))
      ]

key_after :
    (id payment amount k : ℕ) {t t' : Tables} {a : Payment × Refund}
    → Refunds t id payment amount (some k) a t'
    → find_by_key k t'.refunds ≡ some a.1
key_after id payment amount k {t} {t'} {a} (inl (j, e, f, g, same)) =
    let je : k ≡ j = cc e in
    subst (λ u. find_by_key k u.refunds ≡ some a.1) (sym same)
      (subst (λ y. find_by_key y t.refunds ≡ some a.1) (sym je) f)
key_after id payment amount k {t} {t'} {a} (inr (q, f, st, le, _, e, same)) =
    let self : (k == k) ≡ true = ground arith in
    subst (λ u. find_by_key k u.refunds ≡ some a.1) (sym same)
      (rw self (ap some (ap (λ x. x.1) (sym e))))

-- Refund is idempotent for a key: a second success with the key returns the first refund, whatever
-- payment and amount it comes with, and changes no table.
pub refund-retry :
    (id id' payment payment' amount amount' k : ℕ) (s : Db Tables) {a b : Payment × Refund}
    → let first = refund id payment amount (some k) s in
      let again = refund id' payment' amount' (some k) first.1 in
      first.0 ≡ ok a → again.0 ≡ ok b → (b.1 ≡ a.1) × (again.1.0 ≡ first.1.0)
refund-retry id id' payment payment' amount amount' k s {a} {b} e e' =
    let first = refund id payment amount (some k) s in
    let made : Refunds s.0 id payment amount (some k) a first.1.0 =
      on_success _ s.0 first (refund-Refunds id payment amount (some k) s.0 s.1) e in
    let found = key_after id payment amount k made in
    elim (on_success (Refunds first.1.0 id' payment' amount' (some k)) first.1.0
      (refund id' payment' amount' (some k) first.1)
      (refund-Refunds id' payment' amount' (some k) first.1.0 first.1.1) e') [
        | inl (j, ej, f, g, same) ↦
            let kj : k ≡ j = cc ej in
            let f' = subst (λ y. find_by_key y first.1.0.refunds ≡ some b.1) (sym kj) f in
            (cc (found, f'), same)
        | inr (q, f, st, le, new, w, same) ↦ absurd (taken first.1.0.refunds found new)
      ]
  where
    taken :
        (rs : List Refund) {r : Refund}
        → find_by_key k rs ≡ some r
        → key_taken (some k) rs ≡ false
        → ⊥
    taken rs f n = let n' = rw (key_taken, f) at n in cc n'
