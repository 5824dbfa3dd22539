-- ===== src/Saga/Recovery/Cancel.antt =====
-- CancelOrder of services/order-service/internal/saga/orchestrator.go: what has been done when it
-- reports success.
use mathlib.Core.Path.{subst}
use go_ozon_marketplace.Prelude.{
  ℕ, ◌≡◌, refl, ◌⊎◌, inl, inr, true, List, [], ◌∷◌, ◌++◌, Option, none, some, All, Bool-cases, ap,
}
use go_ozon_marketplace.Prelude.Effect.{Error, Result, ok, err, Result-cases}
use go_ozon_marketplace.Order.Status
use go_ozon_marketplace.Order.Domain.{Order}
use go_ozon_marketplace.Saga.Types.{Saga, SagaReservedItem, is_empty}
use go_ozon_marketplace.Saga.Env.{Env, no_key, refund_key, order_key, release_key}
use go_ozon_marketplace.Saga.Steps.{inventory, as_error, join_error, release_all, compensate}
use go_ozon_marketplace.Saga.Retry.{Ends, retry}
use go_ozon_marketplace.Saga.Retry.Laws.{retry-Ends}
use go_ozon_marketplace.Saga.Orchestrator.{persist_saga, compensate_with_retry}
use go_ozon_marketplace.Saga.Trace.{
  Event, released, refund_asked, order_set, order_event, succeeded, Log, traced, Was,
}
use go_ozon_marketplace.Saga.Trace.Laws.{Was-append_left, Was-last}
use go_ozon_marketplace.Saga.Invariant.Compensate.{IsKept, is_empty-eq, as_error_state}
use go_ozon_marketplace.Saga.Recovery.{refund_with_retry, close_saga, cancel_saga, cancel_order}

-- The refund of a saga's payment, if it has one, has been asked for with success.
abbrev pub IsRefunded : Saga → Log → Type 0
IsRefunded g l = (g.payment_id ≡ "") ⊎ Was (refund_asked g.payment_id true) l

-- Everything that a saga of an order holds has been undone: the call to refund its payment and the
-- calls to release its items for the order returned no error.
abbrev pub IsUndone : ℕ → Saga → Log → Type 0
IsUndone order g l = IsRefunded g l × All (λ i. Was (released order i true) l) g.reserved_items

IsRefunded-append : (g : Saga) (l m : Log) → IsRefunded g l → IsRefunded g (l ++ m)
IsRefunded-append g l m (inl e) = inl e
IsRefunded-append g l m (inr h) = inr (Was-append_left (refund_asked g.payment_id true) l m h)

released-append :
    (o : ℕ) (items : List SagaReservedItem) (l m : Log)
    → All (λ i. Was (released o i true) l) items
    → All (λ i. Was (released o i true) (l ++ m)) items
released-append o [] l m h = tt
released-append o (i ∷ items) l m h =
    (Was-append_left (released o i true) l m h.0, released-append o items l m h.1)

kept_Was : (o : ℕ) (P : Log → Type 0) (e : Event) → IsKept o P → IsKept o (λ l. P l × Was e l)
kept_Was o P e k = (
  λ l i b h. (k.0 l i b h.0, Was-append_left e l (released o i b ∷ []) h.1),
  λ l id b h. (k.1 l id b h.0, Was-append_left e l (refund_asked id b ∷ []) h.1),
)

-- Of several results joined, all were successes if there is no error.
no_errors :
    (env : Env) (errs : Option Error) (r : Result (Unit {0}))
    → join_error env errs r ≡ none
    → (errs ≡ none) × (succeeded r ≡ true)
no_errors env (some e) r h = absurd cc
no_errors env none (ok _) h = (refl, refl)
no_errors env none (err e) h = absurd cc

to-Ends :
    {T : Type 0} (P Q : T → Type 0) (r : Option Error × T)
    → P r.1
    → (r.0 ≡ none → Q r.1)
    → Ends P Q r
to-Ends P Q (none, t) p q = q refl
to-Ends P Q (some e, t) p q = p

Ends-none : {T : Type 0} (P Q : T → Type 0) (r : Option Error × T) → Ends P Q r → r.0 ≡ none → Q r.1
Ends-none P Q (none, t) h e = h
Ends-none P Q (some x, t) h e = absurd cc

Ends-left :
    {T : Type 0} (P Q : T → Type 0) (r : Option Error × T)
    → Ends P Q r
    → ((t : T) → Q t → P t)
    → P r.1
Ends-left P Q (none, t) h k = k t h
Ends-left P Q (some x, t) h k = h

module _ (env : Env) (order : Order) where
  -- One pass of the loop that returns no error has released each item with success.
  release_all-Was :
      (P : Log → Type 0) (items : List SagaReservedItem) (errs : Option Error) (s : env.State)
      (log : Log)
      → IsKept order.id P
      → P log
      → let r = release_all (traced env) items order errs (s, log) in
        P r.1.1
        × (r.0 ≡ none → (errs ≡ none) × All (λ i. Was (released order.id i true) r.1.1) items)
  unfolding release_all
  release_all-Was P [] errs s log k p = (p, λ h. (h, tt))
  release_all-Was P (i ∷ items) errs s log k p =
      let call =
        env.release i.product_id i.quantity order.id (release_key order.id i.product_id) s in
      let e = released order.id i (succeeded call.0) in
      let (h, done) =
        release_all-Was (λ l. P l × Was e l) items (join_error (traced env) errs call.0) call.1
          (log ++ e ∷ []) (kept_Was order.id P e k)
          (k.0 log i (succeeded call.0) p, Was-last e log) in
      (
        h.0,
        λ none_left.
            let (before, rest) = done none_left in
            let (errs_none, good) = no_errors (traced env) errs call.0 before in
            let after =
              (release_all (traced env) items order (join_error (traced env) errs call.0)
                (call.1, log ++ e ∷ [])).1.1 in
            (errs_none, (subst (λ b. Was (released order.id i b) after) good h.1, rest)),
      )

module _ (env : Env) (order : Order) (g : Saga) where
  abbrev Any : env.State × Log → Type 0
  Any t = Unit

  abbrev Back : env.State × Log → Type 0
  Back t = IsRefunded g t.1

  abbrev Held : (Log → Type 0) → env.State × Log → Type 0
  Held P t = P t.1

  abbrev Gone : (Log → Type 0) → env.State × Log → Type 0
  Gone P t = P t.1 × All (λ i. Was (released order.id i true) t.1) g.reserved_items

  refunded :
      (s : env.State) (log : Log)
      → let r = refund_with_retry (traced env) g order (s, log) in r.0 ≡ none → IsRefunded g r.1.1
  unfolding refund_with_retry
  refunded s log = elim (Bool-cases (is_empty g.payment_id)) [
    | inl none_taken ↦ simp none_taken (λ _. inl (is_empty-eq g.payment_id none_taken))
    | inr taken ↦ simp taken (
        Ends-none Any Back _
          (retry-Ends _ _ _ Any Back (λ n t h. tt) (λ t h. asked t.0 t.1) (s, log) tt))
  ]
    where
      asked :
          (s : env.State) (log : Log)
          → Ends Any Back (
              as_error (traced env) (
                (traced env).refund g.payment_id
                  (refund_key (order_key order.id) g.payment_id)
                  (s, log)))
      asked s log =
          elim (Result-cases
            (env.refund g.payment_id (refund_key (order_key order.id) g.payment_id) s).0) [
              | inl (a, e) ↦ rw e (inr (Was-last (refund_asked g.payment_id true) log))
              | inr (x, e) ↦ rw e tt
            ]

  All-released :
      (P : Log → Type 0) (s : env.State) (log : Log)
      → IsKept order.id P
      → P log
      → let r = compensate_with_retry (traced env) inventory order no_key g (s, log) in
        P r.1.1 × (r.0 ≡ none → All (λ i. Was (released order.id i true) r.1.1) g.reserved_items)
  unfolding compensate_with_retry compensate
  All-released P s log k p = (
    Ends-left (Held P) (Gone P) _ ends (λ t h. h.0),
    λ h. (Ends-none (Held P) (Gone P) _ ends h).1,
  )
    where
      pass :
          (t : env.State × Log)
          → Held P t
          → Ends (Held P) (Gone P) (compensate (traced env) inventory order no_key g t)
      pass t h =
          let (held, done) = release_all-Was env order P g.reserved_items none t.0 t.1 k h in
          to-Ends (Held P) (Gone P) _ held (λ n. (held, (done n).1))

      ends : Ends (Held P) (Gone P) (
          retry
            (traced env).wait
            (traced env).ctx_err
            (compensate (traced env) inventory order no_key g)
            (s, log))
      ends = retry-Ends _ _ _ (Held P) (Gone P) (λ n t h. h) pass (s, log) p

  close_saga-log : (s : env.State) (log : Log) → (close_saga (traced env) g (s, log)).1.1 ≡ log
  unfolding close_saga persist_saga
  close_saga-log s log = ap (λ t. t.1) (as_error_state (traced env) _)

  -- The choices of `cancel_saga`: without an error it is the last call that ends it.
  abbrev first_error :
      (e₁ e₂ e₃ : Option Error) (t₁ t₂ t₃ : env.State × Log)
      (last : Option Error × (env.State × Log))
      → Option Error × (env.State × Log)
  first_error e₁ e₂ e₃ t₁ t₂ t₃ last = elim e₁ [
    | some e ↦ (some e, t₁)
    | none ↦ elim e₂ [
      | some e ↦ (some e, t₂)
      | none ↦ elim e₃ [ some e ↦ (some e, t₃) | none ↦ last ]
    ]
  ]

  last_call :
      (Q : Log → Type 0) (e₁ e₂ e₃ : Option Error) (t₁ t₂ t₃ : env.State × Log)
      (last : Option Error × (env.State × Log))
      → (e₁ ≡ none → e₂ ≡ none → e₃ ≡ none → Q last.1.1)
      → let r = first_error e₁ e₂ e₃ t₁ t₂ t₃ last in r.0 ≡ none → Q r.1.1
  last_call Q (some e) e₂ e₃ t₁ t₂ t₃ last q h = cc
  last_call Q none (some e) e₃ t₁ t₂ t₃ last q h = cc
  last_call Q none none (some e) t₁ t₂ t₃ last q h = cc
  last_call Q none none none t₁ t₂ t₃ last q h = q refl refl refl

  abbrev Done : Log → Type 0
  Done l = IsUndone order.id g l × Was (order_set order.id Status.cancelled) l

  close_saga-Done : (t : env.State × Log) → Done t.1 → Done (close_saga (traced env) g t).1.1
  close_saga-Done t d = rw (close_saga-log t.0 t.1) d

  order_set-Done :
      (log : Log) (r : Result (Unit {0}) × env.State)
      → IsUndone order.id g log
      → let t =
          as_error
            (traced env)
            (r.0, (r.1, log ++ order_event order.id Status.cancelled r.0 ∷ [])) in
        t.0 ≡ none → Done t.1.1
  order_set-Done log (ok _, s) (p, q) h = (
    (IsRefunded-append g log _ p, released-append order.id g.reserved_items log _ q),
    Was-last (order_set order.id Status.cancelled) log,
  )
  order_set-Done log (err _, s) u h = cc

  cancel_saga-IsUndone :
      (s : env.State) → let r = cancel_saga (traced env) order g (s, []) in r.0 ≡ none → Done r.1.1
  unfolding cancel_saga
  cancel_saga-IsUndone s =
      let t₁ = (refund_with_retry (traced env) g order (s, [])).1 in
      let t₂ = (compensate_with_retry (traced env) inventory order no_key g t₁).1 in
      let back = refunded s [] in
      let e₁ = (refund_with_retry (traced env) g order (s, [])).0 in
      let (kept, gone) =
        All-released (λ l. e₁ ≡ none → IsRefunded g l) t₁.0 t₁.1 (refund_kept e₁) back in
      last_call Done _ _ _ _ _ _ _ (λ h₁ h₂ h₃. close_saga-Done _ (
        order_set-Done t₂.1 (env.update_order_status order.id Status.cancelled t₂.0)
          (kept h₁, gone h₂) h₃))
    where
      refund_kept : (e₁ : Option Error) → IsKept order.id (λ l. e₁ ≡ none → IsRefunded g l)
      refund_kept e₁ = (
        λ l i b h n. IsRefunded-append g l (released order.id i b ∷ []) (h n),
        λ l id b h n. IsRefunded-append g l (refund_asked id b ∷ []) (h n),
      )

-- If CancelOrder reports success for an order, there is a saga of that order; the refund of the
-- payment that the saga holds, if any, was asked for and returned no error; so was the release, for
-- this order, of every item that the saga reserved; and the status of the order was set to cancelled.
pub cancel_order-IsUndone :
    (env : Env) (order : Order) (s : env.State)
    → let r = cancel_order (traced env) order (s, []) in
      r.0 ≡ none
      → (g : Saga) × ((env.get_saga order.id s).0 ≡ ok g)
        × IsUndone order.id g r.1.1
        × Was (order_set order.id Status.cancelled) r.1.1
unfolding cancel_order
cancel_order-IsUndone env order s = elim (Result-cases (env.get_saga order.id s).0) [
  | inl (g, e) ↦
      rw (cancel_order, e)
        (λ h.
          let (u, w) = cancel_saga-IsUndone env order g (env.get_saga order.id s).1 h in
          (g, refl, u, w))
  | inr (x, e) ↦ rw (cancel_order, e) (λ h. cc)
]
