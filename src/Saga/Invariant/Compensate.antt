-- ===== src/Saga/Invariant/Compensate.antt =====
-- Compensation in services/order-service/internal/saga: every recorded item is released and a
-- recorded payment is refunded, as far as asking for it goes.
use go_ozon_marketplace.Prelude.{
  ℕ, Bool, ◌≡◌, refl, ◌⊎◌, inl, inr, true, List, [], ◌∷◌, ◌++◌, Option, none, some, String, All,
  Bool-cases,
}
use go_ozon_marketplace.Prelude.Effect.{Error, Result, ok, err}
use go_ozon_marketplace.Order.Domain.{Order}
use go_ozon_marketplace.Saga.Types.{Saga, SagaReservedItem, is_empty}
use go_ozon_marketplace.Saga.Env.{Env, Key}
use go_ozon_marketplace.Saga.Steps.{inventory, payment, release_all, compensate, as_error}
use go_ozon_marketplace.Saga.Retry.{Ends}
use go_ozon_marketplace.Saga.Retry.Laws.{retry-Ends_from}
use go_ozon_marketplace.Saga.Orchestrator.{compensate_with_retry}
use go_ozon_marketplace.Saga.Trace.{released, refund_asked, Log, traced, WasReleased, WasRefunded}
use go_ozon_marketplace.Saga.Trace.Laws.{WasReleased-append_left, Was-last}

-- A fact about a log that asking for a release or a refund does not undo.
abbrev pub IsKept : ℕ → (Log → Type 0) → Type 0
IsKept o P =
    ((l : Log) (i : SagaReservedItem) (b : Bool) → P l → P (l ++ released o i b ∷ []))
    × ((l : Log) (id : String) (b : Bool) → P l → P (l ++ refund_asked id b ∷ []))

kept_released :
    (o : ℕ) (P : Log → Type 0) (i : SagaReservedItem)
    → IsKept o P
    → IsKept o (λ l. P l × WasReleased o i l)
kept_released o P i k = (
  λ l j b h. (k.0 l j b h.0, WasReleased-append_left o i l (released o j b ∷ []) h.1),
  λ l id b h. (k.1 l id b h.0, WasReleased-append_left o i l (refund_asked id b ∷ []) h.1),
)

pub is_empty-eq : (s : String) → is_empty s ≡ true → s ≡ ""
is_empty-eq String.[] h = refl
is_empty-eq (String.◌∷◌ c s) h = cc

-- A call whose failure and success give the same fact gives it in any case.
pub ends_both : {T : Type 0} (P : T → Type 0) (r : Option Error × T) → Ends P P r → P r.1
ends_both P (none, t) h = h
ends_both P (some e, t) h = h

pub both-Ends : {T : Type 0} (P : T → Type 0) (r : Option Error × T) → P r.1 → Ends P P r
both-Ends P (none, t) h = h
both-Ends P (some e, t) h = h

pub as_error_state : (e : Env) (r : Result (Unit {0}) × e.State) → (as_error e r).1 ≡ r.1
as_error_state e (ok _, s) = refl
as_error_state e (err _, s) = refl

module _ (env : Env) (order : Order) where
  -- One pass of the loop asks for the release of each item, whichever calls fail.
  release_all-All :
      (P : Log → Type 0) (items : List SagaReservedItem) (errs : Option Error) (s : env.State)
      (log : Log)
      → IsKept order.id P
      → P log
      → let log' = (release_all (traced env) items order errs (s, log)).1.1 in
        P log' × All (λ i. WasReleased order.id i log') items
  unfolding release_all
  release_all-All P [] errs s log k p = (p, tt)
  release_all-All P (i ∷ items) errs s log k p =
      let (h, rest) =
        release_all-All (λ l. P l × WasReleased order.id i l) items _ _ _
          (kept_released order.id P i k)
          (k.0 log i _ p, (_, Was-last (released order.id i _) log)) in
      (h.0, (h.1, rest))

  module _ (key : Key) (g : Saga) (P : Log → Type 0) (k : IsKept order.id P) where
    inventory_pass :
        (s : env.State) (log : Log)
        → P log
        → let log' = (compensate (traced env) inventory order key g (s, log)).1.1 in
          P log' × All (λ i. WasReleased order.id i log') g.reserved_items
    unfolding compensate
    inventory_pass s log p = release_all-All P g.reserved_items none s log k p

    payment_pass :
        (s : env.State) (log : Log)
        → P log
        → let log' = (compensate (traced env) payment order key g (s, log)).1.1 in
          P log' × ((g.payment_id ≡ "") ⊎ WasRefunded g.payment_id log')
    unfolding compensate
    payment_pass s log p = elim (Bool-cases (is_empty g.payment_id)) [
      | inl none_taken ↦ rw none_taken (p, inl (is_empty-eq g.payment_id none_taken))
      | inr taken ↦
          rw (taken, as_error_state)
            (k.1 log g.payment_id _ p, inr (_, Was-last (refund_asked g.payment_id _) log))
    ]

    -- With retries, every recorded item has been released, as far as asking goes.
    pub inventory_compensated :
        (s : env.State) (log : Log)
        → P log
        → let log' = (compensate_with_retry (traced env) inventory order key g (s, log)).1.1 in
          P log' × All (λ i. WasReleased order.id i log') g.reserved_items
    unfolding compensate_with_retry
    inventory_compensated s log p =
        let Done =
          λ (t : env.State × Log). P t.1 × All (λ i. WasReleased order.id i t.1) g.reserved_items in
        ends_both Done _ (
          retry-Ends_from _ _ (compensate (traced env) inventory order key g) Done Done (λ n t h. h)
            (λ t h. both-Ends Done _ (inventory_pass t.0 t.1 h.0)) (s, log)
            (both-Ends Done _ (inventory_pass s log p)))

    -- With retries, the refund of a recorded payment has been asked for.
    pub payment_compensated :
        (s : env.State) (log : Log)
        → P log
        → let log' = (compensate_with_retry (traced env) payment order key g (s, log)).1.1 in
          P log' × ((g.payment_id ≡ "") ⊎ WasRefunded g.payment_id log')
    unfolding compensate_with_retry
    payment_compensated s log p =
        let Done =
          λ (t : env.State × Log). P t.1 × ((g.payment_id ≡ "") ⊎ WasRefunded g.payment_id t.1) in
        ends_both Done _ (
          retry-Ends_from _ _ (compensate (traced env) payment order key g) Done Done (λ n t h. h)
            (λ t h. both-Ends Done _ (payment_pass t.0 t.1 h.0)) (s, log)
            (both-Ends Done _ (payment_pass s log p)))
