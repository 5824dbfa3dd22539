-- ===== src/Saga/Invariant/Failure.antt =====
-- handleStepFailure of services/order-service/internal/saga/orchestrator.go leaves a sound saga.
use go_ozon_marketplace.Prelude.{
  ◌≡◌, refl, ◌⊎◌, inl, inr, ◌∙◌, List, [], ◌∷◌, ◌++◌, none, some, String,
}
use go_ozon_marketplace.Prelude.Effect.{Error, Result, ok, err}
use go_ozon_marketplace.Order.Status.{OrderStatus}
use go_ozon_marketplace.Order.Status
use go_ozon_marketplace.Order.Domain.{Order}
use go_ozon_marketplace.Saga.Types.{
  Saga, SagaReservedItem, pending, reserving, paying, confirming, cancelled, failed, compensating,
}
use go_ozon_marketplace.Saga.Env.{Env, Key}
use go_ozon_marketplace.Saga.Steps.{Step, start, inventory, payment, confirm, name}
use go_ozon_marketplace.Saga.Orchestrator.{
  handle_step_failure, compensate_saga, save_saga_as, join_step_names, compensate_all,
  compensation_plan, persist_saga,
}
use go_ozon_marketplace.Saga.Trace.{
  released, refund_asked, order_set, order_set_failed, Log, traced, charges, WasRefunded,
}
use go_ozon_marketplace.Saga.Trace.{order_event}
use go_ozon_marketplace.Saga.Trace.Laws.{WasRefunded-append_left}
use go_ozon_marketplace.Saga.Invariant.{Phase, IsAccurate, IsSound, ready}
use go_ozon_marketplace.Saga.Invariant.Quiet.{charges-quiet, IsAccurate-quiet, Phase-quiet}
use go_ozon_marketplace.Saga.Invariant.Execute.{Phase-at}
use Prim.Native.String.{◌++◌ as ◌++ₛ◌}
use go_ozon_marketplace.Saga.Invariant.Compensate.{
  IsKept, inventory_compensated, payment_compensated, as_error_state,
}

module _ (env : Env) (order : Order) (key : Key) where
  -- What is known of the log while a step's failure is handled.
  abbrev Before : List SagaReservedItem → List String → Log → Type 0
  Before items cs log = IsAccurate order items log × (charges log ≡ cs)

  Before-IsKept :
      (items : List SagaReservedItem) (cs : List String) → IsKept order.id (Before items cs)
  Before-IsKept items cs = (
    λ l i b h. (
      IsAccurate-quiet order items l (released order.id i b) refl (refl, tt) h.0,
      charges-quiet l (released order.id i b) refl ∙ h.1,
    ),
    λ l id b h. (
      IsAccurate-quiet order items l (refund_asked id b) refl (tt, tt) h.0,
      charges-quiet l (refund_asked id b) refl ∙ h.1,
    ),
  )

  abbrev Closed : Saga → Log → Type 0
  Closed g log =
      IsAccurate order g.reserved_items log
      × Phase order cancelled g.reserved_items g.payment_id log

  -- Before a payment the recorded items are released.
  unpaid-Closed :
      (g : Saga) (s : env.State) (log : Log)
      → Before g.reserved_items [] log
      → Closed g (compensate_all (traced env) (inventory ∷ []) order key g (s, log)).1
  unfolding compensate_all
  unpaid-Closed g s log h =
      let (b, done) =
        inventory_compensated env order key g (Before g.reserved_items [])
          (Before-IsKept g.reserved_items []) s log h in
      (b.0, (done, inl b.1))

  abbrev Asked : Saga → Log → Type 0
  Asked g log = (g.payment_id ≡ "") ⊎ WasRefunded g.payment_id log

  Asked-IsKept :
      (g : Saga) (P : Log → Type 0) → IsKept order.id P → IsKept order.id (λ l. P l × Asked g l)
  Asked-IsKept g P k = (
    λ l i b h. (
      k.0 l i b h.0,
      elim h.1 [
        | inl e ↦ inl e
        | inr w ↦ inr (WasRefunded-append_left g.payment_id l (released order.id i b ∷ []) w)
      ],
    ),
    λ l id b h. (
      k.1 l id b h.0,
      elim h.1 [
        | inl e ↦ inl e
        | inr w ↦ inr (WasRefunded-append_left g.payment_id l (refund_asked id b ∷ []) w)
      ],
    ),
  )

  -- After it the payment is refunded too.
  paid-Closed :
      (g : Saga) (s : env.State) (log : Log)
      → Before g.reserved_items (g.payment_id ∷ []) log
      → Closed g (compensate_all (traced env) (payment ∷ inventory ∷ []) order key g (s, log)).1
  unfolding compensate_all
  paid-Closed g s log h =
      let k = Before-IsKept g.reserved_items (g.payment_id ∷ []) in
      let (b₁, asked) =
        payment_compensated env order key g (Before g.reserved_items (g.payment_id ∷ [])) k s log
          h in
      let (b₂, done) =
        inventory_compensated env order key g
          (λ l. Before g.reserved_items (g.payment_id ∷ []) l × Asked g l) (Asked-IsKept g _ k) _ _
          (b₁, asked) in
      (b₂.0.0, (done, inr (b₂.0.1, b₂.1)))

  Closed-after :
      (g : Saga) (log : Log) (r : Result (Unit {0}))
      → Closed g log
      → Closed g (log ++ order_event order.id Status.cancelled r ∷ [])
  Closed-after g log (ok _) h =
      let e = order_set order.id Status.cancelled in
      (
        IsAccurate-quiet order g.reserved_items log e refl (refl, tt) h.0,
        Phase-quiet order cancelled g.reserved_items g.payment_id log e refl tt h.1,
      )
  Closed-after g log (err _) h =
      let e = order_set_failed order.id Status.cancelled in
      (
        IsAccurate-quiet order g.reserved_items log e refl (refl, tt) h.0,
        Phase-quiet order cancelled g.reserved_items g.payment_id log e refl tt h.1,
      )

  -- Saving a saga touches neither its record of the calls nor the log.
  pub persist_saga-IsSound :
      (g : Saga) (s : env.State) (log : Log)
      → IsSound order g log
      → let r = (persist_saga (traced env) g (s, log)).1 in IsSound order r.0 r.1.1
  unfolding persist_saga
  persist_saga-IsSound g s log h = rw as_error_state h

  closes :
      (step : Step) (g : Saga) (s : env.State) (log : Log)
      → IsAccurate order g.reserved_items log
      → Phase order (ready step) g.reserved_items g.payment_id log
      → Closed g (compensate_all (traced env) (compensation_plan step) order key g (s, log)).1
  unfolding compensation_plan
  closes start g s log a ph = unpaid-Closed g s log (a, ph.1)
  closes inventory g s log a ph = unpaid-Closed g s log (a, ph.0)
  closes payment g s log a ph = unpaid-Closed g s log (a, ph.1)
  closes confirm g s log a ph = paid-Closed g s log (a, ph.1)

  -- What a saved saga records, and the log, are those of the saga before.
  persist_saga-keeps :
      (P : List SagaReservedItem → String → Log → Type 0) (g : Saga) (s : env.State) (log : Log)
      → P g.reserved_items g.payment_id log
      → let r = (persist_saga (traced env) g (s, log)).1 in
        P r.0.reserved_items r.0.payment_id r.1.1
  unfolding persist_saga
  persist_saga-keeps P g s log h = rw as_error_state h

  compensate_saga-IsSound :
      (step : Step) (g : Saga) (e : Error) (s : env.State) (log : Log)
      → IsAccurate order g.reserved_items log
      → Phase order (ready step) g.reserved_items g.payment_id log
      → let r = (compensate_saga (traced env) g order step key e (s, log)).1 in
        IsSound order r.0 r.1.1
  unfolding compensate_saga save_saga_as
  compensate_saga-IsSound step g e s log a ph =
      let g' = record g {
        status = compensating;
        current_step = "compensate_" ++ₛ join_step_names (compensation_plan step);
        error_message = some e;
      } in
      let r₁ = (persist_saga (traced env) g' (s, log)).1 in
      let r₂ = compensate_all (traced env) (compensation_plan step) order key r₁.0 r₁.1 in
      let closed =
        closes step r₁.0 r₁.1.0 r₁.1.1
          (persist_saga-keeps (λ items id l. IsAccurate order items l) g' s log a)
          (persist_saga-keeps (Phase order (ready step)) g' s log ph) in
      let call = env.update_order_status order.id Status.cancelled r₂.0 in
      persist_saga-IsSound
        (record r₁.0 { status = cancelled; current_step = "cancelled"; error_message = none })
        call.1 (r₂.1 ++ order_event order.id Status.cancelled call.0 ∷ [])
        (Closed-after r₁.0 r₂.1 call.0 closed)

  -- A failed step leaves a saga that is failed, with nothing reserved or charged, or cancelled,
  -- with every reserved item released and a recorded payment refunded.
  pub handle_step_failure-IsSound :
      (step : Step) (g : Saga) (e : Error) (s : env.State) (log : Log)
      → g.status ≡ ready step
      → IsSound order g log
      → let r = (handle_step_failure (traced env) g order step key e (s, log)).1 in
        IsSound order r.0 r.1.1
  unfolding handle_step_failure save_saga_as
  handle_step_failure-IsSound start g e s log st h =
      let ph = Phase-at env order key pending g log st h in
      simp st (
        persist_saga-IsSound
          (record g { status = failed; current_step = name start; error_message = some e }) s log
          (h.0, (ph.0, ph.1, ph.3)))
  handle_step_failure-IsSound inventory g e s log st h = simp st (
      compensate_saga-IsSound inventory g e s log h.0 (Phase-at env order key reserving g log st h))
  handle_step_failure-IsSound payment g e s log st h =
      simp st
        (compensate_saga-IsSound payment g e s log h.0 (Phase-at env order key paying g log st h))
  handle_step_failure-IsSound confirm g e s log st h =
      simp st (
        compensate_saga-IsSound confirm g e s log h.0
          (Phase-at env order key confirming g log st h))
