-- ===== src/Saga/Guarantees.antt =====
-- What a run of ProcessOrder (services/order-service/internal/saga/orchestrator.go) on a new saga
-- promises, for every behaviour of the repositories and the remote services.
use mathlib.Core.Path.{subst}
use go_ozon_marketplace.Prelude.{
  ℕ, ◌≡◌, refl, sym, ◌⊎◌, [], ◌∷◌, Option, none, some, All, ap, arith, ◌∙◌, zero, suc, ◌+◌, ◌<◌, ℕ,
  length, get_elem?, false,
}
use go_ozon_marketplace.Prelude.Effect.{ok}
use go_ozon_marketplace.Order.Status
use go_ozon_marketplace.Order.Domain.{Order}
use go_ozon_marketplace.Saga.Types.{
  Saga, SagaStatus, confirmed, compensating, cancelled, failed, pending,
}
use go_ozon_marketplace.Saga.Env.{Env, Key}
use go_ozon_marketplace.Saga.Steps.{Change}
use go_ozon_marketplace.Saga.Orchestrator.{
  process_saga, process_order, new_saga, is_terminal, process_loop, next_step,
}
use go_ozon_marketplace.Saga.Trace.{
  order_set, traced, reserves, attempts, charges, Was, WasReleased, WasRefunded, IsStill, wanted,
  Concerns, IsCausal,
}
use go_ozon_marketplace.Saga.Trace.Laws.{IsCausal-Concerns}
use go_ozon_marketplace.Saga.Trace.Attempts.{attempts-All}
use go_ozon_marketplace.Saga.Invariant.{IsSound, Phase}
use go_ozon_marketplace.Saga.Invariant.Process.{Completes, process_saga-Completes, new_saga-IsSound}

-- A saga without a next step.
abbrev pub IsFinal : SagaStatus → Type 0
IsFinal confirmed = Unit
IsFinal cancelled = Unit
IsFinal failed = Unit
IsFinal compensating = Unit
IsFinal _ = ⊥

next_step-IsFinal : (st : SagaStatus) → next_step st ≡ none → IsFinal st
unfolding next_step
next_step-IsFinal pending h = cc
next_step-IsFinal confirmed h = tt
next_step-IsFinal cancelled h = tt
next_step-IsFinal failed h = tt
next_step-IsFinal compensating h = tt
next_step-IsFinal _ h = cc

module _ (env : Env) (order : Order) (key : Key) (id time : ℕ) (s : env.State) where
  -- The run of a new saga.
  abbrev pub run : Option (Change (traced env))
  run = process_saga (traced env) order key (new_saga id order time) (s, [])

  run-Completes : Completes env order key run
  run-Completes =
      process_saga-Completes env order key (new_saga id order time) s []
        (new_saga-IsSound env order key id time)

  -- A run on a new saga ends within its fuel, and if it returns no error its saga is final.
  pub run_total : (r : Change (traced env)) × (run ≡ some r) × (r.0 ≡ none → IsFinal r.1.0.status)
  run_total = total run run-Completes
    where
      total :
          (o : Option (Change (traced env)))
          → Completes env order key o
          → (r : Change (traced env)) × (o ≡ some r) × (r.0 ≡ none → IsFinal r.1.0.status)
      total none c = absurd c
      total (some r) c = (r, refl, λ e. next_step-IsFinal r.1.0.status (c.1 e))

  module _ {r : Change (traced env)} (ran : run ≡ some r) where
    sound : IsSound order r.1.0 r.1.1.1
    sound = (subst (Completes env order key) ran run-Completes).0

    -- In a run on a new saga every reservation, charge and change of status is asked for this order,
    -- and a charge for its total amount; a reservation is asked for the item that comes after those
    -- whose reservation returned no error; a charge is asked for only when that is so of every item;
    -- and the status paid is set only when exactly one charge has returned a payment. That a call
    -- returned no error is all that the saga sees of it.
    pub run-IsCausal : IsCausal order [] r.1.1.1
    run-IsCausal = sound.0.2

    -- If a run on a new saga ends in confirmed, the reservations that returned no error are those of
    -- the items of the order, one after the other; exactly one charge returned a payment, which is
    -- the one that the saga holds; the status of the order was set to paid with success; and every
    -- call was for this order, a charge for its total amount.
    pub confirmed_paid :
        r.1.0.status ≡ confirmed
        → (reserves r.1.1.1 ≡ wanted order)
          × (charges r.1.1.1 ≡ r.1.0.payment_id ∷ [])
          × Was (order_set order.id Status.paid) r.1.1.1
          × All (Concerns order) r.1.1.1
    confirmed_paid c =
        let g = r.1.0 in
        let ph : Phase order confirmed g.reserved_items g.payment_id r.1.1.1 =
          subst (λ x. Phase order x g.reserved_items g.payment_id r.1.1.1) c sound.1 in
        (sound.0.0 ∙ ph.0, ph.1, ph.2, IsCausal-Concerns order [] r.1.1.1 run-IsCausal)

    -- If a run on a new saga ends in cancelled: of every item whose reservation was asked for, whether
    -- or not the call returned an error, the release for this order has been asked for, apart from the
    -- one item that comes after those whose reservation returned no error, at which the saga gave up;
    -- and either no charge returned a payment, or one did, and its refund has been asked for (a
    -- payment with an empty id apart). A call whose answers were all lost is not undone.
    pub cancelled_undone :
        r.1.0.status ≡ cancelled
        → All
            (λ i.
              WasReleased order.id i r.1.1.1
              ⊎ (get_elem? (wanted order) (length (reserves r.1.1.1)) ≡ some i))
            (attempts r.1.1.1)
          × All (λ i. WasReleased order.id i r.1.1.1) (reserves r.1.1.1)
          × ((charges r.1.1.1 ≡ [])
              ⊎ ((charges r.1.1.1 ≡ r.1.0.payment_id ∷ [])
                  × ((r.1.0.payment_id ≡ "") ⊎ WasRefunded r.1.0.payment_id r.1.1.1)))
    cancelled_undone c =
        let g = r.1.0 in
        let ph : Phase order cancelled g.reserved_items g.payment_id r.1.1.1 =
          subst (λ x. Phase order x g.reserved_items g.payment_id r.1.1.1) c sound.1 in
        let gone = subst (λ l. All (λ i. WasReleased order.id i r.1.1.1) l) (sym sound.0.0) ph.0 in
        (
          attempts-All order (λ i. WasReleased order.id i r.1.1.1) r.1.1.1 run-IsCausal gone,
          gone,
          ph.1,
        )

    -- If a run on a new saga ends in failed, no reservation, release, charge or refund has even been
    -- asked for.
    pub failed_nothing_done : r.1.0.status ≡ failed → IsStill r.1.1.1
    failed_nothing_done c =
        let g = r.1.0 in
        let ph : Phase order failed g.reserved_items g.payment_id r.1.1.1 =
          subst (λ x. Phase order x g.reserved_items g.payment_id r.1.1.1) c sound.1 in
        ph.2

idle_loop :
    (env : Env) (fuel : ℕ) (order : Order) (key : Key) (g : Saga) (s : env.State)
    → 0 < fuel
    → next_step g.status ≡ none
    → process_loop env fuel order key g s ≡ some (none, (g, s))
unfolding process_loop
idle_loop env zero order key g s h n = absurd (omega arith)
idle_loop env (suc fuel) order key g s h n = rw (process_loop, n) refl

idle_saga :
    (env : Env) (order : Order) (key : Key) (g : Saga) (s : env.State)
    → g.status ≡ compensating
    → process_saga env order key g s ≡ some (none, (g, s))
unfolding process_saga is_terminal next_step
idle_saga env order key g s st =
    let open_ : is_terminal g.status ≡ false = ap is_terminal st in
    rw open_ (idle_loop env (length order.items + 5) order key g s (omega arith) (ap next_step st))

-- A saga that was saved as compensating is not taken further: ProcessOrder returns without an error
-- and without any call but the one that loads it.
pub compensating_stuck :
    (env : Env) (order : Order) (key : Key) (s : env.State) {g : Saga}
    → (env.get_saga order.id s).0 ≡ ok g
    → g.status ≡ compensating
    → process_order env order key s ≡ some (none, (env.get_saga order.id s).1)
unfolding process_order
compensating_stuck env order key s {g} loaded st =
    rw (process_order, loaded, idle_saga env order key g (env.get_saga order.id s).1 st) refl
