-- ===== src/Saga/Invariant/Process.antt =====
-- ProcessOrder of services/order-service/internal/saga/orchestrator.go: its loop ends, and leaves a
-- saga whose state tells what has been done.
use mathlib.Core.Path.{subst}
use go_ozon_marketplace.Prelude.{
  ℕ, zero, suc, ◌+◌, ◌≡◌, refl, sym, ◌<◌, ◌≤◌, true, false, [], Option, none, some, length, arith,
  ap, inl, inr, Bool-cases,
}
use go_ozon_marketplace.Prelude.Effect.{Error, Result-cases}
use go_ozon_marketplace.Order.Domain.{Order}
use go_ozon_marketplace.Saga.Types.{
  Saga, SagaStatus, pending, reserving, reserved, paying, paid, confirming,
}
use go_ozon_marketplace.Saga.Env.{Env, Key}
use go_ozon_marketplace.Saga.Steps.{
  is_paying, is_confirming, Step, start, inventory, payment, confirm, Change, execute,
}
use go_ozon_marketplace.Saga.Retry.{Ends}
use go_ozon_marketplace.Saga.Retry.Laws.{retry-Ends}
use go_ozon_marketplace.Saga.Orchestrator.{
  next_step, is_terminal, persist_saga, prepare_step, execute_with_retry, handle_step_failure,
  compensate_saga, save_saga_as, is_pending, Round, stop, continue, round, stop_with, process_loop,
  process_fuel, process_saga, new_saga, wait_saga,
}
use go_ozon_marketplace.Saga.Trace.{Log, traced}
use go_ozon_marketplace.Saga.Invariant.{IsSound, ready, rounds_left, left}
use go_ozon_marketplace.Saga.Invariant.Execute.{
  Phase-at, Same, Forward, start-Ends, inventory-Ends, payment-Ends, confirm-Ends,
}
use go_ozon_marketplace.Saga.Invariant.Failure.{handle_step_failure-IsSound}

terminal-next_step : (st : SagaStatus) → is_terminal st ≡ true → next_step st ≡ none
unfolding is_terminal next_step
terminal-next_step pending h = cc
terminal-next_step _ h = ground arith

rounds_left-bound : (n k : ℕ) (st : SagaStatus) → rounds_left n k st < n + 5
rounds_left-bound n k pending = omega arith
rounds_left-bound n k _ = omega arith

module _ (env : Env) (order : Order) (key : Key) where
  execute-Ends :
      (step : Step) (g : Saga) (s : env.State) (log : Log)
      → g.status ≡ ready step
      → IsSound order g log
      → Ends
          (Same env order key g)
          (Forward env order key g)
          (execute (traced env) step order key g (s, log))
  execute-Ends start = start-Ends env order key
  execute-Ends inventory = inventory-Ends env order key
  execute-Ends payment = payment-Ends env order key
  execute-Ends confirm = confirm-Ends env order key

  execute_with_retry-Ends :
      (step : Step) (g : Saga) (s : env.State) (log : Log)
      → g.status ≡ ready step
      → IsSound order g log
      → Ends
          (Same env order key g)
          (Forward env order key g)
          (execute_with_retry (traced env) step order key g (s, log))
  unfolding execute_with_retry
  execute_with_retry-Ends step g s log st h =
      let fn = λ (t : Saga × (env.State × Log)). execute (traced env) step order key t.0 t.1 in
      retry-Ends (wait_saga (traced env)) env.ctx_err fn (Same env order key g)
        (Forward env order key g) (λ n t p. p)
        (λ t p.
          subst
            (λ g'.
              Ends (Same env order key g) (Forward env order key g)
                (execute (traced env) step order key g' t.1))
            (sym p.0) (execute-Ends step g t.1.0 t.1.1 st p.1))
        (g, (s, log)) (refl, h)

  -- After `Prepare` the saga is in the status in which the step is executed.
  abbrev Ready : Step → Saga → Saga × (env.State × Log) → Type 0
  Ready step g t =
      ((t.0.status ≡ ready step) × (left order t.0 ≤ left order g)) × IsSound order t.0 t.1.1

  abbrev Sound : Saga × (env.State × Log) → Type 0
  Sound t = IsSound order t.0 t.1.1

  persist_saga-Ends :
      (P : Saga → Type 0) (g : Saga) (s : env.State) (log : Log)
      → ((time : ℕ) → P (record g { updated_at = time }))
      → IsSound order g log
      → Ends Sound (λ t. P t.0 × Sound t) (persist_saga (traced env) g (s, log))
  unfolding persist_saga
  persist_saga-Ends P g s log p h =
      elim (Result-cases (env.save_saga (record g { updated_at = env.now s }) s).0) [
        | inl (a, e) ↦ rw e (p (env.now s), h)
        | inr (x, e) ↦ rw e h
      ]

  prepare_step-Ends :
      (st : SagaStatus) (step : Step) (g : Saga) (s : env.State) (log : Log)
      → g.status ≡ st
      → next_step st ≡ some step
      → IsSound order g log
      → Ends Sound (Ready step g) (prepare_step (traced env) step g (s, log))
  unfolding prepare_step next_step
  prepare_step-Ends pending start g s log e n h = ((e, omega arith), h)
  prepare_step-Ends reserving inventory g s log e n h = ((e, omega arith), h)
  prepare_step-Ends reserved payment g s log e n h =
      let b : is_paying g.status ≡ false = ap is_paying e in
      simp b (
        persist_saga-Ends (λ g'. (g'.status ≡ paying) × (left order g' ≤ left order g))
          (record g { status = paying; current_step = "payment" }) s log
          (λ _. (
            refl,
            subst (λ x. 2 ≤ rounds_left (length order.items) (length g.reserved_items) x) (sym e)
                (omega arith),
          ))
          (h.0, Phase-at env order key reserved g log e h))
  prepare_step-Ends paying payment g s log e n h =
      let b : is_paying g.status ≡ true = ap is_paying e in simp b ((e, omega arith), h)
  prepare_step-Ends paid confirm g s log e n h =
      let b : is_confirming g.status ≡ false = ap is_confirming e in
      simp b (
        persist_saga-Ends (λ g'. (g'.status ≡ confirming) × (left order g' ≤ left order g))
          (record g { status = confirming; current_step = "confirm" }) s log
          (λ _. (
            refl,
            subst (λ x. 1 ≤ rounds_left (length order.items) (length g.reserved_items) x) (sym e)
                (omega arith),
          ))
          (h.0, Phase-at env order key paid g log e h))
  prepare_step-Ends confirming confirm g s log e n h =
      let b : is_confirming g.status ≡ true = ap is_confirming e in simp b ((e, omega arith), h)
  prepare_step-Ends _ _ g s log e n h = cc

  -- Without an error there is no next step to take.
  abbrev pub Settled : Option Error → Saga → Type 0
  Settled e g = e ≡ none → next_step g.status ≡ none

  handle_step_failure-Settled :
      (step : Step) (g : Saga) (e : Error) (s : env.State × Log)
      → let r = handle_step_failure (traced env) g order step key e s in Settled r.0 r.1.0
  unfolding handle_step_failure compensate_saga save_saga_as persist_saga next_step
  handle_step_failure-Settled step g e s = elim (Bool-cases (is_pending g.status)) [
    | inl first ↦ simp first (λ n. cc)
    | inr later ↦ simp later (λ _. refl)
  ]

  -- A round stops with a sound saga, or goes on with one that has fewer rounds to go.
  abbrev RoundEnds : Saga → Round (traced env) → Type 0
  RoundEnds g (stop e g' s') = IsSound order g' s'.1 × Settled e g'
  RoundEnds g (continue g' s') = IsSound order g' s'.1 × (left order g' < left order g)

  saved-RoundEnds :
      (g : Saga) (r : Change (traced env))
      → Ends Sound (λ t. (left order t.0 < left order g) × Sound t) r
      → RoundEnds g (elim r.0 [ none ↦ continue r.1.0 r.1.1 | some e ↦ stop (some e) r.1.0 r.1.1 ])
  saved-RoundEnds g (none, (g₃, s₃)) h = (h.1, h.0)
  saved-RoundEnds g (some e, (g₃, s₃)) h = (h, λ n. cc)

  executed-RoundEnds :
      (step : Step) (g g₁ : Saga)
      → g₁.status ≡ ready step
      → left order g₁ ≤ left order g
      → (r : Change (traced env)) → Ends (Same env order key g₁) (Forward env order key g₁) r
      → let p = persist_saga (traced env) r.1.0 r.1.1 in
        RoundEnds g (elim r.0 [
          | some e ↦
              stop_with (traced env) (handle_step_failure (traced env) r.1.0 order step key e r.1.1)
          | none ↦ elim p.0 [ some e ↦ stop (some e) p.1.0 p.1.1 | none ↦ continue p.1.0 p.1.1 ]
        ])
  executed-RoundEnds step g g₁ st le (none, (g₂, (s₂, log₂))) h =
      saved-RoundEnds g (persist_saga (traced env) g₂ (s₂, log₂)) (
        persist_saga-Ends (λ g'. left order g' < left order g) g₂ s₂ log₂ (λ _. omega (arith, h.1))
          h.0)
  executed-RoundEnds step g g₁ st le (some e, (g₂, (s₂, log₂))) h = (
    subst
        (λ x.
          let r = (handle_step_failure (traced env) x order step key e (s₂, log₂)).1 in
          IsSound order r.0 r.1.1)
        (sym h.0) (handle_step_failure-IsSound env order key step g₁ e s₂ log₂ st h.1),
    handle_step_failure-Settled step g₂ e (s₂, log₂),
  )

  prepared-RoundEnds :
      (step : Step) (g : Saga) (r : Change (traced env))
      → Ends Sound (Ready step g) r
      → let x = execute_with_retry (traced env) step order key r.1.0 r.1.1 in
        let p = persist_saga (traced env) x.1.0 x.1.1 in
        RoundEnds g (elim r.0 [
          | some e ↦ stop (some e) r.1.0 r.1.1
          | none ↦ elim x.0 [
            | some e ↦
                stop_with
                  (traced env)
                  (handle_step_failure (traced env) x.1.0 order step key e x.1.1)
            | none ↦ elim p.0 [ some e ↦ stop (some e) p.1.0 p.1.1 | none ↦ continue p.1.0 p.1.1 ]
          ]
        ])
  prepared-RoundEnds step g (none, (g₁, (s₁, log₁))) h =
      executed-RoundEnds step g g₁ h.0.0 h.0.1 _ (execute_with_retry-Ends step g₁ s₁ log₁ h.0.0 h.1)
  prepared-RoundEnds step g (some e, (g₁, (s₁, log₁))) h = (h, λ n. cc)

  round-RoundEnds :
      (step : Step) (g : Saga) (s : env.State) (log : Log)
      → next_step g.status ≡ some step
      → IsSound order g log
      → RoundEnds g (round (traced env) step order key g (s, log))
  unfolding round
  round-RoundEnds step g s log n h =
      prepared-RoundEnds step g (prepare_step (traced env) step g (s, log))
        (prepare_step-Ends g.status step g s log refl n h)

  -- A result was reached; its saga is sound, and settled.
  abbrev pub Completes : Option (Change (traced env)) → Type 0
  Completes none = ⊥
  Completes (some (e, (g, (s, log)))) = IsSound order g log × Settled e g

  -- What is known of the loop with so much fuel.
  abbrev LoopCompletes : ℕ → Type 0
  LoopCompletes fuel =
      (g : Saga) (s : env.State) (log : Log)
      → left order g < fuel
      → IsSound order g log
      → Completes (process_loop (traced env) fuel order key g (s, log))

  after_round :
      (fuel : ℕ) (g : Saga)
      → LoopCompletes fuel
      → left order g < suc fuel
      → (r : Round (traced env)) → RoundEnds g r
      → Completes (elim r [
        | stop e g' s' ↦ some (e, (g', s'))
        | continue g' s' ↦ process_loop (traced env) fuel order key g' s'
      ])
  after_round fuel g loop m (stop e g' s') f = f
  after_round fuel g loop m (continue g' s') f = loop g' s'.0 s'.1 (omega (arith, m, f.1)) f.0

  after_choice :
      (fuel : ℕ) (g : Saga) (s : env.State) (log : Log)
      → LoopCompletes fuel
      → left order g < suc fuel
      → IsSound order g log
      → (n : Option Step) → next_step g.status ≡ n
      → Completes (elim n [
        | none ↦ some (none, (g, (s, log)))
        | some step ↦ elim (round (traced env) step order key g (s, log)) [
          | stop e g' s' ↦ some (e, (g', s'))
          | continue g' s' ↦ process_loop (traced env) fuel order key g' s'
        ]
      ])
  after_choice fuel g s log loop m h none n = (h, λ _. n)
  after_choice fuel g s log loop m h (some step) n =
      after_round fuel g loop m (round (traced env) step order key g (s, log))
        (round-RoundEnds step g s log n h)

  process_loop-Completes : (fuel : ℕ) → LoopCompletes fuel
  unfolding process_loop
  process_loop-Completes zero g s log m h = elim m [ ]
  process_loop-Completes (suc fuel) g s log m h =
      after_choice fuel g s log (process_loop-Completes fuel) m h (next_step g.status) refl

  left-process_fuel : (g : Saga) → left order g < process_fuel order
  left-process_fuel g = rounds_left-bound (length order.items) (length g.reserved_items) g.status

  -- From a sound saga, ProcessOrder comes to an end within its fuel, whatever the repositories and
  -- the services answer; it leaves a sound saga; and without an error that saga has no next step.
  pub process_saga-Completes :
      (g : Saga) (s : env.State) (log : Log)
      → IsSound order g log
      → Completes (process_saga (traced env) order key g (s, log))
  unfolding process_saga
  process_saga-Completes g s log h = elim (Bool-cases (is_terminal g.status)) [
    | inl over ↦ simp over (h, λ _. terminal-next_step g.status over)
    | inr open_ ↦
        simp open_ (process_loop-Completes (process_fuel order) g s log (left-process_fuel g) h)
  ]

  -- A new saga, of which nothing has been called yet.
  pub new_saga-IsSound : (id time : ℕ) → IsSound order (new_saga id order time) []
  new_saga-IsSound id time = ((refl, refl, tt), (refl, refl, refl, tt))
