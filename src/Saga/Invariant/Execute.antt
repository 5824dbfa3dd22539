-- ===== src/Saga/Invariant/Execute.antt =====
-- Each step of services/order-service/internal/saga/steps.go keeps the state of the saga sound.
use go_ozon_marketplace.Prelude.{
  ℕ, inl, inr, Option-cases, ◌≡◌, refl, ◌<◌, ◌≤◌, List, [], ◌∷◌, ◌++◌, none, some, map, length,
  take, take-suc, take_all, get_elem?, arith, suc, zero, sym, length-append, ap, ◌∙◌,
}
use mathlib.Core.Option
use mathlib.Core.Path.{subst}
use go_ozon_marketplace.Prelude.Effect.{Result-cases}
use go_ozon_marketplace.Order.Status.{OrderStatus}
use go_ozon_marketplace.Order.Status
use go_ozon_marketplace.Order.Domain.{Order, OrderItem}
use go_ozon_marketplace.Saga.Types.{
  Saga, int32, SagaStatus, SagaReservedItem, pending, reserving, paying, confirming,
}
use go_ozon_marketplace.Saga.Env.{Env, Key, payment_key, reserve_key}
use go_ozon_marketplace.Saga.Steps.{
  start, inventory, payment, confirm, execute, reserved_item, reserve_item,
}
use go_ozon_marketplace.Saga.Retry.{Ends}
use go_ozon_marketplace.Saga.Trace.{
  Event, reserve_failed, Log, traced, charged, charge_failed, reserves, charges, order_set,
  order_set_failed, IsAllowed, wanted,
}
use go_ozon_marketplace.Saga.Trace.Laws.{reserves-append, charges-append, IsCausal-append, Was-last}
use go_ozon_marketplace.Saga.Invariant.{Phase, IsSound, rounds_left, left}
use go_ozon_marketplace.Saga.Invariant.Quiet.{
  KeepsStill, charges-quiet, IsAccurate-quiet, Phase-quiet,
}

-- The lookup of the next item among the recorded forms.
get_elem?-map :
    (items : List OrderItem) (n : ℕ) {item : OrderItem}
    → get_elem? items n ≡ some item
    → get_elem? (map reserved_item items) n ≡ some (reserved_item item)
get_elem?-map [] n h = cc
get_elem?-map (x ∷ xs) zero h = ap (Option.map reserved_item) h
get_elem?-map (x ∷ xs) (suc n) h = get_elem?-map xs n h

get_elem?-none :
    (items : List OrderItem) (n : ℕ)
    → get_elem? items n ≡ none
    → length (map reserved_item items) ≤ n
get_elem?-none [] n h = omega arith
get_elem?-none (x ∷ xs) zero h = cc
get_elem?-none (x ∷ xs) (suc n) h = omega (arith, get_elem?-none xs n h)

get_elem?-lt :
    (items : List OrderItem) (n : ℕ) {item : OrderItem}
    → get_elem? items n ≡ some item
    → n < length items
get_elem?-lt [] n h = cc
get_elem?-lt (x ∷ xs) zero h = omega arith
get_elem?-lt (x ∷ xs) (suc n) h = omega (arith, get_elem?-lt xs n h)

module _ (env : Env) (order : Order) (key : Key) where
  -- A failed attempt leaves the saga as it is and sound.
  abbrev pub Same : Saga → Saga × (env.State × Log) → Type 0
  Same g t = (t.0 ≡ g) × IsSound order g t.1.1

  -- A successful step leaves it sound, with fewer rounds to go.
  abbrev pub Forward : Saga → Saga × (env.State × Log) → Type 0
  Forward g t = IsSound order t.0 t.1.1 × (left order t.0 < left order g)

  -- The phase of a saga whose status is known.
  pub Phase-at :
      (st : SagaStatus) (g : Saga) (log : Log)
      → g.status ≡ st
      → IsSound order g log
      → Phase order st g.reserved_items g.payment_id log
  Phase-at st g log e h = subst (λ x. Phase order x g.reserved_items g.payment_id log) e h.1

  -- Fewer rounds than those that are left in a known status.
  fewer :
      (st : SagaStatus) (g : Saga) (k : ℕ)
      → g.status ≡ st
      → k < rounds_left (length order.items) (length g.reserved_items) st
      → k < left order g
  fewer st g k e h =
      subst (λ x. k < rounds_left (length order.items) (length g.reserved_items) x) (sym e) h

  -- After a failed call that is allowed, and is neither a reserve nor a charge.
  same_after :
      (g : Saga) (log : Log) (e : Event)
      → reserves (e ∷ []) ≡ []
      → charges (e ∷ []) ≡ []
      → IsAllowed order log e
      → KeepsStill g.status e
      → IsSound order g log
      → IsSound order g (log ++ e ∷ [])
  same_after g log e q r a k h = (
    IsAccurate-quiet order g.reserved_items log e q a h.0,
    Phase-quiet order g.status g.reserved_items g.payment_id log e r k h.1,
  )

  pub start-Ends :
      (g : Saga) (s : env.State) (log : Log)
      → g.status ≡ pending
      → IsSound order g log
      → Ends (Same g) (Forward g) (execute (traced env) start order key g (s, log))
  unfolding execute
  start-Ends g s log st h =
      let ph = Phase-at pending g log st h in
      let e' = order_set order.id Status.awaiting_payment in
      elim (Result-cases (env.update_order_status order.id Status.awaiting_payment s).0) [
        | inl (a, e) ↦ rw e (
          (
            IsAccurate-quiet order g.reserved_items log e' refl (refl, tt) h.0,
            (charges-quiet log e' refl ∙ ph.1, ph.2),
          ),
          fewer pending g _ st (omega arith),
        )
        | inr (x, e) ↦ rw e (
          refl,
          same_after g log (order_set_failed order.id Status.awaiting_payment) refl refl (refl, tt)
              (subst (λ x. KeepsStill x (order_set_failed order.id Status.awaiting_payment))
                (sym st) tt)
              h,
        )
      ]

  -- One more item is recorded, which is the next item of the order.
  recorded-prefix :
      (items : List SagaReservedItem) (item : OrderItem)
      → get_elem? order.items (length items) ≡ some item
      → items ≡ take (length items) (wanted order)
      → items ++ reserved_item item ∷ []
        ≡ take (length (items ++ reserved_item item ∷ [])) (wanted order)
  recorded-prefix items item e h =
      let n = length items in
      let longer : length (items ++ reserved_item item ∷ []) ≡ suc n =
        omega (arith, length-append items (reserved_item item ∷ [])) in
      rw (longer, take-suc n (wanted order) (get_elem?-map order.items n e))
        (ap (λ l. l ++ reserved_item item ∷ []) h)

  reserve-Ends :
      (item : OrderItem) (g : Saga) (s : env.State) (log : Log)
      → g.status ≡ reserving
      → get_elem? order.items (length g.reserved_items) ≡ some item
      → IsSound order g log
      → Ends (Same g) (Forward g) (reserve_item (traced env) (some item) order key g (s, log))
  unfolding reserve_item
  reserve-Ends item g s log st e h =
      let ph = Phase-at reserving g log st h in
      let n = length g.reserved_items in
      let x = reserved_item item in
      let at : get_elem? (wanted order) (length (reserves log)) ≡ some x =
        rw h.0.0 (get_elem?-map order.items n e) in
      let call =
        env.reserve item.product_id (int32 item.quantity) order.id (reserve_key key item.product_id)
          s in
      elim (Result-cases call.0) [
        | inl (a, r) ↦ rw r (
          (
            (
              rw reserves-append (ap (λ l. l ++ x ∷ []) h.0.0),
              recorded-prefix g.reserved_items item e h.0.1,
              IsCausal-append order [] log (Event.reserved order.id x) h.0.2 (refl, at),
            ),
            subst
                (λ st'.
                  Phase order st' (g.reserved_items ++ x ∷ []) g.payment_id
                    (log ++ Event.reserved order.id x ∷ []))
                (sym st) (charges-quiet log (Event.reserved order.id x) refl ∙ ph.0, ph.1),
          ),
          subst
              (λ st'.
                rounds_left (length order.items) (length (g.reserved_items ++ x ∷ [])) st'
                < rounds_left (length order.items) n st')
              (sym st)
              (omega
                (arith, length-append g.reserved_items (x ∷ []), get_elem?-lt order.items n e)),
        )
        | inr (x', r) ↦ rw r (
          refl,
          same_after g log (reserve_failed order.id x) refl refl (refl, at)
              (subst (λ y. KeepsStill y (reserve_failed order.id x)) (sym st) tt) h,
        )
      ]

  pub inventory-Ends :
      (g : Saga) (s : env.State) (log : Log)
      → g.status ≡ reserving
      → IsSound order g log
      → Ends (Same g) (Forward g) (execute (traced env) inventory order key g (s, log))
  unfolding execute
  inventory-Ends g s log st h =
      let ph = Phase-at reserving g log st h in
      let n = length g.reserved_items in
      elim (Option-cases (get_elem? order.items n)) [
        | inl e ↦ rw e (
          (h.0, (h.0.1 ∙ take_all n (wanted order) (get_elem?-none order.items n e), ph.0, ph.1)),
          fewer reserving g 2 st (omega arith),
        )
        | inr (item, e) ↦ rw e (reserve-Ends item g s log st e h)
      ]

  pub payment-Ends :
      (g : Saga) (s : env.State) (log : Log)
      → g.status ≡ paying
      → IsSound order g log
      → Ends (Same g) (Forward g) (execute (traced env) payment order key g (s, log))
  unfolding execute
  payment-Ends g s log st h =
      let ph = Phase-at paying g log st h in
      elim (Result-cases (env.process_payment order.id order.total_amount (payment_key key) s).0) [
        | inl (id, e) ↦ rw e (
          (
            IsAccurate-quiet order g.reserved_items log (charged order.id order.total_amount id)
                refl ((refl, refl), h.0.0 ∙ ph.0) h.0,
            (ph.0, rw (charges-append, ph.1)),
          ),
          fewer paying g 1 st (omega arith),
        )
        | inr (x, e) ↦ rw e (
          refl,
          same_after g log (charge_failed order.id order.total_amount) refl refl
              ((refl, refl), h.0.0 ∙ ph.0)
              (subst (λ y. KeepsStill y (charge_failed order.id order.total_amount)) (sym st) tt) h,
        )
      ]

  pub confirm-Ends :
      (g : Saga) (s : env.State) (log : Log)
      → g.status ≡ confirming
      → IsSound order g log
      → Ends (Same g) (Forward g) (execute (traced env) confirm order key g (s, log))
  unfolding execute
  confirm-Ends g s log st h =
      let ph = Phase-at confirming g log st h in
      let e' = order_set order.id Status.paid in
      elim (Result-cases (env.update_order_status order.id Status.paid s).0) [
        | inl (a, e) ↦ rw e (
          (
            IsAccurate-quiet order g.reserved_items log e' refl (refl, (g.payment_id, ph.1)) h.0,
            (ph.0, charges-quiet log e' refl ∙ ph.1, Was-last e' log),
          ),
          fewer confirming g 0 st (omega arith),
        )
        | inr (x, e) ↦ rw e (
          refl,
          same_after g log (order_set_failed order.id Status.paid) refl refl
              (refl, (g.payment_id, ph.1))
              (subst (λ y. KeepsStill y (order_set_failed order.id Status.paid)) (sym st) tt) h,
        )
      ]
