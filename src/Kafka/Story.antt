-- ===== src/Kafka/Story.antt =====
-- What the consumer of pkg/kafka does with a message, as the events that it may leave.
use mathlib.Core.Path.{subst}
use go_ozon_marketplace.Prelude.{
  ℕ, zero, suc, ◌+◌, ◌*◌, ◌≤◌, ◌≡◌, refl, inl, inr, Bool, true, false, ◌&&◌, List, ◌∷◌, Option,
  none, some, ltb, arith, Bool-cases, if◌then◌else◌,
}
use go_ozon_marketplace.Prelude.Effect.{Error, Action}
use go_ozon_marketplace.Kafka.{
  Config, default_retries, default_permanent, Event, attempt, dead_letter, marked, is_topic,
  send_to_dlq, Loop, gave_up, after_try, resume, attempt_loop, conclude, process_message,
}

module _ (cfg : Config) (has_producer : Bool) where
  -- So many attempts with errors that are not permanent.
  pub data Failed : ℕ → List Event → List Event → Type 0 where
    not_yet : {log : List Event} → Failed 0 log log
    once_more :
        {n : ℕ} {log log' : List Event} {e : Error}
        → Failed n log log'
        → default_permanent cfg.is_permanent e ≡ false
        → Failed (suc n) log (attempt (some e) ∷ log')

  abbrev pub dead_letters : Error → ℕ → List Event → List Event
  dead_letters e n log =
      if has_producer && is_topic cfg.dlq_topic then dead_letter e n ∷ log else log

  -- The events before, the error that is returned, and the events after.
  pub data Story (ctx_err : Error) : List Event → Option Error → List Event → Type 0 where
    handled :
        {n : ℕ} {log log' : List Event}
        → Failed n log log'
        → n ≤ default_retries cfg.max_retries
        → Story ctx_err log none (marked ∷ attempt none ∷ log')
    poisoned :
        {n : ℕ} {log log' : List Event} (e : Error)
        → Failed n log log'
        → n ≤ default_retries cfg.max_retries
        → default_permanent cfg.is_permanent e ≡ true
        → Story ctx_err log none (marked ∷ dead_letters e n (attempt (some e) ∷ log'))
    -- The last of the errors is that of the dead letter.
    exhausted :
        {log log' : List Event} (e : Error)
        → Failed (default_retries cfg.max_retries + 1) log (attempt (some e) ∷ log')
        → is_topic cfg.dlq_topic ≡ true
        → Story ctx_err log none (
            marked ∷ dead_letters e (default_retries cfg.max_retries + 1) (attempt (some e) ∷ log'))
    dropped :
        {log log' : List Event}
        → Failed (default_retries cfg.max_retries + 1) log log'
        → is_topic cfg.dlq_topic ≡ false
        → Story ctx_err log none log'
    cut_short :
        {n : ℕ} {log log' : List Event}
        → Failed n log log'
        → 1 ≤ n
        → n ≤ default_retries cfg.max_retries
        → Story ctx_err log (some ctx_err) log'

module _ {S : Type 0} (process : Action S (Unit {0})) (wait : ℕ → S → Bool × S) (ctx_err : Error)
    (produce : Error → ℕ → S → S) (has_producer : Bool) (cfg : Config) where
  abbrev run : Loop process wait ctx_err produce has_producer cfg → Option Error × (S × List Event)
  run = conclude process wait ctx_err produce has_producer cfg

  abbrev Tells : List Event → Option Error × (S × List Event) → Type 0
  Tells log (r, (_, log')) = Story cfg has_producer ctx_err log r log'

  sent_to_dlq :
      (e : Error) (n : ℕ) (s : S) (log : List Event)
      → (send_to_dlq process wait ctx_err produce has_producer cfg e n (s, log)).1
        ≡ dead_letters cfg has_producer e n log
  unfolding send_to_dlq
  sent_to_dlq e n s log = elim (Bool-cases (has_producer && is_topic cfg.dlq_topic)) [
    | inl b ↦ rw b refl
    | inr b ↦ rw b refl
  ]

  gave_up_poisoned :
      (n : ℕ) (log log' : List Event) (e : Error) (s : S)
      → Failed cfg has_producer n log log'
      → n ≤ default_retries cfg.max_retries
      → default_permanent cfg.is_permanent e ≡ true
      → Tells log (run (gave_up e n (s, attempt (some e) ∷ log')))
  unfolding conclude
  gave_up_poisoned n log log' e s f l p =
      rw (p, sent_to_dlq e n s (attempt (some e) ∷ log')) (poisoned e f l p)

  no_topic :
      (e : Error) (n : ℕ) (log : List Event)
      → is_topic cfg.dlq_topic ≡ false
      → dead_letters cfg has_producer e n log ≡ log
  no_topic e n log t = elim (Bool-cases has_producer) [ inl b ↦ rw (b, t) refl | inr b ↦ rw b refl ]

  abbrev max : ℕ
  max = default_retries cfg.max_retries

  gave_up_exhausted :
      (log log' : List Event) (e : Error) (s : S)
      → Failed cfg has_producer (max + 1) log (attempt (some e) ∷ log')
      → default_permanent cfg.is_permanent e ≡ false
      → Tells log (run (gave_up e (max + 1) (s, attempt (some e) ∷ log')))
  unfolding conclude
  gave_up_exhausted log log' e s f p =
      let over : ltb max (max + 1) ≡ true = ground arith in
      elim (Bool-cases (is_topic cfg.dlq_topic)) [
        | inl t ↦
            rw (p, over, t, sent_to_dlq e (max + 1) s (attempt (some e) ∷ log')) (exhausted e f t)
        | inr t ↦
            rw
              (
                p,
                over,
                t,
                sent_to_dlq e (max + 1) s (attempt (some e) ∷ log'),
                no_topic e (max + 1) (attempt (some e) ∷ log') t,
              )
              (dropped f t)
      ]

  -- An attempt has ended, and what follows an error that is not permanent tells a story.
  tried :
      (n : ℕ) (log log' : List Event)
      (next : Error → S × List Event → Loop process wait ctx_err produce has_producer cfg)
      (r : Option Error) (s : S)
      → n ≤ max
      → Failed cfg has_producer n log log'
      → ((e : Error)
          → default_permanent cfg.is_permanent e ≡ false
          → Tells log (run (next e (s, attempt (some e) ∷ log'))))
      → Tells log (
          run (
            after_try process wait ctx_err produce has_producer cfg next n
              (r, (s, attempt r ∷ log'))))
  unfolding conclude
  tried n log log' next none s l f k = handled f l
  tried n log log' next (some e) s l f k =
      elim (Bool-cases (default_permanent cfg.is_permanent e)) [
        | inl p ↦ rw (after_try, p) (gave_up_poisoned n log log' e s f l p)
        | inr p ↦ rw (after_try, p) (k e p)
      ]

  resumed :
      (n : ℕ) (log log' : List Event)
      (next : S × List Event → Loop process wait ctx_err produce has_producer cfg) (r : Bool × S)
      → 1 ≤ n
      → n ≤ max
      → Failed cfg has_producer n log log'
      → ((s : S) → Tells log (run (next (s, log'))))
      → Tells log (run (resume process wait ctx_err produce has_producer cfg next r log'))
  unfolding conclude
  resumed n log log' next (true, s) one l f k = k s
  resumed n log log' next (false, s) one l f k = cut_short f one l

  attempt_loop-Tells :
      (left n backoff : ℕ) (log log' : List Event) (s : S)
      → n + left ≡ max
      → Failed cfg has_producer n log log'
      → Tells log (
          run (attempt_loop process wait ctx_err produce has_producer cfg left n backoff (s, log')))
  unfolding attempt_loop
  attempt_loop-Tells zero n backoff log log' s h f = tried n log log' _ _ _ (omega arith) f (λ e p.
      subst
        (λ m.
          Failed cfg has_producer m log log'
          → Tells log (run (gave_up e (m + 1) ((process s).1, attempt (some e) ∷ log'))))
        (omega (arith, h))
        (λ g.
          gave_up_exhausted log log' e _
            (subst (λ m. Failed cfg has_producer m log (attempt (some e) ∷ log')) (omega arith)
              (once_more g p))
            p)
        f)
  attempt_loop-Tells (suc left) n backoff log log' s h f =
      tried n log log' _ _ _ (omega arith) f (λ e p.
        resumed (n + 1) log (attempt (some e) ∷ log')
          (attempt_loop process wait ctx_err produce has_producer cfg left (n + 1) (backoff * 2))
          (wait backoff (process s).1) (omega arith) (omega arith)
          (subst (λ m. Failed cfg has_producer m log (attempt (some e) ∷ log')) (omega arith)
            (once_more f p))
          (λ s'.
            attempt_loop-Tells left (n + 1) (backoff * 2) log (attempt (some e) ∷ log') s'
              (omega arith)
              (subst (λ m. Failed cfg has_producer m log (attempt (some e) ∷ log')) (omega arith)
                (once_more f p))))

  -- Whatever the processor, the producer and the clock do, the events of one message are one of these
  -- stories. At most MaxRetries errors and then a success: the message is marked. At most MaxRetries
  -- errors and then a permanent one: it is marked, after a dead letter if there are both a topic and a
  -- producer for them, and after none otherwise. One error more than MaxRetries, the last of which
  -- makes the dead letter: with a topic it is marked, after a dead letter if there is a producer too;
  -- without a topic there is neither. Or the context's error is returned, after at least one error, with
  -- no mark.
  pub process_message-Story :
      (s : S) (log : List Event)
      → let (r, (_, log')) =
          process_message process wait ctx_err produce has_producer cfg (s, log) in
        Story cfg has_producer ctx_err log r log'
  unfolding process_message
  process_message-Story s log =
      attempt_loop-Tells max 0 cfg.initial_backoff log log s (omega arith) not_yet
