-- ===== src/Kafka.antt =====
-- The consumer of pkg/kafka: `process` of handler.go, sendToDLQ of dlq.go, and the defaults of
-- config.go. Joining the consumer group, which sarama does, and logging are left out.
pub mod Story
mod Tests
use go_ozon_marketplace.Prelude.{
  ℕ, zero, suc, ◌+◌, ◌*◌, ◌-◌, Bool, true, false, ◌&&◌, List, [], ◌∷◌, Option, none, some, ltb,
  ◌==◌, if◌then◌else◌,
}
use go_ozon_marketplace.Prelude.Effect.{Error, Result, ok, err, Action}

-- Config, what `process` reads of it: DLQTopic, "" as `none`; MaxRetries, negative before the defaults
-- as `none`; InitialBackoff in milliseconds; and IsPermanent, nil as `none`.
pub record Config : Type 0 where
  pub dlq_topic : Option ℕ
  pub max_retries : Option ℕ
  pub initial_backoff : ℕ
  pub is_permanent : Option (Error → Bool)

abbrev pub default_retries : Option ℕ → ℕ
default_retries none = 0
default_retries (some n) = n

abbrev pub default_permanent : Option (Error → Bool) → Error → Bool
default_permanent none e = false
default_permanent (some f) e = f e

-- setDefaults
unfoldable pub set_defaults : Config → Config
set_defaults c = record c {
  max_retries = some (default_retries c.max_retries);
  initial_backoff = if c.initial_backoff == 0 then 50 else c.initial_backoff;
  is_permanent = some (default_permanent c.is_permanent);
}

-- What the handler does with a message: an attempt with its error, a dead letter with the error and
-- the number of attempts that its envelope names, and MarkMessage.
pub data Event : Type 0 where
  attempt : Option Error → Event
  dead_letter : Error → ℕ → Event
  marked : Event

abbrev pub is_topic : Option ℕ → Bool
is_topic none = false
is_topic (some _) = true

-- `S` is the state of the processor and the producer. `wait` is the backoff: `false` if the context is
-- done before the timer fires.
module _ {S : Type 0} (process : Action S (Unit {0})) (wait : ℕ → S → Bool × S) (ctx_err : Error)
    (produce : Error → ℕ → S → S) (has_producer : Bool) (cfg : Config) where
  abbrev pub retries : ℕ
  retries = default_retries cfg.max_retries

  abbrev pub permanent : Error → Bool
  permanent e = default_permanent cfg.is_permanent e

  -- The state, and the events of the handler, the newest first.
  abbrev pub World : Type 0
  World = S × List Event

  abbrev pub as_option : Result (Unit {0}) → Option Error
  as_option (ok _) = none
  as_option (err e) = some e

  -- `c.processor.Process`
  abbrev pub try : World → Option Error × World
  try (s, log) = let (r, s') = process s in (as_option r, (s', attempt (as_option r) ∷ log))

  -- `session.MarkMessage`
  abbrev pub mark : World → World
  mark (s, log) = (s, marked ∷ log)

  -- sendToDLQ; an error of the producer is only logged.
  unfoldable pub send_to_dlq : Error → ℕ → World → World
  send_to_dlq e attempts (s, log) =
      if has_producer && is_topic cfg.dlq_topic
      then (produce e attempts s, dead_letter e attempts ∷ log)
      else (s, log)

  -- How the loop ends: by success, by `ctx.Done()`, or by `break` or the loop's condition with the last
  -- error and the value of `attempts`.
  pub data Loop : Type 0 where
    succeeded : World → Loop
    interrupted : World → Loop
    gave_up : Error → ℕ → World → Loop

  -- The body of the loop after an attempt; `next` follows an error that is not permanent.
  abbrev pub after_try : (Error → World → Loop) → ℕ → Option Error × World → Loop
  after_try next attempts (none, w) = succeeded w
  after_try next attempts (some e, w) = elim (permanent e) [
    | true ↦ gave_up e attempts w
    | false ↦ next e w
  ]

  -- The `select` between the context and the timer
  abbrev pub resume : (World → Loop) → Bool × S → List Event → Loop
  resume next (true, s) log = next (s, log)
  resume next (false, s) log = interrupted (s, log)

  -- The loop, with so many retries left, after so many attempts; it waits if a retry is left.
  unfoldable pub attempt_loop : ℕ → ℕ → ℕ → World → Loop
  attempt_loop zero attempts backoff w =
      after_try (λ e w'. gave_up e (attempts + 1) w') attempts (try w)
  attempt_loop (suc left) attempts backoff w =
      after_try
        (λ _ w'. resume (attempt_loop left (attempts + 1) (backoff * 2)) (wait backoff w'.0) w'.1)
        attempts (try w)

  abbrev pub mark_if : Bool → World → World
  mark_if true w = mark w
  mark_if false w = w

  -- The rest of `process`
  unfoldable pub conclude : Loop → Option Error × World
  conclude (succeeded w) = (none, mark w)
  conclude (interrupted w) = (some ctx_err, w)
  conclude (gave_up e attempts w) =
      if permanent e
      then (none, mark (send_to_dlq e attempts w))
      else if ltb retries attempts
      then (none, mark_if (is_topic cfg.dlq_topic) (send_to_dlq e attempts w))
      else (some e, w)

  -- `process` of one message
  unfoldable pub process_message : World → Option Error × World
  process_message w = conclude (attempt_loop retries 0 cfg.initial_backoff w)
