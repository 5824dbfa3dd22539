-- ===== src/Kafka/Tests.antt =====
-- Runs of the consumer: the state is the list of the results of the attempts to come.
use go_ozon_marketplace.Prelude.{ℕ, ◌≡◌, refl, Bool, true, false, List, [], ◌∷◌, some}
use go_ozon_marketplace.Prelude.Effect.{
  Error, unavailable, invalid_argument, deadline_exceeded, Result, ok, err, Action,
}
use go_ozon_marketplace.Kafka.{
  Config, attempt, dead_letter, marked, process_message, attempt_loop, conclude, send_to_dlq,
}
use go_ozon_marketplace.Kafka.Story.{Story, process_message-Story}

abbrev scripted : Action (List (Result (Unit {0}))) (Unit {0})
scripted [] = (ok tt, [])
scripted (r ∷ rs) = (r, rs)

abbrev waits : ℕ → List (Result (Unit {0})) → Bool × List (Result (Unit {0}))
waits n s = (true, s)

abbrev produces : Error → ℕ → List (Result (Unit {0})) → List (Result (Unit {0}))
produces e n s = s

abbrev is_poison : Error → Bool
is_poison Error.invalid_argument = true
is_poison _ = false

abbrev config : Config
config = record {
  dlq_topic = some 7;
  max_retries = some 2;
  initial_backoff = 50;
  is_permanent = some is_poison;
}

abbrev one_retry : List (Result (Unit {0}))
one_retry = err unavailable ∷ err invalid_argument ∷ []

poison_run :
    (process_message scripted waits deadline_exceeded produces true config (one_retry, [])).1.1
    ≡ marked
      ∷ dead_letter invalid_argument 1
      ∷ attempt (some invalid_argument)
      ∷ attempt (some unavailable)
      ∷ []
unfolding process_message attempt_loop conclude send_to_dlq
poison_run = refl

process_message-Story_example :
    let (r, (_, log')) =
      process_message scripted waits deadline_exceeded produces true config (one_retry, []) in
    Story config true deadline_exceeded [] r log'
process_message-Story_example =
    process_message-Story scripted waits deadline_exceeded produces true config one_retry []
