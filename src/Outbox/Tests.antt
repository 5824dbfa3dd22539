-- ===== src/Outbox/Tests.antt =====
-- Runs of the outbox relay on small tables.
use go_ozon_marketplace.Prelude.{
  ℕ, ◌+◌, ◌≡◌, refl, sym, ◌∙◌, ap, inl, inr, List, [], ◌∷◌, none, length, arith,
}
use go_ozon_marketplace.Prelude.Effect.{other, unavailable}
use go_ozon_marketplace.Database.{answered, refused, lost}
use go_ozon_marketplace.Outbox.{
  OutboxEvent, idle, begin, get_unprocessed, exec, oldest_due, due, by_age, insert_by_age,
  move_to_dlq, insert_dlq, delete_event, increment_retry_and_set_error, commit,
}
use go_ozon_marketplace.Outbox.Relay.{
  World, poll, polls, publish_and_finish, publish, send_message, send_failed, finish,
  commit_or_rollback, calculate_next_retry,
}
use go_ozon_marketplace.Outbox.Kept.{Keyed, Kept}
use go_ozon_marketplace.Outbox.Safety.{polls-Kept}
use go_ozon_marketplace.Outbox.Drain.{pending, polls-drain}

abbrev event : ℕ → ℕ → ℕ → OutboxEvent
event id created retries = record {
  id = id;
  aggregate_type = 1;
  aggregate_id = 70 + id;
  event_type = 2;
  payload = id ∷ [];
  created_at = created;
  processed_at = none;
  retry_count = retries;
  last_error = none;
  next_retry_at = created;
}

abbrev two_events : List OutboxEvent
two_events = event 1 20 4 ∷ event 2 10 0 ∷ []

two_events-Keyed : Keyed (two_events, [])
two_events-Keyed c d (inl (inl p)) (inl (inl q)) same = sym p ∙ q
two_events-Keyed c d (inl (inl p)) (inl (inr (inl q))) same =
    absurd (cc (ap (λ x. x.0) p, ap (λ x. x.0) q, same))
two_events-Keyed c d (inl (inr (inl p))) (inl (inl q)) same =
    absurd (cc (ap (λ x. x.0) p, ap (λ x. x.0) q, same))
two_events-Keyed c d (inl (inr (inl p))) (inl (inr (inl q))) same = sym p ∙ q
two_events-Keyed c d (inl (inl p)) (inl (inr (inr x))) same = elim x [ ]
two_events-Keyed c d (inl (inl p)) (inr x) same = elim x [ ]
two_events-Keyed c d (inl (inr (inl p))) (inl (inr (inr x))) same = elim x [ ]
two_events-Keyed c d (inl (inr (inl p))) (inr x) same = elim x [ ]
two_events-Keyed c d (inl (inr (inr x))) _ same = elim x [ ]
two_events-Keyed c d (inr x) _ same = elim x [ ]

-- Older events are sent first; the first send fails, the second is received though its answer is
-- lost, and event 1 has used up its attempts.
abbrev failing_sends : World
failing_sends =
    poll 100 (((two_events, []), (idle, [])), ([], refused unavailable ∷ lost unavailable ∷ []))

failing_sends_sent : failing_sends.1.0 ≡ (71, 1 ∷ []) ∷ []
unfolding poll begin get_unprocessed exec oldest_due due by_age insert_by_age publish_and_finish
    publish send_message send_failed move_to_dlq insert_dlq delete_event
    increment_retry_and_set_error finish commit_or_rollback commit
failing_sends_sent = refl

polls-Kept_example :
    let w = polls (100 ∷ 700 ∷ []) (
      ((two_events, []), (idle, answered ∷ answered ∷ lost other ∷ [])),
      ([], refused unavailable ∷ []),
    ) in
    Kept (two_events, []) w.1.0 w.0.0
polls-Kept_example =
    polls-Kept two_events [] [] (100 ∷ 700 ∷ []) (answered ∷ answered ∷ lost other ∷ [])
      (refused unavailable ∷ []) two_events-Keyed ((λ p. absurd cc), ((λ p. absurd cc), tt))

polls-drain_example :
    let w = polls (100 ∷ []) (((two_events, []), (idle, [])), ([], [])) in
    (length (pending w.0.0.0) ≡ 0) × (w.0.0.1 ≡ [])
polls-drain_example =
    polls-drain two_events [] [] 20 (100 ∷ []) (omega arith, (omega arith, tt)) (omega arith, tt)
      (omega arith)

capped : calculate_next_retry 0 9 ≡ 30000
unfolding calculate_next_retry
capped = refl
