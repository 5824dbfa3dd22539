-- ===== src/Outbox/Safety.antt =====
-- `poll` of the relay of order-service loses no event, whichever calls of the database and of the
-- broker fail.
use go_ozon_marketplace.Prelude.{
  ℕ, ◌+◌, ◌≡◌, refl, sym, ◌⊎◌, inl, inr, List, [], ◌∷◌, ◌++◌, ◌==◌, ==_iff, leb, Bool-cases, All,
}
use mathlib.Core.Path.{subst}
use go_ozon_marketplace.Prelude.Effect.{Error, Result, ok, err}
use go_ozon_marketplace.Database.{Fault, answered, refused, lost, next_fault}
use go_ozon_marketplace.Outbox.{
  OutboxEvent, DlqRow, Tables, idle, aborted, open_tx, Repo, begin, commit, rollback,
  get_unprocessed, batch_mark_processed,
}
use go_ozon_marketplace.Outbox.Relay.{
  Message, message, Broker, World, batch_limit, send_with, send_message, send_failed, publish,
  commit_or_rollback, finish, publish_and_finish, poll, polls,
}
use go_ozon_marketplace.Outbox.Contents.{
  In, In-append, In-last, content, content_message, Has, SentAll, SentAll-append, AllIn,
}
use go_ozon_marketplace.Outbox.Delivery.{
  Holds, Answers, After, begin-Holds, commit-Holds, rollback-Holds,
}
use go_ozon_marketplace.Outbox.Kept.{
  Keyed, Kept, IdsSent, batch_mark_processed-Holds, increment_retry_and_set_error-Holds,
  move_to_dlq-Holds, get_unprocessed-After,
}

-- The tables and the broker, in and out of a transaction.
abbrev pub Safe : Tables → World → Type 0
Safe before (repo, (sent, _)) = Holds (Kept before sent) (Kept before sent) repo

module _ (before : Tables) (keyed : Keyed before) where
  Kept-append :
      (sent more : List Message) (t : Tables) → Kept before sent t → Kept before (sent ++ more) t
  Kept-append sent more (rows, dlq) (from, to, s) = (from, to, SentAll-append rows sent more s)

  Holds-append :
      (sent more : List Message) (repo : Repo)
      → Holds (Kept before sent) (Kept before sent) repo
      → Holds (Kept before (sent ++ more)) (Kept before (sent ++ more)) repo
  Holds-append sent more (t, (idle, fs)) (p, q) =
      (Kept-append sent more t p, Kept-append sent more t q)
  Holds-append sent more (t, (aborted, fs)) p = Kept-append sent more t p
  Holds-append sent more (t, (open_tx v, fs)) (p, q) =
      (Kept-append sent more t p, Kept-append sent more v q)

  -- After a send the message is with the broker if the send is answered.
  abbrev Sends : Message → List Message → Result (Unit {0}) × Broker → Type 0
  Sends m sent (r, (sent', fs)) =
      ((sent' ≡ sent) ⊎ (sent' ≡ sent ++ m ∷ []))
      × elim r as (λ _. Type 0) [ ok _ ↦ In m sent' | err _ ↦ Unit ]

  sent_with-Sends :
      (m : Message) (sent : List Message) (fs : List Fault) (x : Fault)
      → Sends m sent (send_with m sent fs x)
  sent_with-Sends m sent fs answered = (inr refl, In-last m sent)
  sent_with-Sends m sent fs (refused e) = (inl refl, tt)
  sent_with-Sends m sent fs (lost e) = (inr refl, tt)

  send_message-Sends :
      (m : Message) (sent : List Message) (fs : List Fault)
      → Sends m sent (send_message m (sent, fs))
  unfolding send_message
  send_message-Sends m sent fs = sent_with-Sends m sent _ (next_fault fs).0

  send_failed-Safe :
      (now : ℕ) (e : OutboxEvent) (error : Error) (repo : Repo) (broker : Broker)
      → Has (content e) before
      → Safe before (repo, broker)
      → Safe before (send_failed now e error repo, broker)
  unfolding send_failed
  send_failed-Safe now e error repo (sent, fs) mine h =
      elim (Bool-cases (leb 5 (e.retry_count + 1))) [
        | inl b ↦ rw b (move_to_dlq-Holds before sent keyed e mine now error repo h)
        | inr b ↦ rw b (increment_retry_and_set_error-Holds before sent e.id error _ repo h)
      ]

  Safe-sent :
      (m : Message) (sent sent' : List Message) (fs fs' : List Fault) (repo : Repo)
      → (sent' ≡ sent) ⊎ (sent' ≡ sent ++ m ∷ [])
      → Safe before (repo, (sent, fs))
      → Safe before (repo, (sent', fs'))
  Safe-sent m sent sent' fs fs' repo (inl same) h =
      subst (λ x. Safe before (repo, (x, fs'))) (sym same) h
  Safe-sent m sent sent' fs fs' repo (inr more) h =
      subst (λ x. Safe before (repo, (x, fs'))) (sym more) (Holds-append sent (m ∷ []) repo h)

  abbrev Grows : List Message → List Message → Type 0
  Grows sent sent' = (m : Message) → In m sent → In m sent'

  sent-Grows :
      (m : Message) (sent sent' : List Message)
      → (sent' ≡ sent) ⊎ (sent' ≡ sent ++ m ∷ [])
      → Grows sent sent'
  sent-Grows m sent sent' (inl same) n h = subst (In n) (sym same) h
  sent-Grows m sent sent' (inr more) n h = subst (In n) (sym more) (In-append n sent (m ∷ []) h)

  -- The events whose ids `publish` returns have been sent.
  abbrev Published : List Message → List ℕ × World → Type 0
  Published sent (ids, (repo, (sent', fs))) =
      Safe before (repo, (sent', fs)) × IdsSent before sent' ids × Grows sent sent'

  abbrev Mine : List OutboxEvent → Type 0
  Mine events = All (λ e. Has (content e) before) events

  Published-more :
      (sent sent' : List Message) (r : List ℕ × World)
      → Grows sent sent'
      → Published sent' r
      → Published sent r
  Published-more sent sent' (ids, (repo, (sent'', fs))) g (h, known, g') =
      (h, known, λ m p. g' m (g m p))

  -- The id of an event that has been sent joins those of later ones.
  Published-id :
      (e : OutboxEvent) (sent : List Message) (r : List ℕ × World)
      → Has (content e) before
      → In (message e) sent
      → Published sent r
      → Published sent (e.id ∷ r.0, r.1)
  Published-id e sent (ids, (repo, (sent', fs))) mine p (h, known, g) = (
    h,
    (λ c has b. elim (Bool-cases (e.id == c.0)) [
      | inl same ↦
          subst (λ x. In (content_message x) sent')
            (keyed (content e) c mine has ((==_iff e.id c.0).0 same)) (g (message e) p)
      | inr differ ↦ known c has (rw differ at b)
    ]),
    g,
  )

  abbrev Continues : ℕ → List OutboxEvent → Type 0
  Continues now events =
      (repo : Repo) (sent : List Message) (fs : List Fault)
      → Safe before (repo, (sent, fs))
      → Published sent (publish now events (repo, (sent, fs)))

  Published-one :
      (now : ℕ) (e : OutboxEvent) (events : List OutboxEvent) (repo : Repo) (sent : List Message)
      (fs : List Fault) (r : Result (Unit {0}) × Broker)
      → Has (content e) before
      → Sends (message e) sent r
      → Safe before (repo, (sent, fs))
      → Continues now events
      → Published sent (elim r.0 [
        | ok _ ↦ (e.id ∷ (publish now events (repo, r.1)).0, (publish now events (repo, r.1)).1)
        | err x ↦ publish now events (send_failed now e x repo, r.1)
      ])
  Published-one now e events repo sent fs (ok _, (sent', fs')) mine (how, p) h rest =
      let later = publish now events (repo, (sent', fs')) in
      Published-more sent sent' (e.id ∷ later.0, later.1) (sent-Grows (message e) sent sent' how)
        (Published-id e sent' later mine p
          (rest repo sent' fs' (Safe-sent (message e) sent sent' fs fs' repo how h)))
  Published-one now e events repo sent fs (err x, (sent', fs')) mine (how, _) h rest =
      let repo₁ = send_failed now e x repo in
      Published-more sent sent' (publish now events (repo₁, (sent', fs')))
        (sent-Grows (message e) sent sent' how)
        (rest repo₁ sent' fs' (
          send_failed-Safe now e x repo (sent', fs') mine
            (Safe-sent (message e) sent sent' fs fs' repo how h)))

  publish-Published : (now : ℕ) (events : List OutboxEvent) → Mine events → Continues now events
  unfolding publish
  publish-Published now [] mine repo sent fs h = (h, (λ c _ b. absurd cc), (λ m p. p))
  publish-Published now (e ∷ events) (mine, others) repo sent fs h =
      Published-one now e events repo sent fs (send_message (message e) (sent, fs)) mine
        (send_message-Sends (message e) sent fs) h (publish-Published now events others)

  module _ (sent : List Message) where
    abbrev Fine : Repo → Type 0
    Fine repo = Holds (Kept before sent) (Kept before sent) repo

    rolled_back :
        (r : Result (Unit {0}) × Repo) (f : Repo → Repo)
        → Fine r.1
        → ((repo : Repo) → Fine repo → Fine (f repo))
        → Fine (elim r.0 [ ok _ ↦ f r.1 | err _ ↦ rollback r.1 ])
    rolled_back (ok _, repo) f h k = k repo h
    rolled_back (err _, repo) f h k = rollback-Holds (Kept before sent) repo h

    commit_or_rollback-Fine : (repo : Repo) → Fine repo → Fine (commit_or_rollback repo)
    unfolding commit_or_rollback
    commit_or_rollback-Fine repo h =
        rolled_back (commit repo) (λ x. x) (commit-Holds (Kept before sent) repo h) (λ _ k. k)

    finish-Fine :
        (now : ℕ) (ids : List ℕ) (repo : Repo)
        → IdsSent before sent ids
        → Fine repo
        → Fine (finish now ids repo)
    unfolding finish
    finish-Fine now [] repo known h = commit_or_rollback-Fine repo h
    finish-Fine now (id ∷ ids) repo known h =
        rolled_back (batch_mark_processed now (id ∷ ids) repo) commit_or_rollback
          (batch_mark_processed-Holds before sent now (id ∷ ids) known repo h)
          commit_or_rollback-Fine

  finished-Safe :
      (now : ℕ) (sent : List Message) (r : List ℕ × World)
      → Published sent r
      → Safe before (finish now r.0 r.1.0, r.1.1)
  finished-Safe now sent (ids, (repo, (sent', fs))) (h, known, _) =
      finish-Fine sent' now ids repo known h

  Kept-Mine :
      (events : List OutboxEvent) (t : Tables) (sent : List Message)
      → Kept before sent t
      → AllIn events t.0
      → Mine events
  Kept-Mine [] t sent k h = tt
  Kept-Mine (e ∷ events) (rows, dlq) sent (from, to, s) (h, hs) =
      (to (content e) (inl h), Kept-Mine events (rows, dlq) sent (from, to, s) hs)

  abbrev Selected : List Message → List OutboxEvent → Tables → Type 0
  Selected sent events t = Kept before sent t × AllIn events t.0

  selected :
      (events : List OutboxEvent) (sent : List Message) (fs : List Fault) (repo : Repo)
      → Answers (Kept before sent) (Selected sent events) repo
      → Mine events × Safe before (repo, (sent, fs))
  selected events sent fs (t, (idle, gs)) (p, (q, all)) = (Kept-Mine events t sent q all, (p, q))
  selected events sent fs (t, (aborted, gs)) p = elim p [ ]
  selected events sent fs (t, (open_tx v, gs)) (p, (q, all)) =
      (Kept-Mine events v sent q all, (p, q))

  published_and_finished :
      (now : ℕ) (events : List OutboxEvent) (repo : Repo) (sent : List Message) (fs : List Fault)
      → Answers (Kept before sent) (Selected sent events) repo
      → Safe before (publish_and_finish now events (repo, (sent, fs)))
  unfolding publish_and_finish
  published_and_finished now events repo sent fs h =
      let (mine, safe) = selected events sent fs repo h in
      finished-Safe now sent (publish now events (repo, (sent, fs)))
        (publish-Published now events mine repo sent fs safe)

  After-select :
      (now : ℕ) (sent : List Message) (fs : List Fault) (r : Result (List OutboxEvent) × Repo)
      → After (Kept before sent) (Selected sent) r
      → Safe before (elim r.0 [
        | err _ ↦ (rollback r.1, (sent, fs))
        | ok es ↦ publish_and_finish now es (r.1, (sent, fs))
      ])
  After-select now sent fs (ok es, repo) h = published_and_finished now es repo sent fs h
  After-select now sent fs (err e, repo) h = rollback-Holds (Kept before sent) repo h

  after_begin :
      (repo : Repo) (broker : Broker) (r : Result (Unit {0})) (w : World)
      → Safe before (repo, broker)
      → Safe before w
      → Safe before (elim r [ err _ ↦ (repo, broker) | ok _ ↦ w ])
  after_begin repo broker (ok _) w h k = k
  after_begin repo broker (err _) w h k = h

  poll-Safe : (now : ℕ) (w : World) → Safe before w → Safe before (poll now w)
  unfolding poll
  poll-Safe now (repo, (sent, fs)) h =
      let begun = begin-Holds (Kept before sent) repo h in
      after_begin (begin repo).1 (sent, fs) (begin repo).0 _ begun
        (After-select now sent fs (get_unprocessed now batch_limit (begin repo).1)
          (get_unprocessed-After before sent now batch_limit (begin repo).1 begun))

polls-Safe :
    (before : Tables)
    → Keyed before
    → (times : List ℕ) (w : World) → Safe before w
    → Safe before (polls times w)
unfolding polls
polls-Safe before keyed [] w h = h
polls-Safe before keyed (now ∷ times) w h =
    polls-Safe before keyed times (poll now w) (poll-Safe before keyed now w h)

committed_tables : (P : Tables → Type 0) (repo : Repo) → Holds P P repo → P repo.0
committed_tables P (t, (idle, fs)) h = h.0
committed_tables P (t, (aborted, fs)) h = h
committed_tables P (t, (open_tx v, fs)) h = h.0

-- Whatever calls of the database and of the broker fail, in however many polls and at whatever
-- times: if an id belongs to one event, and the processed rows of the outbox have been sent, then
-- afterwards the outbox and the dead letter table hold exactly the events that they held before, and
-- every row that is marked processed has been received by the broker.
pub polls-Kept :
    (rows : List OutboxEvent) (dlq : List DlqRow) (sent : List Message) (times : List ℕ)
    (faults send_faults : List Fault)
    → Keyed (rows, dlq)
    → SentAll rows sent
    → let w = polls times (((rows, dlq), (idle, faults)), (sent, send_faults)) in
      Kept (rows, dlq) w.1.0 w.0.0
polls-Kept rows dlq sent times faults send_faults keyed s =
    let w : World = polls times (((rows, dlq), (idle, faults)), (sent, send_faults)) in
    committed_tables (Kept (rows, dlq) w.1.0) w.0 (
      polls-Safe (rows, dlq) keyed times (((rows, dlq), (idle, faults)), (sent, send_faults))
        (((λ _ h. h), (λ _ h. h), s), ((λ _ h. h), (λ _ h. h), s)))
