-- ===== src/Outbox/Delivery.antt =====
-- No event is lost: what the relays of order-service and catalog-service leave of the events of the
-- outbox, whichever calls of the database and of the broker fail.
use go_ozon_marketplace.Prelude.{List}
use go_ozon_marketplace.Prelude.Effect.{Result, ok, err, Action, ◌>>=◌}
use go_ozon_marketplace.Database.{Fault, answered, refused, lost, next_fault}
use go_ozon_marketplace.Outbox.{
  Tables, idle, aborted, open_tx, Repo, begin, begin_with, commit, commit_with, rollback, exec,
  exec_idle, exec_open,
}

-- The committed tables satisfy `P`, and those that the next statement reads satisfy `Q`.
abbrev pub Holds : (Tables → Type 0) → (Tables → Type 0) → Repo → Type 0
Holds P Q (t, (idle, _)) = P t × Q t
Holds P Q (t, (aborted, _)) = P t
Holds P Q (t, (open_tx v, _)) = P t × Q v

-- The same after an answer, which a transaction that has failed does not give.
abbrev pub Answers : (Tables → Type 0) → (Tables → Type 0) → Repo → Type 0
Answers P Q (t, (idle, _)) = P t × Q t
Answers P Q (t, (aborted, _)) = ⊥
Answers P Q (t, (open_tx v, _)) = P t × Q v

pub Answers-Holds : (P Q : Tables → Type 0) (repo : Repo) → Answers P Q repo → Holds P Q repo
Answers-Holds P Q (t, (idle, fs)) h = h
Answers-Holds P Q (t, (aborted, fs)) h = elim h [ ]
Answers-Holds P Q (t, (open_tx v, fs)) h = h

-- What holds after a call that succeeds, and after any call.
abbrev pub After :
    {A : Type 0} → (Tables → Type 0) → (A → Tables → Type 0) → Result A × Repo → Type 0
After P Q (ok a, repo) = Answers P (Q a) repo
After P Q (err _, repo) = Holds P P repo

module _ (P : Tables → Type 0) where
  committed-Holds :
      (t v : Tables) (fs : List Fault) (x : Fault) → P t → P v → Holds P P (commit_with t v fs x).1
  committed-Holds t v fs answered p q = (q, q)
  committed-Holds t v fs (refused e) p q = (p, p)
  committed-Holds t v fs (lost e) p q = (q, q)

  pub commit-Holds : (repo : Repo) → Holds P P repo → Holds P P (commit repo).1
  unfolding commit
  commit-Holds (t, (idle, fs)) h = h
  commit-Holds (t, (aborted, fs)) h = (h, h)
  commit-Holds (t, (open_tx v, fs)) (p, q) = committed-Holds t v _ (next_fault fs).0 p q

  pub rollback-Holds : (repo : Repo) → Holds P P repo → Holds P P (rollback repo)
  unfolding rollback
  rollback-Holds (t, (idle, fs)) h = h
  rollback-Holds (t, (aborted, fs)) h = (h, h)
  rollback-Holds (t, (open_tx v, fs)) (p, q) = (p, p)

  begun-Holds : (t : Tables) (fs : List Fault) (x : Fault) → P t → Holds P P (begin_with t fs x).1
  begun-Holds t fs answered p = (p, p)
  begun-Holds t fs (refused e) p = (p, p)
  begun-Holds t fs (lost e) p = (p, p)

  pub begin-Holds : (repo : Repo) → Holds P P repo → Holds P P (begin repo).1
  unfolding begin
  begin-Holds (t, (idle, fs)) (p, q) = begun-Holds t _ (next_fault fs).0 p
  begin-Holds (t, (aborted, fs)) h = h
  begin-Holds (t, (open_tx v, fs)) h = h

  module _ {A : Type 0} (Q : Tables → Type 0) (R : A → Tables → Type 0) (f : Tables → A × Tables)
      (fits : (t : Tables) → P t → Q t → R (f t).0 (f t).1)
      (sound : (a : A) (t : Tables) → R a t → P t) where
    idle-After :
        (t : Tables) (fs : List Fault) (x : Fault) → P t → Q t → After P R (exec_idle f t fs x)
    idle-After t fs answered p q = (sound _ _ (fits t p q), fits t p q)
    idle-After t fs (refused e) p q = (p, p)
    idle-After t fs (lost e) p q = (sound _ _ (fits t p q), sound _ _ (fits t p q))

    open-After :
        (t v : Tables) (fs : List Fault) (x : Fault)
        → P t
        → P v
        → Q v
        → After P R (exec_open f t v fs x)
    open-After t v fs answered p pv q = (p, fits v pv q)
    open-After t v fs (refused e) p pv q = p
    open-After t v fs (lost e) p pv q = p

    -- A statement that takes tables that satisfy `P` and `Q` to tables that satisfy `R`.
    pub exec-After :
        ((t : Tables) → Q t → P t) → (repo : Repo) → Holds P Q repo → After P R (exec f repo)
    unfolding exec
    exec-After w (t, (idle, fs)) (p, q) = idle-After t _ (next_fault fs).0 p q
    exec-After w (t, (aborted, fs)) h = h
    exec-After w (t, (open_tx v, fs)) (p, q) = open-After t v _ (next_fault fs).0 p (w v q) q

  bound :
      {A B : Type 0} (Q : A → Tables → Type 0) (R : B → Tables → Type 0) (r : Result A × Repo)
      (f : A → Action Repo B)
      → After P Q r
      → ((a : A) (repo : Repo) → Holds P (Q a) repo → After P R (f a repo))
      → After P R (elim r.0 [ ok a ↦ f a r.1 | err e ↦ (err e, r.1) ])
  bound Q R (ok a, repo) f q k = k a repo (Answers-Holds P (Q a) repo q)
  bound Q R (err e, repo) f q k = q

  -- Two calls, one after the other.
  pub bind-After :
      {A B : Type 0} (Q : A → Tables → Type 0) (R : B → Tables → Type 0) (m : Action Repo A)
      (f : A → Action Repo B) (repo : Repo)
      → After P Q (m repo)
      → ((a : A) (repo : Repo) → Holds P (Q a) repo → After P R (f a repo))
      → After P R ((m >>= f) repo)
  bind-After Q R m f repo q k = bound Q R (m repo) f q k

  pub After-any :
      {A : Type 0} (R : A → Tables → Type 0) (r : Result A × Repo)
      → ((a : A) (t : Tables) → R a t → P t)
      → After P R r
      → Holds P P r.1
  After-any R (ok a, (t, (idle, fs))) k (p, q) = (p, p)
  After-any R (ok a, (t, (aborted, fs))) k h = elim h [ ]
  After-any R (ok a, (t, (open_tx v, fs))) k (p, q) = (p, k a v q)
  After-any R (err e, repo) k h = h

  -- A statement that keeps `P`
  pub exec-Holds :
      {A : Type 0} (f : Tables → A × Tables)
      → ((t : Tables) → P t → P (f t).1)
      → (repo : Repo) → Holds P P repo
      → Holds P P (exec f repo).1
  exec-Holds f keeps repo h =
      After-any (λ _ t. P t) (exec f repo) (λ _ _ p. p)
        (exec-After P (λ _ t. P t) f (λ t p _. keeps t p) (λ _ _ p. p) (λ _ p. p) repo h)
