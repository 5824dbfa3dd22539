-- ===== src/Database.antt =====
-- Calls of a database that may fail, and transactions: pkg/txmanager/txmanager.go over the tables `T`
-- of a service. Which call fails is a schedule that the state carries.
pub mod Laws
mod Tests
use go_ozon_marketplace.Prelude.{List, [], ◌∷◌, Option, none, some}
use go_ozon_marketplace.Prelude.Effect.{Error, not_found, Result, ok, err, Action}

-- What becomes of a call: it is answered; it is refused; or it takes effect, and its answer is lost.
pub data Fault : Type 0 where
  answered : Fault
  refused lost : Error → Fault

-- The tables, and the faults of the calls to come; past the end of the list every call is answered.
abbrev pub Db : Type 0 → Type 0
Db T = T × List Fault

abbrev pub next_fault : List Fault → Fault × List Fault
next_fault [] = (answered, [])
next_fault (f ∷ fs) = (f, fs)

module _ {T A : Type 0} where
  abbrev answer_with : (T → Result A × T) → T → List Fault → Fault → Result A × Db T
  answer_with f t fs answered = ((f t).0, ((f t).1, fs))
  answer_with f t fs (refused e) = (err e, (t, fs))
  answer_with f t fs (lost e) = (err e, ((f t).1, fs))

  -- One SQL statement, as a function of the tables.
  unfoldable pub statement : (T → Result A × T) → Action (Db T) A
  statement f (t, fs) = answer_with f t (next_fault fs).1 (next_fault fs).0

  abbrev commit_with : A → T → T → List Fault → Fault → Result A × Db T
  commit_with a before t fs answered = (ok a, (t, fs))
  commit_with a before t fs (refused e) = (err e, (before, fs))
  commit_with a before t fs (lost e) = (err e, (t, fs))

  -- The end of the transaction: a rollback after an error, else the commit.
  abbrev end_tx : T → Result A × Db T → Result A × Db T
  end_tx before (err e, (t, fs)) = (err e, (before, fs))
  end_tx before (ok a, (t, fs)) = commit_with a before t (next_fault fs).1 (next_fault fs).0

  abbrev begin_with : Action (Db T) A → T → List Fault → Fault → Result A × Db T
  begin_with body t fs answered = end_tx t (body (t, fs))
  begin_with body t fs (refused e) = (err e, (t, fs))
  begin_with body t fs (lost e) = (err e, (t, fs))

  -- `Manager.Run`
  unfoldable pub run_tx : Action (Db T) A → Action (Db T) A
  run_tx body (t, fs) = begin_with body t (next_fault fs).1 (next_fault fs).0

-- `pgx.ErrNoRows` of a SELECT of one row, as the repositories report it.
abbrev pub row_or_not_found : {A : Type 0} → Option A → Result A
row_or_not_found none = err not_found
row_or_not_found (some a) = ok a
