-- ===== src/Database/Tests.antt =====
-- A transaction of pkg/txmanager/txmanager.go on a table of one number, whose commit is lost.
use go_ozon_marketplace.Prelude.{ℕ, ◌+◌, ◌≡◌, refl, List, [], ◌∷◌}
use go_ozon_marketplace.Prelude.Effect.{other, ok, Action}
use go_ozon_marketplace.Database.{Db, Fault, answered, lost, statement, run_tx}
use go_ozon_marketplace.Database.Laws.{AllOrNothing, statement-OnOk, run_tx-AllOrNothing}

-- Add one, and return the number before.
abbrev increment : Action (Db ℕ) ℕ
increment = statement (λ n. (ok n, n + 1))

abbrev Increments : ℕ → ℕ → Type 0
Increments before after = after ≡ before + 1

abbrev lost_commit : List Fault
lost_commit = answered ∷ answered ∷ lost other ∷ []

run_tx-AllOrNothing_example : AllOrNothing Increments 4 (run_tx increment (4, lost_commit))
run_tx-AllOrNothing_example =
    run_tx-AllOrNothing Increments increment 4 lost_commit
      (λ gs. statement-OnOk Increments (λ n. (ok n, n + 1)) 4 gs refl)
