-- ===== src/Analytics/Tests.antt =====
-- Runs of the batcher with one caller and with two.
use go_ozon_marketplace.Prelude.{ℕ, ◌≡◌, refl, Bool, true, false, List, [], ◌∷◌, ◌==◌}
use go_ozon_marketplace.Prelude.Effect.{unavailable, ok, err, Action}
use go_ozon_marketplace.Analytics.{take_events, restore_events, flush}

-- A repository that fails for the first time.
abbrev fails_once : List ℕ → Action (Bool × List ℕ) (Unit {0})
fails_once es (true, rows) = (err unavailable, (false, rows))
fails_once es (false, rows) = (ok tt, (false, es))

flushed_again : (flush fails_once (flush fails_once (1 ∷ 2 ∷ [], (true, []))).1).1.1.1 ≡ 1 ∷ 2 ∷ []
unfolding flush take_events restore_events
flushed_again = refl

abbrev is_two : ℕ → Bool
is_two n = n == 2
