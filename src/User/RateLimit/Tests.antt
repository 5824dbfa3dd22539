-- ===== src/User/RateLimit/Tests.antt =====
-- The limiter of services/user-service/internal/ratelimit/ratelimit.go on a run of calls.
use go_ozon_marketplace.Prelude.{ℕ, ◌≤◌, ◌≡◌, refl, List, [], ◌∷◌, arith}
use go_ozon_marketplace.User.RateLimit.{allow, new_limiter}
use go_ozon_marketplace.User.RateLimit.Window.{count_within, run_allow, run_allow-limit}

-- Two calls in ten nanoseconds; the third call of the key 1 is refused, the fourth is not.
abbrev burst : List (ℕ × ℕ)
burst = (1, 1) ∷ (2, 1) ∷ (3, 1) ∷ (3, 2) ∷ (11, 1) ∷ []

burst-granted : (run_allow burst (new_limiter 2 10, λ _. [])).1 1 ≡ 1 ∷ 2 ∷ 11 ∷ []
unfolding allow new_limiter
burst-granted = refl

run_allow-limit_example : count_within 10 11 ((run_allow burst (new_limiter 2 10, λ _. [])).1 1) ≤ 2
run_allow-limit_example =
    run_allow-limit 2 10 burst 11 1
      (omega arith, (omega arith, (omega arith, (omega arith, (omega arith, omega arith)))))
