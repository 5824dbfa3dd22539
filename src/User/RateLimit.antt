-- ===== src/User/RateLimit.antt =====
-- MemoryRateLimiter: services/user-service/internal/ratelimit/ratelimit.go. The mutex makes each call
-- one step. A time is a number of nanoseconds, and a key is a number.
pub mod Window
mod Tests
use go_ozon_marketplace.Prelude.{
  ℕ, ◌+◌, Bool, true, false, List, [], ◌∷◌, ◌++◌, length, ◌==◌, ltb, leb, if◌then◌else◌,
}

pub record MemoryRateLimiter : Type 0 where
  pub limit : ℕ
  pub window : ℕ
  pub hits : ℕ → List ℕ

-- A minute
abbrev pub default_window : ℕ
default_window = 60000000000

-- NewMemoryRateLimiter; a negative limit or window is taken as 0 is.
unfoldable pub new_limiter : ℕ → ℕ → MemoryRateLimiter
new_limiter limit window = record {
  limit = if limit == 0 then 10 else limit;
  window = if window == 0 then default_window else window;
  hits = λ _. [];
}

-- The loop over the hits: those after `now - window`.
abbrev pub recent : ℕ → ℕ → List ℕ → List ℕ
recent window now [] = []
recent window now (t ∷ ts) =
    if ltb now (t + window) then t ∷ recent window now ts else recent window now ts

abbrev pub set_hits : ℕ → List ℕ → MemoryRateLimiter → MemoryRateLimiter
set_hits key ts r = record r { hits = λ k. if k == key then ts else r.hits k }

-- Allow
unfoldable pub allow : ℕ → ℕ → MemoryRateLimiter → Bool × MemoryRateLimiter
allow now key r =
    let ts = recent r.window now (r.hits key) in
    if leb r.limit (length ts)
    then (false, set_hits key ts r)
    else (true, set_hits key (ts ++ now ∷ []) r)
