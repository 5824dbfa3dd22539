-- ===== src/User/RateLimit/Window.antt =====
-- The sliding window of services/user-service/internal/ratelimit/ratelimit.go: how many calls of a
-- key are allowed within it.
use go_ozon_marketplace.Prelude.{
  ℕ, suc, ◌+◌, ◌≤◌, ◌<◌, ◌≡◌, refl, sym, ap, ◌∙◌, inl, inr, Bool, true, false, List, [], ◌∷◌, ◌++◌,
  length, length-append, ◌==◌, ltb, leb, if◌then◌else◌, arith, Bool-cases, ==_iff,
}
use go_ozon_marketplace.User.RateLimit.{MemoryRateLimiter, recent, set_hits, allow, new_limiter}

recent-append :
    (w now : ℕ) (ts us : List ℕ) → recent w now (ts ++ us) ≡ recent w now ts ++ recent w now us
recent-append w now [] us = refl
recent-append w now (t ∷ ts) us = elim (Bool-cases (ltb now (t + w))) [
  | inl fresh ↦ rw fresh (ap (λ l. t ∷ l) (recent-append w now ts us))
  | inr old ↦ rw old (recent-append w now ts us)
]

-- What is recent later is recent now.
recent-recent :
    (w now later : ℕ) (ts : List ℕ)
    → now ≤ later
    → recent w later (recent w now ts) ≡ recent w later ts
recent-recent w now later [] h = refl
recent-recent w now later (t ∷ ts) h = elim (Bool-cases (ltb now (t + w))) [
  | inl fresh ↦ elim (Bool-cases (ltb later (t + w))) [
    | inl still ↦ rw (fresh, still) (ap (λ l. t ∷ l) (recent-recent w now later ts h))
    | inr past ↦ rw (fresh, past) (recent-recent w now later ts h)
  ]
  | inr old ↦
      let past : ltb later (t + w) ≡ false = ground (arith, old, h) in
      rw (old, past) (recent-recent w now later ts h)
]

length-recent : (w now : ℕ) (ts : List ℕ) → length (recent w now ts) ≤ length ts
length-recent w now [] = omega arith
length-recent w now (t ∷ ts) = elim (Bool-cases (ltb now (t + w))) [
  | inl fresh ↦ rw fresh (omega (arith, length-recent w now ts))
  | inr old ↦ rw old (omega (arith, length-recent w now ts))
]

-- The times at which the calls of each key were allowed, oldest first.
abbrev pub History : Type 0
History = ℕ → List ℕ

abbrev pub record_call : ℕ → ℕ → Bool → History → History
record_call now key false g = g
record_call now key true g = λ k. if k == key then g k ++ now ∷ [] else g k

-- The calls, each a time and a key, and the history of those that are allowed.
abbrev pub run_allow : List (ℕ × ℕ) → MemoryRateLimiter × History → MemoryRateLimiter × History
run_allow [] (r, g) = (r, g)
run_allow ((now, key) ∷ cs) (r, g) =
    run_allow cs ((allow now key r).1, record_call now key (allow now key r).0 g)

-- The calls come in the order of their times, from a time on, up to a time.
abbrev pub IsOrdered : ℕ → List (ℕ × ℕ) → ℕ → Type 0
IsOrdered from [] end = from ≤ end
IsOrdered from ((now, key) ∷ cs) end = (from ≤ now) × IsOrdered now cs end

-- The hits kept are as many as the limit at most, and include every allowed call of the window, now
-- and later.
abbrev IsKept : ℕ → MemoryRateLimiter → History → Type 0
IsKept from r g =
    (k : ℕ)
    → (length (r.hits k) ≤ r.limit)
      × ((later : ℕ)
          → from ≤ later
          → recent r.window later (g k) ≡ recent r.window later (r.hits k))

IsKept-later :
    (from now : ℕ) (r : MemoryRateLimiter) (g : History)
    → from ≤ now
    → IsKept from r g
    → IsKept now r g
IsKept-later from now r g h i k = ((i k).0, λ later l. (i k).1 later (omega (arith, h, l)))

refused-IsKept :
    (now key : ℕ) (r : MemoryRateLimiter) (g : History)
    → IsKept now r g
    → IsKept now (set_hits key (recent r.window now (r.hits key)) r) g
refused-IsKept now key r g i k = elim (Bool-cases (k == key)) [
  | inr other ↦ rw other (i k)
  | inl same ↦
      let e : k ≡ key = (==_iff k key).0 same in
      rw (same, e)
        (
          omega (arith, (i key).0, length-recent r.window now (r.hits key)),
          λ later l. (i key).1 later l ∙ sym (recent-recent r.window now later (r.hits key) l),
        )
]

allowed-IsKept :
    (now key : ℕ) (r : MemoryRateLimiter) (g : History)
    → length (recent r.window now (r.hits key)) < r.limit
    → IsKept now r g
    → IsKept now
        (set_hits key (recent r.window now (r.hits key) ++ now ∷ []) r)
        (record_call now key true g)
allowed-IsKept now key r g room i k = elim (Bool-cases (k == key)) [
  | inr other ↦ rw other (i k)
  | inl same ↦
      let e : k ≡ key = (==_iff k key).0 same in
      let ts = recent r.window now (r.hits key) in
      rw (same, e)
        (
          omega (arith, room, length-append ts (now ∷ [])),
          λ later l.
              recent-append r.window later (g key) (now ∷ [])
              ∙ ap (λ x. x ++ recent r.window later (now ∷ []))
                  ((i key).1 later l ∙ sym (recent-recent r.window now later (r.hits key) l))
              ∙ sym (recent-append r.window later ts (now ∷ [])),
        )
]

allow-IsKept :
    (now key : ℕ) (r : MemoryRateLimiter) (g : History)
    → IsKept now r g
    → IsKept now (allow now key r).1 (record_call now key (allow now key r).0 g)
unfolding allow
allow-IsKept now key r g i =
    elim (Bool-cases (leb r.limit (length (recent r.window now (r.hits key))))) [
      | inl full ↦ rw full (refused-IsKept now key r g i)
      | inr room ↦ rw room (allowed-IsKept now key r g (ground (arith, room)) i)
    ]

allow-same :
    (now key : ℕ) (r : MemoryRateLimiter)
    → ((allow now key r).1.limit ≡ r.limit) × ((allow now key r).1.window ≡ r.window)
unfolding allow
allow-same now key r = elim (Bool-cases (leb r.limit (length (recent r.window now (r.hits key))))) [
  | inl full ↦ rw full (refl, refl)
  | inr room ↦ rw room (refl, refl)
]

run_allow-bound :
    (cs : List (ℕ × ℕ)) (from end k : ℕ) (r : MemoryRateLimiter) (g : History)
    → IsOrdered from cs end
    → IsKept from r g
    → length (recent r.window end ((run_allow cs (r, g)).1 k)) ≤ r.limit
run_allow-bound [] from end k r g o i =
    rw ((i k).1 end o) (omega (arith, (i k).0, length-recent r.window end (r.hits k)))
run_allow-bound ((now, key) ∷ cs) from end k r g o i =
    let r' = (allow now key r).1 in
    let g' = record_call now key (allow now key r).0 g in
    let bound =
      run_allow-bound cs now end k r' g' o.1
        (allow-IsKept now key r g (IsKept-later from now r g o.0 i)) in
    let (same_limit, same_window) = allow-same now key r in rw (same_limit, same_window) at bound

-- How many of the times lie less than `w` before `end`.
abbrev pub count_within : ℕ → ℕ → List ℕ → ℕ
count_within w end [] = 0
count_within w end (t ∷ ts) =
    let rest = count_within w end ts in if ltb end (t + w) then suc rest else rest

length-recent-count : (w end : ℕ) (ts : List ℕ) → length (recent w end ts) ≡ count_within w end ts
length-recent-count w end [] = refl
length-recent-count w end (t ∷ ts) = elim (Bool-cases (ltb end (t + w))) [
  | inl fresh ↦ rw fresh (ap (λ n. suc n) (length-recent-count w end ts))
  | inr old ↦ rw old (length-recent-count w end ts)
]

-- The limiter holds its limit: of the calls of a key, made in the order of their times on a new
-- limiter, at most `limit` of those that were allowed are less than `window` older than any time from
-- the last call on. A limit or a window of 0 stands for 10 calls or a minute.
pub run_allow-limit :
    (limit window : ℕ) (cs : List (ℕ × ℕ)) (end k : ℕ)
    → IsOrdered 0 cs end
    → count_within
        (if window == 0 then 60000000000 else window)
        end
        ((run_allow cs (new_limiter limit window, λ _. [])).1 k)
      ≤ (if limit == 0 then 10 else limit)
unfolding new_limiter
run_allow-limit limit window cs end k o =
    let r = new_limiter limit window in
    let bound = run_allow-bound cs 0 end k r (λ _. []) o (λ x. (omega arith, λ later l. refl)) in
    rw (length-recent-count r.window end ((run_allow cs (r, λ _. [])).1 k)) at bound
