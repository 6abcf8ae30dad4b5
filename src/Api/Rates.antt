-- ===== src/Api/Rates.antt =====
-- How many requests of one caller the limiters of internal/ratelimit/redis.go grant.
use frpay.Prelude.{
  subst, ℕ, suc, ℤ, pos, pos_part, leb_ℤ, String, ◌≡◌, refl, arith, eq_iff, ==_iff, true, List, [],
  ◌∷◌, ◌==◌, ◌&&◌, str_eq, All, ◌/◌, ◌+◌, ◌-◌, ◌≤◌, if◌then◌else◌,
}
use frpay.Api.Limiter.{Limiter, Counters, incr, allow}

-- How often the key was counted in the window.
unfoldable pub count : String → ℕ → List ((String × ℕ) × ℕ) → ℕ
count key id [] = 0
count key id (((k, i), n) ∷ cs) =
    let rest = count key id cs in if str_eq k key && i == id then n else rest

incr-value :
    (key : String) (id : ℕ) (cs : List ((String × ℕ) × ℕ))
    → (incr key id cs).1 ≡ suc (count key id cs)
unfolding incr count
incr-value key id [] = refl
incr-value key id (((k, i), n) ∷ cs) = ground (arith, incr-value key id cs)

count-incr :
    (key : String) (id : ℕ) (cs : List ((String × ℕ) × ℕ))
    → count key id (incr key id cs).0 ≡ suc (count key id cs)
unfolding incr count
count-incr key id [] = ground (arith, eq_iff key key, ==_iff id id)
count-incr key id (((k, i), n) ∷ cs) = ground (arith, count-incr key id cs)

-- How many of these requests of one caller are granted, each by the limiter at its time.
unfoldable pub granted : String → List (Limiter × ℕ) → Counters → ℕ
granted key [] c = 0
granted key ((l, seconds) ∷ rs) c =
    let (allowed, c') = allow l seconds key c in (if allowed then 1 else 0) + granted key rs c'

-- The requests fall into one window, and no limiter grants more than `limit`.
abbrev pub InWindow : ℕ → ℕ → Limiter × ℕ → Type 0
InWindow limit id r = (r.1 / r.0.window ≡ id) × (pos_part r.0.limit ≤ limit)

allow_lem :
    (l : Limiter) (seconds id : ℕ) (key : String) (c : Counters)
    → c.is_up ≡ true
    → seconds / l.window ≡ id
    → allow l seconds key c ≡ (
      leb_ℤ (pos (suc (count key id c.counts))) l.limit,
      record c { counts = (incr key id c.counts).0 },
    )
unfolding allow
allow_lem l seconds id key c up here =
    subst
      (λ i. allow l seconds key c ≡ (
        leb_ℤ (pos (suc (count key i c.counts))) l.limit,
        record c { counts = (incr key i c.counts).0 },
      ))
      here (rw (up, incr-value key (seconds / l.window) c.counts) refl)

fits_one_more :
    (allowed : ℤ) (limit k rest : ℕ)
    → pos_part allowed ≤ limit
    → rest ≤ limit - suc k
    → (if leb_ℤ (pos (suc k)) allowed then 1 else 0) + rest ≤ limit - k
fits_one_more allowed limit k rest h e = ground arith

granted_left :
    (key : String) (limit id : ℕ) (rs : List (Limiter × ℕ)) (c : Counters)
    → c.is_up ≡ true
    → All (InWindow limit id) rs
    → granted key rs c ≤ limit - count key id c.counts
unfolding granted
granted_left key limit id [] c up all = omega arith
granted_left key limit id ((l, seconds) ∷ rs) c up ((here, bound), all) =
    let cs = (incr key id c.counts).0 in
    let ih : granted key rs (record c { counts = cs }) ≤ limit - count key id cs =
      granted_left key limit id rs (record c { counts = cs }) up all in
    rw (allow_lem l seconds id key c up here) (
      fits_one_more l.limit limit (count key id c.counts) _ bound
        (rw (count-incr key id c.counts) at ih))

-- While Redis answers, at most `limit` of any requests of one caller in one window are granted,
-- over all the limiters that they meet, if none of these allows more than `limit`.
pub granted_bound :
    (key : String) (limit id : ℕ) (rs : List (Limiter × ℕ)) (c : Counters)
    → c.is_up ≡ true
    → All (InWindow limit id) rs
    → granted key rs c ≤ limit
granted_bound key limit id rs c up all =
    let left = granted_left key limit id rs c up all in omega (arith, left)
