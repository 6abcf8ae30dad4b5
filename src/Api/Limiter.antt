-- ===== src/Api/Limiter.antt =====
-- internal/ratelimit/redis.go: requests of a caller are counted per window of time.
use frpay.Prelude.{
  ℕ, suc, ℤ, pos, leb_ℤ, String, Bool, true, List, [], ◌∷◌, ◌==◌, ◌&&◌, str_eq, ◌/◌, if◌then◌else◌,
}

-- The counters of Redis, by the two parts that `redisKey` joins: the caller's key and the number of
-- the window; and whether Redis answers. A counter that has expired is of a window that is over, so
-- no later request reads it.
pub record Counters : Type 0 where
  pub counts : List ((String × ℕ) × ℕ)
  pub is_up : Bool

-- Limiter: `window` is in whole seconds, at least one.
pub record Limiter : Type 0 where
  pub limit : ℤ
  pub window : ℕ

-- Incr: the counters after it, and the new value.
unfoldable pub incr : String → ℕ → List ((String × ℕ) × ℕ) → List ((String × ℕ) × ℕ) × ℕ
incr key id [] = (((key, id), 1) ∷ [], 1)
incr key id (((k, i), n) ∷ cs) =
    let (rest, m) = incr key id cs in
    if str_eq k key && i == id then (((k, i), suc n) ∷ cs, suc n) else (((k, i), n) ∷ rest, m)

-- Allow at the host's time in seconds.
unfoldable pub allow : Limiter → ℕ → String → Counters → Bool × Counters
allow l seconds key c =
    let (cs, n) = incr key (seconds / l.window) c.counts in
    if c.is_up then (leb_ℤ (pos n) l.limit, record c { counts = cs }) else (true, c)
