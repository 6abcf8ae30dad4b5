-- ===== src/Api/Routes.antt =====
-- internal/api/middleware.go and router.go: which middleware stands before which handler.
use frpay.Prelude.{ℕ, String, true, not, ◌||◌, str_eq, if◌then◌else◌}
use frpay.Decimal.{Decimals}
use frpay.Store.{Database}
use frpay.Orders.Repository.{Draw}
use frpay.Api.Limiter.{Limiter, Counters, allow}
use frpay.Api.Responses.{
  Response, Handlers, answer, message, health, list_chains, handle_create, handle_get,
}

pub data Route : Type 0 where
  -- GET /healthz, GET /v1/orders/{orderID}, GET /v1/chains, POST /v1/orders with its body
  get_health get_chains : Route
  get_order post_order : String → Route

-- A request: the header X-API-Key, empty if there is none, and RemoteAddr.
pub record Request : Type 0 where
  pub route : Route
  pub api_key : String
  pub remote_addr : String

pub record Router (D W : Type 0) : Type 0 where
  pub handlers : Handlers D W
  pub api_key : String
  pub orders_limiter : Limiter
  pub public_limiter : Limiter

-- What the handlers write: the database, and the counters, which both limiters share.
pub record State (D : Type 0) : Type 0 where
  pub database : Database D
  pub counters : Counters

module _ {D : Type 0} where
  -- apiKeyMiddleware
  unfoldable pub with_api_key :
      String → String → (State D → Response × State D) → State D → Response × State D
  with_api_key expected provided next st =
      if str_eq provided "" || not (str_eq provided expected)
      then (answer 401 (message "invalid or missing X-API-Key"), st)
      else next st

  -- corsPublicGET
  unfoldable pub with_cors : (State D → Response × State D) → State D → Response × State D
  with_cors next st = let (r, st') = next st in (record r { cors = true }, st')

  -- rateLimitMiddleware at the host's time in seconds
  unfoldable pub with_rate_limit :
      Limiter → ℕ → String → (State D → Response × State D) → State D → Response × State D
  with_rate_limit l seconds key next st =
      let (allowed, c) = allow l seconds key st.counters in
      let st' = record st { counters = c } in
      if allowed then next st' else (answer 429 (message "rate limit exceeded"), st')

  -- A handler of the database alone.
  unfoldable pub on_database : (Database D → Response × Database D) → State D → Response × State D
  on_database handler st = let (r, w) = handler st.database in (r, record st { database = w })

module _ {D W : Type 0} ⦃dec : Decimals D⦄ (router : Router D W) where
  unfoldable pub route_to : (ℕ → Draw) → ℕ → Request → Route → State D → Response × State D
  route_to draws seconds req get_health st = (answer 200 health, st)
  route_to draws seconds req get_chains st =
      with_cors
        (with_rate_limit router.public_limiter seconds req.remote_addr
          (λ s. (list_chains router.handlers, s)))
        st
  route_to draws seconds req (get_order id) st =
      with_cors
        (with_rate_limit router.public_limiter seconds req.remote_addr
          (on_database (handle_get router.handlers id)))
        st
  route_to draws seconds req (post_order body) st =
      with_api_key router.api_key req.api_key
        (with_rate_limit router.orders_limiter seconds req.remote_addr
          (on_database (handle_create router.handlers draws body)))
        st

  -- NewRouter, on one request: with the host's random draws, at its time in seconds.
  unfoldable pub serve : (ℕ → Draw) → ℕ → Request → State D → Response × State D
  serve draws seconds req st = route_to draws seconds req req.route st
