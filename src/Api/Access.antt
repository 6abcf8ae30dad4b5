-- ===== src/Api/Access.antt =====
-- Who may change the database over HTTP.
use frpay.Prelude.{
  ℕ, String, ◌≡◌, refl, arith, Bool, true, false, not, ◌&&◌, str_eq, Bool-cases, inl, inr, Option,
  none, some,
}
use frpay.Decimal.{Decimals}
use frpay.Store.{Database}
use frpay.Orders.Repository.{get_order, Draw}
use frpay.Api.Limiter.{Limiter, allow}
use frpay.Api.Responses.{Response, Handlers, handle_get, get_parsed}
use frpay.Api.Routes.{
  Route, Request, Router, State, get_health, get_chains, post_order, with_api_key, with_cors,
  with_rate_limit, on_database, route_to, serve,
}

abbrev pub is_post : Route → Bool
is_post (post_order body) = true
is_post _ = false

-- A request that creates an order, with the service's key.
abbrev pub is_authorized : String → Request → Bool
is_authorized key req = is_post req.route && (not (str_eq req.api_key "") && str_eq req.api_key key)

module _ {D : Type 0} ⦃dec : Decimals D⦄ where
  get_order-same : (id : ℕ) (w : Database D) → (get_order id w).1 ≡ w
  unfolding get_order
  get_order-same id w = ground arith

  with_rate_limit-same :
      (l : Limiter) (seconds : ℕ) (key : String) (next : State D → Response × State D)
      (st : State D)
      → ((s : State D) → (next s).1.database ≡ s.database)
      → (with_rate_limit l seconds key next st).1.database ≡ st.database
  unfolding with_rate_limit
  with_rate_limit-same l seconds key next st same =
      elim (Bool-cases (allow l seconds key st.counters).0) [
        | inl allowed ↦ rw allowed (same _)
        | inr refused ↦ rw refused refl
      ]

  with_api_key-same :
      (expected provided : String) (next : State D → Response × State D) (st : State D)
      → (not (str_eq provided "") && str_eq provided expected) ≡ false
      → (with_api_key expected provided next st).1.database ≡ st.database
  unfolding with_api_key
  with_api_key-same expected provided next st h = ground arith

module _ {D W : Type 0} ⦃dec : Decimals D⦄ where
  pub get_parsed-same :
      (h : Handlers D W) (id : Option ℕ) (w : Database D) → (get_parsed h id w).1 ≡ w
  unfolding get_parsed
  get_parsed-same h none w = refl
  get_parsed-same h (some id) w = get_order-same id w

  route_to-same :
      (router : Router D W) (draws : ℕ → Draw) (seconds : ℕ) (req : Request) (r : Route)
      (st : State D)
      → (is_post r && (not (str_eq req.api_key "") && str_eq req.api_key router.api_key)) ≡ false
      → (route_to router draws seconds req r st).1.database ≡ st.database
  unfolding route_to with_cors on_database handle_get
  route_to-same router draws seconds req get_health st h = refl
  route_to-same router draws seconds req get_chains st h =
      with_rate_limit-same router.public_limiter seconds req.remote_addr _ st (λ s. refl)
  route_to-same router draws seconds req (Route.get_order id) st h =
      with_rate_limit-same router.public_limiter seconds req.remote_addr _ st
        (λ s. get_parsed-same router.handlers _ s.database)
  route_to-same router draws seconds req (post_order body) st h =
      with_api_key-same router.api_key req.api_key _ st h

  -- A request that is not an order creation with the key of the service, whether it reads, is
  -- refused or is over the limit, leaves the database as it is.
  pub unauthorized_writes_nothing :
      (router : Router D W) (draws : ℕ → Draw) (seconds : ℕ) (req : Request) (st : State D)
      → is_authorized router.api_key req ≡ false
      → (serve router draws seconds req st).1.database ≡ st.database
  unfolding serve
  unauthorized_writes_nothing router draws seconds req st h =
      route_to-same router draws seconds req req.route st h
