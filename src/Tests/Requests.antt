-- ===== src/Tests/Requests.antt =====
-- Requests to the HTTP API, with and without the key.
use frpay.Prelude.{ℤ, pos, ◌≡◌, refl, arith, true, some, [], ◌∷◌, ◌≤◌}
use frpay.Api.Limiter.{Limiter, Counters}
use frpay.Api.Responses.{Formats, Handlers}
use frpay.Api.Routes.{Router, Request, State, post_order, serve}
use frpay.Api.Rates.{granted, granted_bound}
use frpay.Api.Access.{unauthorized_writes_nothing}
use frpay.Tests.Fixture.{decimals, opened, settings, watcher, manager, draw}

abbrev formats : Formats
formats = record {
  decode = λ body. some (record { user_id = "carol"; base_amount_usd = body; chain = "polygon" });
  parse_uuid = λ s. some 7;
  uuid_text = λ n. "an id";
  time_text = λ t. "a time";
}

abbrev handlers : Handlers ℤ ℤ
handlers = record {
  watcher = watcher;
  manager = manager;
  settings = settings;
  addresses = λ c. "0x00000000000000000000000000000000000000aa";
  formats = formats;
}

abbrev orders_limiter : Limiter
orders_limiter = record { limit = pos 2; window = 60 }

abbrev public_limiter : Limiter
public_limiter = record { limit = pos 3; window = 60 }

abbrev router : Router ℤ ℤ
router = record {
  handlers = handlers;
  api_key = "secret";
  orders_limiter = orders_limiter;
  public_limiter = public_limiter;
}

abbrev no_counts : Counters
no_counts = record { counts = []; is_up = true }

abbrev state : State ℤ
state = record { database = opened; counters = no_counts }

abbrev guess : Request
guess = record { route = post_order "10"; api_key = "guess"; remote_addr = "10.0.0.1" }

unauthorized_writes_nothing_example :
    (serve router draw 120 guess state).1.database ≡ state.database
unauthorized_writes_nothing_example = unauthorized_writes_nothing router draw 120 guess state refl

granted_bound_example :
    granted "10.0.0.1"
      ((public_limiter, 120)
        ∷ (orders_limiter, 130)
        ∷ (public_limiter, 140)
        ∷ (orders_limiter, 150)
        ∷ (public_limiter, 179)
        ∷ [])
      no_counts
    ≤ 3
granted_bound_example =
    granted_bound "10.0.0.1" 3 2
      ((public_limiter, 120)
        ∷ (orders_limiter, 130)
        ∷ (public_limiter, 140)
        ∷ (orders_limiter, 150)
        ∷ (public_limiter, 179)
        ∷ [])
      no_counts refl
      (
        (refl, omega arith),
        (
          (refl, omega arith),
          ((refl, omega arith), ((refl, omega arith), ((refl, omega arith), tt))),
        ),
      )
