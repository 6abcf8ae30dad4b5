-- ===== src/Chains/Client.antt =====
-- internal/chains/evm/client.go, tron/client.go and ton/client.go: a request is sent to the endpoints in
-- their order, twice to each, until one answers.
pub mod Endpoints
pub mod Requests
pub mod Asked
use frpay.Prelude.{
  ℕ, String, Bool, true, false, ◌||◌, Option, none, some, List, [], ◌∷◌, ◌==◌, leb, if◌then◌else◌,
}

-- What one attempt comes to: `answered` with a body that decodes, an error after which the loop goes
-- on, or one with which it returns.
pub data Attempt (B : Type 0) : Type 0 where
  answered : B → Attempt B
  retried rejected : Attempt B

-- How the call ends: `cancelled` is the context's end during a wait before an attempt, `refused` a
-- `rejected` attempt, `all_failed` the end of the loop.
pub data Call (B : Type 0) : Type 0 where
  got : B → Call B
  cancelled refused all_failed : Call B

-- resp, once its body is read; an error of the request or of reading it is none below.
pub record HttpResponse : Type 0 where
  pub status : ℕ
  pub body : String

unfoldable pub is_busy : ℕ → Bool
is_busy status = status == 429 || leb 500 status

module _ {B : Type 0} where
  abbrev pub decoded : Option B → Attempt B
  decoded none = retried
  decoded (some b) = answered b

  -- One attempt of the clients of TRON and TON, which share their text.
  unfoldable pub get_attempt : (String → Option B) → Option HttpResponse → Attempt B
  get_attempt decode none = retried
  get_attempt decode (some r) =
      if is_busy r.status
      then retried
      else if r.status == 200
      then decoded (decode r.body)
      else rejected

  -- A response of JSON-RPC: the body of one that decodes, and whether it holds an error.
  abbrev pub rpc_decoded : (String → Option B) → Option (Bool × String) → Attempt B
  rpc_decoded decode none = retried
  rpc_decoded decode (some (is_error, result)) =
      if is_error then retried else decoded (decode result)

  -- One attempt of the client of the EVM chains: any other status may hold an answer.
  unfoldable pub call_attempt :
      (String → Option (Bool × String)) → (String → Option B) → Option HttpResponse → Attempt B
  call_attempt envelope decode none = retried
  call_attempt envelope decode (some r) =
      if is_busy r.status then retried else rpc_decoded decode (envelope r.body)

  -- What the loop does after an attempt.
  unfoldable pub after_attempt : Call B → Attempt B → Call B
  after_attempt again (answered b) = got b
  after_attempt again retried = again
  after_attempt again rejected = refused

  -- The second attempt comes after a wait.
  unfoldable pub second_attempt : Bool → Attempt B → Call B → Call B
  unfolding after_attempt
  second_attempt true a next = cancelled
  second_attempt false a next = after_attempt next a

  -- The loop over the endpoints, with two attempts each.
  unfoldable pub try_urls : (String → ℕ → Attempt B) → (String → Bool) → List String → Call B
  unfolding after_attempt second_attempt
  try_urls attempt is_cancelled [] = all_failed
  try_urls attempt is_cancelled (url ∷ urls) =
      let next = try_urls attempt is_cancelled urls in
      after_attempt (second_attempt (is_cancelled url) (attempt url 1) next) (attempt url 0)

  -- get of the client of TRON: the endpoints' attempts by number, and the contexts that end in a wait.
  unfoldable pub tron_get :
      List String
      → (String → ℕ → Option HttpResponse)
      → (String → Bool)
      → (String → Option B)
      → Call B
  tron_get urls respond is_cancelled decode =
      try_urls (λ url n. get_attempt decode (respond url n)) is_cancelled urls

  -- get of the client of TON
  unfoldable pub ton_get :
      List String
      → (String → ℕ → Option HttpResponse)
      → (String → Bool)
      → (String → Option B)
      → Call B
  ton_get urls respond is_cancelled decode =
      try_urls (λ url n. get_attempt decode (respond url n)) is_cancelled urls

  -- call of the client of the EVM chains
  unfoldable pub evm_call :
      List String
      → (String → ℕ → Option HttpResponse)
      → (String → Bool)
      → (String → Option (Bool × String))
      → (String → Option B)
      → Call B
  evm_call urls respond is_cancelled envelope decode =
      try_urls (λ url n. call_attempt envelope decode (respond url n)) is_cancelled urls

-- newClient: the primary endpoint first, then the fallbacks.
unfoldable pub endpoints : String → List String → List String
endpoints primary fallbacks = primary ∷ fallbacks
