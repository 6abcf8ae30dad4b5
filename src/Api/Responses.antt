-- ===== src/Api/Responses.antt =====
-- internal/api/dto.go, respond.go and handlers.go: requests, responses and the handlers.
use frpay.Prelude.{ℕ, ℤ, pos, String, Bool, false, Option, none, some, List, map}
use frpay.Decimal.{Decimals}
use frpay.Store.{Order, Database, Result, ok, err, status_text}
use frpay.Chains.Watcher.{ChainWatcher}
use frpay.Chains.Manager.{Manager, chains, required_confirmations}
use frpay.Orders.Repository.{Error, not_found, intn_panic, get_order, Draw}
use frpay.Orders.Service.{Settings, create_order}

pub record CreateOrderRequest : Type 0 where
  pub user_id : String
  pub base_amount_usd : String
  pub chain : String

-- orderResponse; a text that is omitted when empty is an option.
pub record OrderResponse : Type 0 where
  pub order_id : String
  pub user_id : String
  pub chain : String
  pub token : String
  pub address : String
  pub qr_string : String
  pub base_amount_usd : String
  pub expected_amount : String
  pub received_amount : Option String
  pub status : String
  pub tx_hash : Option String
  pub confirmations : ℤ
  pub required_confs : ℤ
  pub created_at : String
  pub expires_at : String
  pub confirmed_at : Option String

pub record ChainInfo : Type 0 where
  pub chain : String
  pub address : String
  pub token : String
  pub decimals : ℤ
  pub required_confirmations : ℤ

-- The body: `refused` carries the error whose text the code sends.
pub data Body : Type 0 where
  health : Body
  chain_list : List ChainInfo → Body
  order_body : OrderResponse → Body
  message : String → Body
  refused : Error → Body
  panicked : Body

-- `cors` is the header Access-Control-Allow-Origin.
pub record Response : Type 0 where
  pub status : ℕ
  pub cors : Bool
  pub body : Body

abbrev pub answer : ℕ → Body → Response
answer status body = record { status = status; cors = false; body = body }

-- What encoding/json, uuid and time do to texts.
pub record Formats : Type 0 where
  pub decode : String → Option CreateOrderRequest
  pub parse_uuid : String → Option ℕ
  pub uuid_text : ℕ → String
  pub time_text : ℤ → String

-- Handlers, with what the service and the manager under them hold.
pub record Handlers (D W : Type 0) : Type 0 where
  pub watcher : ChainWatcher D W
  pub manager : Manager W
  pub settings : Settings D
  -- a chain without an address has the empty one
  pub addresses : String → String
  pub formats : Formats

unfoldable pub or_zero : Option ℤ → ℤ
or_zero none = pos 0
or_zero (some n) = n

module _ {D W : Type 0} (h : Handlers D W) where
  unfoldable pub chain_info : String → ChainInfo
  chain_info c = record {
    chain = c;
    address = h.addresses c;
    token = "USDT";
    decimals = pos 6;
    required_confirmations = or_zero (required_confirmations h.watcher c h.manager);
  }

  unfoldable pub list_chains : Response
  list_chains = answer 200 (chain_list (map chain_info (chains h.manager)))

module _ {D W : Type 0} ⦃dec : Decimals D⦄ (h : Handlers D W) where
  abbrev pub shown : {A : Type 0} → (A → String) → Option A → Option String
  shown f none = none
  shown f (some a) = some (f a)

  unfoldable pub to_order_response : Order D → OrderResponse
  to_order_response o = record {
    order_id = h.formats.uuid_text o.id;
    user_id = o.user_id;
    chain = o.chain;
    token = o.token;
    address = h.addresses o.chain;
    qr_string = h.addresses o.chain;
    base_amount_usd = dec.to_text o.base_amount_usd;
    expected_amount = dec.to_text o.expected_amount;
    received_amount = shown dec.to_text o.received_amount;
    status = status_text o.status;
    tx_hash = o.tx_hash;
    confirmations = o.confirmations;
    required_confs = o.required_confirmations;
    created_at = h.formats.time_text o.created_at;
    expires_at = h.formats.time_text o.expires_at;
    confirmed_at = shown h.formats.time_text o.confirmed_at;
  }

  -- A panic is the router's Recoverer's.
  unfoldable pub created : Result Error (Order D) → Response
  created (ok o) = answer 201 (order_body (to_order_response o))
  created (err intn_panic) = answer 500 panicked
  created (err e) = answer 400 (refused e)

  unfoldable pub create_for :
      (ℕ → Draw) → CreateOrderRequest → Option D → Database D → Response × Database D
  create_for draws req none w =
      (answer 400 (message "base_amount_usd must be a valid decimal string"), w)
  create_for draws req (some amount) w =
      let (r, w') =
        create_order h.watcher h.manager h.settings draws req.user_id amount req.chain w in
      (created r, w')

  unfoldable pub create_decoded :
      (ℕ → Draw) → Option CreateOrderRequest → Database D → Response × Database D
  create_decoded draws none w = (answer 400 (message "invalid request body"), w)
  create_decoded draws (some req) w = create_for draws req (dec.parse req.base_amount_usd) w

  unfoldable pub handle_create : (ℕ → Draw) → String → Database D → Response × Database D
  handle_create draws body w = create_decoded draws (h.formats.decode body) w

  unfoldable pub found : Result Error (Order D) → Response
  found (ok o) = answer 200 (order_body (to_order_response o))
  found (err not_found) = answer 404 (message "order not found")
  found (err e) = answer 500 (message "internal error")

  unfoldable pub get_parsed : Option ℕ → Database D → Response × Database D
  get_parsed none w = (answer 400 (message "invalid order_id"), w)
  get_parsed (some id) w = let (r, w') = get_order id w in (found r, w')

  unfoldable pub handle_get : String → Database D → Response × Database D
  handle_get id w = get_parsed (h.formats.parse_uuid id) w
