-- ===== src/Chains/Client/Requests.antt =====
-- internal/chains/evm/client.go, tron/client.go and ton/client.go: the requests that a call sends, and the
-- calls of the three watchers.
use Prim.Native.String.{◌++◌}
use frpay.Prelude.{
  ℕ, ℤ, pos, String, str_eq, Bool, Option, none, some, List, [], ◌∷◌, if◌then◌else◌,
}
use frpay.Chains.Client.{
  Call, got, cancelled, refused, all_failed, HttpResponse, endpoints, tron_get, ton_get, evm_call,
}
use frpay.Chains.Evm.Types.{RpcLog}
use frpay.Chains.Evm.Watcher.{Node}
use frpay.Chains.Tron.Scan.{Grid, EventsResponse}
use frpay.Chains.Ton.Scan.{Center}
use frpay.Chains.Ton.Watcher.{JettonTransfer}
use frpay.Config.Load.{TronConfig, TonConfig, EvmConfig}

-- The part of a request that the clients set; a GET has no body.
pub record HttpRequest : Type 0 where
  pub method : String
  pub url : String
  pub headers : List (String × String)
  pub body : String

-- What net/http, and the context of the call, do: the response of a request at its n-th attempt, and
-- whether the context ends in the wait before the second attempt at an endpoint.
pub record Web : Type 0 where
  pub send : HttpRequest → ℕ → Option HttpResponse
  pub is_cancelled : String → Bool

-- Encode of net/url and FormatInt of strconv.
pub record Texts : Type 0 where
  pub encode : List (String × String) → String
  pub format_int : ℤ → String

-- client of the TRON and of the TON watcher
pub record RestClient : Type 0 where
  pub base_urls : List String
  pub api_key : String

-- newClient
unfoldable pub new_client : String → List String → String → RestClient
new_client primary fallbacks api_key = record {
  base_urls = endpoints primary fallbacks;
  api_key = api_key;
}

-- The body of a call that returned nil.
unfoldable pub answer_of : {B : Type 0} → Call B → Option B
answer_of (got b) = some b
answer_of cancelled = none
answer_of refused = none
answer_of all_failed = none

-- reqURL
unfoldable pub req_url : Texts → String → String → List (String × String) → String
req_url texts base path [] = base ++ path
req_url texts base path (q ∷ qs) = (base ++ path) ++ ("?" ++ texts.encode (q ∷ qs))

-- The header of the key, if one is set.
unfoldable pub key_header : String → String → List (String × String)
key_header name api_key = if str_eq api_key "" then [] else (name, api_key) ∷ []

-- The GET of a path at an endpoint, with the header `name` for the key.
unfoldable pub get_request :
    String → Texts → RestClient → String → List (String × String) → String → HttpRequest
unfolding req_url key_header
get_request name texts c path query base = record {
  method = "GET";
  url = req_url texts base path query;
  headers = key_header name c.api_key;
  body = "";
}

module _ {B : Type 0} (texts : Texts) (web : Web) (c : RestClient) where
  -- get of the TRON client
  unfoldable pub get_tron : String → List (String × String) → (String → Option B) → Option B
  get_tron path query decode = answer_of (
      tron_get c.base_urls
        (λ base. web.send (get_request "TRON-PRO-API-KEY" texts c path query base)) web.is_cancelled
        decode)

  -- get of the TON client
  unfoldable pub get_ton : String → List (String × String) → (String → Option B) → Option B
  get_ton path query decode = answer_of (
      ton_get c.base_urls (λ base. web.send (get_request "X-API-Key" texts c path query base))
        web.is_cancelled decode)

-- The query of a page of events; `fingerprint` is empty for the first.
unfoldable pub events_query : Texts → ℤ → String → List (String × String)
events_query texts min_timestamp fingerprint =
    ("event_name", "Transfer")
    ∷ ("only_confirmed", "true")
    ∷ ("order_by", "block_timestamp,asc")
    ∷ ("min_block_timestamp", texts.format_int min_timestamp)
    ∷ ("limit", texts.format_int (pos 200))
    ∷ (if str_eq fingerprint "" then [] else ("fingerprint", fingerprint) ∷ [])

-- The calls of a TRON watcher; the decoders are json.Unmarshal into the two responses.
unfoldable pub grid_of :
    Texts → Web → (String → Option ℤ) → (String → Option EventsResponse) → TronConfig → Grid
unfolding get_tron events_query
grid_of texts web decode_block decode_events cfg =
    let c = new_client cfg.api_url cfg.fallback_api_urls cfg.api_key in
    record {
      now_block = get_tron texts web c "/wallet/getnowblock" [] decode_block;
      contract_events = λ contract min_timestamp fingerprint.
          get_tron texts web c ("/v1/contracts/" ++ (contract ++ "/events"))
            (events_query texts min_timestamp fingerprint) decode_events;
    }

unfoldable pub transfers_query : Texts → String → String → ℤ → ℕ → List (String × String)
transfers_query texts owner jetton_master start_utime offset =
    ("owner_address", owner)
    ∷ ("jetton_master", jetton_master)
    ∷ ("direction", "in")
    ∷ ("start_utime", texts.format_int start_utime)
    ∷ ("limit", texts.format_int (pos 100))
    ∷ ("offset", texts.format_int (pos offset))
    ∷ ("sort", "asc")
    ∷ []

-- The call of a TON watcher.
unfoldable pub center_of :
    Texts → Web → (String → Option (List JettonTransfer)) → TonConfig → Center
unfolding get_ton transfers_query
center_of texts web decode cfg =
    let c = new_client cfg.api_url cfg.fallback_api_urls cfg.api_key in
    record {
      jetton_transfers = λ owner jetton_master start_utime offset.
          get_ton texts web c "/jetton/transfers"
            (transfers_query texts owner jetton_master start_utime offset) decode;
    }

-- The params of the two methods that are called.
pub data Params : Type 0 where
  no_params : Params
  -- fromBlock, toBlock, address and topics, where none is null
  log_filter : String → String → String → List (Option String) → Params

pub record RpcRequest : Type 0 where
  pub jsonrpc : String
  pub id : ℕ
  pub method : String
  pub params : Params

-- encoding/json on requests and on responses.
pub record RpcFormats : Type 0 where
  pub marshal : RpcRequest → Option String
  -- whether a response holds an error, and its result
  pub envelope : String → Option (Bool × String)
  pub decode_text : String → Option String
  pub decode_logs : String → Option (List RpcLog)

-- The POST of a body to an endpoint.
unfoldable pub post_request : String → String → HttpRequest
post_request body url = record {
  method = "POST";
  url = url;
  headers = ("Content-Type", "application/json") ∷ [];
  body = body;
}

module _ {B : Type 0} (formats : RpcFormats) (web : Web) (urls : List String) where
  unfoldable pub call_body : (String → Option B) → Option String → Option B
  unfolding post_request
  call_body decode none = none
  call_body decode (some body) = answer_of (
      evm_call urls (λ url. web.send (post_request body url)) web.is_cancelled formats.envelope
        decode)

  -- call of the EVM client
  unfoldable pub call_rpc : String → Params → (String → Option B) → Option B
  unfolding call_body
  call_rpc method params decode =
      call_body decode
        (formats.marshal (record { jsonrpc = "2.0"; id = 1; method = method; params = params }))

-- transferTopic
abbrev pub transfer_topic : String
transfer_topic = "0xddf252ad1be2c89b69c2b068fc378daa952ba7f163c4a11628f55a4df523b3ef"

-- The calls of an EVM watcher.
unfoldable pub node_of : RpcFormats → Web → EvmConfig → Node
unfolding call_rpc
node_of formats web cfg =
    let urls = endpoints cfg.rpc_url cfg.fallback_rpc_urls in
    record {
      block_number = call_rpc formats web urls "eth_blockNumber" no_params formats.decode_text;
      get_logs = λ from to contract topic.
          call_rpc formats web urls "eth_getLogs"
            (log_filter from to contract (some transfer_topic ∷ none ∷ some topic ∷ []))
            formats.decode_logs;
    }
