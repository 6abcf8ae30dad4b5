-- ===== src/Chains/Client/Asked.antt =====
-- Which endpoints the clients ask, and what their answers come to.
use frpay.Chains.Ton.Watcher.{JettonTransfer}
use frpay.Chains.Tron.Scan.{EventsResponse}
use Prim.Native.String.{◌++◌}
use text.Mathlib.TextLemmas.{append_assoc}
use frpay.Prelude.{
  ◌∷◌, [], List, ℕ, ℤ, some, Option, String, refl, ap, ◌≡◌, Memᴰ, ℕ, String, ◌≡◌, refl, Bool, true,
  false, some, List, [], ◌∷◌, Memᴰ, any, is_some,
}
use frpay.Chains.Client.{
  tron_get, ton_get, get_attempt, Attempt, Call, got, cancelled, refused, all_failed, call_attempt,
  try_urls, after_attempt, second_attempt, endpoints,
}
use frpay.Chains.Client.Endpoints.{some_answers, is_got, evm_call_answers}
use frpay.Chains.Client.Requests.{
  transfers_query, events_query, new_client, get_tron, get_ton, get_request, Texts, grid_of,
  req_url, center_of, HttpRequest, Web, RestClient, answer_of, key_header, RpcRequest, RpcFormats,
  no_params, post_request, call_body, call_rpc, node_of,
}
use frpay.Config.Load.{TonConfig, TronConfig, EvmConfig}

module _ {B : Type 0} where
  got_answer : (r : Call B) → is_got r ≡ true → is_some (answer_of r) ≡ true
  unfolding answer_of
  got_answer (got b) h = refl
  got_answer cancelled h = cc
  got_answer refused h = cc
  got_answer all_failed h = cc

-- The request for the latest block.
abbrev pub block_request : RpcRequest
block_request = record { jsonrpc = "2.0"; id = 1; method = "eth_blockNumber"; params = no_params }

-- If the request for the latest block can be marshalled and the context does not end in a wait at
-- an endpoint, the EVM watcher's client answers eth_blockNumber whenever some configured endpoint
-- would answer one of its two attempts, whatever the other endpoints do.
pub node_answers :
    (formats : RpcFormats) (web : Web) (cfg : EvmConfig) (body : String)
    → formats.marshal block_request ≡ some body
    → any web.is_cancelled (endpoints cfg.rpc_url cfg.fallback_rpc_urls) ≡ false
    → some_answers
        (λ url n.
          call_attempt formats.envelope formats.decode_text (web.send (post_request body url) n))
        (endpoints cfg.rpc_url cfg.fallback_rpc_urls)
      ≡ true
    → is_some (node_of formats web cfg).block_number ≡ true
unfolding node_of call_rpc call_body
node_answers formats web cfg body e waits h =
    rw (e, call_body)
      (got_answer _ (
        evm_call_answers (endpoints cfg.rpc_url cfg.fallback_rpc_urls)
          (λ url. web.send (post_request body url)) web.is_cancelled formats.envelope
          formats.decode_text waits h))

module _ {B : Type 0} where
  -- The loop over the endpoints looks at no other.
  try_urls_agree :
      (attempt attempt' : String → ℕ → Attempt B) (is_cancelled is_cancelled' : String → Bool)
      (urls : List String)
      → ((url : String) → Memᴰ url urls → (n : ℕ) → attempt url n ≡ attempt' url n)
      → ((url : String) → Memᴰ url urls → is_cancelled url ≡ is_cancelled' url)
      → try_urls attempt is_cancelled urls ≡ try_urls attempt' is_cancelled' urls
  unfolding try_urls
  try_urls_agree attempt attempt' is_cancelled is_cancelled' [] h k = refl
  try_urls_agree attempt attempt' is_cancelled is_cancelled' (url ∷ urls) h k =
      let rest =
        try_urls_agree attempt attempt' is_cancelled is_cancelled' urls (λ u m. h u (Memᴰ.tail m))
          (λ u m. k u (Memᴰ.tail m)) in
      let here : Memᴰ url (url ∷ urls) = Memᴰ.head refl in
      λ i. after_attempt (second_attempt (k url here i) (h url here 1 i) (rest i)) (h url here 0 i)

-- The request goes to one of the endpoints, with the header of the key if one is set.
pub record IsSent (name : String) (c : RestClient) (req : HttpRequest) : Type 0 where
  pub base : String
  pub is_endpoint : Memᴰ base c.base_urls
  pub path : String
  pub to_endpoint : req.url ≡ base ++ path
  pub with_key : req.headers ≡ key_header name c.api_key

-- The two agree on every request that a client with this key's header may send, and on every wait.
pub record Agree (name : String) (c : RestClient) (web web' : Web) : Type 0 where
  pub sends : (req : HttpRequest) → IsSent name c req → (n : ℕ) → web.send req n ≡ web'.send req n
  pub waits : (url : String) → Memᴰ url c.base_urls → web.is_cancelled url ≡ web'.is_cancelled url

req_url-path :
    (texts : Texts) (base path : String) (query : List (String × String))
    → (rest : String) × (req_url texts base path query ≡ base ++ rest)
unfolding req_url
req_url-path texts base path [] = (path, refl)
req_url-path texts base path (q ∷ qs) =
    (path ++ ("?" ++ texts.encode (q ∷ qs)), append_assoc base path _)

get_request-IsSent :
    (name : String) (texts : Texts) (c : RestClient) (path : String)
    (query : List (String × String)) (base : String)
    → Memᴰ base c.base_urls
    → IsSent name c (get_request name texts c path query base)
unfolding get_request
get_request-IsSent name texts c path query base m =
    let (rest, e) = req_url-path texts base path query in
    record { base = base; is_endpoint = m; path = rest; to_endpoint = e; with_key = refl }

module _ {B : Type 0} (name : String) (texts : Texts) (c : RestClient) (web web' : Web)
    (agree : Agree name c web web') where
  -- The loop of a GET looks at no other request.
  gets_agree :
      (path : String) (query : List (String × String)) (decode : String → Option B)
      → try_urls
          (λ base n. get_attempt decode (web.send (get_request name texts c path query base) n))
          web.is_cancelled
          c.base_urls
        ≡ try_urls
            (λ base n. get_attempt decode (web'.send (get_request name texts c path query base) n))
            web'.is_cancelled
            c.base_urls
  gets_agree path query decode =
      try_urls_agree _ _ web.is_cancelled web'.is_cancelled c.base_urls
        (λ base m n. ap (get_attempt decode) (
          agree.sends (get_request name texts c path query base)
            (get_request-IsSent name texts c path query base m) n))
        agree.waits

-- What the TRON watcher's client answers is the same over any two transports that agree on the
-- waits at the configured endpoints and on the requests to them that carry the header of the API
-- key if one is set, and none otherwise: no other request plays a part.
pub grid_asks_endpoints :
    (texts : Texts) (web web' : Web) (decode_block : String → Option ℤ)
    (decode_events : String → Option EventsResponse) (cfg : TronConfig)
    → Agree "TRON-PRO-API-KEY" (new_client cfg.api_url cfg.fallback_api_urls cfg.api_key) web web'
    → grid_of texts web decode_block decode_events cfg
      ≡ grid_of texts web' decode_block decode_events cfg
unfolding grid_of get_tron tron_get
grid_asks_endpoints texts web web' decode_block decode_events cfg agree =
    let c = new_client cfg.api_url cfg.fallback_api_urls cfg.api_key in
    λ i. record {
      now_block = answer_of (
          gets_agree "TRON-PRO-API-KEY" texts c web web' agree "/wallet/getnowblock" [] decode_block
            i);
      contract_events = λ contract min_timestamp fingerprint. answer_of (
          gets_agree "TRON-PRO-API-KEY" texts c web web' agree
            ("/v1/contracts/" ++ (contract ++ "/events"))
            (events_query texts min_timestamp fingerprint) decode_events i);
    }

-- The TON client has the same text but for its header.
pub center_asks_endpoints :
    (texts : Texts) (web web' : Web) (decode : String → Option (List JettonTransfer))
    (cfg : TonConfig)
    → Agree "X-API-Key" (new_client cfg.api_url cfg.fallback_api_urls cfg.api_key) web web'
    → center_of texts web decode cfg ≡ center_of texts web' decode cfg
unfolding center_of get_ton ton_get
center_asks_endpoints texts web web' decode cfg agree =
    let c = new_client cfg.api_url cfg.fallback_api_urls cfg.api_key in
    λ i. record {
      jetton_transfers = λ owner jetton_master start_utime offset. answer_of (
          gets_agree "X-API-Key" texts c web web' agree "/jetton/transfers"
            (transfers_query texts owner jetton_master start_utime offset) decode i);
    }
