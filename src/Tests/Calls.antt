-- ===== src/Tests/Calls.antt =====
-- Calls of the clients on two endpoints, of which the first is overloaded.
use frpay.Chains.Client.Requests.{
  post_request, Web, Texts, RpcFormats, new_client, grid_of, node_of, key_header,
}
use frpay.Chains.Client.Asked.{Agree, node_answers, grid_asks_endpoints}
use frpay.Config.Load.{EvmConfig, TronConfig}
use frpay.Prelude.{
  ap, sym, List, pos, is_some, none, any, ℕ, ◌≡◌, refl, String, str_eq, Bool, true, false, Option,
  some, [], ◌∷◌, if◌then◌else◌,
}
use frpay.Chains.Client.{
  endpoints, call_attempt, got, refused, HttpResponse, get_attempt, tron_get, try_urls, is_busy,
}
use frpay.Chains.Client.Endpoints.{first_decisive, happenings, try_urls-decisive}

abbrev respond : String → ℕ → Option HttpResponse
respond url attempt =
    if str_eq url "https://a"
    then some (record { status = 429; body = "slow down" })
    else some (record { status = 200; body = "0x2" })

abbrev waits_out : String → Bool
waits_out url = false

abbrev answer : String → Option String
answer body = some body

abbrev envelope : String → Option (Bool × String)
envelope body = some (false, body)

falls_back : tron_get ("https://a" ∷ "https://b" ∷ []) respond waits_out answer ≡ got "0x2"
unfolding tron_get try_urls get_attempt is_busy
falls_back = refl

-- A response of status 404 ends the call, though another endpoint would answer.
abbrev missing : String → ℕ → Option HttpResponse
missing url attempt =
    if str_eq url "https://a"
    then some (record { status = 404; body = "" })
    else some (record { status = 200; body = "0x2" })

gives_up : tron_get ("https://a" ∷ "https://b" ∷ []) missing waits_out answer ≡ refused
unfolding tron_get try_urls get_attempt is_busy
gives_up = refl

try_urls-decisive_example :
    try_urls
      (λ url n. get_attempt answer (respond url n))
      waits_out
      ("https://a" ∷ "https://b" ∷ [])
    ≡ first_decisive (
        happenings
          (λ url n. get_attempt answer (respond url n))
          waits_out
          ("https://a" ∷ "https://b" ∷ []))
try_urls-decisive_example =
    try_urls-decisive (λ url n. get_attempt answer (respond url n)) waits_out
      ("https://a" ∷ "https://b" ∷ [])

-- The first endpoint is overloaded, and the second answers the block.
abbrev web : Web
web = record {
  send = λ req n.
      if str_eq req.url "https://a"
      then some (record { status = 429; body = "slow down" })
      else some (record { status = 200; body = "0x2" });
  is_cancelled = λ url. false;
}

abbrev formats : RpcFormats
formats = record {
  marshal = λ req. some req.method;
  envelope = λ body. some (false, body);
  decode_text = λ body. some body;
  decode_logs = λ body. none;
}

abbrev polygon_cfg : EvmConfig
polygon_cfg = record {
  enabled = true;
  chain_name = "polygon";
  address = "0xaa";
  rpc_url = "https://a";
  fallback_rpc_urls = "https://b" ∷ [];
  usdt_contract = "0xbb";
  poll_interval = pos 15;
  required_confirms = pos 12;
  logs_batch_blocks = pos 2000;
}

node_answers_example : is_some (node_of formats web polygon_cfg).block_number ≡ true
unfolding any endpoints call_attempt post_request is_busy
node_answers_example = node_answers formats web polygon_cfg "eth_blockNumber" refl refl refl

abbrev texts : Texts
texts = record { encode = λ query. "q"; format_int = λ n. "1" }

abbrev tron_cfg : TronConfig
tron_cfg = record {
  enabled = true;
  address = "T";
  api_url = "https://t";
  fallback_api_urls = [];
  api_key = "key";
  usdt_contract = "TR7";
  poll_interval = pos 5;
  required_confirms = pos 20;
}

abbrev if_any : List (String × String) → Option HttpResponse → Option HttpResponse
if_any [] answer = none
if_any (h ∷ hs) answer = answer

-- It does not answer a request without a header.
abbrev keyed : Web
keyed = record { send = λ req n. if_any req.headers (web.send req n); is_cancelled = λ url. false }

keyed_agrees : Agree "TRON-PRO-API-KEY" (new_client "https://t" [] "key") web keyed
unfolding key_header new_client
keyed_agrees = record {
  sends = λ req sent n. ap (λ hs. if_any hs (web.send req n)) (sym sent.with_key);
  waits = λ url m. refl;
}

grid_asks_endpoints_example :
    grid_of texts web (λ body. some (pos 7)) (λ body. none) tron_cfg
    ≡ grid_of texts keyed (λ body. some (pos 7)) (λ body. none) tron_cfg
grid_asks_endpoints_example =
    grid_asks_endpoints texts web keyed (λ body. some (pos 7)) (λ body. none) tron_cfg keyed_agrees
