-- ===== src/Tests/Service.antt =====
-- A start of the service while Alice's payment waits for confirmations, and what follows it.
use frpay.Api.Kept.{Persists-refl}
use frpay.Orders.Lifecycle.{IsWellFormed}
use frpay.Main.Confirmations.{configured}
use frpay.Chains.Cursors.{returned_cursor, get_cursor}
use frpay.Chains.Evm.Types.{
  hex_number, hex_digit, hex_digits, trim_0x, signed_hex, parse_hex_quantity,
}
use frpay.Chains.Evm.Scan.{
  scan_batches, save_cursor, batch_size, batch_end, ask_logs, after_logs, event_of, is_zero,
  first_block, scan_from, on_cursor, scan_new_logs, block_number,
}
use frpay.Chains.Pending.{add_unseen, add_to}
use frpay.Chains.Evm.Pending.{evm_watcher}
use frpay.Orders.Repository.{list_confirming, new_order}
use frpay.Config.Values.{
  parse_bool, get_env_bool_default, get_env_int_default, get_env_default, get_env_int_default,
  get_env_default,
}
use frpay.Prelude.{
  any, ◌+ℤ◌, ◌-ℤ◌, int64, select, insert, ℤ, pos, String, ◌≡◌, refl, ap, ◌∙◌, sym, subst, arith,
  true, false, Option, none, some, List, [], ◌∷◌, Memᴰ, lookup, is_some,
}
use frpay.Store.{wrap, statement, gets, Database, ok, consistent, Statement}
use frpay.Connections.{
  connect_redis, connect, migrate, connect_redis, connect, migrate, Drivers, UpResult, Pool,
  RedisClient,
}
use frpay.Chains.Watcher.{polygon, TransferEvent}
use frpay.Chains.Manager.{
  seed_pending as seed_chain, register, new_manager, chains, required_confirmations,
}
use frpay.Chains.Manager.Exits.{Exit, run_all, first_of, unexpected, run_all-first_of}
use frpay.Chains.Evm.Watcher.{seed_pending as seed_evm, new_watcher}
use frpay.Config.Load.{
  load_bsc_config, load_evm_config, load_polygon_config, load_chains, config_with, config_with,
}
use frpay.Orders.Service.{
  transfer_of, seed_orders, seed_one, on_listed, seed_chains, load_pending_transfers,
}
use frpay.Orders.Polls.Confirms.{HoldsConfirmed, Reaches}
use frpay.Orders.Runs.{Persists}
use frpay.Api.Limiter.{Counters}
use frpay.Api.Responses.{Formats}
use frpay.Main.{
  seed_any, chain_of, enable, with_evm, evm_one, AnyWatcher, any_watcher, chain_manager,
}
use frpay.Main.Served.{well_addressed}
use frpay.Main.Confirming.{reported}
use frpay.Main.Lasting.{stays_ready}
use frpay.Main.Lives.{Life, lives, lives-Persists}
use frpay.Main.Paid.{answers_latest, confirmed_for_good, confirmed_after_restart, fresh}
use frpay.Main.Running.{Outside, System, Event, ticks, expires, run_events}
use frpay.Main.Start.{Host, Service, start}
use frpay.Main.Starts.{starts_when_up}
use frpay.Tests.Fixture.{decimals, alice_amount}
use frpay.Tests.Startup.{environment, no_duration, codecs, usable, enabled, loaded, main_enabled}
use frpay.Tests.Deliveries.{detected, confirms_soon, seed}

-- Every driver answers, and no migration is due.
abbrev drivers : Drivers ℤ Unit Unit
drivers = record {
  new_migrator = λ source dsn. some tt;
  up = λ m w. (UpResult.no_change, w);
  connect_context = λ driver dsn. some tt;
  ping = λ addr db. true;
}

abbrev host : Host ℤ Unit Unit
host = record {
  environment = environment;
  parse_duration = no_duration;
  drivers = drivers;
  codecs = codecs;
  time = pos 9;
}

abbrev pool : Pool Unit
pool = record { handle = tt; max_open_conns = pos 20; max_idle_conns = pos 5 }

abbrev redis : RedisClient
redis = record { addr = "127.0.0.1:6379"; db = pos 0 }

abbrev service : Service ℤ Unit
service = record {
  config = usable;
  pool = pool;
  redis = redis;
  addresses = enabled.addresses;
  manager = (load_pending_transfers any_watcher (pos 9) confirms_soon (chain_manager enabled)).1;
}

starts : start host confirms_soon ≡ (ok service, confirms_soon)
unfolding migrate connect connect_redis config_with get_env_default get_env_int_default
starts =
    starts_when_up host confirms_soon usable pool redis enabled loaded refl refl refl main_enabled
      refl

started : (start host confirms_soon).0 ≡ ok service
started = ap (λ r. r.0) starts

settled : (start host confirms_soon).1 ≡ confirms_soon
settled = ap (λ r. r.1) starts

-- Block 512, and no logs.
abbrev outside : Outside
outside = record {
  time = pos 20;
  grid = record { now_block = some (pos 1); contract_events = λ contract from fingerprint. none };
  center = record { jetton_transfers = λ owner master from offset. none };
  node = record { block_number = some "0x200"; get_logs = λ from to contract topic. none };
}

abbrev event : TransferEvent ℤ
event = record {
  chain = polygon;
  tx_hash = "0xabc";
  amount = alice_amount;
  block_height = pos 500;
  confirmations = pos 13;
  observed_at = pos 20;
}

abbrev polygon_seeded : AnyWatcher ℤ
polygon_seeded = evm_one (record (new_watcher polygon usable.chains.polygon) {
  pending = ("0xabc", record { amount = alice_amount; block_height = pos 500 }) ∷ [];
})

seeded_there : lookup polygon service.manager ≡ some polygon_seeded
unfolding lookup load_pending_transfers seed_chains chains chain_manager new_manager register
    with_evm config_with load_chains load_polygon_config load_evm_config get_env_bool_default
    parse_bool enable insert list_confirming evm_watcher new_watcher seed_evm seed_chain add_to
    add_unseen any_watcher chain_of seed_any on_listed seed_one seed_orders transfer_of select gets
    statement wrap new_order
seeded_there = refl

reports_it : reported outside polygon_seeded confirms_soon "0xabc" ≡ some event
unfolding reported block_number parse_hex_quantity signed_hex trim_0x hex_digits hex_digit
    hex_number lookup scan_new_logs on_cursor get_cursor statement returned_cursor select scan_from
    int64 first_block is_zero ◌-ℤ◌ ◌+ℤ◌ event_of after_logs ask_logs batch_end batch_size
    save_cursor scan_batches new_watcher new_order
reports_it = refl

reaches : Reaches detected "0xabc" event
unfolding new_order
reaches = record { chain = refl; tx_hash = refl; counts = refl; deep = omega arith }

just : {A : Type 0} {a b : A} → ◌≡◌ {A = Option A} (some a) (some b) → a ≡ b
just e = cc

-- Whatever the polygon watcher reports of Alice's payment is this event.
reports_deep :
    (v : AnyWatcher ℤ) (e : TransferEvent ℤ)
    → lookup polygon service.manager ≡ some v
    → reported outside v (start host confirms_soon).1 "0xabc" ≡ some e
    → Reaches detected "0xabc" e
reports_deep v e found says =
    subst (Reaches detected "0xabc")
      (just (
        sym reports_it
        ∙ ap (λ w. reported outside w confirms_soon "0xabc") (just (sym seeded_there ∙ found))
        ∙ ap (λ db. reported outside v db "0xabc") (sym settled)
        ∙ says))
      reaches

abbrev formats : Formats
formats = record {
  decode = λ body. none;
  parse_uuid = λ s. none;
  uuid_text = λ n. "an id";
  time_text = λ t. "a time";
}

abbrev counters : Counters
counters = record { counts = []; is_up = true }

abbrev serving : System ℤ Unit
serving = record {
  service = service;
  state = record { database = confirms_soon; counters = counters };
}

abbrev later : List Event
later = expires ∷ ticks polygon outside ∷ []

consistent_rows : consistent confirms_soon.orders ≡ true
unfolding consistent any
consistent_rows = refl

well_formed : IsWellFormed detected
unfolding new_order
well_formed = (refl, refl, refl, omega arith)

polygon_configured : is_some (configured usable.chains detected.chain) ≡ true
unfolding configured config_with load_chains load_bsc_config load_evm_config get_env_bool_default
    load_polygon_config parse_bool new_order
polygon_configured = refl

knows_block : is_some (block_number outside.node) ≡ true
unfolding block_number parse_hex_quantity signed_hex trim_0x hex_digits hex_digit
knows_block = refl

answers :
    (v : AnyWatcher ℤ) → lookup polygon service.manager ≡ some v → answers_latest outside v ≡ true
answers v found =
    subst (λ w. answers_latest outside w ≡ true) (just (sym seeded_there ∙ found)) knows_block

on_its_way : transfer_of detected ≡ some seed
unfolding transfer_of
on_its_way = refl

confirmed_for_good_example :
    HoldsConfirmed detected
      (run_events formats serving (ticks polygon outside ∷ later)).state.database
unfolding new_order
confirmed_for_good_example =
    confirmed_for_good formats serving outside polygon_seeded detected "0xabc" event later
      seeded_there reports_it (λ st. refl) consistent_rows (Memᴰ.head refl) well_formed refl refl
      reaches

confirmed_after_restart_example :
    HoldsConfirmed detected
      (run_events formats
        (fresh formats host counters confirms_soon service started)
        (ticks polygon outside ∷ later)).state.database
unfolding new_order
confirmed_after_restart_example =
    confirmed_after_restart formats host counters confirms_soon service started detected seed
      outside later (subst (λ w. Memᴰ detected w.orders) (sym settled) (Memᴰ.head refl)) well_formed
      refl on_its_way polygon_configured
      (subst (λ (w : Database ℤ). (st : Statement) → w.fails st ≡ false) (sym settled) (λ st. refl))
      (subst (λ (w : Database ℤ). consistent w.orders ≡ true) (sym settled) consistent_rows) answers
      reports_deep

stays_ready_example :
    let now = (run_events formats serving later).service in
    (well_addressed (lookup polygon now.manager) (lookup polygon now.addresses) ≡ true)
    × (required_confirmations any_watcher polygon now.manager ≡ configured usable.chains polygon)
stays_ready_example = stays_ready formats host confirms_soon serving started later polygon

-- A life without an end of its own, and one that is over at once.
abbrev life : Life ℤ Unit Unit
life = record {
  host = host;
  formats = formats;
  counters = counters;
  events = ticks polygon outside ∷ later;
}

lives-Persists_example : Persists confirms_soon (lives (life ∷ life ∷ []) confirms_soon)
lives-Persists_example =
    lives-Persists (life ∷ life ∷ []) confirms_soon
      (λ m w. Persists-refl w, (λ m w. Persists-refl w, tt))

abbrev exits : List (Exit String)
exits =
    record { chain = "ton"; error = none; cancelled = false }
    ∷ record { chain = "bsc"; error = some "down"; cancelled = false }
    ∷ record { chain = "tron"; error = some "over"; cancelled = true }
    ∷ []

run_all-first_of_example : run_all exits ≡ first_of unexpected exits
run_all-first_of_example = run_all-first_of exits
