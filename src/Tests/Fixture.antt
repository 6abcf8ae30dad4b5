-- ===== src/Tests/Fixture.antt =====
-- The data of the tests: fixed-point amounts of eight places, a chain's watcher, a settings record
-- with the defaults of internal/config/config.go, and an order on its way.
use frpay.Prelude.{
  Option, String, parse_int, times_ℤ, zero, ℕ, suc, ℤ, pos, negsuc, ◌+ℤ◌, ◌-ℤ◌, ltb_ℤ, ◌≡◌, refl,
  ltb, false, none, some, [], ◌∷◌, ◌+◌, ◌*◌, ◌/◌, ◌^◌, if◌then◌else◌,
}
use frpay.Decimal.{Decimals}
use frpay.Store.{Order, Database, Result, ok}
use frpay.Chains.Watcher.{TransferEvent, ChainWatcher, polygon}
use frpay.Chains.Manager.{Manager, new_manager}
use frpay.Orders.Repository.{Draw, new_order, try_insert, claim_exact_match, update_confirmations}
use frpay.Orders.Service.{Settings}

-- n, signed by two factors' signs
abbrev signed : ℤ → ℤ → ℕ → ℤ
signed (pos _) (pos _) n = pos n
signed (negsuc _) (negsuc _) n = pos n
signed _ _ n = pos 0 -ℤ pos n

abbrev size : ℤ → ℕ
size (pos n) = n
size (negsuc n) = suc n

-- A quotient of truncated numbers; by zero it is zero here.
abbrev quotient : ℕ → ℕ → ℕ
quotient a zero = 0
quotient a (suc b) = a / suc b

-- value * 10 ^ exp in units of 10 ^ -8
abbrev pub fixed : ℤ → ℤ → ℤ
fixed value (pos e) = signed value (pos 0) (size value * 10 ^ (8 + e))
fixed value (negsuc e) = signed value (pos 0) (size value * 10 ^ 8 / 10 ^ suc e)

-- A whole number.
abbrev whole : String → Option ℤ
whole s = elim (parse_int s) [ none ↦ none | some n ↦ some (times_ℤ n (10 ^ 8)) ]

abbrev pub shifted : ℤ → ℤ → ℤ
shifted a (pos e) = signed a (pos 0) (size a * 10 ^ e)
shifted a (negsuc e) = signed a (pos 0) (size a / 10 ^ suc e)

-- Amounts in units of 10 ^ -8.
instance abbrev pub decimals : Decimals ℤ
decimals = record {
  add = λ a b. a +ℤ b;
  sub = λ a b. a -ℤ b;
  mul = λ a b. signed a b (size a * size b / 10 ^ 8);
  div = λ a b. signed a b (quotient (size a * 10 ^ 8) (size b));
  lt = ltb_ℤ;
  new = fixed;
  parse = whole;
  shift = shifted;
  to_text = λ a. "an amount";
  column = λ a. if ltb (size a) (10 ^ 20) then some a else none;
}

-- The defaults of Load, with a microsecond for a second.
abbrev pub settings : Settings ℤ
settings = record {
  order_expiry = pos 1_200_000;
  tolerance = fixed (pos 2) (negsuc 1);
  underpayment_max_gap_percent = fixed (pos 50) (pos 0);
  offset_min = pos 1;
  offset_max = pos 99;
  max_collision_retries = pos 20;
}

-- Nothing is stored, nothing is locked, and no statement fails.
abbrev pub empty : Database ℤ
empty = record {
  orders = [];
  review_items = [];
  audit_log = [];
  cursors = [];
  now = pos 1_000_000;
  locked = λ _. false;
  fails = λ _. false;
}

abbrev pub draw : ℕ → Draw
draw n = record { uuid = 7 + n; intn = λ _. 4; time = pos 1_000_000 }

abbrev pub ten_dollars : ℤ
ten_dollars = fixed (pos 10) (pos 0)

-- An order of ten dollars, offset by $0.0005, in a database of its own.
abbrev pub alice : Order ℤ
alice = new_order (draw 0) "alice" polygon ten_dollars (pos 12) (pos 1_200_000) (pos 5)

abbrev pub opened : Database ℤ
opened = (try_insert alice empty).1

abbrev pub alice_amount : ℤ
alice_amount = fixed (pos 100005) (negsuc 3)

abbrev pub claimed : Database ℤ
claimed =
    (claim_exact_match polygon "0xabc" alice_amount (pos 500) (pos 1) settings.tolerance opened).1

abbrev pub credited : Database ℤ
credited = (update_confirmations polygon "0xabc" (pos 500) (pos 12) claimed).1

abbrev pub transfer : TransferEvent ℤ
transfer = record {
  chain = polygon;
  tx_hash = "0xabc";
  amount = alice_amount;
  block_height = pos 500;
  confirmations = pos 12;
  observed_at = pos 1100;
}

pub same_watcher : {a b : ℤ} → ◌≡◌ {A = Result Unit ℤ} (ok a) (ok b) → b ≡ a
same_watcher e = cc

-- A watcher that is its number of required confirmations.
abbrev pub watcher : ChainWatcher ℤ ℤ
watcher = record {
  chain = λ _. polygon;
  required_confirmations = λ required. required;
  seed_pending = λ t p required. ok required;
  seed_chain = λ t p w w' e. refl;
  seed_required = λ t p w w' e. same_watcher e;
}

abbrev pub manager : Manager ℤ
manager = new_manager watcher (pos 12 ∷ [])
