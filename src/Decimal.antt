-- ===== src/Decimal.antt =====
-- github.com/shopspring/decimal and the NUMERIC columns, which the repository only calls: an
-- interface of operations.
use frpay.Prelude.{◌≡◌, true, false, ℤ, String, Bool, Option}

-- One type of amounts stands for `decimal.Decimal` and for a NUMERIC value of a statement.
pub record Decimals (D : Type 0) : Type 0 where
  -- Add, Sub, Mul, Div
  pub add : D → D → D
  pub sub : D → D → D
  pub mul : D → D → D
  pub div : D → D → D
  -- LessThan, and `<` on NUMERIC; `GreaterThan` is the same with its sides exchanged
  pub lt : D → D → Bool
  -- decimal.New(value, exp) and NewFromBigInt(value, exp): value * 10 ^ exp
  pub new : ℤ → ℤ → D
  -- NewFromString
  pub parse : String → Option D
  -- Shift: the value times 10 ^ shift
  pub shift : D → ℤ → D
  -- String
  pub to_text : D → String
  -- what a column NUMERIC(20,8) stores for a value, none if it does not fit
  pub column : D → Option D

-- LessThan orders the amounts: it is asymmetric, and at most is transitive.
pub record IsOrdered {D : Type 0} (dec : Decimals D) : Type 0 where
  pub asymmetric : (a b : D) → dec.lt a b ≡ true → dec.lt b a ≡ false
  pub at_most_trans : (a b c : D) → dec.lt b a ≡ false → dec.lt c b ≡ false → dec.lt c a ≡ false
