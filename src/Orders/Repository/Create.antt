-- ===== src/Orders/Repository/Create.antt =====
-- internal/orders/repository.go: CreateWithUniqueAmount.
use frpay.Prelude.{
  ℕ, zero, suc, ℤ, pos, negsuc, pos_part, ◌+ℤ◌, ◌-ℤ◌, ltb_ℤ, int64, fits_int32, String, Bool, ◌&&◌,
  Option, none, some, [], ◌∷◌, ◌++◌, if◌then◌else◌,
}
use frpay.Decimal.{Decimals}
use frpay.Store.{
  pending, Order, Statement, ok, err, Action, pure, raise, ◌>>=◌, Result, DbError, unique_violation,
  check_violation, out_of_range, statement, write_orders, timestamptz,
}
use frpay.Orders.Repository.Errors.{
  Error, no_unique_amount, invalid_offset_range, intn_panic, insert_failed,
}

-- What the host supplies to one attempt of CreateWithUniqueAmount.
pub record Draw : Type 0 where
  -- uuid.New()
  pub uuid : ℕ
  -- rand.Intn
  pub intn : ℕ → ℕ
  -- time.Now().UTC()
  pub time : ℤ

-- The offset of one attempt, in ten-thousandths of a dollar; none if rand.Intn panics.
unfoldable pub draw_in : ℤ → ℤ → (ℕ → ℕ) → Option ℤ
draw_in offset_min span intn =
    if ltb_ℤ (pos 0) span then some (int64 (offset_min +ℤ pos (intn (pos_part span)))) else none

unfoldable pub draw_offset : ℤ → ℤ → (ℕ → ℕ) → Option ℤ
unfolding draw_in
draw_offset offset_min offset_max intn =
    if ltb_ℤ offset_min offset_max
    then draw_in offset_min (int64 (int64 (offset_max -ℤ offset_min) +ℤ pos 1)) intn
    else some offset_min

module _ {D : Type 0} ⦃dec : Decimals D⦄ where
  -- The order that one attempt inserts.
  unfoldable pub new_order : Draw → String → String → D → ℤ → ℤ → ℤ → Order D
  new_order d user_id chain base required expiry offset = record {
    id = d.uuid;
    user_id = user_id;
    chain = chain;
    token = "USDT";
    base_amount_usd = base;
    expected_amount = dec.add base (dec.new offset (negsuc 3));
    received_amount = none;
    status = pending;
    tx_hash = none;
    tx_block_height = none;
    confirmations = pos 0;
    required_confirmations = required;
    created_at = d.time;
    expires_at = d.time +ℤ expiry;
    confirmed_at = none;
    updated_at = d.time;
  }

  unfoldable pub with_times : Option ℤ → Option ℤ → Option ℤ → Order D → Option (Order D)
  with_times (some created) (some expires) (some updated) o =
      some (record o { created_at = created; expires_at = expires; updated_at = updated })
  with_times _ _ _ o = none

  -- The columns' types: what is stored for a new row, none if a value does not fit.
  unfoldable pub stored : Order D → Option (Order D)
  stored o = elim (dec.column o.base_amount_usd) [
    | none ↦ none
    | some base ↦ elim (dec.column o.expected_amount) [
      | none ↦ none
      | some expected ↦
          if fits_int32 o.required_confirmations
          then with_times (timestamptz o.created_at) (timestamptz o.expires_at)
              (timestamptz o.updated_at)
              (record o { base_amount_usd = base; expected_amount = expected })
          else none
    ]
  ]

  -- The CHECK constraints on a new row.
  unfoldable pub checked : Order D → Bool
  checked o =
      dec.lt (dec.new (pos 0) (pos 0)) o.base_amount_usd
      && dec.lt (dec.new (pos 0) (pos 0)) o.expected_amount

  -- INSERT INTO orders
  unfoldable pub insert_row : Option (Order D) → Action D DbError Unit
  insert_row none w = raise out_of_range w
  insert_row (some row) w =
      if checked row then write_orders (w.orders ++ row ∷ []) tt w else raise check_violation w

  unfoldable pub insert_order : Order D → Action D DbError Unit
  insert_order o = statement Statement.insert_order (insert_row (stored o))

  -- What the loop does with one attempt's insert: return the order, go on after a collision, or
  -- return the error.
  unfoldable pub tried : Order D → Result DbError Unit → Result Error (Option (Order D))
  tried order (ok _) = ok (some order)
  tried order (err unique_violation) = ok none
  tried order (err e) = err (insert_failed e)

  unfoldable pub try_insert : Order D → Action D Error (Option (Order D))
  unfolding tried
  try_insert order w = let (r, w') = insert_order order w in (tried order r, w')

  -- One attempt; none is a collision.
  unfoldable pub attempt :
      Draw → String → String → D → ℤ → ℤ → Option ℤ → Action D Error (Option (Order D))
  attempt d user_id chain base required expiry none = raise intn_panic
  attempt d user_id chain base required expiry (some offset) =
      try_insert (new_order d user_id chain base required expiry offset)

  unfoldable pub or_else : {A : Type 0} → Action D Error A → Option A → Action D Error A
  or_else again none = again
  or_else again (some a) = pure a

  -- The loop, with `left` attempts to go, on the one with this number.
  unfoldable pub attempts :
      {A : Type 0} → ℕ → ℕ → (ℕ → Action D Error (Option A)) → Action D Error A
  unfolding or_else
  attempts zero number body = raise no_unique_amount
  attempts (suc left) number body = body number >>= or_else (attempts left (suc number) body)

  unfoldable pub create_with_unique_amount :
      (ℕ → Draw) → String → String → D → ℤ → ℤ → ℤ → ℤ → ℤ → Action D Error (Order D)
  create_with_unique_amount draws user_id chain base required expiry offset_min offset_max retries =
      if ltb_ℤ offset_max offset_min
      then raise invalid_offset_range
      else (attempts (pos_part retries) 0 λ number.
          attempt (draws number) user_id chain base required expiry
            (draw_offset offset_min offset_max (draws number).intn))
