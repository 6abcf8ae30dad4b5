-- ===== src/Orders/Repository/Errors.antt =====
-- The errors of internal/orders.
use frpay.Store.{DbError}

-- The errors that the methods return, by the text that begins their message.
pub data Error : Type 0 where
  -- the service's checks
  user_id_required amount_out_of_bounds chain_required chain_not_enabled : Error
  -- CreateWithUniqueAmount; `intn_panic` is the panic of rand.Intn at a bound that is not positive
  invalid_offset_range intn_panic no_unique_amount : Error
  insert_failed : DbError → Error
  not_found : Error
  get_order_failed list_confirming_failed check_tx_failed update_failed : DbError → Error
  claim_exact_failed begin_failed candidates_failed mark_failed commit_failed : DbError → Error
  expire_failed review_failed : DbError → Error
