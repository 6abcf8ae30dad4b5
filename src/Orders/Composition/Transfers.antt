-- ===== src/Orders/Composition/Transfers.antt =====
-- OnTransfer, from its statements.
use frpay.Prelude.{Bool, true, false, Option, none, some}
use frpay.Decimal.{Decimals}
use frpay.Store.{Status, confirmed, Order, Follows}
use frpay.Chains.Watcher.{TransferEvent}
use frpay.Orders.Service.{
  Settings, log_if_confirmed, after_underpaid, after_exact, unless_claimed, after_update,
  log_progress, log_amounts, on_unmatched, on_underpaid, on_new, settle, on_transfer,
}
use frpay.Store.{
  Database, pure-Follows, raise-Follows, gets-Follows, >>=-Follows, transaction-Follows,
  statement-Follows, wrap-Follows, ignore-Follows,
}
use frpay.Orders.Composition.{Statements}

ruleset rules = (
  pure-Follows, raise-Follows, gets-Follows, >>=-Follows, transaction-Follows, statement-Follows,
  wrap-Follows, ignore-Follows,
)

module _ {D : Type 0} ⦃dec : Decimals D⦄ {R : Database D → Database D → Type 0}
    (st : Statements R) where
  log_if_confirmed-Follows :
      (st : Status) (o : Order D) (e : TransferEvent D) → Follows R (log_if_confirmed st o e)
  unfolding log_if_confirmed
  log_if_confirmed-Follows confirmed o e = search (st.preorder, rules, st.logs)
  log_if_confirmed-Follows _ o e = search (st.preorder, rules)

  pub log_progress-Follows : (o : Order D) (e : TransferEvent D) → Follows R (log_progress o e)
  unfolding log_progress
  log_progress-Follows o e = search (st.preorder, rules, st.logs, log_if_confirmed-Follows)

  pub after_underpaid-Follows :
      (e : TransferEvent D) (o : Option (Order D)) → Follows R (after_underpaid e o)
  unfolding after_underpaid on_underpaid on_unmatched log_amounts
  after_underpaid-Follows e none = search (st.preorder, rules, st.logs, st.reviews)
  after_underpaid-Follows e (some o) = search (st.preorder, rules, st.logs, st.reviews)

  pub after_exact-Follows :
      (s : Settings D) (e : TransferEvent D) (o : Option (Order D)) → Follows R (after_exact s e o)
  unfolding after_exact log_amounts
  after_exact-Follows s e (some o) = search (st.preorder, rules, st.logs, log_progress-Follows)
  after_exact-Follows s e none =
      search (st.preorder, rules, st.claims_underpaid, after_underpaid-Follows)

  pub unless_claimed-Follows :
      (s : Settings D) (e : TransferEvent D) (b : Bool) → Follows R (unless_claimed s e b)
  unfolding unless_claimed on_new
  unless_claimed-Follows s e true = search (st.preorder, rules)
  unless_claimed-Follows s e false =
      search (st.preorder, rules, st.claims_exact, after_exact-Follows)

  pub after_update-Follows :
      (s : Settings D) (e : TransferEvent D) (o : Option (Order D)) → Follows R (after_update s e o)
  unfolding after_update
  after_update-Follows s e (some o) = search (rules, log_progress-Follows)
  after_update-Follows s e none = search (rules, st.finds, unless_claimed-Follows)

  -- OnTransfer, for any event, in any state, however it ends.
  pub on_transfer-Follows : (s : Settings D) (e : TransferEvent D) → Follows R (on_transfer s e)
  unfolding on_transfer settle
  on_transfer-Follows s e = search (st.preorder, rules, st.logs, st.updates, after_update-Follows)
