-- ===== src/Tests/Polling.antt =====
-- A poll of a TRON watcher and one of a TON watcher, each over one page with one payment.
use frpay.Orders.Service.{on_transfer}
use frpay.Prelude.{
  true, List, ◌⊎◌, ◌<ℤ◌, ◌^◌, ℤ, pos, ◌+ℤ◌, ◌≤ℤ◌, All, ◌≡◌, refl, arith, none, some, [], ◌∷◌,
}
use frpay.Store.{timestamptz, Database, statement, ok}
use frpay.Chains.Watcher.{PendingTransfer, tron, ton}
use frpay.Chains.Paging.Saves.{Saves}
use frpay.Chains.Paging.{fetch_failed, save_result, fetch_pages, Reads, last_page, scanned}
use frpay.Chains.Cursors.{put_cursor, set_cursor, get_cursor}
use frpay.Chains.Tron.Watcher.{mark, ContractEvent, TronWatcher, no_marks, see_events}
use frpay.Chains.Tron.Scan.{
  after_pages, Grid, get_page, page_of, scan_from, save_marks, min_timestamp, from_milli,
}
use frpay.Chains.Tron.Events.{scan_from-cases, marked, latest, next_scan_starts_after}
use frpay.Chains.Ton.Watcher.{
  JettonTransfer, TonWatcher, TonTransfer, no_ton_marks, see_transfers, ton_transfer, unix,
}
use frpay.Chains.Ton.Scan.{
  Center, get_page as get_ton_page, page_of as ton_page_of, scan_from as scan_ton_from,
  confirmations_at, from_unix,
}
use frpay.Chains.Ton.Transfers.{marked as ton_marked, scan_transfers-cases, reseeded_not_early}
use frpay.Orders.Runs.{Persists, of_Later}
use frpay.Chains.Runs.{tron_run}
use frpay.Orders.Polls.Tron.{tron_run-Persists}
use frpay.Chains.Ticks.{Tick}
use frpay.Orders.Lifecycle.{Later-preorder}
use frpay.Orders.Lifecycle.Transfers.{Statements-Later}
use frpay.Orders.Repository.{expire_past_due}
use frpay.Tests.Fixture.{decimals, opened, empty, settings}

abbrev pub event : ContractEvent
event = record {
  block_number = pos 70;
  block_timestamp = pos 1_700_000_000_000;
  result = ("to", "41aa") ∷ ("value", "10000500") ∷ [];
  transaction_id = "0xabc";
}

abbrev pub tron_watching : TronWatcher ℤ
tron_watching = record {
  usdt_contract = "TR7NHqjeKQxGTCi8q8ZY4pL8otSzgjLj6t";
  required_confirms = pos 20;
  address_hex = "41aa";
  pending = [];
}

abbrev pub grid : Grid
grid = record {
  now_block = some (pos 90);
  contract_events =
      λ contract from fingerprint. some (record { events = event ∷ []; fingerprint = "" });
}

one_event : Reads (get_page grid tron_watching (pos 5)) 20 "" (event ∷ [])
unfolding get_page page_of
one_event = last_page (record { items = event ∷ []; next = none }) refl refl

scan_done : (scan_from grid tron_watching (pos 5) empty).0 ≡ scanned
unfolding scan_from fetch_pages get_page page_of after_pages save_marks see_events mark save_result
    set_cursor statement put_cursor timestamptz
scan_done = refl

below : (latest (event ∷ [])).timestamp <ℤ pos (2 ^ 62)
unfolding latest mark marked
below = omega arith

next_scan_starts_after_example :
    ((get_cursor tron (scan_from grid tron_watching (pos 5) empty).2).0
      ≡ ok ((latest (event ∷ [])).block, some (from_milli (latest (event ∷ [])).timestamp)))
    × (min_timestamp (pos 9) (some (from_milli (latest (event ∷ [])).timestamp))
        ≡ (latest (event ∷ [])).timestamp +ℤ pos 1)
    × All (λ ev. ev.block_timestamp ≤ℤ (latest (event ∷ [])).timestamp) (event ∷ [])
next_scan_starts_after_example =
    next_scan_starts_after (pos 9) grid tron_watching (pos 5) empty one_event scan_done refl below

abbrev payment : JettonTransfer
payment = record {
  amount = "10000500";
  transaction_hash = "abc=";
  transaction_lt = "47";
  transaction_now = pos 1_700_000_000;
}

abbrev ton_watching : TonWatcher ℤ
ton_watching = record {
  address = "UQAA";
  usdt_jetton_master = "EQCxE6mUtQJKFnGfaROTKOt1lZbDiiX1kCixRv7Nw2Id_sDs";
  required_confirms = pos 5;
  pending = [];
}

abbrev center : Center
center = record { jetton_transfers = λ address master start offset. some (payment ∷ []) }

one_transfer : Reads (get_ton_page center ton_watching (pos 5)) 20 0 (payment ∷ [])
unfolding get_ton_page ton_page_of
one_transfer = last_page (record { items = payment ∷ []; next = none }) refl refl

abbrev waiting : TonTransfer ℤ
waiting = record { amount = pos 1000050000; lt = pos 47; observed = pos 1_700_000_000 }

abbrev restarted : PendingTransfer ℤ
restarted = record { tx_hash = "abc="; amount = pos 1000050000; block_height = pos 47 }

restarted_at : unix (pos 1_700_000_010_000_000_000) ≡ pos 1_700_000_010
restarted_at = refl

reseeded_not_early_example :
    confirmations_at (pos 1_700_000_020) (ton_transfer (pos 1_700_000_010_000_000_000) restarted)
    ≤ℤ confirmations_at (pos 1_700_000_020) waiting
reseeded_not_early_example =
    reseeded_not_early (pos 1_700_000_010_000_000_000) (pos 1_700_000_020) waiting restarted
      (omega arith) (omega arith) (omega arith) (omega arith) (omega arith)

-- Nothing happens before the first tick, and the expiry job runs before the second.
others_keep :
    ((db : Database ℤ) → Persists db db)
    × (((db : Database ℤ) → Persists db (expire_past_due db).1) × Unit {0})
others_keep = (
  λ db. of_Later (Later-preorder.reflexive db),
  ((λ db. of_Later (Statements-Later.expires.at db)), tt),
)

abbrev tron_ticks : List (Tick ℤ (ℤ × Grid))
tron_ticks =
    record { others = λ db. db; answers = (pos 9, grid) }
    ∷ record { others = λ db. (expire_past_due db).1; answers = (pos 10, grid) }
    ∷ []

tron_run-Persists_example :
    Persists opened (tron_run (on_transfer settings) true tron_ticks tron_watching opened).1
tron_run-Persists_example =
    tron_run-Persists settings true tron_ticks tron_watching opened others_keep

scan_from-cases_example :
    (((scan_from grid tron_watching (pos 5) opened).0 ≡ fetch_failed)
      × ((scan_from grid tron_watching (pos 5) opened).2 ≡ opened))
    ⊎ ((vs : List ContractEvent) × Reads (get_page grid tron_watching (pos 5)) 20 "" vs
        × ((scan_from grid tron_watching (pos 5) opened).1.pending
            ≡ (see_events "41aa" vs ([], no_marks)).0)
        × Saves tron
            (latest vs).block
            (latest vs).timestamp
            (from_milli (latest vs).timestamp)
            opened
            (scan_from grid tron_watching (pos 5) opened).0
            (scan_from grid tron_watching (pos 5) opened).2)
scan_from-cases_example = scan_from-cases grid tron_watching (pos 5) opened

scan_transfers-cases_example :
    (((scan_ton_from center ton_watching (pos 5) opened).0 ≡ fetch_failed)
      × ((scan_ton_from center ton_watching (pos 5) opened).2 ≡ opened))
    ⊎ ((vs : List JettonTransfer) × Reads (get_ton_page center ton_watching (pos 5)) 20 0 vs
        × ((scan_ton_from center ton_watching (pos 5) opened).1.pending
            ≡ (see_transfers vs ([], no_ton_marks)).0)
        × Saves ton
            (ton_marked vs no_ton_marks).lt
            (ton_marked vs no_ton_marks).utime
            (from_unix (ton_marked vs no_ton_marks).utime)
            opened
            (scan_ton_from center ton_watching (pos 5) opened).0
            (scan_ton_from center ton_watching (pos 5) opened).2)
scan_transfers-cases_example = scan_transfers-cases center ton_watching (pos 5) opened
