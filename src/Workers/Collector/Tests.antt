-- ===== src/Workers/Collector/Tests.antt =====
-- A sweep whose receipt has arrived.
use pay.Common.{ℕ, ◌+◌, ◌*◌, ◌≡◌, refl, none, some, ok}
use pay.Common.Strings.{codes}
use pay.Domain.Chain.{has_confirmations, confirmations_against}
use pay.Db.Types.{OutboundTxRecord}
use pay.Db.Outbound.{Tables, Outcome, find_tx, put_tx, update_collections, mark_confirmed}
use pay.Db.Examples.{sent_tx, sent_tables}
use pay.Services.Collections.Replace.{ReceiptCheckableOutboundTx}
use pay.Workers.Collector.{
  success, TxReceipt, CollectionCollectorConfig, confirmed, Parts, check_outbound_receipt,
  receipt_block_confirmed_and_canonical, tick,
}
use pay.Workers.Collector.Booked.{IsBooking, check_outbound_receipt-IsBooking}
use pay.Workers.Collector.Round.{Explains, tick-Explains}

abbrev checkable : ReceiptCheckableOutboundTx
checkable = record { collection_id = 1; outbound = sent_tx }

abbrev arrived : TxReceipt
arrived = record {
  tx_hash = 4000;
  block = record { number = 70; hash = 170 };
  status = success;
  gas_used = some 50000;
}

abbrev parts : Parts ℕ
parts = record {
  broadcast_signed_tx = λ tx. ok 4000;
  transaction_receipt = λ hash. ok (some arrived);
  latest_head = ok (record { number = 75; hash = 175 });
  block_by_number =
      λ n. ok (record { number = n; hash = n + 100; parent_hash = n + 99; timestamp = n * 10 });
  now = 200;
  claim_signed_collect_tx_for_broadcast = λ s. (ok none, s);
  claim_broadcast_collect_tx_for_receipt = λ s. (ok (some checkable), s);
  prepare_next_collection_job = λ s. (ok none, s);
  replace_stuck_collection_job = λ job s. (ok none, s);
}

abbrev config : CollectionCollectorConfig
config = record {
  worker_id = codes "w";
  chain_id = 5;
  token_address = 700;
  replacement_stuck_after = 60;
  min_confirmations = 3;
}

abbrev row_of : Outcome → OutboundTxRecord
row_of (ok (t, _)) = t
row_of _ = sent_tx

abbrev tables_of : Outcome → Tables
tables_of (ok (_, s)) = s
tables_of _ = sent_tables

abbrev booking : Outcome
booking = mark_confirmed 200 2 arrived.block sent_tables

books :
    check_outbound_receipt parts config checkable sent_tables
    ≡ (ok (confirmed 1 (row_of booking)), tables_of booking)
unfolding check_outbound_receipt receipt_block_confirmed_and_canonical has_confirmations
    confirmations_against mark_confirmed find_tx put_tx update_collections
books = refl

check_outbound_receipt-IsBooking_example :
    IsBooking parts config checkable sent_tables (row_of booking) (tables_of booking)
check_outbound_receipt-IsBooking_example =
    check_outbound_receipt-IsBooking parts config checkable sent_tables books

tick-Explains_example : Explains parts config sent_tables (tick parts config sent_tables)
tick-Explains_example = tick-Explains parts config sent_tables
