-- ===== src/Services/Collections/Tests.antt =====
-- A sweep that is stuck is replaced.
use pay.Db.Inserts.{insert_signed_collect_tx, insert_signed_tx_row}
use pay.Db.Accounts.{reserve_nonce, next_nonce_of, raise_next_nonce, advance_nonce}
use pay.Services.Collections.Prepared
use pay.Services.Collections.Prepared.{prepare_next_collection_job-Explains}
use pay.Services.Collections.Prepare.{Balances, prepare_next_collection_job}
use pay.Services.Collections.Accepted.{IsAccepted, sign_replacement-IsAccepted}
use pay.Services.Collections.Replaced
use pay.Services.Collections.Replaced.{replace_collection_job-Explains}
use pay.Db.Outbound.{find_tx, Tables}
use pay.Common.{ℕ, ◌≡◌, refl, none, some, [], ◌∷◌, Result, ok, err, Option}
use pay.Common.Uint.Model.{u256}
use pay.Common.Strings.{codes, trim, trim_start, is_whitespace}
use pay.Domain.Collection.{CollectionFees, assert_replacement_allowed}
use pay.Db.Types.{CollectionRecordStatus, RepositoryError}
use pay.Db.Examples.{sweep, sent_tx, primary_key, sent_tables, queued_tables}
use pay.Services.Collections.Fees.{
  CollectionServiceError, CollectionJob, collection_fees_from_estimate, bump_raw_amount,
  bump_collection_fees, raw_amount_to_u64, ensure_signed_tx_matches_job, resolve_collection_amount,
}
use pay.Services.Collections.Replace.{
  Host, Signed, ReceiptCheckableOutboundTx, replacement_fees, previous_fees, replacement_row,
  payer_of, sign_replacement, sign_job, replace_collection_job,
}
use pay.Services.Collections.Bump.{Raises, AreOrdered, unchecked_fees, replacement_fees_lem}

abbrev configured : CollectionFees
configured = record { gas_limit = 90000; max_fee_per_gas = 50; max_priority_fee_per_gas = 30 }

abbrev stuck : CollectionJob
stuck = record {
  collection = sweep CollectionRecordStatus.confirming (some 2);
  signer_key_ref = codes "key";
  derivation_path = codes "m/0";
}

abbrev host : Host ℕ
host = record {
  fees = configured;
  relayer = none;
  collection_job = λ i. ok (some stuck);
  estimate_eip1559_fees = ok (record { max_fee_per_gas = 60; max_priority_fee_per_gas = 10 });
  ensure_prefunded_gas = λ check. ok tt;
  health_check = ok tt;
  build_collection_calldata = λ job amount. ok (7 ∷ []);
  sign_transaction = λ payer nonce fees calldata. ok (record {
    request_id = [];
    chain_id = 5;
    nonce = nonce;
    «from» = payer.address;
    to = 700;
    tx_hash = 4001;
    raw_tx = calldata;
  });
  append_audit_event = ok tt;
  new_id = 3;
  now = 100;
}

abbrev checkable : ReceiptCheckableOutboundTx
checkable = record { collection_id = 1; outbound = sent_tx }

replacement_fees_lem_example :
    (replacement_fees u256 primary_key host stuck.collection sent_tx 1000 800 3
      ≡ unchecked_fees u256 primary_key host sent_tx 800)
    × ((fees : CollectionFees)
        → replacement_fees u256 primary_key host stuck.collection sent_tx 1000 800 3 ≡ ok fees
        → Raises (previous_fees sent_tx) fees
          × (AreOrdered (previous_fees sent_tx) → AreOrdered fees))
replacement_fees_lem_example =
    replacement_fees_lem u256 primary_key host stuck.collection sent_tx 1000 800 3

abbrev signed_of : Result Signed (CollectionServiceError ℕ) → Signed → Signed
signed_of (ok s) _ = s
signed_of (err _) s = s

raised :
    replacement_fees u256 primary_key host stuck.collection sent_tx 1000 800 3
    ≡ ok (record { gas_limit = 90000; max_fee_per_gas = 110; max_priority_fee_per_gas = 30 })
unfolding replacement_fees collection_fees_from_estimate bump_raw_amount bump_collection_fees
    assert_replacement_allowed u256
raised = refl

abbrev fallback : Signed
fallback = record {
  collection = stuck.collection;
  row =
      replacement_row u256 primary_key host stuck.collection sent_tx (payer_of none stuck)
        configured
        (record {
          request_id = [];
          chain_id = 0;
          nonce = 0;
          «from» = 0;
          to = 0;
          tx_hash = 0;
          raw_tx = [];
        })
        [];
  signed_tx = record {
    request_id = [];
    chain_id = 0;
    nonce = 0;
    «from» = 0;
    to = 0;
    tx_hash = 0;
    raw_tx = [];
  };
}

abbrev replacement : Signed
replacement =
    signed_of (sign_replacement u256 primary_key host (codes "w") checkable (codes "stuck"))
      fallback

signs :
    sign_replacement u256 primary_key host (codes "w") checkable (codes "stuck") ≡ ok replacement
unfolding sign_replacement sign_job replacement_fees collection_fees_from_estimate bump_raw_amount
    bump_collection_fees assert_replacement_allowed u256 raw_amount_to_u64
    ensure_signed_tx_matches_job trim trim_start is_whitespace
signs = refl

sign_replacement-IsAccepted_example : IsAccepted sent_tx replacement
unfolding sign_replacement sign_job replacement_fees collection_fees_from_estimate bump_raw_amount
    bump_collection_fees assert_replacement_allowed u256 raw_amount_to_u64
    ensure_signed_tx_matches_job trim trim_start is_whitespace
sign_replacement-IsAccepted_example =
    sign_replacement-IsAccepted u256 primary_key host (codes "w") checkable (codes "stuck")
      replacement signs refl refl

replace_collection_job-Explains_example :
    Replaced.Explains u256 primary_key host checkable sent_tables (
      replace_collection_job u256 primary_key host
        (codes "w")
        checkable
        (codes "stuck")
        sent_tables)
replace_collection_job-Explains_example =
    replace_collection_job-Explains u256 primary_key host (codes "w") checkable (codes "stuck")
      sent_tables

abbrev queued : CollectionJob
queued = record {
  collection = sweep CollectionRecordStatus.queued none;
  signer_key_ref = codes "key";
  derivation_path = codes "m/0";
}

abbrev balances : Balances
balances = record { token_balance = ok 2000; pending_nonce = ok 4 }

-- the claim gives the queued sweep and leaves the tables
abbrev claim : Tables → Result (Option CollectionJob) RepositoryError × Tables
claim tables = (ok (some queued), tables)

prepared_nonces :
    (prepare_next_collection_job u256 primary_key host balances claim
      (codes "w")
      queued_tables
      []).2
    ≡ record { chain_id = 5; address = queued.collection.from_address; next_nonce = 5 } ∷ []
unfolding prepare_next_collection_job trim trim_start is_whitespace resolve_collection_amount
    reserve_nonce next_nonce_of raise_next_nonce raw_amount_to_u64 ensure_signed_tx_matches_job
    insert_signed_collect_tx insert_signed_tx_row collection_fees_from_estimate find_tx
    advance_nonce
prepared_nonces = refl

prepare_next_collection_job-Explains_example :
    Prepared.Explains u256 primary_key host balances claim queued_tables [] (
      prepare_next_collection_job u256 primary_key host balances claim (codes "w") queued_tables [])
prepare_next_collection_job-Explains_example =
    prepare_next_collection_job-Explains u256 primary_key host balances claim queued_tables []
      (codes "w")
