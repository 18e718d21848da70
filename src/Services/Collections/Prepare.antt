-- ===== src/Services/Collections/Prepare.antt =====
-- src/services/collections.rs, `prepare_next_collection_job`.
use pay.Common.Strings.{is_empty, trim}
use pay.Common.{Option, none, some, List, Result, ok, err, ◌>>=◌, ◌>>◌, if◌then◌else◌}
use pay.Common.Uint.{U256, Text}
use pay.Domain.Amount.{RawAmount}
use pay.Domain.Collection.{CollectionFees}
use pay.LogStore.Source.{ChainError}
use pay.Db.Types.{
  AccountNonce, CollectionRecord, CollectionRecordStatus, OutboundTxRecord, NewSignedOutboundTx,
  RepositoryError, ReservedNonce, collect,
}
use pay.Db.Accounts.{reserve_nonce}
use pay.Db.Outbound.{Tables, Schema, Outcome}
use pay.Db.Inserts.{insert_signed_collect_tx}
use pay.Services.Collections.Fees.{
  CollectionServiceError, chain, other, repository, invalid_argument, CollectionJob, SignedTx,
  resolve_collection_amount, ensure_signed_tx_matches_job, raw_amount_to_u64,
}
use pay.Services.Collections.Replace.{
  Host, Payer, Prepared, payer_of, wrapped, current_collection_fees, gas_check,
}

-- what the node answers about the sender and the payer
pub record Balances : Type 0 where
  pub token_balance : Result RawAmount ChainError
  pub pending_nonce : Result RawAmount ChainError

-- what the service returns, and the tables and the nonces behind it
abbrev pub Reply : Type 0 → Type 0
Reply E = Result (Option Prepared) (CollectionServiceError E) × Tables × List AccountNonce

module _ {E : Type 0} (u : U256) (schema : Schema) (host : Host E) (balances : Balances) where
  -- the amount and the fees, once the payer has the gas and the signer is well
  abbrev pub funded :
      CollectionJob → Payer → Result (RawAmount × CollectionFees) (CollectionServiceError E)
  funded job payer = do
    amount ← resolve_collection_amount job balances.token_balance
    fees ← current_collection_fees u schema host
    wrapped other (host.ensure_prefunded_gas (gas_check u schema host job.collection payer fees))
    wrapped other host.health_check
    ok (amount, fees)

  abbrev pub sign_next :
      CollectionJob
      → Payer
      → RawAmount
      → CollectionFees
      → ReservedNonce
      → Result SignedTx (CollectionServiceError E)
  sign_next job payer amount fees reserved_nonce = do
    nonce ← raw_amount_to_u64 reserved_nonce.nonce
    calldata ← host.build_collection_calldata job amount
    tx ← wrapped other (host.sign_transaction payer nonce fees calldata)
    ensure_signed_tx_matches_job job tx payer.address nonce
    ok tx

  abbrev pub prepared_row :
      CollectionRecord → Payer → CollectionFees → ReservedNonce → SignedTx → NewSignedOutboundTx
  prepared_row c payer fees reserved_nonce tx = record {
    id = host.new_id;
    chain_id = c.chain_id;
    purpose = collect;
    from_address = payer.address;
    to_address = c.to_address;
    nonce = reserved_nonce.nonce;
    gas_limit = fees.gas_limit;
    max_fee_per_gas = fees.max_fee_per_gas;
    max_priority_fee_per_gas = fees.max_priority_fee_per_gas;
    tx_hash = tx.tx_hash;
    signed_tx = tx.raw_tx;
    replacement_of = none;
    replacement_reason = none;
  }

  abbrev pub prepared_collection :
      CollectionRecord → RawAmount → OutboundTxRecord → CollectionRecord
  prepared_collection c amount t = record c {
    outbound_tx_id = some t.id;
    amount_raw = some amount;
    status = CollectionRecordStatus.transferring;
    locked_by = none;
    locked_until = none;
    error = none;
    updated_at = host.now;
  }

  -- The audit event is written behind the commit of the repository.
  abbrev pub inserted :
      CollectionRecord → RawAmount → SignedTx → Tables → List AccountNonce → Outcome → Reply E
  inserted c amount tx tables accounts (err e) = (err (repository e), tables, accounts)
  inserted c amount tx tables accounts (ok (t, after)) = (
    (do
      wrapped repository host.append_audit_event
      ok (
          some (record {
            collection = prepared_collection c amount t;
            outbound = t;
            signed_tx = tx;
          }))),
    after,
    accounts,
  )

  module _ (job : CollectionJob) (payer : Payer) (tables : Tables) where
    abbrev pub with_signed :
        RawAmount
        → CollectionFees
        → ReservedNonce
        → List AccountNonce
        → Result SignedTx (CollectionServiceError E)
        → Reply E
    with_signed amount fees reserved_nonce accounts (err e) = (err e, tables, accounts)
    with_signed amount fees reserved_nonce accounts (ok tx) =
        inserted job.collection amount tx tables accounts (
          insert_signed_collect_tx schema host.now job.collection.id
            (prepared_row job.collection payer fees reserved_nonce tx) amount tables)

    -- A nonce that was reserved stays reserved, whatever fails behind it.
    abbrev pub with_reserved :
        RawAmount
        → CollectionFees
        → Result ReservedNonce RepositoryError × List AccountNonce
        → Reply E
    with_reserved amount fees (err e, accounts) = (err (repository e), tables, accounts)
    with_reserved amount fees (ok reserved_nonce, accounts) =
        with_signed amount fees reserved_nonce accounts
          (sign_next job payer amount fees reserved_nonce)

    abbrev pub with_pending :
        RawAmount → CollectionFees → List AccountNonce → Result RawAmount ChainError → Reply E
    with_pending amount fees accounts (err e) = (err (chain e), tables, accounts)
    with_pending amount fees accounts (ok pending_nonce) =
        with_reserved amount fees
          (reserve_nonce job.collection.chain_id payer.address pending_nonce accounts)

    abbrev pub with_funds :
        List AccountNonce → Result (RawAmount × CollectionFees) (CollectionServiceError E) → Reply E
    with_funds accounts (err e) = (err e, tables, accounts)
    with_funds accounts (ok (amount, fees)) =
        with_pending amount fees accounts balances.pending_nonce

  abbrev pub with_claim :
      List AccountNonce → Result (Option CollectionJob) RepositoryError × Tables → Reply E
  with_claim accounts (err e, tables) = (err (repository e), tables, accounts)
  with_claim accounts (ok none, tables) = (ok none, tables, accounts)
  with_claim accounts (ok (some job), tables) =
      let payer = payer_of host.relayer job in
      with_funds job payer tables accounts (funded job payer)

  -- The claim of a job, a statement of SQL of another repository, is given.
  unfoldable pub prepare_next_collection_job :
      (Tables → Result (Option CollectionJob) RepositoryError × Tables)
      → Text
      → Tables
      → List AccountNonce
      → Reply E
  prepare_next_collection_job claim_collection_job worker_id tables accounts =
      if is_empty (trim worker_id)
      then (err invalid_argument, tables, accounts)
      else with_claim accounts (claim_collection_job tables)
