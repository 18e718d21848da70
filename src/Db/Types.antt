-- ===== src/Db/Types.antt =====
-- src/db/repositories/types.rs: the rows of collections and outbound transactions, and the errors of
-- their repositories.
use pay.Common.{ℕ, Option, ◌^◌}
use pay.Common.Uint.{Text}
use pay.Domain.Address.{EvmAddress, Bytes}
use pay.Domain.Amount.{RawAmount}
use pay.Domain.Chain.{ChainBlockRef}
use pay.Ledger.{Uuid, TxHash, OffsetDateTime}

pub data OutboundTxStatus : Type 0 where
  signed broadcast confirmed failed dropped replaced : OutboundTxStatus

pub data OutboundTxPurpose : Type 0 where
  collect : OutboundTxPurpose

pub data CollectionRecordStatus : Type 0 where
  queued transferring confirming confirmed failed dropped replacing replaced :
      CollectionRecordStatus

pub record CollectionRecord : Type 0 where
  pub id : Uuid
  pub owner_sub : Text
  pub order_id : Uuid
  pub idempotency_key : Text
  pub request_hash : Text
  pub child_account_id : Uuid
  pub chain_id : ℕ
  pub token_address : EvmAddress
  pub from_address : EvmAddress
  pub to_address : EvmAddress
  pub amount_raw : Option RawAmount
  pub status : CollectionRecordStatus
  pub outbound_tx_id : Option Uuid
  pub attempt_count : ℕ
  pub locked_by : Option Text
  pub locked_until : Option OffsetDateTime
  pub error : Option Text
  pub created_at : OffsetDateTime
  pub updated_at : OffsetDateTime

pub record NewSignedOutboundTx : Type 0 where
  pub id : Uuid
  pub chain_id : ℕ
  pub purpose : OutboundTxPurpose
  pub from_address : EvmAddress
  pub to_address : EvmAddress
  pub nonce : RawAmount
  pub gas_limit : ℕ
  pub max_fee_per_gas : RawAmount
  pub max_priority_fee_per_gas : RawAmount
  pub tx_hash : TxHash
  pub signed_tx : Bytes
  pub replacement_of : Option Uuid
  pub replacement_reason : Option Text

pub record OutboundTxRecord : Type 0 where
  pub id : Uuid
  pub chain_id : ℕ
  pub purpose : OutboundTxPurpose
  pub from_address : EvmAddress
  pub to_address : EvmAddress
  pub nonce : RawAmount
  pub gas_limit : ℕ
  pub max_fee_per_gas : RawAmount
  pub max_priority_fee_per_gas : RawAmount
  pub tx_hash : TxHash
  pub signed_tx : Bytes
  pub status : OutboundTxStatus
  pub replacement_of : Option Uuid
  pub replacement_reason : Option Text
  pub broadcast_count : ℕ
  pub last_broadcast_at : Option OffsetDateTime
  pub receipt_block : Option ChainBlockRef
  pub error : Option Text
  pub created_at : OffsetDateTime
  pub updated_at : OffsetDateTime

pub record ReservedNonce : Type 0 where
  pub chain_id : ℕ
  pub address : EvmAddress
  pub nonce : RawAmount

-- A row of `account_nonces`.
pub record AccountNonce : Type 0 where
  pub chain_id : ℕ
  pub address : EvmAddress
  pub next_nonce : ℕ

-- The errors that the operations modelled return. `invariant_violation` has the row that its text
-- names; `database` is an error of the database.
pub data RepositoryError : Type 0 where
  database : RepositoryError
  integer_out_of_range : RepositoryError
  invalid_db_value : ℕ → RepositoryError
  invariant_violation : Uuid → RepositoryError

-- the first number that an i64 does not hold, and the first that numeric(78, 0) does not
abbrev pub i64_end : ℕ
i64_end = 2 ^ 63

abbrev pub numeric_end : ℕ
numeric_end = 10 ^ 78
