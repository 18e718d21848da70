-- ===== src/Ledger.antt =====
-- The records that the services read from the database and the chain, and write to it:
-- src/db/repositories/types.rs, src/chain/mod.rs and src/transfer_log_store/types.rs.
use pay.Common.{ℕ, Bool, true, Option, ◌&&◌, ◌||◌, ltb, ◌==◌, ◌≡◌, ◌↔◌, arith, false}
use pay.Common.Maps.{Ord}
use pay.Domain.Address.{EvmAddress}
use pay.Domain.Amount.{RawAmount}
use pay.Domain.Chain.{BlockHash, ChainBlockRef}
use pay.Domain.Order.{OrderStatus}
use pay.Domain.Payment.{PaymentMatchStatus, PaymentChainStatus}

-- A transaction hash is represented by the number that its bytes spell, and so is a UUID; an instant
-- by the nanoseconds since the first that `OffsetDateTime` has.
abbrev pub TxHash : Type 0
TxHash = ℕ

abbrev pub Uuid : Type 0
Uuid = ℕ

abbrev pub OffsetDateTime : Type 0
OffsetDateTime = ℕ

pub record StreamId : Type 0 where
  pub chain_id : ℕ
  pub token_address : EvmAddress

pub record ChainBlock : Type 0 where
  pub number : ℕ
  pub hash : BlockHash
  pub parent_hash : BlockHash
  pub timestamp : OffsetDateTime

pub record TransferLog : Type 0 where
  pub chain_id : ℕ
  pub token_address : EvmAddress
  pub block : ChainBlock
  pub tx_hash : TxHash
  pub log_index : ℕ
  pub from_address : EvmAddress
  pub to_address : EvmAddress
  pub amount_raw : RawAmount

pub record StoredTransferLog : Type 0 where
  pub chain_id : ℕ
  pub token_address : EvmAddress
  pub block_number : ℕ
  pub block_hash : BlockHash
  pub block_timestamp : OffsetDateTime
  pub tx_hash : TxHash
  pub tx_index : Option ℕ
  pub log_index : ℕ
  pub from_address : EvmAddress
  pub to_address : EvmAddress
  pub amount_raw : RawAmount
  pub removed : Bool
  pub observed_at : OffsetDateTime

pub record LogPageToken : Type 0 where
  pub block_number : ℕ
  pub log_index : ℕ

pub record PaymentWindowCandidate : Type 0 where
  pub order_id : Uuid
  pub child_account_id : Uuid
  pub receive_address : EvmAddress
  pub chain_id : ℕ
  pub token_address : EvmAddress
  pub expected_amount_raw : RawAmount
  pub paid_amount_raw : RawAmount
  pub order_status : OrderStatus
  pub window_from : OffsetDateTime
  pub window_from_block : ChainBlockRef
  pub expires_at : OffsetDateTime
  pub monitor_until : OffsetDateTime

pub record MatchedPaymentInput : Type 0 where
  pub id : Uuid
  pub order_id : Uuid
  pub child_account_id : Uuid
  pub chain_id : ℕ
  pub token_address : EvmAddress
  pub tx_hash : TxHash
  pub log_index : ℕ
  pub from_address : EvmAddress
  pub to_address : EvmAddress
  pub amount_raw : RawAmount
  pub block_number : ℕ
  pub block_hash : BlockHash
  pub block_time : OffsetDateTime
  pub confirmations : ℕ
  pub match_status : PaymentMatchStatus
  pub chain_status : PaymentChainStatus

-- the derived order of page tokens: by block, then by index
abbrev pub token_same : LogPageToken → LogPageToken → Bool
token_same a b = a.block_number == b.block_number && a.log_index == b.log_index

abbrev pub token_less : LogPageToken → LogPageToken → Bool
token_less a b =
    ltb a.block_number b.block_number
    || (a.block_number == b.block_number && ltb a.log_index b.log_index)

pub token_same_iff : (a b : LogPageToken) → (token_same a b ≡ true) ↔ (a ≡ b)
token_same_iff a b = ground arith

pub token_less_trans :
    (a b c : LogPageToken) → token_less a b ≡ true → token_less b c ≡ true → token_less a c ≡ true
token_less_trans a b c h k = ground arith

pub token_less_irrefl : (a : LogPageToken) → token_less a a ≡ false
token_less_irrefl a = ground arith

pub token_less_total :
    (a b : LogPageToken) → token_less a b ≡ false → token_same b a ≡ false → token_less b a ≡ true
token_less_total a b h k = ground arith

instance abbrev pub token_ord : Ord LogPageToken
token_ord = record {
  same = token_same;
  less = token_less;
  same_iff = token_same_iff;
  less_trans = token_less_trans;
  less_irrefl = token_less_irrefl;
  less_total = token_less_total;
}

-- `StoredTransferLog::page_token`
abbrev pub page_token : StoredTransferLog → LogPageToken
page_token log = record { block_number = log.block_number; log_index = log.log_index }
