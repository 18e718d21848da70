-- ===== src/Rpc/Blocks.antt =====
-- src/chain/rpc.rs: the blocks that providers answer with, the head chosen among them, and the check
-- that their hashes agree.
use pay.Common.{
  ℕ, Bool, not, Option, none, some, List, [], ◌∷◌, Result, ok, err, ◌>>=◌, ◌>>◌, ok_or, fail_if,
  ltb, ◌==◌, if◌then◌else◌, ◌++◌,
}
use pay.Common.Uint.{Text}
use pay.Common.Maps.{Map, get, insert, nat_ord}
use pay.Domain.Address.{Bytes}
use pay.Domain.Chain.{BlockHash}
use pay.Ledger.{ChainBlock, OffsetDateTime}
use pay.LogStore.Source.{ChainError, malformed_rpc_response, provider_hash_mismatch}
use pay.Rpc.Hex.{parse_required_hex_u64}
use pay.Common.Strings.{codes}

pub record RpcBlock : Type 0 where
  pub number : Option Bytes
  pub hash : Option Bytes
  pub parent_hash : Option Bytes
  pub timestamp : Option Bytes

pub record ProviderBlock : Type 0 where
  pub provider_id : Text
  pub block : ChainBlock

-- What the packages `serde_json` and `time` do, and the parser of src/domain/address.rs behind the
-- number that a hash is represented by. An error is its text. `from_unix_timestamp` takes the seconds
-- as an i64, given by the u64 with the same bits.
pub record Readers (Value : Type 0) : Type 0 where
  pub is_null : Value → Bool
  pub to_block : Value → Result RpcBlock Text
  pub from_unix_timestamp : ℕ → Result OffsetDateTime Text
  pub block_hash_from_str : Bytes → Result BlockHash Text

abbrev pub map_err : {A E F : Type 0} → (E → F) → Result A E → Result A F
map_err f (ok a) = ok a
map_err f (err e) = err (f e)

module _ {Value : Type 0} (readers : Readers Value) where
  abbrev parse_block_hash : Bytes → Text → Result BlockHash ChainError
  parse_block_hash value field =
      map_err (λ e. malformed_rpc_response (field ++ codes ": " ++ e))
        (readers.block_hash_from_str value)

  abbrev parse_required_block_hash : Option Bytes → Text → Result BlockHash ChainError
  parse_required_block_hash value field = do
    s ← ok_or value (malformed_rpc_response (field ++ codes " is missing from RPC response"))
    parse_block_hash s field

  unfoldable pub parse_block : Value → Text → Result ProviderBlock ChainError
  parse_block value provider_id = do
    block ← map_err malformed_rpc_response (readers.to_block value)
    number ← parse_required_hex_u64 block.number (codes "block.number")
    hash ← parse_required_block_hash block.hash (codes "block.hash")
    parent_hash ← parse_required_block_hash block.parent_hash (codes "block.parentHash")
    seconds ← parse_required_hex_u64 block.timestamp (codes "block.timestamp")
    timestamp ← map_err malformed_rpc_response (readers.from_unix_timestamp seconds)
    ok (record {
      provider_id = provider_id;
      block = record {
        number = number;
        hash = hash;
        parent_hash = parent_hash;
        timestamp = timestamp;
      };
    })

-- `min_by_key`: the first of the least ones
abbrev pub least : ProviderBlock → List ProviderBlock → ProviderBlock
least best [] = best
least best (b ∷ bs) = least (if ltb b.block.number best.block.number then b else best) bs

-- `expect` panics on an empty list
unfoldable pub select_conservative_head : List ProviderBlock → Option ProviderBlock
select_conservative_head [] = none
select_conservative_head (b ∷ bs) = some (least b bs)

abbrev mismatch : Text → ProviderBlock → ProviderBlock → ChainError
mismatch context existing b =
    provider_hash_mismatch context existing.provider_id existing.block.hash b.provider_id
      b.block.hash

-- what the map holds of a block's number: its hash is compared, or the block is kept
abbrev pub compared :
    Text
    → ProviderBlock
    → Map ℕ ProviderBlock
    → Option ProviderBlock
    → Result (Map ℕ ProviderBlock) ChainError
compared context b hashes none = ok (insert b.block.number b hashes)
compared context b hashes (some existing) = do
  fail_if (not (existing.block.hash == b.block.hash)) (mismatch context existing b)
  ok hashes

unfoldable pub compare_from :
    Text → Map ℕ ProviderBlock → List ProviderBlock → Result (Unit {0}) ChainError
compare_from context hashes [] = ok tt
compare_from context hashes (b ∷ bs) = do
  next ← compared context b hashes (get b.block.number hashes)
  compare_from context next bs

unfoldable pub ensure_consistent_block_hashes :
    Text → List ProviderBlock → Result (Unit {0}) ChainError
ensure_consistent_block_hashes context blocks = compare_from context [] blocks
