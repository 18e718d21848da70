-- ===== src/Workers/Scanner.antt =====
-- src/workers/scanner.rs: which observed payments a sweep confirms.
pub mod Sweep
mod Tests
use pay.Common.{
  ℕ, ◌+◌, ◌-◌, ◌*◌, Bool, true, false, not, Option, none, some, List, [], ◌∷◌, Result, ok, err,
  ◌>>=◌, ◌>>◌, fail_if, leb, ◌==◌, if◌then◌else◌,
}
use pay.Common.Maps.{Map, get, insert, nat_ord}
use pay.Domain.Chain.{ChainBlockRef, BlockHash, has_confirmations}
use pay.Ledger.{ChainBlock, Uuid}

pub record PaymentConfirmationCandidate : Type 0 where
  pub payment_id : Uuid
  pub order_id : Uuid
  pub block : ChainBlockRef
  pub confirmations : ℕ

-- `E` is the type of the errors of the chain.
pub data PaymentScannerError (E : Type 0) : Type 0 where
  canonical_block_hash_mismatch : ℕ → BlockHash → BlockHash → PaymentScannerError E
  chain : E → PaymentScannerError E

unfoldable pub max_confirmable_block : ChainBlockRef → ℕ → Option ℕ
max_confirmable_block canonical_head min_confirmations =
    if min_confirmations == 0
    then some canonical_head.number
    else if leb (min_confirmations - 1) canonical_head.number
    then some (canonical_head.number - (min_confirmations - 1))
    else none

abbrev pub block_ref : ChainBlock → ChainBlockRef
block_ref b = record { number = b.number; hash = b.hash }

abbrev pub Cache : Type 0
Cache = Map ℕ ChainBlockRef

-- `block_by_number` is what the node answers during the sweep.
module _ {E : Type 0} (block_by_number : ℕ → Result ChainBlock E) where
  -- the block that the map has, or the one of the chain, which the map has from then on
  abbrev pub canonical_block :
      ℕ → Cache → Option ChainBlockRef → Result (ChainBlockRef × Cache) (PaymentScannerError E)
  canonical_block number cache (some block) = ok (block, cache)
  canonical_block number cache none = elim (block_by_number number) [
    | ok b ↦ ok (block_ref b, insert number (block_ref b) cache)
    | err e ↦ err (chain e)
  ]

  module _ (canonical_head : ChainBlockRef) (min_confirmations : ℕ) where
    -- the loop over the candidates, with the map of the blocks seen before
    unfoldable pub confirmable_from :
        Cache → List PaymentConfirmationCandidate → Result (List Uuid) (PaymentScannerError E)
    confirmable_from cache [] = ok []
    confirmable_from cache (c ∷ cs) = do
      (block, seen) ← canonical_block c.block.number cache (get c.block.number cache)
      fail_if (not (block.hash == c.block.hash))
          (canonical_block_hash_mismatch c.block.number c.block.hash block.hash)
      ids ← confirmable_from seen cs
      ok (
          if has_confirmations c.block canonical_head min_confirmations
          then c.payment_id ∷ ids
          else ids)

    unfoldable pub canonical_confirmable_payment_ids :
        List PaymentConfirmationCandidate → Result (List Uuid) (PaymentScannerError E)
    canonical_confirmable_payment_ids candidates = confirmable_from [] candidates
