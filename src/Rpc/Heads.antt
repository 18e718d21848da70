-- ===== src/Rpc/Heads.antt =====
-- src/chain/rpc.rs, `RpcProviderManager`: blocks asked of several providers, and the heads.
use pay.Common.{
  ℕ, suc, Option, none, some, List, [], ◌∷◌, ◌++◌, Result, ok, err, ◌>>=◌, leb, ◌==◌, if◌then◌else◌,
  length,
}
use pay.Common.Uint.{Text}
use pay.Common.Strings.{codes, is_empty}
use pay.Domain.Chain.{ChainBlockRef}
use pay.LogStore.Source.{ChainError, rpc_unavailable, block_not_found}
use pay.Ledger.{ChainBlock}
use pay.Rpc.Health.{Instant, ManagedRpcProvider, record_success}
use pay.Rpc.Texts.{to_string, join, decimal, tag_number}
use pay.Rpc.Blocks.{
  ProviderBlock, Readers, parse_block, select_conservative_head, ensure_consistent_block_hashes,
}
use pay.Rpc.Manager.{
  RpcProviderManager, provider_candidates, id_at, set_health, with_health, line, failed,
  failed_with,
}

-- the variables of the loop of `request_blocks`
pub record Asked : Type 0 where
  pub blocks : List ProviderBlock
  pub errors : List Text
  pub not_found_count : ℕ
  pub providers : List ManagedRpcProvider

abbrev pub Reply : Type 0
Reply = Result (List ProviderBlock) ChainError × List ManagedRpcProvider

abbrev pub not_found_at : ℕ → Asked → Asked
not_found_at i s = record {
  blocks = s.blocks;
  errors = s.errors ++ line i s.providers (codes "block not found") ∷ [];
  not_found_count = suc s.not_found_count;
  providers = s.providers;
}

abbrev pub with_block : ℕ → ProviderBlock → Asked → Asked
with_block i b s = record {
  blocks = s.blocks ++ b ∷ [];
  errors = s.errors;
  not_found_count = s.not_found_count;
  providers = set_health record_success i s.providers;
}

abbrev pub with_error : ℕ → ChainError → List ManagedRpcProvider → Asked → Asked
with_error i error providers s = record {
  blocks = s.blocks;
  errors = s.errors ++ line i s.providers (to_string error) ∷ [];
  not_found_count = s.not_found_count;
  providers = providers;
}

-- `ensure_consistent_block_hashes(&context, &blocks)?; Ok(blocks)`
abbrev pub consistent : Text → List ProviderBlock → Result (List ProviderBlock) ChainError
consistent context blocks = do _ ← ensure_consistent_block_hashes context blocks; ok blocks

-- the error of a request that no provider answered with a block
abbrev pub none_answered : Text → List Text → ChainError
none_answered context errors =
    if is_empty errors
    then rpc_unavailable (codes "no RPC provider returned " ++ context)
    else rpc_unavailable (codes "no RPC provider returned " ++ context ++ codes ": " ++ join errors)

-- what an answer is to the loop
pub data Kind : Type 0 where
  absent : Kind
  found : ProviderBlock → Kind
  malformed : ChainError → Kind
  refused : ChainError → Kind

-- the panic of `select_conservative_head` on no blocks is `none`
abbrev pub answered_block : Option ProviderBlock → Option (Result ChainBlock ChainError)
answered_block none = none
answered_block (some b) = some (ok b.block)

abbrev pub head_of : Result (List ProviderBlock) ChainError → Option (Result ChainBlock ChainError)
head_of (err error) = some (err error)
head_of (ok blocks) = answered_block (select_conservative_head blocks)

-- `block.block_ref()`
abbrev pub block_ref_of : Result ChainBlock ChainError → Result ChainBlockRef ChainError
block_ref_of (ok b) = ok (record { number = b.number; hash = b.hash })
block_ref_of (err error) = err error

abbrev pub head_ref :
    Option (Result ChainBlock ChainError) → Option (Result ChainBlockRef ChainError)
head_ref none = none
head_ref (some r) = some (block_ref_of r)

module _ {Value : Type 0} (readers : Readers Value) where
  abbrev pub parsed_kind : Result ProviderBlock ChainError → Kind
  parsed_kind (ok block) = found block
  parsed_kind (err error) = malformed error

  abbrev pub kind_of : Result Value ChainError → Text → Kind
  kind_of (ok value) id =
      if readers.is_null value then absent else parsed_kind (parse_block readers value id)
  kind_of (err (block_not_found _)) id = absent
  kind_of (err error) id = refused error

  module _ (answer : ℕ → Result Value ChainError) (at : ℕ → Instant) (min_provider_count : ℕ)
      (context : Text) (not_found : ChainError) (provider_count : ℕ) where
    unfoldable pub after_loop : Asked → Reply
    after_loop s =
        if is_empty s.blocks
        then (
          err (
              if s.not_found_count == provider_count
              then not_found
              else none_answered context s.errors),
          s.providers,
        )
        else (consistent context s.blocks, s.providers)

    -- one round of the loop: what follows it is `rest`
    abbrev pub round : ℕ → Kind → (Asked → Reply) → Asked → Reply
    round i absent rest s = rest (not_found_at i s)
    round i (found b) rest s =
        if leb min_provider_count (length (s.blocks ++ b ∷ []))
        then (consistent context (s.blocks ++ b ∷ []), set_health record_success i s.providers)
        else rest (with_block i b s)
    round i (malformed error) rest s = rest (with_error i error (failed answer at i s.providers) s)
    round i (refused error) rest s =
        rest (with_error i error (failed_with answer at error i s.providers) s)

    unfoldable pub request_blocks_from : List ℕ → Asked → Reply
    request_blocks_from [] s = after_loop s
    request_blocks_from (i ∷ is) s =
        round i (kind_of (answer i) (id_at i s.providers)) (request_blocks_from is) s

  module _ (m : RpcProviderManager) (now : Instant) (answer : ℕ → Result Value ChainError)
      (at : ℕ → Instant) where
    unfoldable pub request_blocks :
        Text → ChainError → Result (List ProviderBlock) ChainError × RpcProviderManager
    request_blocks context not_found =
        let (providers, counted) = provider_candidates m now in
        let (reply, health) =
          request_blocks_from answer at m.min_provider_count context not_found (length providers)
            providers
            (record { blocks = []; errors = []; not_found_count = 0; providers = m.providers }) in
        (reply, with_health health counted)

    unfoldable pub blocks_by_tag :
        Text → Result (List ProviderBlock) ChainError × RpcProviderManager
    blocks_by_tag tag = request_blocks (codes "block tag " ++ tag) (block_not_found tag_number)

    unfoldable pub head_by_tag :
        Text → Option (Result ChainBlockRef ChainError) × RpcProviderManager
    head_by_tag tag = let (reply, after) = blocks_by_tag tag in (head_ref (head_of reply), after)

    unfoldable pub block_by_number : ℕ → Option (Result ChainBlock ChainError) × RpcProviderManager
    block_by_number number =
        let (reply, after) =
          request_blocks (codes "block " ++ decimal number) (block_not_found number) in
        (head_of reply, after)
