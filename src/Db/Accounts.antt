-- ===== src/Db/Accounts.antt =====
-- src/db/repositories/outbound.rs, `reserve_nonce`: the nonces of the accounts that pay, each statement
-- of SQL as a function on the rows of `account_nonces`.
use pay.Common.{
  ℕ, suc, Bool, ◌&&◌, Option, none, some, List, [], ◌∷◌, Result, ok, err, ◌>>=◌, ltb, leb, ◌==◌,
  if◌then◌else◌, max,
}
use pay.Common.Uint.{u256_end}
use pay.Domain.Address.{EvmAddress}
use pay.Domain.Amount.{RawAmount}
use pay.Db.Types.{
  ReservedNonce, AccountNonce, RepositoryError, database, integer_out_of_range, invalid_db_value,
  i64_end, numeric_end,
}

abbrev pub is_account : ℕ → EvmAddress → AccountNonce → Bool
is_account chain_id address row = row.chain_id == chain_id && row.address == address

-- `INSERT … ON CONFLICT (chain_id, address) DO UPDATE SET next_nonce = GREATEST(…)`
unfoldable pub raise_next_nonce : ℕ → EvmAddress → ℕ → List AccountNonce → List AccountNonce
raise_next_nonce chain_id address pending [] =
    record { chain_id = chain_id; address = address; next_nonce = pending } ∷ []
raise_next_nonce chain_id address pending (row ∷ rows) =
    if is_account chain_id address row
    then record row { next_nonce = max row.next_nonce pending } ∷ rows
    else row ∷ raise_next_nonce chain_id address pending rows

-- `SELECT next_nonce … WHERE …`
unfoldable pub next_nonce_of : ℕ → EvmAddress → List AccountNonce → Option ℕ
next_nonce_of chain_id address [] = none
next_nonce_of chain_id address (row ∷ rows) =
    if is_account chain_id address row
    then some row.next_nonce
    else next_nonce_of chain_id address rows

-- `UPDATE account_nonces SET next_nonce = next_nonce + 1 WHERE …`
unfoldable pub advance_nonce : ℕ → EvmAddress → List AccountNonce → List AccountNonce
advance_nonce chain_id address [] = []
advance_nonce chain_id address (row ∷ rows) =
    if is_account chain_id address row
    then record row { next_nonce = suc row.next_nonce } ∷ rows
    else row ∷ advance_nonce chain_id address rows

-- `decimal_to_raw_amount`
abbrev decimal_to_raw_amount : ℕ → Result RawAmount RepositoryError
decimal_to_raw_amount value = if ltb value u256_end then ok value else err (invalid_db_value value)

-- what is read back after the commit
abbrev pub reserved : ℕ → EvmAddress → Option ℕ → Result ReservedNonce RepositoryError
reserved chain_id address none = err database
reserved chain_id address (some next) = do
  nonce ← decimal_to_raw_amount next
  ok (record { chain_id = chain_id; address = address; nonce = nonce })

-- `next_nonce + 1` has to fit into its column; the commit comes before the nonce is read back as a U256.
abbrev pub reserve_next :
    ℕ
    → EvmAddress
    → List AccountNonce
    → List AccountNonce
    → Option ℕ
    → Result ReservedNonce RepositoryError × List AccountNonce
reserve_next chain_id address rows raised none = (err database, rows)
reserve_next chain_id address rows raised (some next) =
    if leb numeric_end (suc next)
    then (err database, rows)
    else (reserved chain_id address (some next), advance_nonce chain_id address raised)

unfoldable pub reserve_nonce :
    ℕ
    → EvmAddress
    → RawAmount
    → List AccountNonce
    → Result ReservedNonce RepositoryError × List AccountNonce
reserve_nonce chain_id address pending_nonce rows =
    let raised = raise_next_nonce chain_id address pending_nonce rows in
    if leb i64_end chain_id
    then (err integer_out_of_range, rows)
    else reserve_next chain_id address rows raised (next_nonce_of chain_id address raised)
