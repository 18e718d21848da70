-- ===== src/Lib.antt =====
-- Verification of pay3, a service that takes ERC-20 payments: it hands out receive addresses for
-- orders, reads the transfer logs of a chain, matches the logs with the payment windows of the
-- orders, computes the status of each order from its payments, and sweeps what was paid.
--
-- The parts and the files:
--
-- - Common: lists over the native numbers, Rust's `Result`, ordered maps as lists of entries
--   (`BTreeMap`, `BTreeSet`), texts as lists of code points, and `U256`, a record that stands for
--   the integers of the package alloy_primitives: its checked arithmetic, its decimal parser and
--   its printer, with their documented behaviour as laws. `Common.Uint.Model` fills that record
--   by functions.
-- - Domain: src/domain, one module per file. Amount is amount.rs (`parse_dec_str`,
--   `parse_token_units`, `to_decimal_string`), Address is address.rs (`decode_prefixed_fixed`,
--   `encode_lower_prefixed`), Payment and Order are payment.rs and order.rs
--   (`recompute_order_status`), Collection is collection.rs (`assert_replacement_allowed`),
--   Wallet is wallet.rs (`DerivationSegment::next`), Chain is chain.rs (`confirmations_against`,
--   `has_confirmations`), Kv is kv.rs.
-- - Ledger: the records that pass between the chain, the store, the database and the services,
--   from src/chain/mod.rs, src/transfer_log_store/types.rs and src/db/repositories/types.rs.
-- - LogStore: src/transfer_log_store. Config and State are the records of types.rs and mod.rs and
--   the changes made to them (`apply_rewind`, `apply_retention_cleanup`, the commit of
--   `poll_once`); Source is what the node answers, with the capacity checks; Fetch is
--   `fetch_logs_with_adaptive_range` and `headers_for_batch`; Poll is `ensure_stream`,
--   `poll_once`, `detect_reorg`, `rewind_to`, `prune_before_block` and `lag_blocks`; Pages is
--   `logs_page`, `logs_in_range` and `complete_to_block`. Paging, Complete, Reorg, Invariant,
--   Merged, Committed, Polled and Reachable hold the proofs.
-- - Rpc: src/chain/rpc.rs. Health is the cooldown of a provider, Texts the texts of the errors,
--   Hex the quantities, Blocks `parse_block`, `select_conservative_head` and
--   `ensure_consistent_block_hashes`, Manager `provider_candidates` and `request_first_success`,
--   Heads `request_blocks` and the heads by tag. A request is given what each provider answers
--   and the instant when it has answered; the packages serde_json and time are the record
--   `Readers`. Cooldown, Rotation, Quantity, Consistent, Request, Agreed, Quorum, Failover and
--   Limits hold the proofs; Limits joins the client with the store, which looks for words in the
--   errors.
-- - Db: src/db/repositories. Types is the rows of types.rs. The operations of outbound.rs are in
--   Accounts (`reserve_nonce`), Outbound (the tables, `mark_broadcast`, `mark_confirmed`,
--   `mark_failed`) and Inserts (`insert_signed_tx`, `insert_signed_collect_tx`,
--   `replace_signed_tx`), where each statement of SQL is a function on the rows of its table. The
--   constraints and triggers of the tables, which the migrations declare, are the record
--   `Schema`. Nonces, Lifecycle, Marked, Inserted and Steps hold the proofs; Steps is the
--   relation of the operations and what it reaches.
-- - Services.Payments: src/services/payments.rs. `Stored` is `match_stored_transfer_logs`,
--   `Direct` is `match_transfer_logs` and `PaymentMatcher::match_range`; `Outcome` says what a
--   page promises of each log, independently of the loops.
-- - Services.Windows: src/services/payment_windows.rs, the watch set (`replace_watch_set`,
--   `insert_candidate`, `remove_address`) and both `lookup_batch`. Watched holds the proofs.
-- - Services.Collections: src/services/collections.rs. Fees is the rules for fees and amounts
--   (`bump_collection_fees`, `resolve_collection_amount`, `ensure_signed_tx_matches_job`),
--   Prepare and Replace are `prepare_next_collection_job` and `replace_collection_job` over the
--   tables of Db, with what the configuration, the node, the gas checker, the signer and the
--   database answer in the record `Host`. Bump, Accepted, Replaced and Prepared hold the proofs.
-- - Workers.Scanner: src/workers/scanner.rs, `max_confirmable_block` and
--   `canonical_confirmable_payment_ids`. `Sweep` holds the proofs.
-- - Workers.Collector: src/workers/collector.rs, `tick`, `broadcast_outbound`,
--   `check_outbound_receipt` and `receipt_block_confirmed_and_canonical`. The claims of the
--   repository and the two calls of the collections service are in the record `Parts`. Booked and
--   Round hold the proofs.
--
-- Integers are native numbers. What the source computes modulo 2^64 is written so, and 256-bit
-- sums and products are checked by the parameter. Addresses, hashes, identifiers and instants are
-- represented by numbers, which the code only compares and passes on; the texts of addresses are
-- bytes. Loops are structural recursion over the lists that the source iterates; the loop that
-- shrinks a range of blocks has the size of the first range as its fuel, which is enough since
-- each round halves the range. An operation of the store is one step on its state, with no other
-- operation between its reads and its writes, and the node answers alike for the whole of one
-- operation. `Uuid::new_v4` is a parameter, a function from the number of the call to what it
-- returned.
--
-- Not modelled: SQL but for the statements of the outbound transactions, HTTP, the async runtime,
-- logging, the serde instances, and cryptography, which belong to other packages or to the
-- database.
pub mod Common
pub mod Domain
pub mod Ledger
pub mod LogStore
pub mod Rpc
pub mod Db
pub mod Services
pub mod Workers
