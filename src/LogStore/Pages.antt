-- ===== src/LogStore/Pages.antt =====
-- src/transfer_log_store/mod.rs: the pages of the stored logs.
use pay.Common.{
  ℕ, suc, zero, Bool, true, false, ◌&&◌, ◌||◌, Option, none, some, List, [], ◌∷◌, Result, ok, ◌>>=◌,
  ◌>>◌, fail_if, ok_or, leb, ◌==◌, not, if◌then◌else◌, filter, take,
}
use pay.Common.Maps.{Map, get, values}
use pay.Ledger.{StreamId, StoredTransferLog, LogPageToken, token_less, token_ord, page_token}
use pay.LogStore.Config.{pred_of, stream_ord}
use pay.LogStore.State.{StoreState}

pub record LogsPage : Type 0 where
  pub stream : StreamId
  pub logs : List StoredTransferLog
  pub next_token : Option LogPageToken
  pub complete_to_block : Option ℕ

-- `max_logs` and `limit`
pub data PageError : Type 0 where
  stream_not_found : StreamId → PageError
  invalid_limit : PageError

unfoldable pub logs_in_range :
    StoreState → StreamId → ℕ → ℕ → ℕ → Result (List StoredTransferLog) PageError
logs_in_range state stream from_block to_block max_logs = do
  fail_if (max_logs == 0) invalid_limit
  found ← ok_or (get stream state) (stream_not_found stream)
  ok (
      take max_logs (
        filter (λ log. leb from_block log.block_number && leb log.block_number to_block)
          (values found.logs)))

-- `after.is_some_and(|after| *token <= after)`
abbrev pub is_passed : Option LogPageToken → LogPageToken → Bool
is_passed none token = false
is_passed (some after) token = not (token_less after token)

-- the loop of `logs_page`, with the room that is left on the page
unfoldable pub page_logs :
    Option LogPageToken → ℕ → Map LogPageToken StoredTransferLog → List StoredTransferLog
page_logs after room [] = []
page_logs after room ((token, log) ∷ m) = elim (is_passed after token) [
  | true ↦ page_logs after room m
  | false ↦ elim room [ zero ↦ [] | suc r ↦ log ∷ page_logs after r m ]
]

abbrev pub last : List StoredTransferLog → Option StoredTransferLog
last [] = none
last (log ∷ []) = some log
last (_ ∷ log ∷ logs) = last (log ∷ logs)

abbrev pub token_of : Option StoredTransferLog → Option LogPageToken
token_of none = none
token_of (some log) = some (page_token log)

abbrev pub last_token : List StoredTransferLog → Option LogPageToken
last_token logs = token_of (last logs)

-- `range((Excluded(last_token), Unbounded)).next()`: the first entry behind a token
unfoldable pub first_behind :
    LogPageToken → Map LogPageToken StoredTransferLog → Option StoredTransferLog
first_behind token [] = none
first_behind token ((k, log) ∷ m) =
    let rest = first_behind token m in if token_less token k then some log else rest

-- `keys().any(|candidate| *candidate > token)`
unfoldable pub any_behind : LogPageToken → Map LogPageToken StoredTransferLog → Bool
any_behind token [] = false
any_behind token ((k, _) ∷ m) = token_less token k || any_behind token m

abbrev pub block_of_next : StoredTransferLog → Option StoredTransferLog → Option ℕ
block_of_next log none = some log.block_number
block_of_next log (some next_log) =
    if next_log.block_number == log.block_number
    then pred_of log.block_number
    else some log.block_number

unfoldable pub complete_to_block :
    Option StoredTransferLog → Map LogPageToken StoredTransferLog → Bool → Option ℕ
complete_to_block none stored has_more = none
complete_to_block (some log) stored has_more =
    if not has_more
    then some log.block_number
    else block_of_next log (first_behind (page_token log) stored)

abbrev pub more_behind : Option LogPageToken → Map LogPageToken StoredTransferLog → Bool
more_behind none stored = false
more_behind (some token) stored = any_behind token stored

-- the page, once the stream is found
unfoldable pub page_of :
    StreamId → Option LogPageToken → ℕ → Map LogPageToken StoredTransferLog → LogsPage
page_of stream after room stored =
    let logs = page_logs after room stored in
    record {
      stream = stream;
      logs = logs;
      next_token = last_token logs;
      complete_to_block =
          complete_to_block (last logs) stored (more_behind (last_token logs) stored);
    }

unfoldable pub logs_page :
    StoreState → StreamId → Option LogPageToken → ℕ → Result LogsPage PageError
logs_page state stream after limit = do
  fail_if (limit == 0) invalid_limit
  found ← ok_or (get stream state) (stream_not_found stream)
  ok (page_of stream after limit found.logs)
