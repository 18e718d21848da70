-- ===== src/Services/Windows.antt =====
-- src/services/payment_windows.rs: the payment windows for receive addresses, from the watch set in
-- memory and from a fallback behind it.
pub mod Watched
mod Tests
use pay.Common.Strings.{is_empty}
use pay.Common.{
  ℕ, Bool, ◌&&◌, ◌||◌, Option, none, some, List, [], ◌∷◌, ◌++◌, Result, ok, err, ◌>>=◌, ltb, ◌==◌,
  if◌then◌else◌, filter, length, ◌≡◌, true, false, ◌↔◌, arith, ◌+◌,
}
use pay.Common.Maps.{Ord, Map, get, push, remove, or_default, insert_set, nat_ord, values}
use pay.Domain.Address.{EvmAddress}
use pay.Ledger.{PaymentWindowCandidate}
use pay.Db.Types.{RepositoryError}

pub data PaymentWindowLookupError : Type 0 where
  invalid_config : PaymentWindowLookupError
  repository : RepositoryError → PaymentWindowLookupError

pub record PaymentWindowKey : Type 0 where
  pub chain_id : ℕ
  pub token_address : EvmAddress
  pub receive_address : EvmAddress

-- the derived order of keys
abbrev pub same_key : PaymentWindowKey → PaymentWindowKey → Bool
same_key a b =
    a.chain_id == b.chain_id
    && a.token_address == b.token_address
    && a.receive_address == b.receive_address

abbrev pub less_key : PaymentWindowKey → PaymentWindowKey → Bool
less_key a b =
    ltb a.chain_id b.chain_id
    || (a.chain_id == b.chain_id
        && (ltb a.token_address b.token_address
            || (a.token_address == b.token_address && ltb a.receive_address b.receive_address)))

pub same_key_iff : (a b : PaymentWindowKey) → (same_key a b ≡ true) ↔ (a ≡ b)
same_key_iff a b = ground arith

pub less_key_trans :
    (a b c : PaymentWindowKey) → less_key a b ≡ true → less_key b c ≡ true → less_key a c ≡ true
less_key_trans a b c h k = ground arith

pub less_key_irrefl : (a : PaymentWindowKey) → less_key a a ≡ false
less_key_irrefl a = ground arith

pub less_key_total :
    (a b : PaymentWindowKey) → less_key a b ≡ false → same_key b a ≡ false → less_key b a ≡ true
less_key_total a b h k = ground arith

instance abbrev pub key_ord : Ord PaymentWindowKey
key_ord = record {
  same = same_key;
  less = less_key;
  same_iff = same_key_iff;
  less_trans = less_key_trans;
  less_irrefl = less_key_irrefl;
  less_total = less_key_total;
}

abbrev pub key_of : ℕ → EvmAddress → EvmAddress → PaymentWindowKey
key_of chain_id token_address receive_address = record {
  chain_id = chain_id;
  token_address = token_address;
  receive_address = receive_address;
}

unfoldable pub from_candidate : PaymentWindowCandidate → PaymentWindowKey
from_candidate c = key_of c.chain_id c.token_address c.receive_address

abbrev pub WatchSet : Type 0
WatchSet = Map PaymentWindowKey (List PaymentWindowCandidate)

unfoldable pub insert_candidate : PaymentWindowCandidate → WatchSet → WatchSet
insert_candidate c watch_set = push (from_candidate c) c watch_set

-- the rounds of `for candidate in candidates`
unfoldable pub insert_all : List PaymentWindowCandidate → WatchSet → WatchSet
insert_all [] watch_set = watch_set
insert_all (c ∷ cs) watch_set = insert_all cs (insert_candidate c watch_set)

unfoldable pub replace_watch_set : List PaymentWindowCandidate → WatchSet → WatchSet
replace_watch_set candidates watch_set = insert_all candidates []

-- the candidates that were removed, and what is left
unfoldable pub remove_address :
    ℕ → EvmAddress → EvmAddress → WatchSet → List PaymentWindowCandidate × WatchSet
remove_address chain_id token_address receive_address watch_set =
    let key = key_of chain_id token_address receive_address in
    (or_default (get key watch_set), remove key watch_set)

abbrev lengths : List (List PaymentWindowCandidate) → ℕ
lengths [] = 0
lengths (cs ∷ css) = length cs + lengths css

unfoldable pub watch_set_len : WatchSet → ℕ
watch_set_len watch_set = lengths (values watch_set)

abbrev pub contains : EvmAddress → List EvmAddress → Bool
contains address [] = false
contains address (a ∷ tail) = a == address || contains address tail

-- the loop of `deduplicate_addresses`
abbrev pub deduplicate_from : List EvmAddress → List EvmAddress → List EvmAddress
deduplicate_from seen [] = []
deduplicate_from seen (a ∷ tail) =
    let rest = deduplicate_from (insert_set a seen) tail in
    if contains a seen then rest else a ∷ rest

unfoldable pub deduplicate_addresses : List EvmAddress → List EvmAddress
deduplicate_addresses to_addresses = deduplicate_from [] to_addresses

unfoldable pub candidate_matches : PaymentWindowKey → PaymentWindowCandidate → Bool
candidate_matches key c =
    c.chain_id == key.chain_id
    && c.token_address == key.token_address
    && c.receive_address == key.receive_address

unfoldable pub candidate_is_for_lookup : ℕ → EvmAddress → PaymentWindowCandidate → Bool
candidate_is_for_lookup chain_id token_address c =
    c.chain_id == chain_id && c.token_address == token_address

abbrev pub Lookup : Type 0
Lookup =
    ℕ → EvmAddress → List EvmAddress → Result (List PaymentWindowCandidate) PaymentWindowLookupError

-- an address of the batch: what the watch set holds of it, or a miss
abbrev pub looked_up :
    EvmAddress
    → PaymentWindowKey
    → Option (List PaymentWindowCandidate)
    → List PaymentWindowCandidate × List EvmAddress
    → List PaymentWindowCandidate × List EvmAddress
looked_up address key none rest = (rest.0, address ∷ rest.1)
looked_up address key (some hits) rest =
    let matched = filter (candidate_matches key) hits in
    (matched ++ rest.0, if is_empty matched then address ∷ rest.1 else rest.1)

module _ (watch_set : WatchSet) (chain_id : ℕ) (token_address : EvmAddress) where
  -- the loop over the addresses: the candidates found and the misses
  unfoldable pub watched : List EvmAddress → List PaymentWindowCandidate × List EvmAddress
  watched [] = ([], [])
  watched (a ∷ tail) =
      let key = key_of chain_id token_address a in
      looked_up a key (get key watch_set) (watched tail)

module _ (fallback : Lookup) (chain_id : ℕ) (token_address : EvmAddress) where
  abbrev pub with_fallback :
      List PaymentWindowCandidate
      → List EvmAddress
      → Result (List PaymentWindowCandidate) PaymentWindowLookupError
  with_fallback candidates [] = ok candidates
  with_fallback candidates (miss ∷ misses) = do
    more ← fallback chain_id token_address (miss ∷ misses)
    ok (candidates ++ filter (candidate_is_for_lookup chain_id token_address) more)

-- `WatchSetPaymentWindowLookup::lookup_batch`
unfoldable pub lookup_batch : Lookup → WatchSet → Lookup
lookup_batch fallback watch_set chain_id token_address to_addresses =
    let wanted = deduplicate_addresses to_addresses in
    let (candidates, misses) = watched watch_set chain_id token_address wanted in
    if is_empty wanted
    then ok []
    else with_fallback fallback chain_id token_address candidates misses

abbrev answered :
    Result (List PaymentWindowCandidate) RepositoryError
    → Result (List PaymentWindowCandidate) PaymentWindowLookupError
answered (ok candidates) = ok candidates
answered (err e) = err (repository e)

-- `RepositoryPaymentWindowLookup::lookup_batch`, of what the repository answers
unfoldable pub lookup_in_repository :
    (ℕ → EvmAddress → List EvmAddress → Result (List PaymentWindowCandidate) RepositoryError)
    → ℕ
    → Lookup
lookup_in_repository lookup_candidates max_addresses chain_id token_address to_addresses =
    let wanted = deduplicate_addresses to_addresses in
    if max_addresses == 0
    then err invalid_config
    else if ltb max_addresses (length wanted)
    then err invalid_config
    else answered (lookup_candidates chain_id token_address wanted)
