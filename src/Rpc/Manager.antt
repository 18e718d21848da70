-- ===== src/Rpc/Manager.antt =====
-- src/chain/rpc.rs, `RpcProviderManager`: which providers a request is put to, and what becomes of
-- their answers.
use pay.Common.{
  ℕ, zero, suc, ◌+◌, ◌%◌, List, [], ◌∷◌, ◌++◌, map, Result, ok, err, ◌>>◌, fail_if, ltb,
  if◌then◌else◌, length,
}
use pay.Common.Uint.{Text}
use pay.Common.Strings.{codes, is_empty}
use pay.Domain.Address.{nth}
use pay.Domain.Chain.{u64_end}
use pay.LogStore.Source.{ChainError, rpc_unavailable}
use pay.Rpc.Health.{
  Instant, RpcProviderHealth, ManagedRpcProvider, default_health, is_available, record_success,
  record_failure,
}
use pay.Rpc.Texts.{to_string, join, decimal, is_provider_health_failure}

pub record RpcProviderManager : Type 0 where
  pub expected_chain_id : ℕ
  pub min_provider_count : ℕ
  pub providers : List ManagedRpcProvider
  pub round_robin_counter : ℕ

abbrev managed : Text → ManagedRpcProvider
managed id = record { provider_id = id; health = default_health }

unfoldable pub with_min_provider_count : ℕ → List Text → ℕ → Result RpcProviderManager ChainError
with_min_provider_count expected_chain_id providers min_provider_count = do
  fail_if (ltb (length providers) min_provider_count) (
      rpc_unavailable (
        codes "configured "
        ++ decimal (length providers)
        ++ codes " RPC providers, expected at least "
        ++ decimal min_provider_count))
  fail_if (is_empty providers) (rpc_unavailable (codes "no RPC providers configured"))
  ok (record {
    expected_chain_id = expected_chain_id;
    min_provider_count = min_provider_count;
    providers = map managed providers;
    round_robin_counter = 0;
  })

-- the places, from `i` on, of the providers that are not left alone
unfoldable pub available_from : Instant → ℕ → List ManagedRpcProvider → List ℕ
available_from now i [] = []
available_from now i (p ∷ ps) =
    let rest = available_from now (suc i) ps in if is_available p.health now then i ∷ rest else rest

unfoldable pub places_from : ℕ → List ManagedRpcProvider → List ℕ
places_from i [] = []
places_from i (p ∷ ps) = i ∷ places_from (suc i) ps

-- `self.providers` or `available`, by the places of the providers
abbrev pub pool_of : List ℕ → List ManagedRpcProvider → List ℕ
pool_of [] providers = places_from 0 providers
pool_of (i ∷ available) providers = i ∷ available

-- the loop `for i in 0..pool.len()`, with `k` rounds left
unfoldable pub rotated : List ℕ → ℕ → ℕ → ℕ → List ℕ
rotated pool start i zero = []
rotated pool start i (suc k) = nth pool ((start + i) % length pool) ∷ rotated pool start (suc i) k

abbrev pub pool : RpcProviderManager → Instant → List ℕ
pool m now = pool_of (available_from now 0 m.providers) m.providers

-- The manager afterwards has counted the request, modulo 2 ^ 64.
unfoldable pub provider_candidates : RpcProviderManager → Instant → List ℕ × RpcProviderManager
provider_candidates m now = if is_empty (pool m now) then ([], m) else (
  rotated (pool m now) (m.round_robin_counter % length (pool m now)) 0 (length (pool m now)),
  record {
    expected_chain_id = m.expected_chain_id;
    min_provider_count = m.min_provider_count;
    providers = m.providers;
    round_robin_counter = (m.round_robin_counter + 1) % u64_end;
  },
)

abbrev pub id_at : ℕ → List ManagedRpcProvider → Text
id_at i [] = []
id_at zero (p ∷ ps) = p.provider_id
id_at (suc i) (p ∷ ps) = id_at i ps

-- the health of one provider set anew
abbrev pub set_health :
    (RpcProviderHealth → RpcProviderHealth) → ℕ → List ManagedRpcProvider → List ManagedRpcProvider
set_health f i [] = []
set_health f zero (p ∷ ps) = record { provider_id = p.provider_id; health = f p.health } ∷ ps
set_health f (suc i) (p ∷ ps) = p ∷ set_health f i ps

abbrev pub with_health : List ManagedRpcProvider → RpcProviderManager → RpcProviderManager
with_health providers m = record {
  expected_chain_id = m.expected_chain_id;
  min_provider_count = m.min_provider_count;
  providers = providers;
  round_robin_counter = m.round_robin_counter;
}

-- the text of one error in the list of a request
abbrev pub line : ℕ → List ManagedRpcProvider → Text → Text
line i providers message = id_at i providers ++ codes ": " ++ message

pub record ProviderValue (Value : Type 0) : Type 0 where
  pub provider_id : Text
  pub value : Value

-- One request: `answer i` is what the provider at the place `i` answers, and `at i` the instant when it
-- has answered.
module _ {Value : Type 0} (answer : ℕ → Result Value ChainError) (at : ℕ → Instant) where
  abbrev pub failed : ℕ → List ManagedRpcProvider → List ManagedRpcProvider
  failed i providers = set_health (λ h. record_failure h (at i)) i providers

  abbrev pub failed_with : ChainError → ℕ → List ManagedRpcProvider → List ManagedRpcProvider
  failed_with error i providers =
      if is_provider_health_failure error then failed i providers else providers

  abbrev Tried : Type 0
  Tried = Result (ProviderValue Value) ChainError × List ManagedRpcProvider

  -- one round of the loop of `request_first_success`, with the errors so far: what follows it is `rest`
  abbrev pub tried :
      ℕ
      → Result Value ChainError
      → (List Text → List ManagedRpcProvider → Tried)
      → List Text
      → List ManagedRpcProvider
      → Tried
  tried i (ok value) rest errors providers = (
    ok (record { provider_id = id_at i providers; value = value }),
    set_health record_success i providers,
  )
  tried i (err error) rest errors providers =
      rest (errors ++ line i providers (to_string error) ∷ []) (failed_with error i providers)

  unfoldable pub first_success_from : Text → List ℕ → List Text → List ManagedRpcProvider → Tried
  first_success_from method [] errors providers = (
    err (
        rpc_unavailable (codes "all RPC providers failed " ++ method ++ codes ": " ++ join errors)),
    providers,
  )
  first_success_from method (i ∷ is) errors providers =
      tried i (answer i) (first_success_from method is) errors providers

  unfoldable pub request_first_success :
      RpcProviderManager
      → Instant
      → Text
      → Result (ProviderValue Value) ChainError × RpcProviderManager
  request_first_success m now method =
      let (providers, counted) = provider_candidates m now in
      let (reply, health) = first_success_from method providers [] m.providers in
      (reply, with_health health counted)
