-- ===== src/Rpc/Health.antt =====
-- src/chain/rpc.rs: how long a provider that failed is left alone.
use pay.Common.{ℕ, suc, ◌+◌, ◌-◌, ◌*◌, ◌^◌, Bool, true, Option, none, some, leb, min}
use pay.Common.Uint.{Text}

-- An `Instant` and a `Duration` are represented by nanoseconds.
abbrev pub Instant : Type 0
Instant = ℕ

abbrev pub from_secs : ℕ → ℕ
from_secs seconds = seconds * 10 ^ 9

abbrev pub rpc_provider_base_cooldown : ℕ
rpc_provider_base_cooldown = 5

abbrev pub rpc_provider_max_cooldown : ℕ
rpc_provider_max_cooldown = 60

-- the last u32 and the last u64
abbrev pub u32_max : ℕ
u32_max = 2 ^ 32 - 1

abbrev u64_max : ℕ
u64_max = 2 ^ 64 - 1

pub record RpcProviderHealth : Type 0 where
  pub consecutive_failures : ℕ
  pub unavailable_until : Option Instant

-- the seconds
unfoldable pub provider_cooldown : ℕ → ℕ
provider_cooldown consecutive_failures =
    let exponent = min (consecutive_failures - 1) 4 in
    let multiplier = 2 ^ exponent in
    min (min (rpc_provider_base_cooldown * multiplier) u64_max) rpc_provider_max_cooldown

abbrev pub default_health : RpcProviderHealth
default_health = record { consecutive_failures = 0; unavailable_until = none }

-- `is_none_or(|until| until <= now)`
abbrev pub is_past : Instant → Option Instant → Bool
is_past now none = true
is_past now (some until) = leb until now

unfoldable pub is_available : RpcProviderHealth → Instant → Bool
is_available h now = is_past now h.unavailable_until

unfoldable pub record_success : RpcProviderHealth → RpcProviderHealth
record_success h = record { consecutive_failures = 0; unavailable_until = none }

unfoldable pub record_failure : RpcProviderHealth → Instant → RpcProviderHealth
record_failure h now =
    let failures = min (suc h.consecutive_failures) u32_max in
    record {
      consecutive_failures = failures;
      unavailable_until = some (now + from_secs (provider_cooldown failures));
    }

-- `ManagedRpcProvider`, the identifier of the provider beside its health; what it answers is a
-- parameter of each request
pub record ManagedRpcProvider : Type 0 where
  pub provider_id : Text
  pub health : RpcProviderHealth
