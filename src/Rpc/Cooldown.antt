-- ===== src/Rpc/Cooldown.antt =====
-- How long a provider that failed is left alone.
use native.Mathlib.Nat.{one-le-pow, pow-le-pow_right}
use pay.Common.{ℕ, suc, ◌+◌, ◌-◌, ◌^◌, ◌≤◌, ◌<◌, ◌≡◌, refl, true, false, leb, arith, min, le→leb}
use pay.Rpc.Health.{
  Instant, RpcProviderHealth, from_secs, provider_cooldown, is_available, record_failure,
  record_success, u32_max,
}

cooldown_bounds : (n : ℕ) → (5 ≤ provider_cooldown n) × (provider_cooldown n ≤ 60)
unfolding provider_cooldown
cooldown_bounds n =
    let h = one-le-pow (min (n - 1) 4) 2 (omega arith) in (omega (arith, h), omega (arith, h))

-- More failures in a row never make the cooldown shorter.
pub provider_cooldown_mono : (m n : ℕ) → m ≤ n → provider_cooldown m ≤ provider_cooldown n
unfolding provider_cooldown
provider_cooldown_mono m n h =
    let e : min (m - 1) 4 ≤ min (n - 1) 4 = omega (arith, h) in
    let k : 2 ^ min (m - 1) 4 ≤ 2 ^ min (n - 1) 4 = pow-le-pow_right (omega arith) e in
    omega (arith, k)

gt→leb : (a b : ℕ) → b < a → leb a b ≡ false
gt→leb a b h = ground arith

-- A provider that fails is left alone for five seconds at least and for sixty at most, whatever failed
-- before; the count of its failures rises by one, up to the last u32; and one answer makes it available
-- at every instant.
pub record_failure_lem :
    (h : RpcProviderHealth) (now t : Instant)
    → (t < now + from_secs 5 → is_available (record_failure h now) t ≡ false)
      × (now + from_secs 60 ≤ t → is_available (record_failure h now) t ≡ true)
      × ((record_failure h now).consecutive_failures ≡ min (suc h.consecutive_failures) u32_max)
      × (is_available (record_success (record_failure h now)) t ≡ true)
unfolding is_available record_failure record_success
record_failure_lem h now t =
    let (low, high) = cooldown_bounds (min (suc h.consecutive_failures) u32_max) in
    (
      λ soon. gt→leb _ t (omega (arith, low, soon)),
      λ late. le→leb _ t (omega (arith, high, late)),
      refl,
      refl,
    )
