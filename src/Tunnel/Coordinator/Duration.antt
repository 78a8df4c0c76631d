-- ===== src/Tunnel/Coordinator/Duration.antt =====
-- The durations of internal/tunnel/coordinator.go: clampDuration.
use hyrule_network_proxy.Prelude.{
  to_int64, ℕ, ◌*◌, ◌^◌, ◌≤◌, ◌<◌, ◌≡◌, arith, ℤ, pos, ◌≤ℤ◌, ◌<ℤ◌, ◌*ℤ◌,
}
use hyrule_network_proxy.Tunnel.Coordinator.{Config, clamp_seconds, clamp_duration, second}

-- With a minimum that is at most the maximum, the seconds that are asked for are brought into the
-- configured bounds, and are kept if they lie there.
pub clamp_seconds_bounds :
    (cfg : Config) (seconds : ℤ)
    → cfg.min_lease_seconds ≤ℤ cfg.max_lease_seconds
    → (cfg.min_lease_seconds ≤ℤ clamp_seconds cfg seconds)
      × (clamp_seconds cfg seconds ≤ℤ cfg.max_lease_seconds)
      × (cfg.min_lease_seconds ≤ℤ seconds
          → seconds ≤ℤ cfg.max_lease_seconds
          → clamp_seconds cfg seconds ≡ seconds)
unfolding clamp_seconds
clamp_seconds_bounds cfg seconds h = (ground arith, ground arith, λ l u. ground arith)

to_int64_wrapped : (n : ℕ) → 2 ^ 63 ≤ n → n < 2 ^ 64 → to_int64 (pos n) <ℤ pos 0
unfolding to_int64
to_int64_wrapped n l h = ground arith

times_second : (n : ℕ) → pos n *ℤ second ≡ pos (n * 1_000_000_000)
unfolding ◌*ℤ◌
times_second n = ground arith

wrapped_of :
    (z : ℤ) (n : ℕ)
    → z ≡ pos n
    → 9_223_372_037 ≤ n
    → n ≤ 18_446_744_073
    → to_int64 (z *ℤ second) <ℤ pos 0
wrapped_of z n e l h =
    rw (e, times_second n) (to_int64_wrapped (n * 1_000_000_000) (omega arith) (omega arith))

-- With a maximum from 9223372037 up to 18446744073 seconds that is not below the minimum, a request
-- for the maximum or more gets a negative duration: the product with time.Second leaves int64.
pub clamp_duration_wraps :
    (cfg : Config) (seconds : ℤ) (n : ℕ)
    → cfg.max_lease_seconds ≡ pos n
    → 9_223_372_037 ≤ n
    → n ≤ 18_446_744_073
    → cfg.max_lease_seconds ≤ℤ seconds
    → cfg.min_lease_seconds ≤ℤ cfg.max_lease_seconds
    → clamp_duration cfg seconds <ℤ pos 0
unfolding clamp_duration
clamp_duration_wraps cfg seconds n e l h k m =
    wrapped_of (clamp_seconds cfg seconds) n (unfold clamp_seconds in ground arith) l h
