-- ===== src/Sshd/Limiter.antt =====
-- The authLimiter of internal/tunnel/sshd/limiter.go. Instants and durations are nanoseconds. The
-- counters are reached through the map alone, so a write to one is a write to its entry.
pub mod Bounded
pub mod Rate
use hyrule_network_proxy.Prelude.{
  ℕ, ◌+◌, ◌-◌, ◌*◌, ◌^◌, String, Bool, true, false, Option, none, some, [], ◌∷◌, leb, ltb_ℤ, leb_ℤ,
  if◌then◌else◌, length, ℤ, pos, negsuc, ◌-ℤ◌,
}
use hyrule_network_proxy.Prelude.Map.{Map, string_key, lookup, put}

pub record WindowCounter : Type 0 where
  pub count : ℕ
  pub start : ℤ

pub record AuthLimiter : Type 0 where
  pub max : ℕ
  pub window : ℤ
  pub seen : Map String WindowCounter
  pub last_cleanup : ℤ

-- 5 * time.Second and authHardCap
abbrev pub auth_cleanup_interval : ℤ
auth_cleanup_interval = pos 5_000_000_000

abbrev pub auth_hard_cap : ℕ
auth_hard_cap = 65536

unfoldable pub new_auth_limiter : ℕ → ℤ → ℤ → AuthLimiter
new_auth_limiter max window zero_time = record {
  max = max;
  window = window;
  seen = [];
  last_cleanup = zero_time;
}

-- t.Sub(u): a Duration, which saturates at the ends of int64.
unfoldable pub sub : ℤ → ℤ → ℤ
sub t u =
    let d = t -ℤ u in
    if ltb_ℤ (pos (2 ^ 63 - 1)) d
    then pos (2 ^ 63 - 1)
    else if ltb_ℤ d (negsuc (2 ^ 63 - 1))
    then negsuc (2 ^ 63 - 1)
    else d

abbrev pub is_live : ℤ → ℤ → WindowCounter → Bool
is_live now window w = leb_ℤ (sub now w.start) window

-- for k, w := range a.seen { if now.Sub(w.start) > a.window { delete(a.seen, k) } }
unfoldable pub evict : ℤ → ℤ → Map String WindowCounter → Map String WindowCounter
evict now window [] = []
evict now window ((k, w) ∷ m) =
    let rest = evict now window m in if is_live now window w then (k, w) ∷ rest else rest

unfoldable pub maybe_cleanup : ℤ → AuthLimiter → AuthLimiter
maybe_cleanup now a =
    if ltb_ℤ (sub now a.last_cleanup) auth_cleanup_interval
    then a
    else record a { last_cleanup = now; seen = evict now a.window a.seen }

pub open_window : ℤ → String → AuthLimiter → Bool × AuthLimiter
open_window now ip a = (true, record a { seen = put ip (record { count = 1; start = now }) a.seen })

-- What `allow` does behind the cleanup, by the entry of the address.
pub admit : ℤ → String → AuthLimiter → Option WindowCounter → Bool × AuthLimiter
unfolding open_window
admit now ip a none = if leb auth_hard_cap (length a.seen) then (false, a) else open_window now ip a
admit now ip a (some w) =
    if is_live now a.window w
    then (if leb a.max w.count
        then (false, a)
        else (true, record a { seen = put ip (record w { count = w.count + 1 }) a.seen }))
    else open_window now ip a

unfoldable pub allow : ℤ → String → AuthLimiter → Bool × AuthLimiter
unfolding admit
allow now ip a = let a' = maybe_cleanup now a in admit now ip a' (lookup ip a'.seen)
