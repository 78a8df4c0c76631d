-- ===== src/Lease/Model.antt =====
-- The lease of internal/tunnel/lease/store.go. Instants and durations are signed numbers of
-- nanoseconds. `parse_cidr` and `contains` stand for net.ParseCIDR and (*net.IPNet).Contains.
use hyrule_network_proxy.Prelude.{
  ℕ, String, Bool, true, false, not, ◌||◌, Option, none, some, List, [], ◌∷◌, ℤ, ltb_ℤ,
}

-- net.IP is a slice of bytes, empty for nil.
abbrev pub Ip : Type 0
Ip = List ℕ

pub record IpNet : Type 0 where
  pub ip : Ip
  pub mask : List ℕ

pub record Net : Type 0 where
  pub parse_cidr : String → Option IpNet
  pub contains : IpNet → Ip → Bool

pub record Lease : Type 0 where
  pub lease_id : String
  pub token : String
  pub allocated_port : ℕ
  pub allowlist_cidrs : List String
  pub created_at : ℤ
  pub expires_at : ℤ
  pub status : String

abbrev pub status_active : String
status_active = "active"

-- !now.Before(l.ExpiresAt)
unfoldable pub expired : Lease → ℤ → Bool
expired l now = not (ltb_ℤ now l.expires_at)

-- err == nil && n.Contains(ip), at one entry of the list.
abbrev pub matches_cidr : Net → Ip → String → Bool
matches_cidr net ip c = elim (net.parse_cidr c) [ none ↦ false | some n ↦ net.contains n ip ]

unfoldable pub any_cidr : Net → Ip → List String → Bool
any_cidr net ip [] = false
any_cidr net ip (c ∷ cs) = matches_cidr net ip c || any_cidr net ip cs

abbrev allows_listed : Net → Ip → List String → Bool
allows_listed net ip [] = true
allows_listed net ip (c ∷ cs) = any_cidr net ip (c ∷ cs)

unfoldable pub allows_ip : Net → Lease → Ip → Bool
unfolding any_cidr
allows_ip net l ip = allows_listed net ip l.allowlist_cidrs
