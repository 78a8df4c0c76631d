-- ===== src/Tunnel/Contract.antt =====
-- The wire types of internal/tunnel/contract/types.go.
use hyrule_network_proxy.Prelude.{ℕ, String, Bool, List, ℤ}

pub record CreateLeaseRequest : Type 0 where
  pub lease_id : String
  pub duration_seconds : ℤ
  pub allowlist_cidrs : List String

pub record ExtendLeaseRequest : Type 0 where
  pub duration_seconds : ℤ

pub record LeaseResponse : Type 0 where
  pub lease_id : String
  pub token : String
  pub port : ℕ
  pub endpoint_host : String
  pub ssh_port : ℕ
  pub status : String
  pub expires_at : ℤ
  pub connected : Bool
  pub visitor_conns : ℕ
  pub bytes_in : ℕ
  pub bytes_out : ℕ

pub record HealthResponse : Type 0 where
  pub status : String
  pub service : String
  pub version : String
  pub active_leases : ℕ
  pub free_ports : ℤ
