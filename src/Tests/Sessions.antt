-- ===== src/Tests/Sessions.antt =====
-- The theorems on internal/tunnel/sshd/server.go at one connection and one run of the accept loop.
use hyrule_network_proxy.Prelude.{◌≡◌, ◌↔◌, true, false, some, List, [], ◌∷◌, pos, ◌<ℤ◌}
use hyrule_network_proxy.Prelude.Map.{string_key}
use hyrule_network_proxy.Sshd.Limiter.{new_auth_limiter}
use hyrule_network_proxy.Sshd.Server.{
  Accepted, failed, accepted, Intake, GlobalRequest, tcpip_forward, cancel_tcpip_forward, Arrival,
  keepalive,
}
use hyrule_network_proxy.Sshd.Server.Alive.{HasThreeMisses, keepalive_iff}
use hyrule_network_proxy.Tests.Servers.{leases}

-- Two errors, and three connections of one address, of which the limiter admits two.
abbrev events : List Accepted
events =
    failed
    ∷ failed
    ∷ accepted (pos 1) "h" 1
    ∷ accepted (pos 2) "h" 2
    ∷ failed
    ∷ accepted (pos 3) "h" 3
    ∷ []

abbrev intake : Intake
intake = record {
  limiter = new_auth_limiter 2 (pos 1000) (pos 0);
  accept_backoff = 0;
  auth_failures = 0;
  waited = [];
  handled = [];
  dropped = [];
}

-- A request for a forward, and its cancel, behind which the lease is torn down.
abbrev asks : GlobalRequest
asks = record {
  kind = tcpip_forward;
  payload = some ("", 0);
  want_reply = true;
  store = leases;
  now = pos 1200;
  binds = true;
  others = λ m. m;
}

abbrev arrival : Arrival
arrival = record {
  store = leases;
  now = pos 1200;
  registering = leases;
  registering_now = pos 1200;
  others = λ m. m;
  last_others = λ m. m;
}

abbrev requests : List GlobalRequest
requests = asks ∷ record asks { kind = cancel_tcpip_forward } ∷ asks ∷ []

keepalive_iff_example :
    (keepalive (pos 30) (false ∷ true ∷ false ∷ false ∷ false ∷ []) ≡ true)
    ↔ ((pos 0 <ℤ pos 30) × HasThreeMisses (false ∷ true ∷ false ∷ false ∷ false ∷ []))
keepalive_iff_example = keepalive_iff (pos 30) (false ∷ true ∷ false ∷ false ∷ false ∷ [])
