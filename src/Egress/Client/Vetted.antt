-- ===== src/Egress/Client/Vetted.antt =====
-- What internal/transport/client.go sends out.
use hyrule_network_proxy.Prelude.{◌≤◌, ◌≡◌, ◌≢◌, true, none, String, length, ◌≤ℤ◌}
use hyrule_network_proxy.Prelude.Map.{string_key, lookup}
use hyrule_network_proxy.Egress.Policy.{pass}
use hyrule_network_proxy.Egress.Policy.Redirects.{IsAccepted}
use hyrule_network_proxy.Egress.Headers.{is_listed, is_request_header}
use hyrule_network_proxy.Egress.Client.{
  Config, HttpClient, Dial, guarded, guarded_socks, proxied, NetworkRequest, Outgoing, World,
  allowed_methods, validate_host, mode_of,
}

-- The way to the destination is the one of the mode.
abbrev Suits : String → Dial → Type 0
Suits mode (guarded m) = m ≡ mode
Suits mode (guarded_socks m) = m ≡ mode
Suits mode proxied = mode ≡ "i2p"

abbrev IsSuited : String → HttpClient → Type 0
IsSuited mode h = Suits mode h.dial × (h.redirect_mode ≡ mode)

-- A request that the policy lets out.
pub record IsVetted {Addr : Type 0} (w : World Addr) (cfg : Config) (r : NetworkRequest)
    (q : Outgoing) : Type 0 where
  pub accepted : IsAccepted w.lib (mode_of r.proxy_mode) r.url q.url
  pub host : validate_host w q.url.hostname (mode_of r.proxy_mode) ≡ pass tt
  pub method : is_listed q.method allowed_methods ≡ true
  pub small : length q.body ≤ cfg.max_request_body_bytes
  pub soon : q.timeout ≤ℤ cfg.max_timeout
  pub clean : (key : String) → lookup key q.headers ≢ none → is_request_header w.lower key ≡ true
  pub suited : IsSuited (mode_of r.proxy_mode) q.client
