-- ===== src/Tests/Settings.antt =====
-- The theorems on the two configurations at an environment with few variables.
use hyrule_network_proxy.Prelude.{
  ℕ, ◌≡◌, ◌↔◌, true, none, some, [], ◌∷◌, ite, string_discrete, pos, bytes, ◌++◌, ◌==◌,
}
use hyrule_network_proxy.Config.Environment.{Environment}
use hyrule_network_proxy.Config.Egress as EgressConfig
use hyrule_network_proxy.Config.Egress.{IsUsable}
use hyrule_network_proxy.Config.Tunnel as TunnelConfig
use hyrule_network_proxy.Config.Tunnel.{Network}
use hyrule_network_proxy.Config.Tunnel.Checks as TunnelChecks

-- Both tokens are set, and nothing else.
abbrev environment : Environment
environment = record {
  var = λ k.
      ite (string_discrete k "HTP_AUTH_TOKEN") (bytes "0123456789abcdef0123456789abcdef")
        (ite (string_discrete k "HNP_AUTH_TOKEN") (bytes "token") []);
  parse_int = λ s. none;
  parse_bool = λ s. none;
}

-- Every listen address has the host 127; addresses are bytes, of which 0 is the unspecified one.
abbrev pub network : Network ℕ
network = record {
  split_host_port = λ s. some (127 ∷ [], s);
  parse_ip = λ s. elim s [ [] ↦ none | x ∷ xs ↦ some x ];
  is_unspecified = λ a. a == 0;
  lookup_host = λ s. none;
  scan_range = λ s. some (pos 10000, pos 10499);
  join_path = λ d f. d ++ f;
}

abbrev egress_config : EgressConfig.Config
egress_config = EgressConfig.read_config environment

load-IsUsable_iff_example :
    (EgressConfig.load (λ u. true) environment ≡ EgressConfig.loaded egress_config)
    ↔ ((egress_config ≡ EgressConfig.read_config environment) × IsUsable (λ u. true) egress_config)
load-IsUsable_iff_example = EgressConfig.load-IsUsable_iff (λ u. true) environment egress_config

abbrev tunnel_config : TunnelConfig.Config
tunnel_config = TunnelConfig.read_config network environment (pos 10000, pos 10499)
