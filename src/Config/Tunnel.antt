-- ===== src/Config/Tunnel.antt =====
-- The configuration of the tunnel daemon: internal/tunnel/config/config.go. What package net and
-- fmt.Sscanf do are fields of `Network`.
pub mod Checks
use hyrule_network_proxy.Prelude.{
  ℕ, ◌≤◌, ◌≡◌, ◌≢◌, ◌↔◌, refl, Bool, true, false, ◌||◌, ◌==◌, Option, none, some, List, [], ◌∷◌,
  ite, length, ltb, leb, ltb_ℤ, leb_ℤ, if◌then◌else◌, ℤ, pos, ◌≤ℤ◌, ◌<ℤ◌, Bytes, bytes,
  bytes_discrete, arith, Bool-cases, Option-cases, inl, inr,
}
use hyrule_network_proxy.Config.Environment.{Environment, getenv, getenv_int, seconds}

pub record Network (Addr : Type 0) : Type 0 where
  pub split_host_port : Bytes → Option (Bytes × Bytes)
  pub parse_ip : Bytes → Option Addr
  pub is_unspecified : Addr → Bool
  pub lookup_host : Bytes → Option (List Bytes)
  pub scan_range : Bytes → Option (ℤ × ℤ)
  pub join_path : Bytes → Bytes → Bytes

pub record Config : Type 0 where
  pub ssh_listen_addr : Bytes
  pub control_listen_addr : Bytes
  pub metrics_listen_addr : Bytes
  pub stun_listen_addr : Bytes
  pub auth_token : Bytes
  pub endpoint_host : Bytes
  pub ssh_port : ℤ
  pub state_dir : Bytes
  pub host_key_path : Bytes
  pub data_port_min : ℤ
  pub data_port_max : ℤ
  pub min_lease_seconds : ℤ
  pub max_lease_seconds : ℤ
  pub max_visitor_conns_per_lease : ℤ
  pub auth_attempts_per_window : ℤ
  pub auth_window : ℤ
  pub keepalive_interval : ℤ
  pub log_level : Bytes

pub data ConfigError : Type 0 where
  bad_range no_token weak_token no_host control_wildcard metrics_wildcard bad_lease_bounds
        bad_visitors bad_rate_limit :
      ConfigError

pub data Loaded : Type 0 where
  loaded : Config → Loaded
  rejected : ConfigError → Loaded

abbrev is_empty_text : Bytes → Bool
is_empty_text s = ite (bytes_discrete s []) true false

-- The text before its first '%'.
abbrev before_zone : Bytes → Bytes
before_zone [] = []
before_zone (c ∷ cs) = let rest = before_zone cs in if c == 37 then [] else c ∷ rest

unfoldable pub any_unspecified : {Addr : Type 0} → Network Addr → List Bytes → Bool
any_unspecified net [] = false
any_unspecified net (a ∷ rest) = elim (net.parse_ip a) [
  | none ↦ any_unspecified net rest
  | some ip ↦ net.is_unspecified ip || any_unspecified net rest
]

abbrev host_is_wildcard : {Addr : Type 0} → Network Addr → Bytes → Option Addr → Bool
host_is_wildcard net host (some ip) = net.is_unspecified ip
host_is_wildcard net host none = elim (net.lookup_host host) [
  | none ↦ false
  | some addrs ↦ any_unspecified net addrs
]

unfoldable pub is_wildcard_addr : {Addr : Type 0} → Network Addr → Bytes → Bool
unfolding any_unspecified
is_wildcard_addr net addr = elim (net.split_host_port addr) [
  | none ↦ true
  | some (host, port) ↦
      if is_empty_text host
      then true
      else host_is_wildcard net host (net.parse_ip (before_zone host))
]

abbrev checked_range : Option (ℤ × ℤ) → Option (ℤ × ℤ)
checked_range none = none
checked_range (some (lo, hi)) =
    if ltb_ℤ lo (pos 1) || ltb_ℤ (pos 65535) hi || ltb_ℤ hi lo then none else some (lo, hi)

unfoldable pub parse_port_range : {Addr : Type 0} → Network Addr → Bytes → Option (ℤ × ℤ)
parse_port_range net s = checked_range (net.scan_range s)

-- The configuration as it is read, with the range of the ports.
unfoldable pub read_config : {Addr : Type 0} → Network Addr → Environment → ℤ × ℤ → Config
unfolding getenv getenv_int seconds
read_config net env (lo, hi) =
    let state_dir = getenv env "HTP_STATE_DIR" (bytes "/var/lib/hyrule-tunnel-proxy") in
    record {
      ssh_listen_addr = getenv env "HTP_SSH_LISTEN_ADDR" (bytes ":2222");
      control_listen_addr = getenv env "HTP_CONTROL_LISTEN_ADDR" (bytes "127.0.0.1:8452");
      metrics_listen_addr = getenv env "HTP_METRICS_LISTEN_ADDR" (bytes "127.0.0.1:8453");
      stun_listen_addr = getenv env "HTP_STUN_LISTEN_ADDR" (bytes ":3478");
      auth_token = env.var "HTP_AUTH_TOKEN";
      endpoint_host = getenv env "HTP_ENDPOINT_HOST" (bytes "tun.hyrule.host");
      ssh_port = getenv_int env "HTP_SSH_PORT" (pos 2222);
      state_dir = state_dir;
      host_key_path =
          getenv env "HTP_HOST_KEY_PATH" (net.join_path state_dir (bytes "ssh_host_ed25519_key"));
      data_port_min = lo;
      data_port_max = hi;
      min_lease_seconds = getenv_int env "HTP_MIN_LEASE_SECONDS" (pos 3600);
      max_lease_seconds = getenv_int env "HTP_MAX_LEASE_SECONDS" (pos 2_592_000);
      max_visitor_conns_per_lease = getenv_int env "HTP_MAX_VISITOR_CONNS_PER_LEASE" (pos 64);
      auth_attempts_per_window = getenv_int env "HTP_AUTH_ATTEMPTS_PER_WINDOW" (pos 5);
      auth_window = seconds (getenv_int env "HTP_AUTH_WINDOW_SECONDS" (pos 30));
      keepalive_interval = seconds (getenv_int env "HTP_KEEPALIVE_SECONDS" (pos 30));
      log_level = getenv env "HTP_LOG_LEVEL" (bytes "info");
    }

-- The checks behind the range of the ports, by the first that fails.
unfoldable pub first_error : {Addr : Type 0} → Network Addr → Config → Option ConfigError
unfolding is_wildcard_addr
first_error net cfg =
    if is_empty_text cfg.auth_token
    then some no_token
    else if ltb (length cfg.auth_token) 32
        || ite (bytes_discrete cfg.auth_token (bytes "change-me")) true false
    then some weak_token
    else if is_empty_text cfg.endpoint_host
    then some no_host
    else if is_wildcard_addr net cfg.control_listen_addr
    then some control_wildcard
    else if is_wildcard_addr net cfg.metrics_listen_addr
    then some metrics_wildcard
    else if leb_ℤ cfg.min_lease_seconds (pos 0) || ltb_ℤ cfg.max_lease_seconds cfg.min_lease_seconds
    then some bad_lease_bounds
    else if leb_ℤ cfg.max_visitor_conns_per_lease (pos 0)
    then some bad_visitors
    else if leb_ℤ cfg.auth_attempts_per_window (pos 0) || leb_ℤ cfg.auth_window (pos 0)
    then some bad_rate_limit
    else none

abbrev pub checked : {Addr : Type 0} → Network Addr → Config → Loaded
checked net cfg = elim (first_error net cfg) [ none ↦ loaded cfg | some e ↦ rejected e ]

abbrev pub loaded_with : {Addr : Type 0} → Network Addr → Environment → Option (ℤ × ℤ) → Loaded
loaded_with net env none = rejected bad_range
loaded_with net env (some range) = checked net (read_config net env range)

unfoldable pub load : {Addr : Type 0} → Network Addr → Environment → Loaded
unfolding parse_port_range
load net env =
    loaded_with net env
      (parse_port_range net (getenv env "HTP_DATA_PORT_RANGE" (bytes "10000-10499")))
