-- ===== src/Config/Egress.antt =====
-- The configuration of the egress daemon: internal/config/config.go. `parses_url` says whether
-- url.Parse takes a text, `lower` stands for strings.ToLower behind strings.TrimSpace.
use hyrule_network_proxy.Prelude.{
  Bool, true, false, not, ◌||◌, Option, none, some, [], ite, ltb_ℤ, leb_ℤ, if◌then◌else◌, ℤ, pos,
  ◌≤ℤ◌, ◌<ℤ◌, ◌≡◌, ◌≢◌, ◌↔◌, String, Bytes, bytes, bytes_discrete, string_discrete, arith, subst,
  sym, Option-cases, inl, inr,
}
use hyrule_network_proxy.Config.Environment.{Environment, getenv, getenv_int, getenv_bool, seconds}

pub record Config : Type 0 where
  pub api_listen_addr : Bytes
  pub metrics_listen_addr : Bytes
  pub auth_token : Bytes
  pub tor_socks_addr : Bytes
  pub i2p_http_proxy : Bytes
  pub yggdrasil : Bool
  pub max_request_body_bytes : ℤ
  pub max_response_body_bytes : ℤ
  pub default_timeout : ℤ
  pub max_timeout : ℤ
  pub max_redirects : ℤ
  pub log_level : Bytes

pub data ConfigError : Type 0 where
  no_token bad_proxy bad_sizes bad_timeouts : ConfigError

pub data Loaded : Type 0 where
  loaded : Config → Loaded
  rejected : ConfigError → Loaded

unfoldable pub read_config : Environment → Config
unfolding getenv getenv_int getenv_bool seconds
read_config env = record {
  api_listen_addr = getenv env "HNP_API_LISTEN_ADDR" (bytes "127.0.0.1:8450");
  metrics_listen_addr = getenv env "HNP_METRICS_LISTEN_ADDR" (bytes "127.0.0.1:8451");
  auth_token = env.var "HNP_AUTH_TOKEN";
  tor_socks_addr = getenv env "HNP_TOR_SOCKS_ADDR" (bytes "127.0.0.1:9050");
  i2p_http_proxy = getenv env "HNP_I2P_HTTP_PROXY" (bytes "http://127.0.0.1:4444");
  yggdrasil = getenv_bool env "HNP_YGGDRASIL_ENABLED" true;
  max_request_body_bytes = getenv_int env "HNP_MAX_REQUEST_BODY_BYTES" (pos 65536);
  max_response_body_bytes = getenv_int env "HNP_MAX_RESPONSE_BODY_BYTES" (pos 65536);
  default_timeout = seconds (getenv_int env "HNP_DEFAULT_TIMEOUT_SECONDS" (pos 15));
  max_timeout = seconds (getenv_int env "HNP_MAX_TIMEOUT_SECONDS" (pos 60));
  max_redirects = getenv_int env "HNP_MAX_REDIRECTS" (pos 3);
  log_level = getenv env "HNP_LOG_LEVEL" (bytes "info");
}

unfoldable pub first_error : (Bytes → Bool) → Config → Option ConfigError
first_error parses_url cfg =
    if ite (bytes_discrete cfg.auth_token []) true false
    then some no_token
    else if not (parses_url cfg.i2p_http_proxy)
    then some bad_proxy
    else if leb_ℤ cfg.max_request_body_bytes (pos 0) || leb_ℤ cfg.max_response_body_bytes (pos 0)
    then some bad_sizes
    else if leb_ℤ cfg.max_timeout (pos 0)
        || leb_ℤ cfg.default_timeout (pos 0)
        || ltb_ℤ cfg.max_timeout cfg.default_timeout
    then some bad_timeouts
    else none

unfoldable pub load : (Bytes → Bool) → Environment → Loaded
unfolding first_error read_config
load parses_url env = elim (first_error parses_url (read_config env)) [
  | none ↦ loaded (read_config env)
  | some e ↦ rejected e
]

pub data LogLevel : Type 0 where
  level_debug level_info level_warn level_error : LogLevel

unfoldable pub parse_log_level : (String → String) → String → LogLevel
parse_log_level lower level =
    let name = lower level in
    if ite (string_discrete name "debug") true false
    then level_debug
    else if ite (string_discrete name "warn") true false
        || ite (string_discrete name "warning") true false
    then level_warn
    else if ite (string_discrete name "error") true false
    then level_error
    else level_info

-- What a configuration has to be for the daemon to start with it.
pub record IsUsable (parses_url : Bytes → Bool) (cfg : Config) : Type 0 where
  pub token : cfg.auth_token ≢ []
  pub proxy : parses_url cfg.i2p_http_proxy ≡ true
  pub request_bytes : pos 0 <ℤ cfg.max_request_body_bytes
  pub response_bytes : pos 0 <ℤ cfg.max_response_body_bytes
  pub timeout : pos 0 <ℤ cfg.default_timeout
  pub timeouts : cfg.default_timeout ≤ℤ cfg.max_timeout

usable : (p : Bytes → Bool) (cfg : Config) → first_error p cfg ≡ none → IsUsable p cfg
unfolding first_error
usable p cfg h = record {
  token = λ e. ground arith;
  proxy = ground arith;
  request_bytes = ground arith;
  response_bytes = ground arith;
  timeout = ground arith;
  timeouts = ground arith;
}

no_error : (p : Bytes → Bool) (cfg : Config) → IsUsable p cfg → first_error p cfg ≡ none
unfolding first_error
no_error p cfg u = ground (arith, u.token)

-- The configuration that is loaded is the one that the variables and the defaults give, and it is
-- loaded exactly if it is usable: with a token, a proxy whose URL parses, limits that are positive,
-- and a default timeout that is positive and at most the maximum.
pub load-IsUsable_iff :
    (parses_url : Bytes → Bool) (env : Environment) (cfg : Config)
    → (load parses_url env ≡ loaded cfg) ↔ ((cfg ≡ read_config env) × IsUsable parses_url cfg)
unfolding load
load-IsUsable_iff p env cfg = (there, back)
  where
    there : load p env ≡ loaded cfg → (cfg ≡ read_config env) × IsUsable p cfg
    there h = elim (Option-cases (first_error p (read_config env))) [
      | inl e ↦
          let same : read_config env ≡ cfg = ground arith in
          (sym same, subst (IsUsable p) same (usable p (read_config env) e))
      | inr (x, e) ↦ absurd (ground arith)
    ]

    back : (cfg ≡ read_config env) × IsUsable p cfg → load p env ≡ loaded cfg
    back (same, u) =
        let e = no_error p (read_config env) (subst (IsUsable p) same u) in ground arith
