-- ===== src/Egress/Server.antt =====
-- The handlers of the egress proxy: internal/server/server.go, handlers.go and middleware.go, with
-- the counters of internal/metrics/metrics.go and the modes of internal/transport/modes.go. The
-- histogram of durations and the logs are left out.
pub mod Audited
use hyrule_network_proxy.Prelude.{
  ltb_ℤ, ℤ, pos, pos_part, to_int64, ◌+ℤ◌, ℕ, suc, ◌+◌, ◌/◌, ◌&&◌, ◌||◌, ◌==◌, Bool, true, false,
  not, ite, Option, none, some, List, [], ◌∷◌, String, ltb, if◌then◌else◌, length, take,
  string_discrete, Bytes, bytes_discrete,
}
use hyrule_network_proxy.Prelude.Map.{Map, Key, string_key, nat_key, lookup, put}
use hyrule_network_proxy.Tunnel.Control.{Json, authorized}
use hyrule_network_proxy.Egress.Client.{
  Config, Client, NetworkRequest, NetworkResponse, Failure, World, body_of, do_request, mode_of,
}

pub record Metrics : Type 0 where
  pub requests_total : List (String × ℕ)
  pub request_bytes_total : Map String ℕ
  pub response_bytes_total : Map String ℕ
  pub policy_denials_total : List (String × Failure)
  pub mode_available : Map String Bool

-- The value of the counter of a mode.
abbrev pub or_zero : Option ℕ → ℕ
or_zero none = 0
or_zero (some k) = k

abbrev pub bytes_of : String → Map String ℕ → ℕ
bytes_of mode m = or_zero (lookup mode m)

-- counter.WithLabelValues(mode).Add(n)
abbrev pub add_to : String → ℕ → Map String ℕ → Map String ℕ
add_to mode n m = put mode (n + bytes_of mode m) m

-- The counters with two labels list what they have counted; the class of a status is its hundreds.
unfoldable pub observe_request : String → ℕ → ℕ → ℕ → Metrics → Metrics
observe_request mode status req_bytes resp_bytes m = record m {
  requests_total = (mode, status / 100) ∷ m.requests_total;
  request_bytes_total = add_to mode req_bytes m.request_bytes_total;
  response_bytes_total = add_to mode resp_bytes m.response_bytes_total;
}

unfoldable pub observe_policy_denial : String → Failure → Metrics → Metrics
observe_policy_denial mode reason m = record m {
  policy_denials_total = (mode, reason) ∷ m.policy_denials_total;
}

unfoldable pub set_mode_available : String → Bool → Metrics → Metrics
set_mode_available mode available m = record m {
  mode_available = put mode available m.mode_available;
}

-- What the probes of Client.Modes find: the listeners of Tor and of I2P, the text of the I2P proxy,
-- and the addresses of the machine.
pub record Probes : Type 0 where
  pub tor_listens : Bool
  pub i2p_url_parses : Bool
  pub i2p_listens : Bool
  pub yggdrasil_enabled : Bool
  pub yggdrasil_addresses : List Bool

pub record ModeInfo : Type 0 where
  pub available : Bool
  pub reason : Option String

unfoldable pub mode_info : Bool → String → ModeInfo
mode_info available reason = record {
  available = available;
  reason = ite (string_discrete reason "") none (some reason);
}

unfoldable pub tor_available : Probes → Bool × String
tor_available p = if p.tor_listens then (true, "") else (false, "tor SOCKS listener unavailable")

unfoldable pub i2p_available : Probes → Bool × String
i2p_available p =
    if not p.i2p_url_parses
    then (false, "invalid i2p proxy URL")
    else if p.i2p_listens
    then (true, "")
    else (false, "i2p HTTP proxy unavailable")

-- hasYggdrasilAddress: whether one of the addresses of the interfaces that are up is in the prefix.
abbrev has_yggdrasil_address : List Bool → Bool
has_yggdrasil_address [] = false
has_yggdrasil_address (b ∷ bs) = b || has_yggdrasil_address bs

unfoldable pub yggdrasil_available : Probes → Bool × String
yggdrasil_available p =
    if not p.yggdrasil_enabled
    then (false, "yggdrasil disabled")
    else if has_yggdrasil_address p.yggdrasil_addresses
    then (true, "")
    else (false, "no yggdrasil address detected")

abbrev info_of : Bool × String → ModeInfo
info_of (available, reason) = mode_info available reason

unfoldable pub modes : Probes → Map String ModeInfo
unfolding mode_info tor_available i2p_available yggdrasil_available
modes p =
    ("direct", record { available = true; reason = none })
    ∷ ("tor", info_of (tor_available p))
    ∷ ("i2p", info_of (i2p_available p))
    ∷ ("yggdrasil", info_of (yggdrasil_available p))
    ∷ []

pub record Server : Type 0 where
  pub client : Client
  pub token : Bytes
  pub metrics : Metrics

pub data Body : Type 0 where
  text : String → Body
  modes_body : Map String ModeInfo → Body
  health_body : String → String → String → Body
  response_body : NetworkResponse → Body
  decode_error : Body

pub record Response : Type 0 where
  pub status : ℕ
  pub body : Body

abbrev pub reply : ℕ → Body → Response
reply status body = record { status = status; body = body }

-- decodeLimitedJSON, with int64 sums: what stands behind the first value is not looked at. A reader
-- with a limit that is not positive gives nothing.
unfoldable pub decode_limited_json : Json NetworkRequest → ℤ → Option Bytes → Option NetworkRequest
unfolding to_int64 ◌+ℤ◌
decode_limited_json json max_bytes none = none
decode_limited_json json max_bytes (some body) =
    let read = take (pos_part (to_int64 (max_bytes +ℤ pos 1))) body in
    if ltb_ℤ max_bytes (pos (length read))
    then none
    else (elim (json.decode read) [ none ↦ none | some (r, rest) ↦ some r ])

-- s.cfg.MaxRequestBodyBytes+4096
unfoldable pub request_limit : Config → ℤ
unfolding to_int64
request_limit cfg = to_int64 (pos (cfg.max_request_body_bytes + 4096))

abbrev pub is_denial : NetworkResponse → Bool
is_denial resp =
    (elim resp.error [ none ↦ false | some e ↦ true ])
    && (resp.status_code == 400 || resp.status_code == 403)

abbrev pub denied : String → NetworkResponse → Metrics → Metrics
denied mode resp m =
    if is_denial resp
    then (elim resp.error [ none ↦ m | some e ↦ observe_policy_denial mode e m ])
    else m

unfoldable pub observe : NetworkRequest → NetworkResponse → Metrics → Metrics
unfolding observe_policy_denial observe_request
observe r resp m =
    observe_request r.proxy_mode resp.status_code (length (body_of r.body)) (length resp.body)
      (denied r.proxy_mode resp m)

abbrev with_mode : NetworkRequest → NetworkRequest
with_mode r = record r { proxy_mode = mode_of r.proxy_mode }

abbrev handle_decoded :
    {Addr : Type 0} → World Addr → Option NetworkRequest → Server → Response × Server
handle_decoded w none s = (reply 400 decode_error, s)
handle_decoded w (some r) s =
    let resp = (do_request w s.client (with_mode r)).0 in
    (reply 200 (response_body resp), record s { metrics = observe (with_mode r) resp s.metrics })

unfoldable pub handle_request :
    {Addr : Type 0} → World Addr → Json NetworkRequest → Option Bytes → Server → Response × Server
unfolding observe decode_limited_json request_limit
handle_request w json body s =
    handle_decoded w (decode_limited_json json (request_limit s.client.cfg) body) s

abbrev set_all : Map String ModeInfo → Metrics → Metrics
set_all [] m = m
set_all ((mode, info) ∷ rest) m = set_all rest (set_mode_available mode info.available m)

unfoldable pub handle_modes : Probes → Server → Response × Server
unfolding modes set_mode_available
handle_modes p s =
    (reply 200 (modes_body (modes p)), record s { metrics = set_all (modes p) s.metrics })

abbrev pub any_available : Map String ModeInfo → Bool
any_available [] = false
any_available ((mode, info) ∷ rest) = info.available || any_available rest

unfoldable pub handle_readyz : Probes → Response
unfolding modes
handle_readyz p =
    if any_available (modes p)
    then reply 200 (text "ok")
    else reply 503 (text "no proxy modes available")

abbrev handle_health : String → Response
handle_health version = reply 200 (health_body "ok" "hyrule-network-proxy" version)

pub data Route : Type 0 where
  health modes_route request : Route

-- The handler of a route, with what it needs of the request.
unfoldable pub handle :
    {Addr : Type 0}
    → World Addr
    → Json NetworkRequest
    → Probes
    → String
    → Route
    → Option Bytes
    → Server
    → Response × Server
unfolding handle_request handle_modes
handle w json p version health body s = (handle_health version, s)
handle w json p version modes_route body s = handle_modes p s
handle w json p version request body s = handle_request w json body s

-- withAuth round the handler. Its test of the header is the one of internal/tunnel/control.
unfoldable pub serve :
    {Addr : Type 0}
    → World Addr
    → Json NetworkRequest
    → Probes
    → String
    → (Bytes → Bytes)
    → Bytes
    → Route
    → Option Bytes
    → Server
    → Response × Server
unfolding handle
serve w json p version trim_space auth route body s =
    if authorized trim_space s.token auth
    then handle w json p version route body s
    else (reply 401 (text "unauthorized"), s)
