-- ===== src/Egress/Client.antt =====
-- The client of internal/transport/client.go: what becomes of a request. `Library` is that of
-- Egress/Policy; `Upstream` is what the http.Client brings back, whose own work, with the dialers
-- and the redirect policy that it is given, is a parameter. The limits of sizes are natural numbers:
-- the configuration refuses those that are not positive.
pub mod Vetted
pub mod Bounded
use hyrule_network_proxy.Prelude.{
  ℕ, suc, ◌+◌, ◌&&◌, ◌||◌, Bool, true, false, ite, Option, none, some, List, [], ◌∷◌, String, ltb,
  ltb_ℤ, if◌then◌else◌, length, take, is_empty, ℤ, pos, ◌*ℤ◌, to_int64, pos_part, string_discrete,
  Bytes, bytes, has_suffix, join,
}
use hyrule_network_proxy.Prelude.Map.{Map, string_key, put}
use hyrule_network_proxy.Egress.Policy.{
  Library, Url, PolicyError, policy_denied, invalid, Checked, pass, fail, is_mode, onion, i2p,
  parse_and_validate_url, validate_resolved_host,
}
use hyrule_network_proxy.Egress.Headers.{is_listed, sanitize_request_headers, allow_response_header}

-- The fields of config.Config that the client reads.
pub record Config : Type 0 where
  pub max_request_body_bytes : ℕ
  pub max_response_body_bytes : ℕ
  pub default_timeout : ℤ
  pub max_timeout : ℤ
  pub max_redirects : ℤ

pub record NetworkRequest : Type 0 where
  pub url : Bytes
  pub method : String
  pub headers : Map String String
  pub body : Option Bytes
  pub proxy_mode : String
  pub timeout_seconds : ℤ

-- The errors, by the call that returns them.
pub data Failure : Type 0 where
  bad_method bad_host body_too_large bad_request bad_mode network_error read_error : Failure
  bad_url : PolicyError → Failure

pub record NetworkResponse : Type 0 where
  pub status_code : ℕ
  pub headers : Map String Bytes
  pub body : Bytes
  pub proxy_mode : String
  pub error : Option Failure

-- How a client reaches its destinations: the guarded dialer, the guarded SOCKS dialer, or a proxy.
pub data Dial : Type 0 where
  guarded guarded_socks : String → Dial
  proxied : Dial

pub record HttpClient : Type 0 where
  pub dial : Dial
  pub redirect_mode : String
  pub max_redirects : ℤ
  pub timeout : ℤ

pub record Client : Type 0 where
  pub cfg : Config
  pub direct_http : HttpClient
  pub tor_http : HttpClient
  pub i2p_http : HttpClient
  pub ygg_http : HttpClient

abbrev pub http_client : Config → String → Dial → HttpClient
http_client cfg mode dial = record {
  dial = dial;
  redirect_mode = mode;
  max_redirects = cfg.max_redirects;
  timeout = cfg.max_timeout;
}

-- NewClient, where the two addresses of the configuration parse.
unfoldable pub new_client : Config → Client
new_client cfg = record {
  cfg = cfg;
  direct_http = http_client cfg "direct" (guarded "direct");
  tor_http = http_client cfg "tor" (guarded_socks "tor");
  i2p_http = http_client cfg "i2p" proxied;
  ygg_http = http_client cfg "yggdrasil" (guarded "yggdrasil");
}

unfoldable pub client_for_mode : Client → String → Option HttpClient
client_for_mode c mode =
    if is_mode mode "direct"
    then some c.direct_http
    else if is_mode mode "tor"
    then some c.tor_http
    else if is_mode mode "i2p"
    then some c.i2p_http
    else if is_mode mode "yggdrasil"
    then some c.ygg_http
    else none

-- The request as the http.Client gets it.
pub record Outgoing : Type 0 where
  pub client : HttpClient
  pub method : String
  pub url : Url
  pub headers : Map String String
  pub body : Bytes
  pub timeout : ℤ

-- The body is `none` where its reading fails.
pub record Upstream : Type 0 where
  pub status_code : ℕ
  pub headers : Map String (List Bytes)
  pub body : Option Bytes

-- What else the client calls: strings.ToUpper behind TrimSpace, strings.ToLower behind TrimSpace,
-- http.NewRequestWithContext, the resolver, and the http.Client.
pub record World (Addr : Type 0) : Type 0 where
  pub lib : Library Addr
  pub upper : String → String
  pub lower : String → String
  pub builds : Url → Bool
  pub resolver : Bytes → Option (List Addr)
  pub exchange : Outgoing → Option Upstream

abbrev pub allowed_methods : List String
allowed_methods = "GET" ∷ "HEAD" ∷ "POST" ∷ []

unfoldable pub normalize_method : (String → String) → String → Option String
normalize_method upper method =
    let name = ite (string_discrete (upper method) "") "GET" (upper method) in
    if is_listed name allowed_methods then some name else none

unfoldable pub validate_host : {Addr : Type 0} → World Addr → Bytes → String → Checked (Unit {0})
validate_host w host mode =
    if is_mode mode "tor" && has_suffix (w.lib.to_lower host) onion
    then pass tt
    else if is_mode mode "i2p" && has_suffix (w.lib.to_lower host) i2p
    then pass tt
    else validate_resolved_host w.lib w.resolver host mode

abbrev pub error_response : ℕ → String → Failure → NetworkResponse
error_response status mode e = record {
  status_code = status;
  headers = [];
  body = [];
  proxy_mode = mode;
  error = some e;
}

-- The loop over resp.Header.
unfoldable pub copy_headers : (String → String) → Map String (List Bytes) → Map String Bytes
copy_headers lower [] = []
copy_headers lower ((key, values) ∷ m) =
    let rest = copy_headers lower m in
    if allow_response_header lower key && (if is_empty values then false else true)
    then put key (join values (bytes ", ")) rest
    else rest

abbrev pub truncated_header : String
truncated_header = "x-hyrule-truncated"

abbrev pub mark_truncated : Bool → Map String Bytes → Map String Bytes
mark_truncated truncated headers =
    if truncated then put truncated_header (bytes "true") headers else headers

abbrev read_response : (String → String) → Config → String → Upstream → Bytes → NetworkResponse
read_response lower cfg mode up read = record {
  status_code = up.status_code;
  headers =
      mark_truncated (ltb cfg.max_response_body_bytes (length read))
        (copy_headers lower up.headers);
  body =
      if ltb cfg.max_response_body_bytes (length read)
      then take cfg.max_response_body_bytes read
      else read;
  proxy_mode = mode;
  error = none;
}

-- c.cfg.MaxResponseBodyBytes+1, an int64, and what io.LimitReader makes of it: one that is not
-- positive lets nothing through.
unfoldable pub read_limit : ℕ → ℕ
unfolding to_int64
read_limit max_bytes = pos_part (to_int64 (pos (suc max_bytes)))

unfoldable pub build_response :
    (String → String) → Config → String → Upstream → Option Bytes → NetworkResponse
unfolding read_limit
build_response lower cfg mode up none = error_response 502 mode read_error
build_response lower cfg mode up (some body) =
    read_response lower cfg mode up (take (read_limit cfg.max_response_body_bytes) body)

unfoldable pub timeout_of : Config → ℤ → ℤ
timeout_of cfg seconds =
    let t =
      (if ltb_ℤ (pos 0) seconds
        then to_int64 (seconds *ℤ pos 1_000_000_000)
        else cfg.default_timeout) in
    if ltb_ℤ cfg.max_timeout t then cfg.max_timeout else t

abbrev pub body_of : Option Bytes → Bytes
body_of none = []
body_of (some b) = b

-- A response, with the request that was sent for it.
abbrev pub Outcome : Type 0
Outcome = NetworkResponse × Option Outgoing

unfoldable pub answered : (String → String) → Config → String → Outgoing → Option Upstream → Outcome
unfolding build_response
answered lower cfg mode q none = (error_response 502 mode network_error, some q)
answered lower cfg mode q (some up) = (build_response lower cfg mode up up.body, some q)

-- What the http.Client is given.
unfoldable pub outgoing :
    {Addr : Type 0} → World Addr → Config → NetworkRequest → String → Url → HttpClient → Outgoing
unfolding timeout_of
outgoing w cfg r method u h = record {
  client = h;
  method = method;
  url = u;
  headers = sanitize_request_headers w.lower r.headers;
  body = body_of r.body;
  timeout = timeout_of cfg r.timeout_seconds;
}

unfoldable pub send :
    {Addr : Type 0} → World Addr → Client → NetworkRequest → String → String → Url → Outcome
unfolding outgoing answered
send w c r mode method u = elim (client_for_mode c mode) [
  | none ↦ (error_response 400 mode bad_mode, none)
  | some h ↦ let q = outgoing w c.cfg r method u h in answered w.lower c.cfg mode q (w.exchange q)
]

unfoldable pub do_checked :
    {Addr : Type 0} → World Addr → Client → NetworkRequest → String → String → Url → Outcome
unfolding send
do_checked w c r mode method u =
    if ltb c.cfg.max_request_body_bytes (length (body_of r.body))
    then (error_response 400 mode body_too_large, none)
    else if w.builds u
    then send w c r mode method u
    else (error_response 400 mode bad_request, none)

abbrev pub host_checked :
    {Addr : Type 0}
    → World Addr
    → Client
    → NetworkRequest
    → String
    → String
    → Url
    → Checked (Unit {0})
    → Outcome
host_checked w c r mode method u (fail e) = (error_response 403 mode bad_host, none)
host_checked w c r mode method u (pass x) = do_checked w c r mode method u

unfoldable pub do_url :
    {Addr : Type 0} → World Addr → Client → NetworkRequest → String → String → Checked Url → Outcome
unfolding do_checked
do_url w c r mode method (fail policy_denied) =
    (error_response 403 mode (bad_url policy_denied), none)
do_url w c r mode method (fail invalid) = (error_response 400 mode (bad_url invalid), none)
do_url w c r mode method (pass u) =
    host_checked w c r mode method u (validate_host w u.hostname mode)

abbrev pub do_method :
    {Addr : Type 0} → World Addr → Client → NetworkRequest → String → Option String → Outcome
do_method w c r mode none = (error_response 400 mode bad_method, none)
do_method w c r mode (some method) =
    do_url w c r mode method (parse_and_validate_url w.lib r.url mode)

abbrev pub mode_of : String → String
mode_of mode = ite (string_discrete mode "") "direct" mode

-- Client.Do
unfoldable pub do_request : {Addr : Type 0} → World Addr → Client → NetworkRequest → Outcome
unfolding do_url
do_request w c r = do_method w c r (mode_of r.proxy_mode) (normalize_method w.upper r.method)
