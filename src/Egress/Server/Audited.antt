-- ===== src/Egress/Server/Audited.antt =====
-- The counters of internal/server/handlers.go over any sequence of requests.
use hyrule_network_proxy.Prelude.{
  ℕ, ◌+◌, ◌*◌, ◌/◌, ◌≤◌, ◌≡◌, refl, ap, sym, subst, ◌&&◌, ◌||◌, ◌==◌, true, ite, Option, none, some,
  Option-cases, Bool-cases, inl, inr, List, [], ◌∷◌, String, length, Bytes, arith, string_discrete,
  one_if,
}
use hyrule_network_proxy.Prelude.Map.{Map, string_key, lookup-put}
use hyrule_network_proxy.Tunnel.Control.{Json, authorized}
use hyrule_network_proxy.Egress.Policy.{is_mode}
use hyrule_network_proxy.Egress.Client.{NetworkRequest, NetworkResponse, Failure, World, do_request}
use hyrule_network_proxy.Egress.Client.Bounded.{do_request-IsServed}
use hyrule_network_proxy.Egress.Server.{
  Metrics, ModeInfo, Probes, Server, Route, health, modes_route, request, add_to, bytes_of,
  observe_request, observe_policy_denial, set_mode_available, is_denial, denied, observe, with_mode,
  handle_decoded, handle_request, decode_limited_json, request_limit, set_all, modes, handle_modes,
  handle, serve,
}

-- How many of the counted requests are of a mode, and how many of those have a status 4xx.
unfoldable pub asked : String → List (String × ℕ) → ℕ
asked mode [] = 0
asked mode ((m, class) ∷ rest) = asked mode rest + one_if (is_mode m mode)

unfoldable pub refused : String → List (String × ℕ) → ℕ
refused mode [] = 0
refused mode ((m, class) ∷ rest) = refused mode rest + one_if (is_mode m mode && class == 4)

unfoldable pub denials : String → List (String × Failure) → ℕ
denials mode [] = 0
denials mode ((m, e) ∷ rest) = denials mode rest + one_if (is_mode m mode)

pub record IsAudited (limit : ℕ) (m : Metrics) (mode : String) : Type 0 where
  pub denied_le : denials mode m.policy_denials_total ≤ refused mode m.requests_total
  pub bytes_le : bytes_of mode m.response_bytes_total ≤ limit * asked mode m.requests_total

same_bytes : (m : Map String ℕ) (mode j : String) → mode ≡ j → bytes_of mode m ≡ bytes_of j m
same_bytes m mode j e = ap (λ k. bytes_of k m) e

bytes_of-add_to :
    (mode j : String) (n : ℕ) (m : Map String ℕ)
    → bytes_of j (add_to mode n m) ≡ bytes_of j m + ite (string_discrete mode j) n 0
bytes_of-add_to mode j n m =
    rw (lookup-put mode j (n + bytes_of mode m) m) (ground (arith, same_bytes m mode j))

times-suc : (limit n : ℕ) → limit * (n + 1) ≡ limit * n + limit
times-suc limit n = omega arith

-- A denial has a status of the class 4xx.
denial_class : (n : ℕ) → (n == 400 || n == 403) ≡ true → n / 100 ≡ 4
denial_class n h = ground arith

-- What a denial leaves of the counters.
record Kept (m m' : Metrics) (mode j : String) (class : ℕ) : Type 0 where
  requests : m'.requests_total ≡ m.requests_total
  responses : m'.response_bytes_total ≡ m.response_bytes_total
  at_most :
      denials j m'.policy_denials_total
      ≤ denials j m.policy_denials_total + one_if (is_mode mode j && class == 4)

denied-Kept :
    (mode j : String) (resp : NetworkResponse) (m : Metrics)
    → Kept m (denied mode resp m) mode j (resp.status_code / 100)
unfolding observe_policy_denial denials
denied-Kept mode j resp m = elim (Option-cases resp.error) [
  | inl e ↦ record { requests = ground arith; responses = ground arith; at_most = ground arith }
  | inr (x, e) ↦ elim (Bool-cases (is_denial resp)) [
    | inl d ↦
        let four : resp.status_code / 100 ≡ 4 = denial_class resp.status_code (ground arith) in
        record { requests = ground arith; responses = ground arith; at_most = ground arith }
    | inr d ↦ record { requests = ground arith; responses = ground arith; at_most = ground arith }
  ]
]

module _ (limit : ℕ) (m : Metrics) (j : String) (inv : IsAudited limit m j) where
  observed :
      (r : NetworkRequest) (resp : NetworkResponse)
      → length resp.body ≤ limit
      → IsAudited limit (observe r resp m) j
  unfolding observe observe_request
  observed r resp small =
      let k = denied-Kept r.proxy_mode j resp m in
      record {
        denied_le = rw (k.requests) (unfold refused in omega (arith, k.at_most, inv.denied_le));
        bytes_le =
            rw
              (
                bytes_of-add_to r.proxy_mode j (length resp.body)
                    (denied r.proxy_mode resp m).response_bytes_total,
                k.requests,
                k.responses,
              )
              (unfold asked in
                ground (arith, times-suc limit (asked j m.requests_total), inv.bytes_le));
      }

-- One request, with what the machine and the network are like when it comes.
pub record Call (Addr : Type 0) : Type 0 where
  pub world : World Addr
  pub probes : Probes
  pub auth : Bytes
  pub route : Route
  pub body : Option Bytes

module _ {Addr : Type 0} (json : Json NetworkRequest) (version : String)
    (trim_space : Bytes → Bytes) where
  pub serve_all : List (Call Addr) → Server → Server
  serve_all [] s = s
  serve_all (c ∷ cs) s =
      serve_all cs (serve c.world json c.probes version trim_space c.auth c.route c.body s).1

-- What a request leaves of the server.
record Audits (s s' : Server) : Type 0 where
  same_client : s'.client ≡ s.client
  same_token : s'.token ≡ s.token
  audited :
      (limit : ℕ) (mode : String)
      → s.client.cfg.max_response_body_bytes ≡ limit
      → IsAudited limit s.metrics mode
      → IsAudited limit s'.metrics mode

unchanged : (s : Server) → Audits s s
unchanged s = record { same_client = refl; same_token = refl; audited = λ limit mode e inv. inv }

set_all-IsAudited :
    (limit : ℕ) (mode : String) (infos : Map String ModeInfo) (m : Metrics)
    → IsAudited limit m mode
    → IsAudited limit (set_all infos m) mode
unfolding set_mode_available
set_all-IsAudited limit mode [] m inv = inv
set_all-IsAudited limit mode ((k, info) ∷ rest) m inv =
    set_all-IsAudited limit mode rest (set_mode_available k info.available m)
      (record { denied_le = inv.denied_le; bytes_le = inv.bytes_le })

module _ {Addr : Type 0} (w : World Addr) (json : Json NetworkRequest) (s : Server) where
  decoded-Audits : (o : Option NetworkRequest) → Audits s (handle_decoded w o s).1
  decoded-Audits none = unchanged s
  decoded-Audits (some r) = record {
    same_client = refl;
    same_token = refl;
    audited = λ limit mode e inv.
        let resp = (do_request w s.client (with_mode r)).0 in
        let small = do_request-IsServed w s.client (with_mode r) in
        observed limit s.metrics mode inv (with_mode r) resp (rw (sym e) (small.bounded));
  }

  handle-Audits :
      (p : Probes) (version : String) (route : Route) (body : Option Bytes)
      → Audits s (handle w json p version route body s).1
  unfolding handle handle_request handle_modes
  handle-Audits p version health body = unchanged s
  handle-Audits p version modes_route body = record {
    same_client = refl;
    same_token = refl;
    audited = λ limit mode e inv. set_all-IsAudited limit mode (modes p) s.metrics inv;
  }
  handle-Audits p version request body =
      decoded-Audits (decode_limited_json json (request_limit s.client.cfg) body)

  serve-Audits :
      (p : Probes) (version : String) (trim_space : Bytes → Bytes) (auth : Bytes) (route : Route)
      (body : Option Bytes)
      → Audits s (serve w json p version trim_space auth route body s).1
  unfolding serve
  serve-Audits p version trim_space auth route body =
      elim (Bool-cases (authorized trim_space s.token auth)) [
        | inl e ↦ rw (e) (handle-Audits p version route body)
        | inr e ↦ rw (e) (unchanged s)
      ]

-- However requests follow each other, from counters that are right: the denials of a mode are at
-- most the counted requests of the mode with a status 4xx, and the counted bytes of the responses
-- are at most the limit for each counted request of the mode.
pub serve_all-IsAudited :
    {Addr : Type 0} (json : Json NetworkRequest) (version : String) (trim_space : Bytes → Bytes)
    (calls : List (Call Addr)) (s : Server) (mode : String)
    → IsAudited s.client.cfg.max_response_body_bytes s.metrics mode
    → let s' = serve_all json version trim_space calls s in
      IsAudited s.client.cfg.max_response_body_bytes s'.metrics mode
unfolding serve_all
serve_all-IsAudited json version trim_space [] s mode inv = inv
serve_all-IsAudited json version trim_space (c ∷ cs) s mode inv =
    let a = serve-Audits c.world json s c.probes version trim_space c.auth c.route c.body in
    let s' = (serve c.world json c.probes version trim_space c.auth c.route c.body s).1 in
    let next : IsAudited s'.client.cfg.max_response_body_bytes s'.metrics mode =
      rw (a.same_client) (a.audited s.client.cfg.max_response_body_bytes mode refl inv) in
    let rest = serve_all-IsAudited json version trim_space cs s' mode next in
    subst
      (λ c'.
        IsAudited c'.cfg.max_response_body_bytes (serve_all json version trim_space cs s').metrics
          mode)
      a.same_client rest
