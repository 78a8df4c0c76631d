-- ===== src/Tests/Services.antt =====
-- The theorems on internal/tunnel/coordinator.go and internal/tunnel/control at a coordinator with
-- one lease.
use hyrule_network_proxy.Prelude.{
  ℕ, ◌≡◌, ◌⊎◌, ◌++◌, refl, String, true, false, none, some, [], ◌∷◌, arith, pos, ◌<ℤ◌, All, bytes,
  is_empty,
}
use hyrule_network_proxy.Prelude.Map.{string_key, lookup}
use hyrule_network_proxy.Lease.Error.{ok}
use hyrule_network_proxy.Lease.Store.{get}
use hyrule_network_proxy.Lease.Store.Expiry.{has_expired}
use hyrule_network_proxy.Tunnel.Contract.{CreateLeaseRequest, ExtendLeaseRequest, LeaseResponse}
use hyrule_network_proxy.Tunnel.Coordinator.{
  Config, Coordinator, clamp_duration, create_lease, extend_lease, get_lease, list_leases,
  revoke_lease, sweep_expired, health, finish_create, to_response, count, create_params,
}
use hyrule_network_proxy.Tunnel.Coordinator.Duration.{clamp_duration_wraps}
use hyrule_network_proxy.Tunnel.Coordinator.Revoke.{Revoked, revoke_lease-Revoked}
use hyrule_network_proxy.Tunnel.Coordinator.Sweep.{sweep_expired-SweptAs}
use hyrule_network_proxy.Tunnel.Coordinator.Responses.{tokens_hidden, create_lease_again}
use hyrule_network_proxy.Tunnel.Control.{
  Service, Decoders, decode_json, Api, create, list, serve, op_of, handle,
}
use hyrule_network_proxy.Tunnel.Control.Guarded.{
  CreateCalled, IsBearer, serve-IsBearer, handle-create,
}
use hyrule_network_proxy.Lease.Store.Views.{create_idempotent}
use hyrule_network_proxy.Sshd.Manager.{stats}
use hyrule_network_proxy.Tests.{lease_of, pf, env, one, one-IsSound}
use hyrule_network_proxy.Tests.Servers.{busy}

abbrev cfg : Config
cfg = record {
  min_lease_seconds = pos 60;
  max_lease_seconds = pos 3600;
  endpoint_host = "h";
  ssh_port = 22;
}

abbrev start : Coordinator
start = record {
  cfg = cfg;
  store = one;
  manager = busy;
  metrics = record { reconcile = []; leases_active = 1; ports_free = pos 2 };
}

abbrev wide : Config
wide = record cfg { max_lease_seconds = pos 9_300_000_000 }

revoke_lease-Revoked_example : Revoked "a" start (revoke_lease true "a" start)
revoke_lease-Revoked_example = revoke_lease-Revoked true "a" start

sweep_expired-SweptAs_example :
    let c' = (sweep_expired (λ _. false) (pos 1500) start).1 in
    ((j : String) → has_expired (pos 1500) (get one j) ≡ true → lookup j c'.manager.leases ≡ none)
    × ((j : String)
        → has_expired (pos 1500) (get one j) ≡ false
        → (get c'.store j ≡ get one j) × (lookup j c'.manager.leases ≡ lookup j busy.leases))
    × ((j : String) → (get c'.store j ≡ get one j) ⊎ (get c'.store j ≡ none))
sweep_expired-SweptAs_example =
    sweep_expired-SweptAs (λ _. false) (pos 1500) start one-IsSound.indexed

abbrev extension : ExtendLeaseRequest
extension = record { duration_seconds = pos 90 }

tokens_hidden_example :
    All (λ r. r.token ≡ "") (list_leases start)
    × ((r : LeaseResponse) → get_lease "a" start ≡ some r → r.token ≡ "")
    × ((r : LeaseResponse) → (extend_lease pf true "a" extension start).0 ≡ ok r → r.token ≡ "")
tokens_hidden_example = tokens_hidden pf true "a" extension start

abbrev request : ℕ → CreateLeaseRequest
request n = record { lease_id = "a"; duration_seconds = pos n; allowlist_cidrs = [] }

abbrev answer : LeaseResponse
answer = record {
  lease_id = "a";
  token = "t";
  port = 10001;
  endpoint_host = "h";
  ssh_port = 22;
  status = "active";
  expires_at = pos 1500;
  connected = true;
  visitor_conns = 1;
  bytes_in = 0;
  bytes_out = 0;
}

create_lease_again_example :
    let c' = (create_lease pf env (request 90) start).1 in
    (r' : LeaseResponse) × ((create_lease pf env (request 70) c').0 ≡ ok r')
    × (r'.token ≡ "t")
    × (r'.port ≡ 10001)
    × (r'.expires_at ≡ pos 1500)
    × ((create_lease pf env (request 70) c').1.store ≡ c'.store)
unfolding create_lease finish_create to_response stats get lookup count
create_lease_again_example =
    create_lease_again pf env env (request 90) (request 70) start answer one-IsSound.indexed refl (
      ground (
        arith,
        create_idempotent pf env (create_params cfg (request 90)) one (lease_of 10001 1000 1500),
      ))

clamp_duration_wraps_example : clamp_duration wide (pos 9_300_000_001) <ℤ pos 0
clamp_duration_wraps_example =
    clamp_duration_wraps wide (pos 9_300_000_001) 9_300_000_000 refl (omega arith) (omega arith)
      (omega arith) (omega arith)

-- The service of the coordinator, with the codec of the tests.
abbrev svc : Service Coordinator
svc = record {
  create_lease = create_lease pf env;
  extend_lease = extend_lease pf true;
  revoke_lease = revoke_lease true;
  get_lease = get_lease;
  list_leases = list_leases;
  health = health "1";
}

-- A JSON of one byte, the number of seconds.
abbrev json : Decoders
json = record {
  create_request = record {
    decode = λ d. elim d [ [] ↦ none | x ∷ xs ↦ some (request x, xs) ];
    at_eof = is_empty;
  };
  extend_request = record {
    decode = λ d. elim d [ [] ↦ none | x ∷ xs ↦ some (record { duration_seconds = pos x }, xs) ];
    at_eof = is_empty;
  };
}

abbrev api : Api Coordinator
api = record { state = start; recorded = [] }

serve-IsBearer_example :
    let (r, a') = serve svc json (λ s. s) (bytes "k") (bytes "Bearer k") list none api in
    let handled = handle svc json list none start in
    ((IsBearer (λ s. s) (bytes "k") (bytes "Bearer k") × (r ≡ handled.0) × (a'.state ≡ handled.1))
      ⊎ ((¬ IsBearer (λ s. s) (bytes "k") (bytes "Bearer k"))
          × (r.status ≡ 401)
          × (a'.state ≡ start)))
    × (a'.recorded ≡ [] ++ (op_of list, r.status) ∷ [])
serve-IsBearer_example =
    serve-IsBearer svc json (λ s. s) (bytes "k") (bytes "Bearer k") list none api

handle-create_example :
    ((handle svc json create (some (90 ∷ [])) start).1 ≡ start)
    ⊎ CreateCalled svc
        (decode_json json.create_request (some (90 ∷ [])))
        start
        (handle svc json create (some (90 ∷ [])) start).1
handle-create_example = handle-create svc json (some (90 ∷ [])) start
