-- ===== src/Tunnel/Coordinator.antt =====
-- The Coordinator of internal/tunnel/coordinator.go: the lease store, the forward manager and the
-- metrics, which its methods change one after the other.
pub mod Duration
pub mod Sweep
pub mod Revoke
pub mod Responses
use hyrule_network_proxy.Prelude.{
  to_int64, ℕ, suc, ◌+◌, ◌-◌, ◌*◌, ◌%◌, ◌^◌, String, Bool, true, false, Option, none, some, List,
  [], ◌∷◌, map, ltb, ltb_ℤ, if◌then◌else◌, ℤ, pos, negsuc, pos_part, neg_part, ◌*ℤ◌, leb,
}
use hyrule_network_proxy.Prelude.Map.{Map, string_key, lookup, put}
use hyrule_network_proxy.Lease.Error.{Error, Result, ok, err}
use hyrule_network_proxy.Lease.Model.{Lease}
use hyrule_network_proxy.Lease.Platform.{Platform, Env}
use hyrule_network_proxy.Lease.Store as LeaseStore
use hyrule_network_proxy.Lease.Store.{Store, CreateParams, Marked}
use hyrule_network_proxy.Sshd.Manager as ConnManager
use hyrule_network_proxy.Sshd.Manager.{Manager}
use hyrule_network_proxy.Tunnel.Contract.{
  CreateLeaseRequest, ExtendLeaseRequest, LeaseResponse, HealthResponse,
}

-- The fields of config.Config that the coordinator reads.
pub record Config : Type 0 where
  pub min_lease_seconds : ℤ
  pub max_lease_seconds : ℤ
  pub endpoint_host : String
  pub ssh_port : ℕ

pub record Metrics : Type 0 where
  pub reconcile : Map String ℕ
  pub leases_active : ℕ
  pub ports_free : ℤ

pub record Coordinator : Type 0 where
  pub cfg : Config
  pub store : Store
  pub manager : Manager
  pub metrics : Metrics

abbrev pub second : ℤ
second = pos 1_000_000_000

unfoldable pub clamp_seconds : Config → ℤ → ℤ
clamp_seconds cfg seconds =
    let low = (if ltb_ℤ seconds cfg.min_lease_seconds then cfg.min_lease_seconds else seconds) in
    if ltb_ℤ cfg.max_lease_seconds low then cfg.max_lease_seconds else low

unfoldable pub clamp_duration : Config → ℤ → ℤ
unfolding to_int64 clamp_seconds
clamp_duration cfg seconds = to_int64 (clamp_seconds cfg seconds *ℤ second)

-- c.metrics.Reconcile.WithLabelValues(label).Inc()
unfoldable pub count : String → Coordinator → Coordinator
count label c = record c {
  metrics = record c.metrics {
    reconcile =
        put label (elim (lookup label c.metrics.reconcile) [ none ↦ 1 | some n ↦ n + 1 ])
          c.metrics.reconcile;
  };
}

unfoldable pub refresh_metrics : Coordinator → Coordinator
refresh_metrics c = record c {
  metrics = record c.metrics {
    leases_active = (LeaseStore.stats c.store).0;
    ports_free = (LeaseStore.stats c.store).1;
  };
}

unfoldable pub to_response : Coordinator → Lease → Bool → LeaseResponse
to_response c l include_token =
    let st = ConnManager.stats l.lease_id c.manager in
    record {
      lease_id = l.lease_id;
      token = (if include_token then l.token else "");
      port = l.allocated_port;
      endpoint_host = c.cfg.endpoint_host;
      ssh_port = c.cfg.ssh_port;
      status = l.status;
      expires_at = l.expires_at;
      connected = st.connected;
      visitor_conns = st.visitors;
      bytes_in = st.bytes_in;
      bytes_out = st.bytes_out;
    }

abbrev pub create_params : Config → CreateLeaseRequest → CreateParams
create_params cfg req = record {
  lease_id = req.lease_id;
  duration = clamp_duration cfg req.duration_seconds;
  allowlist_cidrs = req.allowlist_cidrs;
}

unfoldable pub finish_create :
    Coordinator → Result Lease × Store → Result LeaseResponse × Coordinator
unfolding count refresh_metrics
finish_create c (err e, s) = (err e, count "create_failed" (record c { store = s }))
finish_create c (ok l, s) =
    let c' = refresh_metrics (count "created" (record c { store = s })) in
    (ok (to_response c' l true), c')

unfoldable pub create_lease :
    Platform → Env → CreateLeaseRequest → Coordinator → Result LeaseResponse × Coordinator
unfolding finish_create
create_lease pf env req c =
    finish_create c (LeaseStore.create pf env (create_params c.cfg req) c.store)

unfoldable pub finish_extend :
    Coordinator → Result Lease × Store → Result LeaseResponse × Coordinator
unfolding count
finish_extend c (err e, s) = (err e, record c { store = s })
finish_extend c (ok l, s) =
    let c' = count "extended" (record c { store = s }) in (ok (to_response c' l false), c')

unfoldable pub extend_lease :
    Platform → Bool → String → ExtendLeaseRequest → Coordinator → Result LeaseResponse × Coordinator
unfolding finish_extend
extend_lease pf commits id req c =
    finish_extend c
      (LeaseStore.extend pf commits id (clamp_duration c.cfg req.duration_seconds) c.store)

unfoldable pub finish_revoke :
    String → Coordinator → Result (Unit {0}) × Store → Result (Unit {0}) × Coordinator
unfolding count refresh_metrics
finish_revoke id c (err e, s) = (err e, record c { store = s })
finish_revoke id c (ok u, s) = (
  ok tt,
  refresh_metrics
      (count "revoked" (record c { store = s; manager = ConnManager.teardown id c.manager })),
)

unfoldable pub revoke_lease : Bool → String → Coordinator → Result (Unit {0}) × Coordinator
unfolding finish_revoke
revoke_lease commits id c = finish_revoke id c (LeaseStore.revoke commits id c.store)

unfoldable pub get_lease : String → Coordinator → Option LeaseResponse
unfolding to_response
get_lease id c = elim (LeaseStore.get c.store id) [
  | none ↦ none
  | some l ↦ some (to_response c l false)
]

unfoldable pub list_leases : Coordinator → List LeaseResponse
unfolding to_response
list_leases c = map (λ l. to_response c l false) (LeaseStore.list c.store)

unfoldable pub health : String → Coordinator → HealthResponse
health version c = record {
  status = "ok";
  service = "hyrule-tunnel-proxy";
  version = version;
  active_leases = (LeaseStore.stats c.store).0;
  free_ports = (LeaseStore.stats c.store).1;
}

-- One round of the sweep; `reaped` counts the rows that are gone.
unfoldable pub sweep_one : String → Coordinator → ℕ → Marked × Store → ℕ × Coordinator
unfolding count
sweep_one id c reaped (m, s) =
    if m.was_expired
    then (let c' = record c { store = s; manager = ConnManager.teardown id c.manager } in
        elim m.error [
          | some e ↦ (reaped, c')
          | none ↦ if m.removed then (reaped + 1, count "expired" c') else (reaped, c')
        ])
    else (reaped, record c { store = s })

-- `commits id` says whether the transaction that deletes the row of `id` commits.
unfoldable pub sweep_loop : (String → Bool) → ℤ → List String → ℕ → Coordinator → ℕ × Coordinator
unfolding sweep_one
sweep_loop commits cutoff [] reaped c = (reaped, c)
sweep_loop commits cutoff (id ∷ ids) reaped c =
    let r =
      sweep_one id c reaped (LeaseStore.mark_expired_if_before (commits id) id cutoff c.store) in
    sweep_loop commits cutoff ids r.0 r.1

unfoldable pub sweep_expired : (String → Bool) → ℤ → Coordinator → ℕ × Coordinator
unfolding sweep_loop refresh_metrics
sweep_expired commits cutoff c =
    let r = sweep_loop commits cutoff (LeaseStore.expired_before c.store cutoff) 0 c in
    if ltb 0 r.0 then (r.0, refresh_metrics r.1) else r
