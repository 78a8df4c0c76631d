-- ===== src/Tunnel/Coordinator/Revoke.antt =====
-- RevokeLease of internal/tunnel/coordinator.go: the lease leaves the store before its forward is
-- torn down.
use hyrule_network_proxy.Prelude.{ℕ, ◌≡◌, String, Bool, false, none, arith, ℤ, ite, string_discrete}
use hyrule_network_proxy.Prelude.Map.{string_key, lookup}
use hyrule_network_proxy.Lease.Error.{Result, ok, err}
use hyrule_network_proxy.Lease.Model.{Net}
use hyrule_network_proxy.Lease.Store as LeaseStore
use hyrule_network_proxy.Lease.Store.{Store, remove, get, by_token}
use hyrule_network_proxy.Lease.Store.Views.{Removed, remove-Removed}
use hyrule_network_proxy.Sshd.Manager.{Manager, LeaseLookup, start_forward, register_conn, is_live}
use hyrule_network_proxy.Sshd.Manager.Effects.{
  gone_lease_refused, register_conn_gone, lookup-teardown,
}
use hyrule_network_proxy.Tunnel.Coordinator.{Coordinator, finish_revoke, revoke_lease}

-- The lease store as the SSH server sees it.
abbrev pub lookup_of : Store → LeaseLookup
lookup_of s = record { by_token = by_token s; get = get s }

abbrev pub Revoked : String → Coordinator → Result (Unit {0}) × Coordinator → Type 0
Revoked id c (err e, c') = c' ≡ c
Revoked id c (ok u, c') =
    ((j : String) → get c'.store j ≡ ite (string_discrete id j) none (get c.store j))
    × (lookup id c'.manager.leases ≡ none)
    × ((net : Net) (now : ℤ) (conn : ℕ) (bind_addr : String) (requested : ℕ) (binds : Bool)
          (m : Manager)
        → (start_forward net (lookup_of c'.store) now conn id bind_addr requested binds m).1 ≡ m)
    × ((now : ℤ) (conn : ℕ) (m : Manager)
        → register_conn (lookup_of c'.store) now conn id m ≡ (false, m))

finish_revoke-Revoked :
    (id : String) (c : Coordinator) (r : Result (Unit {0}) × Store)
    → Removed id c.store r
    → Revoked id c (finish_revoke id c r)
unfolding finish_revoke
finish_revoke-Revoked id c (err e, s) d = ground (arith, d.0)
finish_revoke-Revoked id c (ok u, s) d = (
  d.1,
  ground (arith, lookup-teardown id id c.manager),
  λ net now conn bind_addr requested binds m.
      (gone_lease_refused net (lookup_of s) now conn id bind_addr requested binds m
        (gone now (d.1 id))).0,
  λ now conn m. register_conn_gone (lookup_of s) now conn id m (gone now (d.1 id)),
)
  where
    gone :
        (now : ℤ)
        → get s id ≡ ite (string_discrete id id) none (get c.store id)
        → is_live (lookup_of s) now id ≡ false
    gone now e = ground arith

-- A revocation that succeeds takes the one lease out of the store and its connection out of the
-- manager; from then on no connection can be registered and no forward started under the
-- identifier, in whatever state the manager is. A revocation that fails changes nothing.
pub revoke_lease-Revoked :
    (commits : Bool) (id : String) (c : Coordinator) → Revoked id c (revoke_lease commits id c)
unfolding revoke_lease LeaseStore.revoke
revoke_lease-Revoked commits id c =
    finish_revoke-Revoked id c (remove commits id c.store) (remove-Removed commits id c.store)
