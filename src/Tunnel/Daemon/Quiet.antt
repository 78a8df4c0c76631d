-- ===== src/Tunnel/Daemon/Quiet.antt =====
-- The daemon from its start, while no teardown is to come: whose the open listeners are.
use hyrule_network_proxy.Prelude.{
  ℕ, ◌<◌, ◌≡◌, inl, inr, sym, ap, ◌∙◌, String, false, some, arith, string_discrete,
}
use hyrule_network_proxy.Prelude.Map.{string_key, lookup}
use hyrule_network_proxy.Lease.Model.{Lease}
use hyrule_network_proxy.Lease.Platform.{Platform}
use hyrule_network_proxy.Lease.Store.{Store, get}
use hyrule_network_proxy.Lease.Store.Open.Recovery.{RoundTrips}
use hyrule_network_proxy.Lease.Store.Reach.{IsSound}
use hyrule_network_proxy.Lease.Store.Refine.{apart}
use hyrule_network_proxy.Sshd.Forward.{Forward, close}
use hyrule_network_proxy.Sshd.Manager.{Manager}
use hyrule_network_proxy.Sshd.Manager.Settled.{settled}
use hyrule_network_proxy.Tunnel.Daemon.{Daemon, Reach, start_daemon}
use hyrule_network_proxy.Tunnel.Daemon.Listeners.{Reach-IsGuarded}
use hyrule_network_proxy.Tunnel.Daemon.Guarded.{IsGuarded, start_daemon-IsGuarded}

-- An open forward that no goroutine is yet to close.
abbrev pub IsOpen : Daemon → ℕ → Type 0
IsOpen d f =
    (f < d.manager.next_forward) × ((d.manager.forwards f).closed ≡ false) × (d.closing f ≡ 0)

-- The forward is the one of a connection for a lease in the store, and its listener has the lease's
-- port.
abbrev pub Serving : Daemon → ℕ → String → Type 0
Serving d f id =
    (l : Lease) × (r : ℕ) × (get d.store id ≡ some l)
    × (l.allocated_port ≡ (d.manager.forwards f).port)
    × (lookup id d.manager.leases ≡ some r)
    × ((d.manager.states r).forward ≡ some f)

port_settled :
    (q : ℕ → ℕ) (m : Manager) (f : ℕ) → ((settled q m).forwards f).port ≡ (m.forwards f).port
unfolding settled close
port_settled q m f = ground arith

open_settled :
    (q : ℕ → ℕ) (m : Manager) (f : ℕ)
    → (m.forwards f).closed ≡ false
    → q f ≡ 0
    → ((settled q m).forwards f).closed ≡ false
unfolding settled close
open_settled q m f opened none_left = ground arith

serving :
    (pf : Platform) (d : Daemon)
    → IsGuarded pf d
    → ((id : String) → d.pending id ≡ 0)
    → (f : ℕ) → IsOpen d f
    → (id : String) × Serving d f id
unfolding settled
serving pf d v quiet f (below, opened, left) =
    let (id, r, at, has) =
      v.guards.owned.no_leak f below (open_settled d.closing d.manager f opened left) in
    elim (v.guards.listening id r f at has) [
      | inl (l, stored, port) ↦
          (id, (l, r, stored, port ∙ port_settled d.closing d.manager f, at, has))
      | inr pending ↦ absurd (ground (arith, quiet id))
    ]

unshared :
    (pf : Platform) (d : Daemon)
    → IsGuarded pf d
    → (f g : ℕ) (i j : String) → Serving d f i
    → Serving d g j
    → (d.manager.forwards f).port ≡ (d.manager.forwards g).port
    → f ≡ g
unshared pf d v f g i j (l, r, si, pi, ai, hi) (k, q, sj, pj, aj, hj) same =
    elim (string_discrete i j) [
      | no other ↦ absurd ((apart pf d.store i j l k v.sound si sj other).0 (ground arith))
      | yes one ↦
          let known : some r ≡ some q = sym ai ∙ (ap (λ x. lookup x d.manager.leases) one ∙ aj) in
          ground arith
    ]

-- With a codec that reads back what it wrote, from the start on a sound store, as long as no new
-- token is in use, however the steps of the daemon's goroutines and its restarts follow each other,
-- once no teardown is to come: each open forward that no goroutine is yet to close is the one of a
-- connection whose lease is in the store, its listener has the port of that lease, and no two such
-- forwards have the same port.
pub start_daemon-Serving :
    (pf : Platform) (s : Store) (max_visitors : ℕ) (zero_forward : Forward) {d : Daemon}
    → RoundTrips pf
    → IsSound pf s
    → Reach pf (start_daemon s max_visitors zero_forward) d
    → ((id : String) → d.pending id ≡ 0)
    → ((f : ℕ) → IsOpen d f → (id : String) × Serving d f id)
      × ((f g : ℕ)
          → IsOpen d f
          → IsOpen d g
          → (d.manager.forwards f).port ≡ (d.manager.forwards g).port
          → f ≡ g)
start_daemon-Serving pf s max_visitors zero_forward {d} trips v run quiet =
    let w =
      Reach-IsGuarded pf trips (start_daemon-IsGuarded pf s max_visitors zero_forward v) run in
    (
      serving pf d w quiet,
      λ f g of og.
          let (i, si) = serving pf d w quiet f of in
          let (j, sj) = serving pf d w quiet g og in unshared pf d w f g i j si sj,
    )
