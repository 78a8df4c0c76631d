-- ===== src/Tests/Daemons.antt =====
-- The theorems on the interleavings of the daemon: a connection for the one lease of the store, and
-- a revocation between what StartForward reads and what it does.
use hyrule_network_proxy.Prelude.{ℕ, ◌≡◌, refl, String, true, some, pos}
use hyrule_network_proxy.Prelude.Map.{string_key}
use hyrule_network_proxy.Lease.Store.{revoke, Store}
use hyrule_network_proxy.Lease.Error.{Result, ok, err}
use hyrule_network_proxy.Tunnel.Coordinator.Revoke.{lookup_of}
use hyrule_network_proxy.Tunnel.Daemon.{
  start_daemon, Daemon, Critical, registering, starting, begin_revoke, after_revoke, run_critical,
  Reach, here, next, reads_registering, reads_starting, acts, revokes,
}
use hyrule_network_proxy.Tunnel.Daemon.Guarded.{IsGuarded, start_daemon-IsGuarded}
use hyrule_network_proxy.Tunnel.Daemon.Listeners.{Reach-IsGuarded}
use hyrule_network_proxy.Tunnel.Daemon.Quiet.{IsOpen, Serving, start_daemon-Serving}
use hyrule_network_proxy.Tests.{net, pf, pf-RoundTrips, one, one-IsSound}
use hyrule_network_proxy.Tests.Servers.{visited}

abbrev initial : Daemon
initial = start_daemon one 2 visited

abbrev to_register : Critical
to_register = registering (lookup_of one) 5 "a"

abbrev to_start : Critical
to_start = starting (lookup_of one) 5 "a" "" 0

abbrev connected : Daemon
connected =
    run_critical net (pos 1100) true to_register (record initial { mutex = some to_register })

abbrev about_to_start : Daemon
about_to_start = record connected { mutex = some to_start }

abbrev listening : Daemon
listening = run_critical net (pos 1100) true to_start about_to_start

-- A client connects and asks for its forward.
run_connected : Reach pf initial connected
run_connected =
    next (next here (reads_registering 5 "a" initial refl))
      (acts net (pos 1100) true to_register (record initial { mutex = some to_register }) refl)

run_about_to_start : Reach pf initial about_to_start
unfolding run_critical
run_about_to_start = next run_connected (reads_starting 5 "a" "" 0 connected refl)

-- The lease is revoked before StartForward goes on, with the teardown still to come.
abbrev overtaken : Daemon
overtaken = begin_revoke true "a" about_to_start

abbrev late : Daemon
late = run_critical net (pos 1100) true to_start overtaken

after_revoke_mutex :
    (id : String) (d : Daemon) (r : Result (Unit {0}) × Store)
    → (after_revoke id d r).mutex ≡ d.mutex
after_revoke_mutex id d (err e, s) = refl
after_revoke_mutex id d (ok u, s) = refl

Reach-IsGuarded_example : IsGuarded pf late
unfolding run_critical
Reach-IsGuarded_example =
    Reach-IsGuarded pf pf-RoundTrips (start_daemon-IsGuarded pf one 2 visited one-IsSound) (
      next (next run_about_to_start (revokes true "a" about_to_start)) (
        acts net (pos 1100) true to_start overtaken
          (unfold begin_revoke in after_revoke_mutex "a" about_to_start (revoke true "a" one))))

start_daemon-Serving_example :
    ((f : ℕ) → IsOpen listening f → (id : String) × Serving listening f id)
    × ((f g : ℕ)
        → IsOpen listening f
        → IsOpen listening g
        → (listening.manager.forwards f).port ≡ (listening.manager.forwards g).port
        → f ≡ g)
unfolding run_critical
start_daemon-Serving_example =
    start_daemon-Serving pf one 2 visited pf-RoundTrips one-IsSound
      (next run_about_to_start (acts net (pos 1100) true to_start about_to_start refl)) (λ id. refl)
