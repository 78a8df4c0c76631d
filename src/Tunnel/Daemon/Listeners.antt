-- ===== src/Tunnel/Daemon/Listeners.antt =====
-- Over every interleaving of the daemon's steps: who has a public listener has a lease, or its
-- teardown is still to come.
use hyrule_network_proxy.Prelude.{ℕ, ◌≤◌, true, ◌≡◌, refl, subst, arith, ℤ}
use hyrule_network_proxy.Prelude.Map.{string_key}
use hyrule_network_proxy.Lease.Error.{ok}
use hyrule_network_proxy.Lease.Platform.{Platform}
use hyrule_network_proxy.Lease.Store.{
  Store, get, create, extend, remove, revoke, mark_expired_if_before,
}
use hyrule_network_proxy.Lease.Store.Views.{create-Created, extend-Extended, remove-Removed}
use hyrule_network_proxy.Lease.Store.Expiry.{mark_expired_if_before-MarkedAs}
use hyrule_network_proxy.Lease.Store.Reach as Life
use hyrule_network_proxy.Lease.Store.Reach.{IsSound, Step-IsSound}
use hyrule_network_proxy.Lease.Store.Refine.{Step-Serves}
use hyrule_network_proxy.Tunnel.Coordinator.Revoke.{lookup_of}
use hyrule_network_proxy.Tunnel.Daemon.{
  Daemon, registering, starting, begin_revoke, begin_sweep, Step, creates, extends, revokes, sweeps,
  tears, reads_registering, reads_starting, acts, cancels, closes, hangs_up, ends, restarts, Reach,
  here, next,
}
use hyrule_network_proxy.Tunnel.Daemon.Covered.{Serves-Keeps, create_present, extend_present}
use hyrule_network_proxy.Tunnel.Daemon.Guarded.{
  IsGuarded, start_daemon-IsGuarded, run_critical-IsGuarded, teardown-IsGuarded, cancel-IsGuarded,
  closed-IsGuarded, close_later-IsGuarded, hang_up_later-IsGuarded, changed-IsGuarded,
  read-IsCurrent, revoked-IsGuarded, marked-IsGuarded,
}
use hyrule_network_proxy.Lease.Store.Open.{open_store}
use hyrule_network_proxy.Lease.Store.Open.Recovery.{RoundTrips}
use hyrule_network_proxy.Lease.Store.Open.Restart.{open_store_restarts}

reopened-IsSound :
    (pf : Platform) (now : ℤ) (min max : ℕ) (s t : Store)
    → min ≤ max
    → RoundTrips pf
    → IsSound pf s
    → open_store pf now true true min max s.db ≡ ok t
    → IsSound pf t
reopened-IsSound pf now min max s t range trips v opened =
    let (u, same, w, gets) = open_store_restarts pf s now min max range trips v in
    let one : u ≡ t = ground arith in subst (IsSound pf) one w

Step-IsGuarded :
    (pf : Platform) {t u : Daemon} → RoundTrips pf → Step pf t u → IsGuarded pf t → IsGuarded pf u
unfolding begin_revoke begin_sweep revoke
Step-IsGuarded pf trips (creates env p d fresh) v =
    changed-IsGuarded pf d (create pf env p d.store).1 d.pending v
      (Step-IsSound pf (Life.creates env p d.store fresh) v.sound)
      (Serves-Keeps (get d.store) (get (create pf env p d.store).1) d.pending
        (Step-Serves pf (Life.creates env p d.store fresh) v.sound)
        (λ id had gone. absurd (
          create_present p d.store (create pf env p d.store)
            (create-Created pf env p d.store v.sound.indexed) id had gone)))
      (λ id h. h)
Step-IsGuarded pf trips (extends commits id t d) v =
    changed-IsGuarded pf d (extend pf commits id t d.store).1 d.pending v
      (Step-IsSound pf (Life.extends commits id t d.store) v.sound)
      (Serves-Keeps (get d.store) (get (extend pf commits id t d.store).1) d.pending
        (Step-Serves pf (Life.extends commits id t d.store) v.sound)
        (λ j had gone. absurd (
          extend_present id t d.store (extend pf commits id t d.store)
            (extend-Extended pf commits id t d.store v.sound.indexed) j had gone)))
      (λ j h. h)
Step-IsGuarded pf trips (revokes commits id d) v =
    revoked-IsGuarded pf id d (remove commits id d.store) v
      (Step-IsSound pf (Life.removes commits id d.store) v.sound)
      (remove-Removed commits id d.store)
Step-IsGuarded pf trips (sweeps commits cutoff id d) v =
    marked-IsGuarded pf cutoff id d (mark_expired_if_before commits id cutoff d.store) v
      (Step-IsSound pf (Life.marks commits id cutoff d.store) v.sound)
      (mark_expired_if_before-MarkedAs commits id cutoff d.store)
Step-IsGuarded pf trips (tears id d h idle) v = teardown-IsGuarded pf d v id idle
Step-IsGuarded pf trips (reads_registering conn id d idle) v = record {
  sound = v.sound;
  guards = v.guards;
  old = v.old;
  reading = λ c held. read-IsCurrent d (registering (lookup_of d.store) conn id) c held refl;
}
Step-IsGuarded pf trips (reads_starting conn id bind_addr requested d idle) v = record {
  sound = v.sound;
  guards = v.guards;
  old = v.old;
  reading = λ c held.
      read-IsCurrent d (starting (lookup_of d.store) conn id bind_addr requested) c held refl;
}
Step-IsGuarded pf trips (acts net now binds c d held) v =
    run_critical-IsGuarded pf d v net now binds c (v.reading c held)
Step-IsGuarded pf trips (cancels id conn d idle) v = cancel-IsGuarded pf d v id conn idle
Step-IsGuarded pf trips (ends id conn d idle) v = closed-IsGuarded pf d v id conn idle
Step-IsGuarded pf trips (closes f d h) v = close_later-IsGuarded pf d v f h
Step-IsGuarded pf trips (hangs_up c d h) v = hang_up_later-IsGuarded pf d v c
Step-IsGuarded pf trips (restarts now min max max_visitors zero_forward s d range opened) v =
    start_daemon-IsGuarded pf s max_visitors zero_forward
      (reopened-IsSound pf now min max d.store s range trips v.sound opened)

-- With a codec that reads back what it wrote, from a guarded daemon, as long as no new token is in
-- use, however the steps of its goroutines and its restarts follow each other, with changes of the
-- store between what a method reads and what it does, and with the closes behind the mutex as later
-- steps: each lease with a connection, and each with a forward, is in the store or has a teardown to
-- come, and the listener of the forward has the port of the lease; each open forward that no
-- goroutine is yet to close is the one of such a lease.
pub Reach-IsGuarded :
    (pf : Platform) {d t : Daemon} → RoundTrips pf → IsGuarded pf d → Reach pf d t → IsGuarded pf t
Reach-IsGuarded pf trips v here = v
Reach-IsGuarded pf trips v (next r st) = Step-IsGuarded pf trips st (Reach-IsGuarded pf trips v r)
