-- ===== src/Tunnel/Daemon/Guarded.antt =====
-- The invariant of the daemon: what the manager serves, and what a method that holds the mutex has
-- read, has a lease, or its teardown is still to come. How each kind of step keeps it.
use hyrule_network_proxy.Prelude.{
  ℕ, ◌<◌, ◌≡◌, inl, inr, refl, subst, String, Bool, Option, none, some, arith, ℤ, Option-cases,
}
use hyrule_network_proxy.Prelude.Map.{string_key, lookup}
use hyrule_network_proxy.Lease.Error.{Result, ok, err}
use hyrule_network_proxy.Lease.Model.{Net}
use hyrule_network_proxy.Lease.Platform.{Platform}
use hyrule_network_proxy.Lease.Store.{Store, Marked, get}
use hyrule_network_proxy.Lease.Store.Views.{Removed}
use hyrule_network_proxy.Lease.Store.Expiry.{MarkedAs}
use hyrule_network_proxy.Lease.Store.Reach.{IsSound}
use hyrule_network_proxy.Sshd.Forward.{Forward}
use hyrule_network_proxy.Sshd.Manager.Owned.{new_manager-IsOwned}
use hyrule_network_proxy.Sshd.Manager.{new_manager, LeaseLookup, Manager, close_forward, close_conn}
use hyrule_network_proxy.Tunnel.Coordinator.Revoke.{lookup_of}
use hyrule_network_proxy.Tunnel.Daemon.{
  one_more, one_less, Daemon, Critical, registering, starting, after_revoke, after_mark,
  run_critical, start_daemon, unlock, finish_teardown, close_later, hang_up_later,
}
use hyrule_network_proxy.Sshd.Manager.Locked.{
  Taken, register_locked, teardown_locked, cancel_locked, closed_locked,
}
use hyrule_network_proxy.Sshd.Manager.Settled.{settled, bump, fewer}
use hyrule_network_proxy.Sshd.Manager.Delayed.{
  AreOld, HasFresh, Takes, register_locked-Takes, teardown_locked-Takes, cancel_locked-Takes,
  closed_locked-Takes, start_forward-next,
}
use hyrule_network_proxy.Tunnel.Daemon.Settling.{
  Alike-Guards, teardown_locked-Guards, cancel_locked-Guards, closed_locked-Guards,
  register_locked-Guards, started-Guards, closed_later-Guards,
}
use hyrule_network_proxy.Tunnel.Daemon.Covered.{
  Keeps, Grows, still_covered, revoked_Keeps, marked_Keeps, revoked_Grows, marked_Grows,
}
use hyrule_network_proxy.Tunnel.Daemon.Managed.{Guards, IsCurrent}

abbrev pub view_of : Critical → LeaseLookup
view_of (registering view conn id) = view
view_of (starting view conn id bind_addr requested) = view

abbrev pub id_of : Critical → String
id_of (registering view conn id) = id
id_of (starting view conn id bind_addr requested) = id

-- What the method that holds the mutex has read is covered; so are the leases that the manager
-- serves, and each open forward that no goroutine is yet to close is the one of such a lease; and
-- the store is sound.
pub record IsGuarded (pf : Platform) (d : Daemon) : Type 0 where
  pub sound : IsSound pf d.store
  pub guards : Guards (get d.store) d.pending (settled d.closing d.manager)
  pub old : AreOld d.closing d.manager
  pub reading :
      (c : Critical) → d.mutex ≡ some c → IsCurrent (get d.store) d.pending (view_of c) (id_of c)

unlock-AreOld :
    (q : ℕ → ℕ) (m : Manager) (r : Taken × Manager)
    → AreOld q m
    → Takes m r
    → AreOld (bump r.0.forward q) r.1
unfolding bump
unlock-AreOld q m r old t f h = elim (Option-cases r.0.forward) [
  | inl e ↦ ground (arith, old f, t.same)
  | inr (g, e) ↦ ground (arith, old f, t.same, t.old g e)
]

module _ (pf : Platform) (d : Daemon) (v : IsGuarded pf d) where
  has_fresh : HasFresh d.manager
  unfolding settled
  has_fresh = v.guards.owned.fresh_forward

  -- The end of a hold of the mutex, after which no method holds it.
  pub unlock-IsGuarded :
      (c : Option Critical) (p : String → ℕ) (r : Taken × Manager)
      → c ≡ none
      → Guards (get d.store) p (settled (bump r.0.forward d.closing) r.1)
      → Takes d.manager r
      → IsGuarded pf (record (unlock r d) { pending = p; mutex = c })
  unfolding unlock
  unlock-IsGuarded c p r idle g t = record {
    sound = v.sound;
    guards = g;
    old = unlock-AreOld d.closing d.manager r v.old t;
    reading = λ e held. absurd (ground arith);
  }

  pub run_critical-IsGuarded :
      (net : Net) (now : ℤ) (binds : Bool) (c : Critical)
      → IsCurrent (get d.store) d.pending (view_of c) (id_of c)
      → IsGuarded pf (run_critical net now binds c d)
  unfolding run_critical
  run_critical-IsGuarded net now binds (registering view conn id) current =
      unlock-IsGuarded none d.pending (register_locked view now conn id d.manager) refl
        (register_locked-Guards (get d.store) d.pending d.closing d.manager v.guards view now conn
          id current)
        (register_locked-Takes view now conn id d.manager has_fresh)
  run_critical-IsGuarded net now binds (starting view conn id bind_addr requested) current =
      record {
        sound = v.sound;
        guards =
            started-Guards (get d.store) d.pending d.closing d.manager v.guards net view now conn id
              bind_addr requested binds v.old current;
        old = λ f h. v.old f (
            omega (
              arith,
              h,
              start_forward-next net view now conn id bind_addr requested binds d.manager,
            ));
        reading = λ e held. absurd (ground arith);
      }

  pub teardown-IsGuarded : (id : String) → d.mutex ≡ none → IsGuarded pf (finish_teardown id d)
  unfolding finish_teardown
  teardown-IsGuarded id idle =
      unlock-IsGuarded d.mutex (one_less id d.pending) (teardown_locked id d.manager) idle
        (teardown_locked-Guards (get d.store) d.pending d.closing d.manager v.guards id)
        (teardown_locked-Takes id d.manager has_fresh)

  pub cancel-IsGuarded :
      (id : String) (conn : ℕ)
      → d.mutex ≡ none
      → IsGuarded pf (unlock (cancel_locked id conn d.manager) d)
  unfolding unlock
  cancel-IsGuarded id conn idle =
      unlock-IsGuarded d.mutex d.pending (cancel_locked id conn d.manager) idle
        (cancel_locked-Guards (get d.store) d.pending d.closing d.manager v.guards id conn)
        (cancel_locked-Takes id conn d.manager has_fresh)

  pub closed-IsGuarded :
      (id : String) (conn : ℕ)
      → d.mutex ≡ none
      → IsGuarded pf (unlock (closed_locked id conn d.manager) d)
  unfolding unlock
  closed-IsGuarded id conn idle =
      unlock-IsGuarded d.mutex d.pending (closed_locked id conn d.manager) idle
        (closed_locked-Guards (get d.store) d.pending d.closing d.manager v.guards id conn)
        (closed_locked-Takes id conn d.manager has_fresh)

  pub close_later-IsGuarded : (f : ℕ) → 0 < d.closing f → IsGuarded pf (close_later f d)
  unfolding close_later close_forward
  close_later-IsGuarded f h = record {
    sound = v.sound;
    guards = closed_later-Guards (get d.store) d.pending d.closing d.manager v.guards f h;
    old = λ g below. unfold fewer in ground (arith, v.old g below);
    reading = v.reading;
  }

  pub hang_up_later-IsGuarded : (c : ℕ) → IsGuarded pf (hang_up_later c d)
  unfolding hang_up_later close_conn
  hang_up_later-IsGuarded c = record {
    sound = v.sound;
    guards =
        Alike-Guards (get d.store) d.pending (settled d.closing d.manager)
          (settled d.closing (close_conn c d.manager))
          (unfold settled in
            record {
              leases = refl;
              states = λ r. refl;
              closed = λ f. refl;
              ports = λ f. refl;
              next_state = refl;
              next_forward = refl;
            })
          v.guards;
    old = v.old;
    reading = v.reading;
  }

-- A change of the store under a manager that does not move.
pub changed-IsGuarded :
    (pf : Platform) (d : Daemon) (s : Store) (q : String → ℕ)
    → IsGuarded pf d
    → IsSound pf s
    → Keeps (get d.store) (get s) q
    → Grows d.pending q
    → IsGuarded pf (record d { store = s; pending = q })
changed-IsGuarded pf d s q v w keep grow = record {
  sound = w;
  guards = record {
    owned = v.guards.owned;
    registered = λ id r at.
        let (port, c) = v.guards.registered id r at in
        (port, still_covered (get d.store) (get s) d.pending q keep grow id port c);
    listening = λ id r f at has.
        still_covered (get d.store) (get s) d.pending q keep grow id
          ((settled d.closing d.manager).forwards f).port (v.guards.listening id r f at has);
  };
  old = v.old;
  reading = λ c held l at.
      still_covered (get d.store) (get s) d.pending q keep grow (id_of c) l.allocated_port
        (v.reading c held l at);
}

lookup_of-IsCurrent :
    (s : Store) (p : String → ℕ) (id : String) → IsCurrent (get s) p (lookup_of s) id
lookup_of-IsCurrent s p id l at = inl (l, at, refl)

pub read-IsCurrent :
    (d : Daemon) (c e : Critical)
    → some c ≡ some e
    → view_of c ≡ lookup_of d.store
    → IsCurrent (get d.store) d.pending (view_of e) (id_of e)
read-IsCurrent d c e held from =
    let same : c ≡ e = ground arith in
    subst (λ (x : Critical). IsCurrent (get d.store) d.pending (view_of x) (id_of x)) same
      (rw from (lookup_of-IsCurrent d.store d.pending (id_of c)))

pub revoked-IsGuarded :
    (pf : Platform) (id : String) (d : Daemon) (r : Result (Unit {0}) × Store)
    → IsGuarded pf d
    → IsSound pf r.1
    → Removed id d.store r
    → IsGuarded pf (after_revoke id d r)
revoked-IsGuarded pf id d (err e, s) v w c =
    changed-IsGuarded pf d s d.pending v w (revoked_Keeps id d (err e, s) c)
      (revoked_Grows id d (err e, s))
revoked-IsGuarded pf id d (ok u, s) v w c =
    changed-IsGuarded pf d s (one_more id d.pending) v w (revoked_Keeps id d (ok u, s) c)
      (revoked_Grows id d (ok u, s))

after_mark_store :
    (id : String) (d : Daemon) (m : Marked) (s : Store)
    → record d { store = s; pending = (after_mark id d (m, s)).pending } ≡ after_mark id d (m, s)
after_mark_store id d m s = ground arith

pub marked-IsGuarded :
    (pf : Platform) (cutoff : ℤ) (id : String) (d : Daemon) (r : Marked × Store)
    → IsGuarded pf d
    → IsSound pf r.1
    → MarkedAs id cutoff d.store r
    → IsGuarded pf (after_mark id d r)
marked-IsGuarded pf cutoff id d (m, s) v w c =
    let q = (after_mark id d (m, s)).pending in
    subst (IsGuarded pf) (after_mark_store id d m s)
      (changed-IsGuarded pf d s q v w keep (marked_Grows id d (m, s)))
  where
    keep : Keeps (get d.store) (get s) (after_mark id d (m, s)).pending
    keep =
        subst (λ t. Keeps (get d.store) (get t) (after_mark id d (m, s)).pending) (ground arith)
          (marked_Keeps id cutoff d (m, s) c)

pub start_daemon-IsGuarded :
    (pf : Platform) (s : Store) (max_visitors : ℕ) (zero_forward : Forward)
    → IsSound pf s
    → IsGuarded pf (start_daemon s max_visitors zero_forward)
unfolding new_manager lookup settled
start_daemon-IsGuarded pf s max_visitors zero_forward v = record {
  sound = v;
  guards =
      Alike-Guards (get s) (λ id. 0) (new_manager max_visitors zero_forward)
        (settled (λ f. 0) (new_manager max_visitors zero_forward))
        (record {
          leases = refl;
          states = λ r. refl;
          closed = λ f. refl;
          ports = λ f. refl;
          next_state = refl;
          next_forward = refl;
        })
        (record {
          owned = new_manager-IsOwned max_visitors zero_forward;
          registered = λ id r at. absurd (ground arith);
          listening = λ id r f at. absurd (ground arith);
        });
  old = λ f h. refl;
  reading = λ c held. absurd (ground arith);
}
