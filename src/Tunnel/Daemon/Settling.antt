-- ===== src/Tunnel/Daemon/Settling.antt =====
-- The manager of the daemon with all closed that is still to be closed: each part of a method keeps
-- its leases and its listeners covered.
use hyrule_network_proxy.Prelude.{ℕ, ◌<◌, ◌≡◌, sym, subst, String, Bool, arith, ℤ}
use hyrule_network_proxy.Prelude.Map.{string_key}
use hyrule_network_proxy.Lease.Model.{Net}
use hyrule_network_proxy.Lease.Store.Refine.{Leases}
use hyrule_network_proxy.Sshd.Manager.{
  Manager, LeaseLookup, close_forward, register_conn, start_forward, teardown, cancel_forward,
  on_conn_closed,
}
use hyrule_network_proxy.Sshd.Manager.Dropped.{IsOwned}
use hyrule_network_proxy.Sshd.Manager.Locked.{
  Taken, close_taken, register_locked, teardown_locked, cancel_locked, closed_locked,
  register_conn-eq-close_taken, teardown-eq-close_taken, cancel_forward-eq-close_taken,
  on_conn_closed-eq-close_taken,
}
use hyrule_network_proxy.Sshd.Manager.Settled.{
  bump, fewer, settled, Alike, close_taken-Alike, close_forward-Alike, register_locked-settled,
  teardown_locked-settled, cancel_locked-settled, closed_locked-settled,
}
use hyrule_network_proxy.Sshd.Manager.Delayed.{AreOld, start_forward-Alike}
use hyrule_network_proxy.Tunnel.Daemon.{one_less}
use hyrule_network_proxy.Tunnel.Daemon.Covered.{IsCovered}
use hyrule_network_proxy.Tunnel.Daemon.Managed.{
  Guards, IsCurrent, teardown-Guards, on_conn_closed-Guards, cancel_forward-Guards,
  register_conn-Guards, start_forward-Guards,
}

Alike-IsOwned : (m m' : Manager) → Alike m m' → IsOwned m → IsOwned m'
Alike-IsOwned m m' s v = record {
  fresh_state = λ id r at. ground (arith, s.leases, s.next_state, v.fresh_state id r);
  fresh_forward =
      λ id r f at has. ground (arith, s.leases, s.next_forward, s.states r, v.fresh_forward id r f);
  is_open = λ id r f at has. ground (arith, s.leases, s.states r, s.closed f, v.is_open id r f);
  unshared = λ i j r ei ej. ground (arith, s.leases, v.unshared i j r);
  exclusive = λ i j r q f ei ej hi hj.
      ground (arith, s.leases, s.states r, s.states q, v.exclusive i j r q f);
  no_leak = λ f below opened.
      let (id, r, at, has) =
        v.no_leak f (ground (arith, s.next_forward)) (ground (arith, s.closed f)) in
      (id, r, ground (arith, s.leases), ground (arith, s.states r));
}

pub Alike-Guards :
    (a : Leases) (p : String → ℕ) (m m' : Manager) → Alike m m' → Guards a p m → Guards a p m'
Alike-Guards a p m m' s g = record {
  owned = Alike-IsOwned m m' s g.owned;
  registered = λ id r at. g.registered id r (ground (arith, s.leases));
  listening = λ id r f at has.
      subst (λ k. IsCovered a p id k) (sym (s.ports f))
        (g.listening id r f (ground (arith, s.leases)) (ground (arith, s.states r)));
}

-- What a method has taken is closed at once, or later.
later :
    (a : Leases) (p : String → ℕ) (q : ℕ → ℕ) (m' : Manager) (locked : Taken × Manager)
    (r : Taken × Manager)
    → m' ≡ close_taken locked
    → locked ≡ (r.0, settled q r.1)
    → Guards a p m'
    → Guards a p (settled (bump r.0.forward q) r.1)
later a p q m' locked (t, m) e same g =
    Alike-Guards a p (close_taken (t, settled q m)) (settled (bump t.forward q) m)
      (close_taken-Alike q t m)
      (subst (λ x. Guards a p (close_taken x)) same (subst (Guards a p) e g))

module _ (a : Leases) (p : String → ℕ) (q : ℕ → ℕ) (m : Manager)
    (g : Guards a p (settled q m)) where
  pub teardown_locked-Guards :
      (id : String)
      → let r = teardown_locked id m in Guards a (one_less id p) (settled (bump r.0.forward q) r.1)
  teardown_locked-Guards id =
      later a (one_less id p) q (teardown id (settled q m)) (teardown_locked id (settled q m))
        (teardown_locked id m) (teardown-eq-close_taken id (settled q m))
        (teardown_locked-settled q id m) (teardown-Guards a p id (settled q m) g)

  pub cancel_locked-Guards :
      (id : String) (conn : ℕ)
      → let r = cancel_locked id conn m in Guards a p (settled (bump r.0.forward q) r.1)
  cancel_locked-Guards id conn =
      later a p q (cancel_forward id conn (settled q m)) (cancel_locked id conn (settled q m))
        (cancel_locked id conn m) (cancel_forward-eq-close_taken id conn (settled q m))
        (cancel_locked-settled q id conn m) (cancel_forward-Guards a p id (settled q m) g conn)

  pub closed_locked-Guards :
      (id : String) (conn : ℕ)
      → let r = closed_locked id conn m in Guards a p (settled (bump r.0.forward q) r.1)
  closed_locked-Guards id conn =
      later a p q (on_conn_closed id conn (settled q m)) (closed_locked id conn (settled q m))
        (closed_locked id conn m) (on_conn_closed-eq-close_taken id conn (settled q m))
        (closed_locked-settled q id conn m) (on_conn_closed-Guards a p id (settled q m) g conn)

  pub register_locked-Guards :
      (view : LeaseLookup) (now : ℤ) (conn : ℕ) (id : String)
      → IsCurrent a p view id
      → let r = register_locked view now conn id m in Guards a p (settled (bump r.0.forward q) r.1)
  register_locked-Guards view now conn id current =
      later a p q (register_conn view now conn id (settled q m)).1
        (register_locked view now conn id (settled q m)) (register_locked view now conn id m)
        (register_conn-eq-close_taken view now conn id (settled q m))
        (register_locked-settled q view now conn id m)
        (register_conn-Guards a p id (settled q m) g view now conn current)

  pub started-Guards :
      (net : Net) (view : LeaseLookup) (now : ℤ) (conn : ℕ) (id bind_addr : String) (requested : ℕ)
      (binds : Bool)
      → AreOld q m
      → IsCurrent a p view id
      → Guards a p (settled q (start_forward net view now conn id bind_addr requested binds m).1)
  started-Guards net view now conn id bind_addr requested binds old current =
      Alike-Guards a p
        (start_forward net view now conn id bind_addr requested binds (settled q m)).1
        (settled q (start_forward net view now conn id bind_addr requested binds m).1)
        (start_forward-Alike q net view now conn id bind_addr requested binds m old)
        (start_forward-Guards a p id (settled q m) g net view now conn bind_addr requested binds
          current)

  pub closed_later-Guards : (f : ℕ) → 0 < q f → Guards a p (settled (fewer f q) (close_forward f m))
  closed_later-Guards f h =
      Alike-Guards a p (settled q m) (settled (fewer f q) (close_forward f m))
        (close_forward-Alike q f m h) g
