-- ===== src/Tunnel/Daemon/Managed.antt =====
-- The methods of the manager in internal/tunnel/sshd/forward.go, seen from the leases that they
-- serve: whoever has a connection or a listener behind a method had it before, or is covered.
use hyrule_network_proxy.Prelude.{
  ℕ, ◌<◌, ◌≡◌, ◌≢◌, ◌⊎◌, inl, inr, refl, sym, subst, String, Bool, true, false, Option, none, some,
  arith, ℤ, Option-cases, string_discrete, ℕ_discrete, write,
}
use hyrule_network_proxy.Prelude.Map.{string_key, lookup}
use hyrule_network_proxy.Lease.Model.{Lease, Net}
use hyrule_network_proxy.Lease.Store.Refine.{Leases}
use hyrule_network_proxy.Sshd.Forward.{close, new_forward}
use hyrule_network_proxy.Sshd.Manager.{
  Manager, LeaseLookup, is_live, close_optional, close_forward, close_conn, replace_state,
  register_conn, install, start_forward, teardown, cancel_forward, on_conn_closed,
}
use hyrule_network_proxy.Sshd.Manager.Cases.{
  register_conn_cases, start_forward_cases, cancel_forward_cases, on_conn_closed_cases,
}
use hyrule_network_proxy.Sshd.Manager.Dropped.{
  IsOwned, Dropped, kept, Dropped-IsOwned, teardown-Dropped, on_conn_closed-Dropped,
  cancel_forward-Dropped, replace_state-Dropped,
}
use hyrule_network_proxy.Sshd.Manager.Owned.{start_forward-IsOwned}
use hyrule_network_proxy.Sshd.Manager.Effects.{lookup-teardown}
use hyrule_network_proxy.Tunnel.Daemon.{one_less}
use hyrule_network_proxy.Tunnel.Daemon.Covered.{IsCovered}

-- Each lease with a connection is in the store or has a teardown to come, and so is each with a
-- forward, whose listener has the port of the lease.
pub record Guards (a : Leases) (p : String → ℕ) (m : Manager) : Type 0 where
  pub owned : IsOwned m
  pub registered :
      (id : String) (r : ℕ) → lookup id m.leases ≡ some r → (port : ℕ) × IsCovered a p id port
  pub listening :
      (id : String) (r f : ℕ)
      → lookup id m.leases ≡ some r
      → (m.states r).forward ≡ some f
      → IsCovered a p id (m.forwards f).port

-- A manager that has dropped the forward of the lease has the listeners of the others.
others_listening :
    (a : Leases) (p : String → ℕ) (id : String) (m m' : Manager)
    → Dropped id m m'
    → ((f : ℕ) → (m'.forwards f).port ≡ (m.forwards f).port)
    → Guards a p m
    → (j : String) (r f : ℕ) → lookup j m'.leases ≡ some r
    → (m'.states r).forward ≡ some f
    → (id ≢ j) × IsCovered a p j (m'.forwards f).port
others_listening a p id m m' d same g j r f at has =
    let k = kept id m m' d g.owned j r f at has in
    (k.0, subst (λ q. IsCovered a p j q) (sym (same f)) (g.listening j r f k.1 k.2))

close_optional_ports :
    (o : Option ℕ) (m : Manager) (f : ℕ)
    → ((close_optional o m).forwards f).port ≡ (m.forwards f).port
unfolding close_optional close_forward write close
close_optional_ports none m f = refl
close_optional_ports (some g) m f = ground arith

teardown_ports :
    (id : String) (m : Manager) (f : ℕ) → ((teardown id m).forwards f).port ≡ (m.forwards f).port
unfolding teardown close_conn
teardown_ports id m f = ground arith

on_conn_closed_ports :
    (id : String) (conn : ℕ) (m : Manager) (f : ℕ)
    → ((on_conn_closed id conn m).forwards f).port ≡ (m.forwards f).port
unfolding on_conn_closed
on_conn_closed_ports id conn m f = ground arith

cancel_forward_ports :
    (id : String) (conn : ℕ) (m : Manager) (f : ℕ)
    → ((cancel_forward id conn m).forwards f).port ≡ (m.forwards f).port
unfolding cancel_forward
cancel_forward_ports id conn m f = ground arith

replace_state_ports :
    (conn : ℕ) (id : String) (o : Option ℕ) (m : Manager) (f : ℕ)
    → ((replace_state conn id o m).forwards f).port ≡ (m.forwards f).port
unfolding replace_state close_conn
replace_state_ports conn id o m f = ground arith

-- A new listener has the port of the lease.
install-Guards :
    (a : Leases) (p : String → ℕ) (net : Net) (l : Lease) (bind_addr : String) (requested : ℕ)
    (binds : Bool) (id : String) (r : ℕ) (m : Manager)
    → lookup id m.leases ≡ some r
    → IsCovered a p id l.allocated_port
    → Guards a p m
    → IsOwned (install net l bind_addr requested binds r m).1
    → Guards a p (install net l bind_addr requested binds r m).1
unfolding install write new_forward
install-Guards a p net l bind_addr requested false id r m at c g v = g
install-Guards a p net l bind_addr requested true id r m at c g v = record {
  owned = v;
  registered = g.registered;
  listening = λ j q f e has. elim (ℕ_discrete q r) [
    | yes same ↦
        let mine : id ≡ j = g.owned.unshared id j r at (ground arith) in
        let port : l.allocated_port
            ≡ ((install net l bind_addr requested true r m).1.forwards f).port =
          ground arith in
        subst
          (λ k. IsCovered a p k ((install net l bind_addr requested true r m).1.forwards f).port)
          mine (subst (λ k. IsCovered a p id k) port c)
    | no other ↦
        let had : (m.states q).forward ≡ some f = ground arith in
        let below : f < m.next_forward = g.owned.fresh_forward j q f e had in
        let port : (m.forwards f).port
            ≡ ((install net l bind_addr requested true r m).1.forwards f).port =
          ground arith in
        subst (λ k. IsCovered a p j k) port (g.listening j q f e had)
  ];
}

-- What a method that holds the mutex has read of the store is covered.
abbrev pub IsCurrent : Leases → (String → ℕ) → LeaseLookup → String → Type 0
IsCurrent a p view id = (l : Lease) → view.get id ≡ some l → IsCovered a p id l.allocated_port

module _ (a : Leases) (p : String → ℕ) (id : String) (m : Manager) (g : Guards a p m) where
  pub teardown-Guards : Guards a (one_less id p) (teardown id m)
  teardown-Guards = record {
    owned = Dropped-IsOwned id m (teardown id m) (teardown-Dropped id m g.owned) g.owned;
    registered = λ j r at. elim (string_discrete id j) [
      | yes same ↦ absurd (ground (arith, lookup-teardown id j m))
      | no other ↦
          let (port, c) = g.registered j r (ground (arith, lookup-teardown id j m)) in
          (port, spared j port other c)
    ];
    listening = λ j r f at has.
        let (other, c) =
          others_listening a p id m (teardown id m) (teardown-Dropped id m g.owned)
            (teardown_ports id m) g j r f at has in
        spared j ((teardown id m).forwards f).port other c;
  }
    where
      spared :
          (j : String) (port : ℕ)
          → id ≢ j
          → IsCovered a p j port
          → IsCovered a (one_less id p) j port
      spared j port other (inl c) = inl c
      spared j port other (inr h) = inr (unfold one_less in ground arith)

  pub on_conn_closed-Guards : (conn : ℕ) → Guards a p (on_conn_closed id conn m)
  on_conn_closed-Guards conn = on_conn_closed_cases id conn m (Guards a p) g (λ r at mine.
      let d = on_conn_closed-Dropped id conn r m at mine in
      record {
        owned = Dropped-IsOwned id m (on_conn_closed id conn m) d g.owned;
        registered = λ j q e. elim (string_discrete id j) [
          | yes same ↦ g.registered j r (subst (λ k. lookup k m.leases ≡ some r) same at)
          | no other ↦ g.registered j q (ground (arith, d.others j other))
        ];
        listening = λ j q f e has.
            (others_listening a p id m (on_conn_closed id conn m) d (on_conn_closed_ports id conn m)
              g j q f e has).1;
      })

  pub cancel_forward-Guards : (conn : ℕ) → Guards a p (cancel_forward id conn m)
  cancel_forward-Guards conn = cancel_forward_cases id conn m (Guards a p) g (λ r at mine.
      let d = cancel_forward-Dropped id conn r m g.owned at mine in
      record {
        owned = Dropped-IsOwned id m (cancel_forward id conn m) d g.owned;
        registered = λ j q e. elim (string_discrete id j) [
          | yes same ↦ g.registered j r (subst (λ k. lookup k m.leases ≡ some r) same at)
          | no other ↦ g.registered j q (ground (arith, d.others j other))
        ];
        listening = λ j q f e has.
            (others_listening a p id m (cancel_forward id conn m) d (cancel_forward_ports id conn m)
              g j q f e has).1;
      })

  pub register_conn-Guards :
      (view : LeaseLookup) (now : ℤ) (conn : ℕ)
      → IsCurrent a p view id
      → Guards a p (register_conn view now conn id m).1
  register_conn-Guards view now conn current =
      register_conn_cases view now conn id m (λ r. Guards a p r.1) (λ _. g)
        (λ live.
          let d = replace_state-Dropped conn id m g.owned in
          let m' = replace_state conn id (lookup id m.leases) m in
          record {
            owned = Dropped-IsOwned id m m' d g.owned;
            registered = λ j q e. elim (string_discrete id j) [
              | yes same ↦
                  subst (λ k. (port : ℕ) × IsCovered a p k port) same
                    (seen live (Option-cases (view.get id)))
              | no other ↦ g.registered j q (ground (arith, d.others j other))
            ];
            listening = λ j q f e has.
                (others_listening a p id m m' d (replace_state_ports conn id (lookup id m.leases) m)
                  g j q f e has).1;
          })
    where
      seen :
          is_live view now id ≡ true
          → (view.get id ≡ none) ⊎ ((l : Lease) × (view.get id ≡ some l))
          → (port : ℕ) × IsCovered a p id port
      seen live (inl e) = absurd (ground arith)
      seen live (inr (l, e)) = (l.allocated_port, current l e)

  pub start_forward-Guards :
      (net : Net) (view : LeaseLookup) (now : ℤ) (conn : ℕ) (bind_addr : String) (requested : ℕ)
      (binds : Bool)
      → IsCurrent a p view id
      → Guards a p (start_forward net view now conn id bind_addr requested binds m).1
  start_forward-Guards net view now conn bind_addr requested binds current =
      start_forward_cases net view now conn id bind_addr requested binds m
        (λ r. IsOwned r.1 → Guards a p r.1) (λ e v. g)
        (λ l r got live at mine idle v.
          install-Guards a p net l bind_addr requested binds id r m at (current l got) g v)
        (start_forward-IsOwned net view now conn id bind_addr requested binds m g.owned)
