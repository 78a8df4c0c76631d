-- ===== src/Sshd/Manager/Owned.antt =====
-- Ownership of the public listeners of internal/tunnel/sshd/forward.go: an open listener belongs to
-- the one connection that its lease has, and nothing leaks.
use hyrule_network_proxy.Prelude.{
  write, ℕ, ◌+◌, ◌<◌, ◌≡◌, ◌≢◌, refl, String, Bool, true, false, none, some, arith, ℤ, ℕ_discrete,
}
use hyrule_network_proxy.Prelude.Map.{string_key, lookup}
use hyrule_network_proxy.Lease.Model.{Lease, Net}
use hyrule_network_proxy.Sshd.Manager.Cases.{
  register_conn_cases, start_forward_cases, cancel_forward_cases, on_conn_closed_cases,
}
use hyrule_network_proxy.Sshd.Forward.{Forward}
use hyrule_network_proxy.Sshd.Manager.{
  new_manager, Manager, LeaseLookup, register_conn, install, start_forward, teardown,
  cancel_forward, on_conn_closed,
}
use hyrule_network_proxy.Sshd.Manager.Dropped.{
  IsOwned, Dropped-IsOwned, teardown-Dropped, on_conn_closed-Dropped, cancel_forward-Dropped,
  replace_state-Dropped,
}

install_owned :
    (id : String) (r : ℕ) (m m' : Manager)
    → lookup id m.leases ≡ some r
    → m'.leases ≡ m.leases
    → m'.states ≡ write m.states r (record (m.states r) { forward = some m.next_forward })
    → ((g : ℕ) → g ≢ m.next_forward → m'.forwards g ≡ m.forwards g)
    → IsOwned m
    → (m.states r).forward ≡ none
    → (f : ℕ) → f < m.next_forward + 1
    → (m'.forwards f).closed ≡ false
    → Dec (f ≡ m.next_forward)
    → (j : String) × (q : ℕ) × (lookup j m'.leases ≡ some q) × ((m'.states q).forward ≡ some f)
unfolding write
install_owned id r m m' at ls ss fs v idle f below opened (yes e) =
    (id, r, ground arith, ground arith)
install_owned id r m m' at ls ss fs v idle f below opened (no ne) =
    let (j, q, found, has) = v.no_leak f (omega arith) (ground (arith, fs f ne)) in
    (j, q, ground arith, ground arith)

install-IsOwned :
    (net : Net) (l : Lease) (bind_addr : String) (requested : ℕ) (binds : Bool) (id : String)
    (r : ℕ) (m : Manager)
    → lookup id m.leases ≡ some r
    → (m.states r).forward ≡ none
    → IsOwned m
    → IsOwned (install net l bind_addr requested binds r m).1
unfolding install
install-IsOwned net l bind_addr requested false id r m at idle v = v
install-IsOwned net l bind_addr requested true id r m at idle v = record {
  fresh_state = λ j q e. ground (arith, v.fresh_state j q e);
  fresh_forward = λ j q f e has. ground (arith, v.fresh_forward j q f e);
  is_open = λ j q f e has. ground (arith, v.is_open j q f e, v.fresh_forward j q f e);
  unshared = λ i j q ei ej. v.unshared i j q ei ej;
  exclusive = λ i j q p f ei ej hi hj. ground (
    arith,
    v.exclusive i j q p f ei ej,
    v.fresh_forward i q f ei,
    v.fresh_forward j p f ej,
    v.unshared i j r,
  );
  no_leak = λ f below opened.
      install_owned id r m (install net l bind_addr requested true r m).1 at refl refl
        (λ g ne. ground arith) v idle f below opened (ℕ_discrete f m.next_forward);
}

pub start_forward-IsOwned :
    (net : Net) (store : LeaseLookup) (now : ℤ) (conn : ℕ) (id bind_addr : String) (requested : ℕ)
    (binds : Bool) (m : Manager)
    → IsOwned m
    → IsOwned (start_forward net store now conn id bind_addr requested binds m).1
start_forward-IsOwned net store now conn id bind_addr requested binds m v =
    start_forward_cases net store now conn id bind_addr requested binds m (λ r. IsOwned r.1)
      (λ e. v)
      (λ l r _ _ at _ idle. install-IsOwned net l bind_addr requested binds id r m at idle v)

pub register_conn-IsOwned :
    (store : LeaseLookup) (now : ℤ) (conn : ℕ) (id : String) (m : Manager)
    → IsOwned m
    → IsOwned (register_conn store now conn id m).1
register_conn-IsOwned store now conn id m v =
    register_conn_cases store now conn id m (λ r. IsOwned r.1) (λ _. v)
      (λ _. Dropped-IsOwned id m _ (replace_state-Dropped conn id m v) v)

pub teardown-IsOwned : (id : String) (m : Manager) → IsOwned m → IsOwned (teardown id m)
teardown-IsOwned id m v = Dropped-IsOwned id m (teardown id m) (teardown-Dropped id m v) v

pub cancel_forward-IsOwned :
    (id : String) (conn : ℕ) (m : Manager) → IsOwned m → IsOwned (cancel_forward id conn m)
cancel_forward-IsOwned id conn m v = cancel_forward_cases id conn m IsOwned v (λ r at mine.
    Dropped-IsOwned id m (cancel_forward id conn m) (cancel_forward-Dropped id conn r m v at mine)
      v)

pub on_conn_closed-IsOwned :
    (id : String) (conn : ℕ) (m : Manager) → IsOwned m → IsOwned (on_conn_closed id conn m)
on_conn_closed-IsOwned id conn m v = on_conn_closed_cases id conn m IsOwned v (λ r at mine.
    Dropped-IsOwned id m (on_conn_closed id conn m) (on_conn_closed-Dropped id conn r m at mine) v)

-- The methods of the manager, in any order.
pub data Step : Manager → Manager → Type 0 where
  registers :
      (store : LeaseLookup) (now : ℤ) (conn : ℕ) (id : String) (m : Manager)
      → Step m (register_conn store now conn id m).1
  starts :
      (net : Net) (store : LeaseLookup) (now : ℤ) (conn : ℕ) (id bind_addr : String) (requested : ℕ)
      (binds : Bool) (m : Manager)
      → Step m (start_forward net store now conn id bind_addr requested binds m).1
  tears : (id : String) (m : Manager) → Step m (teardown id m)
  cancels : (id : String) (conn : ℕ) (m : Manager) → Step m (cancel_forward id conn m)
  closes : (id : String) (conn : ℕ) (m : Manager) → Step m (on_conn_closed id conn m)

pub data Reach (m : Manager) : Manager → Type 0 where
  here : Reach m m
  next : {t u : Manager} → Reach m t → Step t u → Reach m u

Step-IsOwned : {t u : Manager} → Step t u → IsOwned t → IsOwned u
Step-IsOwned (registers store now conn id m) v = register_conn-IsOwned store now conn id m v
Step-IsOwned (starts net store now conn id b q binds m) v =
    start_forward-IsOwned net store now conn id b q binds m v
Step-IsOwned (tears id m) v = teardown-IsOwned id m v
Step-IsOwned (cancels id conn m) v = cancel_forward-IsOwned id conn m v
Step-IsOwned (closes id conn m) v = on_conn_closed-IsOwned id conn m v

-- From a manager with the invariant, however the methods follow each other: each open forward is
-- the one of just one lease that has a connection, and each forward that a lease has is open.
pub Reach-IsOwned : {m t : Manager} → IsOwned m → Reach m t → IsOwned t
Reach-IsOwned v here = v
Reach-IsOwned v (next r st) = Step-IsOwned st (Reach-IsOwned v r)

-- The manager that NewManager makes has the invariant.
pub new_manager-IsOwned :
    (max_visitors : ℕ) (zero_forward : Forward) → IsOwned (new_manager max_visitors zero_forward)
unfolding new_manager lookup
new_manager-IsOwned max_visitors zero_forward = record {
  fresh_state = λ id r e. absurd (ground arith);
  fresh_forward = λ id r f e. absurd (ground arith);
  is_open = λ id r f e. absurd (ground arith);
  unshared = λ i j r e. absurd (ground arith);
  exclusive = λ i j r q f e. absurd (ground arith);
  no_leak = λ f h. absurd (omega arith);
}
