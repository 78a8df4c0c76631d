-- ===== src/Tunnel/Daemon.antt =====
-- The tunnel daemon between the control API, the sweeper and the SSH connections: RevokeLease and
-- SweepExpired of internal/tunnel/coordinator.go change the store and call Teardown later, while
-- RegisterConn and StartForward of internal/tunnel/sshd/forward.go read the store under the
-- manager's mutex and act on what they have read. The store has a mutex of its own, so that it can
-- change in between. What a method of the manager has taken out of it is closed later, when the
-- method no longer holds the mutex.
pub mod Covered
pub mod Managed
pub mod Settling
pub mod Guarded
pub mod Listeners
pub mod Quiet
use hyrule_network_proxy.Prelude.{
  ℕ, ◌+◌, ◌-◌, ◌<◌, ◌≤◌, ◌≡◌, String, Bool, true, false, ite, Option, none, some, ℤ, if◌then◌else◌,
  string_discrete,
}
use hyrule_network_proxy.Lease.Error.{Result, ok, err}
use hyrule_network_proxy.Lease.Model.{Net}
use hyrule_network_proxy.Lease.Platform.{Platform, Env}
use hyrule_network_proxy.Lease.Store.{
  Store, CreateParams, Marked, create, extend, revoke, mark_expired_if_before,
}
use hyrule_network_proxy.Lease.Store.Indexed.{IsFreshToken}
use hyrule_network_proxy.Lease.Store.Open.{open_store}
use hyrule_network_proxy.Sshd.Forward.{Forward}
use hyrule_network_proxy.Sshd.Manager.{
  new_manager, Manager, LeaseLookup, start_forward, close_forward, close_conn,
}
use hyrule_network_proxy.Sshd.Manager.Locked.{
  Taken, register_locked, teardown_locked, cancel_locked, closed_locked,
}
use hyrule_network_proxy.Sshd.Manager.Settled.{bump, fewer}
use hyrule_network_proxy.Tunnel.Coordinator.Revoke.{lookup_of}

-- A method that holds the manager's mutex, with what it has read of the store.
pub data Critical : Type 0 where
  registering : LeaseLookup → ℕ → String → Critical
  starting : LeaseLookup → ℕ → String → String → ℕ → Critical

-- `pending id` counts the goroutines that have yet to call Teardown for the lease; `closing` and
-- `hanging_up` count, for a forward and a connection, those that have yet to close it.
pub record Daemon : Type 0 where
  pub store : Store
  pub manager : Manager
  pub mutex : Option Critical
  pub pending : String → ℕ
  pub closing : ℕ → ℕ
  pub hanging_up : ℕ → ℕ

unfoldable pub one_more : String → (String → ℕ) → String → ℕ
one_more id p j = ite (string_discrete id j) (p j + 1) (p j)

unfoldable pub one_less : String → (String → ℕ) → String → ℕ
one_less id p j = ite (string_discrete id j) (p j - 1) (p j)

abbrev pub after_revoke : String → Daemon → Result (Unit {0}) × Store → Daemon
after_revoke id d (err e, s) = record d { store = s }
after_revoke id d (ok u, s) = record d { store = s; pending = one_more id d.pending }

-- RevokeLease up to its call of Teardown.
unfoldable pub begin_revoke : Bool → String → Daemon → Daemon
begin_revoke commits id d = after_revoke id d (revoke commits id d.store)

abbrev pub after_mark : String → Daemon → Marked × Store → Daemon
after_mark id d (m, s) =
    if m.was_expired
    then record d { store = s; pending = one_more id d.pending }
    else record d { store = s }

-- A round of SweepExpired up to its call of Teardown.
unfoldable pub begin_sweep : Bool → ℤ → String → Daemon → Daemon
begin_sweep commits cutoff id d = after_mark id d (mark_expired_if_before commits id cutoff d.store)

-- The end of what a method does under the mutex: what it has taken is still to be closed.
unfoldable pub unlock : Taken × Manager → Daemon → Daemon
unfolding bump
unlock (t, m) d = record d {
  manager = m;
  closing = bump t.forward d.closing;
  hanging_up = bump t.conn d.hanging_up;
}

-- The call of Teardown, up to the end of its hold of the mutex.
unfoldable pub finish_teardown : String → Daemon → Daemon
unfolding one_less unlock
finish_teardown id d = record (unlock (teardown_locked id d.manager) d) {
  pending = one_less id d.pending;
}

-- The rest of the method that holds the mutex, up to the end of its hold.
unfoldable pub run_critical : Net → ℤ → Bool → Critical → Daemon → Daemon
unfolding unlock
run_critical net now binds (registering view conn id) d =
    record (unlock (register_locked view now conn id d.manager) d) { mutex = none }
run_critical net now binds (starting view conn id bind_addr requested) d = record d {
  manager = (start_forward net view now conn id bind_addr requested binds d.manager).1;
  mutex = none;
}

-- f.close() behind the mutex.
unfoldable pub close_later : ℕ → Daemon → Daemon
unfolding fewer
close_later f d = record d { manager = close_forward f d.manager; closing = fewer f d.closing }

-- conn.Close() behind the mutex.
unfoldable pub hang_up_later : ℕ → Daemon → Daemon
unfolding fewer
hang_up_later c d = record d { manager = close_conn c d.manager; hanging_up = fewer c d.hanging_up }

-- The daemon as main makes it, with the store that Open gives.
abbrev pub start_daemon : Store → ℕ → Forward → Daemon
start_daemon s max_visitors zero_forward = record {
  store = s;
  manager = new_manager max_visitors zero_forward;
  mutex = none;
  pending = λ id. 0;
  closing = λ f. 0;
  hanging_up = λ c. 0;
}

-- The atomic steps of the daemon's goroutines, and its end at any moment with a new start on the file
-- that it leaves.
pub data Step (pf : Platform) : Daemon → Daemon → Type 0 where
  creates :
      (env : Env) (p : CreateParams) (d : Daemon)
      → IsFreshToken pf env d.store
      → Step pf d (record d { store = (create pf env p d.store).1 })
  extends :
      (commits : Bool) (id : String) (t : ℤ) (d : Daemon)
      → Step pf d (record d { store = (extend pf commits id t d.store).1 })
  revokes : (commits : Bool) (id : String) (d : Daemon) → Step pf d (begin_revoke commits id d)
  sweeps :
      (commits : Bool) (cutoff : ℤ) (id : String) (d : Daemon)
      → Step pf d (begin_sweep commits cutoff id d)
  tears :
      (id : String) (d : Daemon)
      → 0 < d.pending id
      → d.mutex ≡ none
      → Step pf d (finish_teardown id d)
  reads_registering :
      (conn : ℕ) (id : String) (d : Daemon)
      → d.mutex ≡ none
      → Step pf d (record d { mutex = some (registering (lookup_of d.store) conn id) })
  reads_starting :
      (conn : ℕ) (id bind_addr : String) (requested : ℕ) (d : Daemon)
      → d.mutex ≡ none
      → Step pf d
          (record d { mutex = some (starting (lookup_of d.store) conn id bind_addr requested) })
  acts :
      (net : Net) (now : ℤ) (binds : Bool) (c : Critical) (d : Daemon)
      → d.mutex ≡ some c
      → Step pf d (run_critical net now binds c d)
  cancels :
      (id : String) (conn : ℕ) (d : Daemon)
      → d.mutex ≡ none
      → Step pf d (unlock (cancel_locked id conn d.manager) d)
  ends :
      (id : String) (conn : ℕ) (d : Daemon)
      → d.mutex ≡ none
      → Step pf d (unlock (closed_locked id conn d.manager) d)
  closes : (f : ℕ) (d : Daemon) → 0 < d.closing f → Step pf d (close_later f d)
  hangs_up : (c : ℕ) (d : Daemon) → 0 < d.hanging_up c → Step pf d (hang_up_later c d)
  restarts :
      (now : ℤ) (min max max_visitors : ℕ) (zero_forward : Forward) (s : Store) (d : Daemon)
      → min ≤ max
      → open_store pf now true true min max d.store.db ≡ ok s
      → Step pf d (start_daemon s max_visitors zero_forward)

pub data Reach (pf : Platform) (d : Daemon) : Daemon → Type 0 where
  here : Reach pf d d
  next : {t u : Daemon} → Reach pf d t → Step pf t u → Reach pf d u
