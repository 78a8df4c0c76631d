-- ===== src/Sshd/Manager/Effects.antt =====
-- What the methods of internal/tunnel/sshd/forward.go do for the lease that they are called with.
use hyrule_network_proxy.Prelude.{
  write, ℕ, ◌≡◌, ◌≢◌, refl, String, Bool, true, false, ite, Option, none, some, List, [], ◌∷◌,
  arith, ℤ, Option-cases, inl, inr, string_discrete, ℕ_discrete,
}
use hyrule_network_proxy.Prelude.Map.{Map, string_key, nat_key, lookup, lookup-put, lookup-delete}
use hyrule_network_proxy.Lease.Model.{Lease, Net, expired}
use hyrule_network_proxy.Sshd.Forward.{sockets, channels}
use hyrule_network_proxy.Sshd.Manager.{
  Manager, LeaseLookup, Started, started, refused, mark_all, close_optional, echoed_port, is_live,
  register_conn, replace_state, new_state, install, start_forward, teardown, cancel_forward,
  on_conn_closed,
}
use hyrule_network_proxy.Sshd.Manager.Cases.{start_forward_cases}
use hyrule_network_proxy.Sshd.Manager.Dropped.{forward_of}

-- What StartForward returns and leaves behind.
abbrev pub StartedAs : LeaseLookup → ℤ → ℕ → String → ℕ → Manager → Started × Manager → Type 0
StartedAs store now conn id requested m (refused e, m') = m' ≡ m
StartedAs store now conn id requested m (started port echoed, m') =
    (l : Lease) × (r : ℕ) × (store.get id ≡ some l)
    × (expired l now ≡ false)
    × (lookup id m.leases ≡ some r)
    × ((m.states r).conn ≡ conn)
    × ((m.states r).forward ≡ none)
    × (port ≡ l.allocated_port)
    × (echoed ≡ echoed_port requested l.allocated_port)
    × (forward_of m' id ≡ some m.next_forward)
    × ((m'.forwards m.next_forward).port ≡ l.allocated_port)
    × ((m'.states r).visitors ≡ (m.states r).visitors)

-- StartForward gives out a port only to the connection that is registered for a live lease and has
-- no forward; it is the port of the lease, whatever the client asked for, the new forward listens
-- on it, and the count of visitors is the one from before. When it refuses, nothing changes.
pub start_forward-StartedAs :
    (net : Net) (store : LeaseLookup) (now : ℤ) (conn : ℕ) (id bind_addr : String) (requested : ℕ)
    (binds : Bool) (m : Manager)
    → StartedAs store now conn id requested m
        (start_forward net store now conn id bind_addr requested binds m)
start_forward-StartedAs net store now conn id bind_addr requested binds m =
    start_forward_cases net store now conn id bind_addr requested binds m
      (StartedAs store now conn id requested m) (λ e. refl)
      (λ l r got live at mine idle. installed l r got live at mine idle binds)
  where
    installed :
        (l : Lease) (r : ℕ)
        → store.get id ≡ some l
        → expired l now ≡ false
        → lookup id m.leases ≡ some r
        → (m.states r).conn ≡ conn
        → (m.states r).forward ≡ none
        → (b : Bool)
        → StartedAs store now conn id requested m (install net l bind_addr requested b r m)
    installed l r got live at mine idle false = unfold install in refl
    installed l r got live at mine idle true =
        unfold install in
        (l, r, got, live, at, mine, idle, refl, refl, ground arith, ground arith, ground arith)

-- A lease that has left the store, or has run out, can start no forward and register no connection.
pub gone_lease_refused :
    (net : Net) (store : LeaseLookup) (now : ℤ) (conn : ℕ) (id bind_addr : String) (requested : ℕ)
    (binds : Bool) (m : Manager)
    → is_live store now id ≡ false
    → ((start_forward net store now conn id bind_addr requested binds m).1 ≡ m)
      × (register_conn store now conn id m ≡ (false, m))
      × ((p q : ℕ)
          → (start_forward net store now conn id bind_addr requested binds m).0 ≢ started p q)
unfolding start_forward register_conn
gone_lease_refused net store now conn id bind_addr requested binds m h =
    (ground arith, ground arith, λ p q. ground arith)

pub register_conn_gone :
    (store : LeaseLookup) (now : ℤ) (conn : ℕ) (id : String) (m : Manager)
    → is_live store now id ≡ false
    → register_conn store now conn id m ≡ (false, m)
unfolding register_conn
register_conn_gone store now conn id m h = ground arith

pub mark_all-marks : (x : ℕ) (xs : List ℕ) (f : ℕ → Bool) → f x ≡ true → mark_all xs f x ≡ true
unfolding mark_all
mark_all-marks x [] f h = h
mark_all-marks x (y ∷ ys) f h = mark_all-marks x ys (write f y true) (ground arith)

pub sockets_marked :
    (vc : ℕ) (ch : Option ℕ) (m : Map ℕ (Option ℕ)) (f : ℕ → Bool)
    → lookup vc m ≡ some ch
    → mark_all (sockets m) f vc ≡ true
unfolding mark_all sockets lookup
sockets_marked vc ch [] f h = ground arith
sockets_marked vc ch ((x, c) ∷ m) f h = elim (ℕ_discrete x vc) [
  | yes e ↦ mark_all-marks vc (sockets m) (write f x true) (ground arith)
  | no ne ↦ sockets_marked vc ch m (write f x true) (ground arith)
]

pub channels_marked :
    (vc ch : ℕ) (m : Map ℕ (Option ℕ)) (f : ℕ → Bool)
    → lookup vc m ≡ some (some ch)
    → mark_all (channels m) f ch ≡ true
unfolding mark_all channels lookup
channels_marked vc ch [] f h = ground arith
channels_marked vc ch ((x, none) ∷ m) f h = channels_marked vc ch m f (ground arith)
channels_marked vc ch ((x, some c) ∷ m) f h = elim (ℕ_discrete x vc) [
  | yes e ↦ mark_all-marks ch (channels m) (write f c true) (ground arith)
  | no ne ↦ channels_marked vc ch m (write f c true) (ground arith)
]

-- Teardown of a lease that has a connection with a forward: the lease is forgotten, its connection
-- and its listener are closed, and so are the socket of each of its visitors and the channel of
-- each that has one; every other lease keeps its connection.
pub teardown_closes :
    (id : String) (r f : ℕ) (m : Manager)
    → lookup id m.leases ≡ some r
    → (m.states r).forward ≡ some f
    → let m' = teardown id m in
      (lookup id m'.leases ≡ none)
      × (m'.conn_closed (m.states r).conn ≡ true)
      × ((m'.forwards f).closed ≡ true)
      × ((vc : ℕ) (o : Option ℕ)
          → lookup vc (m.forwards f).visitors ≡ some o
          → m'.socket_closed vc ≡ true)
      × ((vc ch : ℕ)
          → lookup vc (m.forwards f).visitors ≡ some (some ch)
          → m'.channel_closed ch ≡ true)
      × ((j : String) → id ≢ j → lookup j m'.leases ≡ lookup j m.leases)
unfolding teardown
teardown_closes id r f m at has = (
  ground (arith, lookup-delete id id m.leases),
  ground arith,
  ground arith,
  λ vc o e. ground (arith, sockets_marked vc o (m.forwards f).visitors m.socket_closed e),
  λ vc ch e. ground (arith, channels_marked vc ch (m.forwards f).visitors m.channel_closed e),
  λ j ne. ground (arith, lookup-delete id j m.leases),
)

-- Teardown forgets the one lease.
pub lookup-teardown :
    (id j : String) (m : Manager)
    → lookup j (teardown id m).leases ≡ ite (string_discrete id j) none (lookup j m.leases)
unfolding teardown close_optional
lookup-teardown id j m = elim (Option-cases (lookup id m.leases)) [
  | inl e ↦ ground arith
  | inr (r, e) ↦ ground (arith, lookup-delete id j m.leases)
]

-- A connection that is not the one registered for the lease cannot take a forward from that one:
-- neither its cancel nor its end changes anything.
stale_conn_harmless :
    (id : String) (conn r : ℕ) (m : Manager)
    → lookup id m.leases ≡ some r
    → (m.states r).conn ≢ conn
    → (cancel_forward id conn m ≡ m) × (on_conn_closed id conn m ≡ m)
unfolding cancel_forward on_conn_closed
stale_conn_harmless id conn r m at other = (ground arith, ground arith)

-- A new connection of a live lease that has another connection with a forward takes its place: it
-- is registered, with no forward and no visitors, and the old connection and its forward are
-- closed.
pub register_conn_replaces :
    (store : LeaseLookup) (now : ℤ) (conn r f : ℕ) (id : String) (m : Manager)
    → is_live store now id ≡ true
    → lookup id m.leases ≡ some r
    → (m.states r).forward ≡ some f
    → (m.states r).conn ≢ conn
    → let (done, m') = register_conn store now conn id m in
      (done ≡ true)
      × (lookup id m'.leases ≡ some m.next_state)
      × (m'.states m.next_state ≡ new_state conn)
      × (m'.conn_closed (m.states r).conn ≡ true)
      × ((m'.forwards f).closed ≡ true)
unfolding register_conn replace_state
register_conn_replaces store now conn r f id m live at has other = (
  ground arith,
  ground (arith, lookup-put id id m.next_state m.leases),
  ground arith,
  ground arith,
  ground arith,
)
