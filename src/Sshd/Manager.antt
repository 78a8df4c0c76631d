-- ===== src/Sshd/Manager.antt =====
-- The Manager of internal/tunnel/sshd/forward.go, with the objects that it shares with the
-- goroutines of the visitors: `states` gives the leaseState at a pointer, `forwards` the forward.
-- A method here is run to its end: what it does under the manager's mutex, then what it closes behind
-- it. Sshd/Manager/Locked has the two parts apart, for the steps in which goroutines interleave.
pub mod Cases
pub mod Dropped
pub mod Owned
pub mod Effects
pub mod Locked
pub mod Settled
pub mod Delayed
use hyrule_network_proxy.Prelude.{
  write, ℕ, ◌+◌, ◌%◌, ◌^◌, ◌==◌, ◌≡◌, String, Bool, true, false, not, ◌||◌, ◌&&◌, ite, Option, none,
  some, List, [], ◌∷◌, leb, ltb, if◌then◌else◌, ℤ, pos, ◌+ℤ◌, ℕ_discrete,
}
use hyrule_network_proxy.Prelude.Map.{Map, string_key, nat_key, lookup, put, delete}
use hyrule_network_proxy.Lease.Model.{Lease, Net, expired}
use hyrule_network_proxy.Sshd.Forward.{Forward, close, sockets, channels, new_forward}

pub record LeaseState : Type 0 where
  pub conn : ℕ
  pub forward : Option ℕ
  pub visitors : ℕ
  pub bytes_in : ℕ
  pub bytes_out : ℕ

-- The methods of the lease store that the server uses.
pub record LeaseLookup : Type 0 where
  pub by_token : String → Option Lease
  pub get : String → Option Lease

pub record Manager : Type 0 where
  pub leases : Map String ℕ
  pub states : ℕ → LeaseState
  pub forwards : ℕ → Forward
  pub next_state : ℕ
  pub next_forward : ℕ
  pub conn_closed : ℕ → Bool
  pub socket_closed : ℕ → Bool
  pub channel_closed : ℕ → Bool
  pub max_visitors : ℕ

pub data ForwardError : Type 0 where
  lease_gone duplicate_forward bind_failed : ForwardError

pub data Started : Type 0 where
  started : ℕ → ℕ → Started
  refused : ForwardError → Started

unfoldable pub mark_all : List ℕ → (ℕ → Bool) → ℕ → Bool
unfolding write
mark_all [] f = f
mark_all (x ∷ xs) f = mark_all xs (write f x true)

-- f.close(): the listener, and the socket and the channel of each visitor. Once closed, a forward
-- has no visitors, so that a second call does nothing.
unfoldable pub close_forward : ℕ → Manager → Manager
unfolding write close mark_all
close_forward f m = record m {
  forwards = write m.forwards f (close (m.forwards f));
  socket_closed = mark_all (sockets (m.forwards f).visitors) m.socket_closed;
  channel_closed = mark_all (channels (m.forwards f).visitors) m.channel_closed;
}

unfoldable pub close_conn : ℕ → Manager → Manager
unfolding write
close_conn c m = record m { conn_closed = write m.conn_closed c true }

unfoldable pub close_optional : Option ℕ → Manager → Manager
unfolding close_forward
close_optional none m = m
close_optional (some f) m = close_forward f m

-- !ok || l.Expired(time.Now()), negated
abbrev pub is_live : LeaseLookup → ℤ → String → Bool
is_live store now id = elim (store.get id) [ none ↦ false | some l ↦ not (expired l now) ]

unfoldable pub new_state : ℕ → LeaseState
new_state conn = record { conn = conn; forward = none; visitors = 0; bytes_in = 0; bytes_out = 0 }

-- NewManager. The other maps give the zero values of what is not yet there.
unfoldable pub new_manager : ℕ → Forward → Manager
unfolding new_state
new_manager max_visitors zero_forward = record {
  leases = [];
  states = λ _. new_state 0;
  forwards = λ _. zero_forward;
  next_state = 0;
  next_forward = 0;
  conn_closed = λ _. false;
  socket_closed = λ _. false;
  channel_closed = λ _. false;
  max_visitors = max_visitors;
}

-- The new state takes the place of the old one, the mutex is let go, and then the old one is closed.
unfoldable pub replace_state : ℕ → String → Option ℕ → Manager → Manager
unfolding write new_state close_optional close_conn
replace_state conn id old m =
    let m' = record m {
      leases = put id m.next_state m.leases;
      states = write m.states m.next_state (new_state conn);
      next_state = m.next_state + 1;
    } in
    elim old [
      | none ↦ m'
      | some r ↦
          let st = m.states r in
          let m'' = close_optional st.forward m' in
          if st.conn == conn then m'' else close_conn st.conn m''
    ]

unfoldable pub register_conn : LeaseLookup → ℤ → ℕ → String → Manager → Bool × Manager
unfolding replace_state
register_conn store now conn id m =
    if is_live store now id
    then (true, replace_state conn id (lookup id m.leases) m)
    else (false, m)

-- uint32(port): the bits of the port.
abbrev pub echoed_port : ℕ → ℕ → ℕ
echoed_port requested port = if requested == 0 then port % 2 ^ 32 else requested

-- `binds` says whether net.Listen gets the port.
unfoldable pub install : Net → Lease → String → ℕ → Bool → ℕ → Manager → Started × Manager
unfolding write new_forward
install net l bind_addr requested binds r m =
    if binds
    then (
      started l.allocated_port (echoed_port requested l.allocated_port),
      record m {
        states = write m.states r (record (m.states r) { forward = some m.next_forward });
        forwards =
            write m.forwards m.next_forward
              (new_forward net l bind_addr (echoed_port requested l.allocated_port));
        next_forward = m.next_forward + 1;
      },
    )
    else (refused bind_failed, m)

unfoldable pub start_on_state :
    Net → Lease → ℕ → String → ℕ → Bool → Option ℕ → Manager → Started × Manager
unfolding install
start_on_state net l conn bind_addr requested binds none m = (refused lease_gone, m)
start_on_state net l conn bind_addr requested binds (some r) m =
    if (m.states r).conn == conn
    then (elim (m.states r).forward [
      | none ↦ install net l bind_addr requested binds r m
      | some f ↦ (refused duplicate_forward, m)
    ])
    else (refused lease_gone, m)

unfoldable pub start_forward :
    Net → LeaseLookup → ℤ → ℕ → String → String → ℕ → Bool → Manager → Started × Manager
unfolding start_on_state
start_forward net store now conn id bind_addr requested binds m = elim (store.get id) [
  | none ↦ (refused lease_gone, m)
  | some l ↦
      if expired l now
      then (refused lease_gone, m)
      else start_on_state net l conn bind_addr requested binds (lookup id m.leases) m
]

-- Teardown: the lease is forgotten, and behind the mutex forward and connection are closed.
unfoldable pub teardown : String → Manager → Manager
unfolding close_optional close_conn
teardown id m = elim (lookup id m.leases) [
  | none ↦ m
  | some r ↦
      let st = m.states r in
      close_conn st.conn (close_optional st.forward (record m { leases = delete id m.leases }))
]

-- CancelForward: the forward is taken out of the state, and closed behind the mutex.
unfoldable pub cancel_forward : String → ℕ → Manager → Manager
unfolding write close_optional
cancel_forward id conn m = elim (lookup id m.leases) [
  | none ↦ m
  | some r ↦
      let st = m.states r in
      if st.conn == conn
      then close_optional st.forward
          (record m { states = write m.states r (record st { forward = none }) })
      else m
]

-- OnConnClosed: the lease is forgotten, and its forward closed behind the mutex.
unfoldable pub on_conn_closed : String → ℕ → Manager → Manager
unfolding close_optional
on_conn_closed id conn m = elim (lookup id m.leases) [
  | none ↦ m
  | some r ↦
      let st = m.states r in
      if st.conn == conn
      then close_optional st.forward (record m { leases = delete id m.leases })
      else m
]

pub record ConnStats : Type 0 where
  pub connected : Bool
  pub visitors : ℕ
  pub bytes_in : ℕ
  pub bytes_out : ℕ

abbrev is_forwarding : Option ℕ → Bool
is_forwarding none = false
is_forwarding (some f) = true

unfoldable pub stats : String → Manager → ConnStats
stats id m = elim (lookup id m.leases) [
  | none ↦ record { connected = false; visitors = 0; bytes_in = 0; bytes_out = 0 }
  | some r ↦
      let st = m.states r in
      record {
        connected = is_forwarding st.forward;
        visitors = st.visitors;
        bytes_in = st.bytes_in;
        bytes_out = st.bytes_out;
      }
]
