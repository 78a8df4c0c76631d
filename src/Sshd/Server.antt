-- ===== src/Sshd/Server.antt =====
-- The SSH intake of internal/tunnel/sshd/server.go: authentication, the accept loop, a connection
-- from its registration to its end, its global requests, and the keepalives. The handshake and the
-- wire format are golang.org/x/crypto/ssh; a connection is a number, as in Sshd/Manager.
pub mod Accepting
pub mod Session
pub mod Alive
use hyrule_network_proxy.Prelude.{
  ℕ, ◌+◌, ◌*◌, ◌%◌, ◌^◌, ◌==◌, String, Bool, true, false, Option, none, some, List, [], ◌∷◌, leb,
  ltb, leb_ℤ, if◌then◌else◌, ℤ, pos,
}
use hyrule_network_proxy.Lease.Model.{Lease, Net, expired}
use hyrule_network_proxy.Sshd.Limiter.{AuthLimiter, allow}
use hyrule_network_proxy.Sshd.Manager.{
  Manager, LeaseLookup, Started, started, refused, ForwardError, lease_gone, duplicate_forward,
  bind_failed, is_live, close_conn, register_conn, start_forward, cancel_forward, on_conn_closed,
}

-- authByToken, with the counter of failures: the lease that the permissions name.
unfoldable pub auth_by_token : LeaseLookup → ℤ → String → ℕ → Option String × ℕ
auth_by_token store now user failures = elim (store.by_token user) [
  | none ↦ (none, failures + 1)
  | some l ↦ if expired l now then (none, failures + 1) else (some l.lease_id, failures)
]

-- What ln.Accept brings: an error, or a connection with the clock and the remote address.
pub data Accepted : Type 0 where
  failed : Accepted
  accepted : ℤ → String → ℕ → Accepted

-- The state of the loop: the limiter, the delay, the counter, and what has been done: the delays
-- that it has waited, the connections that it has handed to handleConn, and those it has closed.
pub record Intake : Type 0 where
  pub limiter : AuthLimiter
  pub accept_backoff : ℕ
  pub auth_failures : ℕ
  pub waited : List ℕ
  pub handled : List (String × ℕ)
  pub dropped : List (String × ℕ)

-- 5 * time.Millisecond and time.Second
abbrev pub first_backoff : ℕ
first_backoff = 5_000_000

abbrev pub max_accept_backoff : ℕ
max_accept_backoff = 1_000_000_000

unfoldable pub next_backoff : ℕ → ℕ
next_backoff d =
    if d == 0
    then first_backoff
    else if ltb max_accept_backoff (d * 2)
    then max_accept_backoff
    else d * 2

abbrev pub handed_on : String → ℕ → Bool × AuthLimiter → Intake → Intake
handed_on host conn (true, limiter) s = record s {
  limiter = limiter;
  accept_backoff = 0;
  handled = (host, conn) ∷ s.handled;
}
handed_on host conn (false, limiter) s = record s {
  limiter = limiter;
  accept_backoff = 0;
  auth_failures = s.auth_failures + 1;
  dropped = (host, conn) ∷ s.dropped;
}

unfoldable pub serve_one : Accepted → Intake → Intake
unfolding next_backoff
serve_one failed s = record s {
  accept_backoff = next_backoff s.accept_backoff;
  waited = next_backoff s.accept_backoff ∷ s.waited;
}
serve_one (accepted now host conn) s = handed_on host conn (allow now host s.limiter) s

-- Serve, until the context ends.
pub serve : List Accepted → Intake → Intake
serve [] s = s
serve (a ∷ rest) s = serve rest (serve_one a s)

pub data RequestType : Type 0 where
  tcpip_forward cancel_tcpip_forward other_request : RequestType

-- A global request, with its payload as ssh.Unmarshal reads it and what holds when it is served:
-- the store, the clock, whether the port can be bound, and what the other goroutines have done to
-- the manager since the last one.
pub record GlobalRequest : Type 0 where
  pub kind : RequestType
  pub payload : Option (String × ℕ)
  pub want_reply : Bool
  pub store : LeaseLookup
  pub now : ℤ
  pub binds : Bool
  pub others : Manager → Manager

pub data Reply : Type 0 where
  no_reply failure : Reply
  success : Option ℕ → Reply

pub record Handled : Type 0 where
  pub reply : Reply
  pub goes_on : Bool
  pub manager : Manager

abbrev pub reply_request : Bool → Bool → Reply
reply_request want_reply ok =
    if want_reply then (if ok then success none else failure) else no_reply

abbrev pub forward_reply : Bool → ℕ → ℕ → Reply
forward_reply want_reply requested assigned =
    if want_reply
    then (if requested == 0 then success (some (assigned % 2 ^ 32)) else success none)
    else no_reply

abbrev pub outcome : Reply → Bool → Manager → Handled
outcome reply goes_on m = record { reply = reply; goes_on = goes_on; manager = m }

abbrev pub answer_forward : ℕ → Bool → ℕ → Started × Manager → Handled
answer_forward conn want_reply requested (started assigned echoed, m) =
    outcome (forward_reply want_reply requested assigned) true m
answer_forward conn want_reply requested (refused lease_gone, m) =
    outcome (reply_request want_reply false) false (close_conn conn m)
answer_forward conn want_reply requested (refused duplicate_forward, m) =
    outcome (reply_request want_reply false) true m
answer_forward conn want_reply requested (refused bind_failed, m) =
    outcome (reply_request want_reply false) true m

abbrev pub handle_forward :
    Net → ℕ → String → GlobalRequest → Option (String × ℕ) → Manager → Handled
handle_forward net conn id req none m = outcome (reply_request req.want_reply false) true m
handle_forward net conn id req (some (bind_addr, port)) m =
    answer_forward conn req.want_reply port
      (start_forward net req.store req.now conn id bind_addr port req.binds m)

abbrev pub handle_kind : Net → ℕ → String → GlobalRequest → RequestType → Manager → Handled
handle_kind net conn id req tcpip_forward m = handle_forward net conn id req req.payload m
handle_kind net conn id req cancel_tcpip_forward m =
    outcome (reply_request req.want_reply true) true (cancel_forward id conn m)
handle_kind net conn id req other_request m = outcome (reply_request req.want_reply false) true m

-- The body of the loop.
unfoldable pub handle_one : Net → ℕ → String → GlobalRequest → Manager → Handled
handle_one net conn id req m = handle_kind net conn id req req.kind (req.others m)

pub handle_global_requests : Net → ℕ → String → List GlobalRequest → Manager → List Reply × Manager
handle_global_requests net conn id [] m = ([], m)
handle_global_requests net conn id (req ∷ reqs) m =
    let h = handle_one net conn id req m in
    let rest = handle_global_requests net conn id reqs h.manager in
    if h.goes_on then (h.reply ∷ rest.0, rest.1) else (h.reply ∷ [], h.manager)

-- What holds when the connection is looked at, and when it ends.
pub record Arrival : Type 0 where
  pub store : LeaseLookup
  pub now : ℤ
  pub registering : LeaseLookup
  pub registering_now : ℤ
  pub others : Manager → Manager
  pub last_others : Manager → Manager

-- Behind RegisterConn.
abbrev pub registered :
    Net → Arrival → ℕ → String → List GlobalRequest → Bool × Manager → List Reply × Manager
registered net a conn id reqs (false, m) = ([], close_conn conn m)
registered net a conn id reqs (true, m) =
    let r = handle_global_requests net conn id reqs m in
    (r.0, close_conn conn (on_conn_closed id conn (a.last_others r.1)))

-- handleConn, from the lease that the handshake has found, if it has succeeded.
unfoldable pub handle_conn :
    Net → Arrival → ℕ → Option String → List GlobalRequest → Manager → List Reply × Manager
handle_conn net a conn none reqs m = ([], close_conn conn m)
handle_conn net a conn (some id) reqs m =
    if is_live a.store a.now id
    then registered net a conn id reqs
        (register_conn a.registering a.registering_now conn id (a.others m))
    else ([], close_conn conn m)

-- The loop of keepalive over the outcomes of the requests that it sends, each of which comes or
-- fails within the interval; whether it closes the connection.
unfoldable pub keepalive_loop : ℕ → List Bool → Bool
keepalive_loop misses [] = false
keepalive_loop misses (true ∷ rest) = keepalive_loop 0 rest
keepalive_loop misses (false ∷ rest) =
    let later = keepalive_loop (misses + 1) rest in if leb 3 (misses + 1) then true else later

unfoldable pub keepalive : ℤ → List Bool → Bool
unfolding keepalive_loop
keepalive interval answers = if leb_ℤ interval (pos 0) then false else keepalive_loop 0 answers
