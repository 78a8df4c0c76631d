-- ===== src/Lib.antt =====
-- The two daemons of hyrule-network-proxy.
--
-- The tunnel daemon (cmd/hyrule-tunnel-proxy) rents public TCP ports. Its control API takes
-- requests over HTTP and calls the coordinator, which changes the lease store, then the forward
-- manager of the SSH server, then the metrics. A lease has an identifier, a token, a port of the
-- configured range and an expiry; the holder of the token opens an SSH connection and asks for a
-- forward, which listens on the port. The egress daemon (cmd/hyrule-network-proxy) fetches URLs for
-- its clients through one of four networks, behind a policy on URLs and addresses.
--
-- Which file models which part:
--   Lease/Allocator     internal/tunnel/lease/allocator.go: portAllocator, reserve, release, free,
--                       allocate, portInUse
--   Lease/Model, Error  internal/tunnel/lease/store.go: Lease, Expired, AllowsIP, the errors
--   Lease/Store         the same file: the methods of Store. The two indexes hold references into a
--                       heap, as the pointers of the source do, so that an extension is seen through
--                       both. A method runs under the store's mutex and is one function of the state;
--                       `finish_create` and its like are the ends of the methods, by the result of
--                       the write to disk
--   Lease/Store/Refine  the service that the store is for its callers
--   Lease/Store/Open    Open, which rehydrates a store from the bucket, and restarts
--   Lease/Platform      what the store takes from outside: JSON, random bytes, the clock, the
--                       listening sockets and the transactions of bbolt
--   Sshd/Limiter        internal/tunnel/sshd/limiter.go: authLimiter
--   Sshd/Forward        internal/tunnel/sshd/forward.go: forward and the methods under its mutex
--   Sshd/Manager        the same file: Manager with RegisterConn, StartForward, Teardown,
--                       CancelForward, OnConnClosed and Stats. Connections, sockets and channels are
--                       numbers, with a flag for each that says whether it has been closed
--   Sshd/Manager/Locked the same methods in two parts, under the mutex and behind it
--   Sshd/Visitor        the same file: acceptVisitors, visitorIP and handleVisitor, whose goroutines
--                       take steps between the methods of the manager
--   Sshd/Server         internal/tunnel/sshd/server.go: authByToken, Serve, handleConn,
--                       handleGlobalRequests, replyRequest, keepalive
--   Sshd/HostKey        the same file: loadOrCreateHostKey
--   Tunnel/Contract     internal/tunnel/contract/types.go
--   Tunnel/Coordinator  internal/tunnel/coordinator.go: the methods of Coordinator
--   Tunnel/Daemon       RevokeLease, SweepExpired, RegisterConn and StartForward once more, as the
--                       steps between which the other goroutines run, with the start and the
--                       restarts of cmd/hyrule-tunnel-proxy/main.go on the lease store
--   Tunnel/Start        cmd/hyrule-tunnel-proxy/main.go: main up to its servers, with New of
--                       internal/tunnel/sshd/server.go
--   Tunnel/Control      internal/tunnel/control/api.go and middleware.go: withAuth, the routes and
--                       their handlers, decodeJSON, over any service
--   Egress/Policy       internal/policy/ip.go, url.go and redirect.go
--   Egress/Headers      internal/policy/headers.go
--   Egress/Dialer       internal/transport/dialer.go: the address that is dialed
--   Egress/Client       internal/transport/client.go: NewClient, Do and what it calls, with
--                       NormalizeMethod of internal/policy/url.go
--   Egress/Server       internal/server: withAuth, the handlers, decodeLimitedJSON; the counters of
--                       internal/metrics/metrics.go; Modes of internal/transport
--   Config/Environment  the readers of variables of internal/config/config.go
--   Config/Egress       internal/config/config.go: Load, ParseLogLevel
--   Config/Tunnel       internal/tunnel/config/config.go: Load, isWildcardAddr, parsePortRange
--   Stun                internal/tunnel/stun/responder.go: ListenAndServe, respond
--   Prelude             names of the libraries, tests, signed numbers, texts, maps and counts over
--                       families
--   Tests               test data and the theorems at concrete inputs
--
-- Conventions. Instants and durations are signed numbers of nanoseconds; the products with
-- time.Second and the difference of instants in the limiter have the wrap-around and the saturation
-- of Go's int64, and so have the egress daemon's sums of a limit on sizes and a constant. Sums of an
-- instant and a duration are exact. A map of Go is an association list, whose order stands for the
-- order of iteration. The loop of the allocator takes as many rounds as the range has ports, as in
-- the source, which visits every port of it. No other recursion needs fuel: the loops run over
-- lists. A failing call is a value of the environment (`commits`, `binds`, `random`, `listen`), so
-- that each error path is a branch.
--
-- What is taken from outside the repository is a parameter: the codec and the parser of networks in
-- Lease/Platform and Lease/Model, the decoder of JSON in Tunnel/Control, net/netip, net/url and the
-- case mapping of strings in Egress/Policy, the http.Client and the probes of listeners in
-- Egress/Client and Egress/Server, strconv, net and fmt in Config, and the handshake of
-- golang.org/x/crypto/ssh in Sshd/Server, the formats of keys and the file system in Sshd/HostKey,
-- and github.com/pion/stun in Stun. The recovery of a store and the restarts suppose that the codec
-- reads back what it wrote; its keeping of the indexes supposes that a new token is not in use.
--
-- The interleavings: a step of a visitor is one access to what it shares with the others, a method
-- of the manager is one step, and a connection's requests have what the other goroutines have done
-- to the manager between them as a field. A compare-and-swap is one step, on the count that it has
-- read. In Tunnel/Daemon a restart may come at any moment, and a method of the store is one step,
-- Teardown is another, later one, and RegisterConn and StartForward are two each: under the
-- manager's mutex they read the store, which may change before they act on what they have read.
-- What a method of the manager closes behind its mutex is a later step there, of its own; a restart
-- of the daemon ends what is under way. In Sshd/Visitor, in Sshd/Server and in the sequences of
-- Sshd/Manager/Owned a method is one step that runs to its end, those closes included.
--
-- Not modelled: the rejection of channels (internal/tunnel/sshd/server.go), the registration of
-- Prometheus collectors, the gauges of connections, the egress daemon's main, signals and shutdown,
-- and all logging.
pub mod Prelude
pub mod Lease
pub mod Sshd
pub mod Tunnel
pub mod Tests
pub mod Config
pub mod Egress
pub mod Stun
