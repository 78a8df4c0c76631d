-- ===== src/Tunnel/Control.antt =====
-- The control API of internal/tunnel/control/api.go and middleware.go, over any service. A text of
-- HTTP is its list of bytes. `trim_space` stands for strings.TrimSpace, and `Json` for the decoder
-- of encoding/json, which leaves the rest of its input for the next value.
pub mod Guarded
use hyrule_network_proxy.Prelude.{
  ℕ, zero, suc, ◌+◌, String, Bool, true, false, ◌&&◌, ite, Option, none, some, List, [], ◌∷◌, ◌++◌,
  ltb, leb, leb_ℤ, ◌==◌, if◌then◌else◌, ℤ, pos, length, take, string_discrete, Bytes, bytes,
  bytes_discrete, has_prefix, drop_prefix,
}
use hyrule_network_proxy.Lease.Error.{
  Error, Result, ok, err, not_found, ports_exhausted, invalid_cidr,
}
use hyrule_network_proxy.Tunnel.Contract.{
  CreateLeaseRequest, ExtendLeaseRequest, LeaseResponse, HealthResponse,
}

-- The interface Service, over the state of what implements it.
pub record Service (S : Type 0) : Type 0 where
  pub create_lease : CreateLeaseRequest → S → Result LeaseResponse × S
  pub extend_lease : String → ExtendLeaseRequest → S → Result LeaseResponse × S
  pub revoke_lease : String → S → Result (Unit {0}) × S
  pub get_lease : String → S → Option LeaseResponse
  pub list_leases : S → List LeaseResponse
  pub health : S → HealthResponse

-- A decoder for one type: a value and what is left, or an error; and whether nothing but space is
-- left, so that one more Decode gives io.EOF.
pub record Json (A : Type 0) : Type 0 where
  pub decode : Bytes → Option (A × Bytes)
  pub at_eof : Bytes → Bool

-- The texts of the errors: the decoder's own are not modelled.
pub data Message : Type 0 where
  text : String → Message
  decode_error : Message
  lease_error : Error → Message

pub data Body : Type 0 where
  error_body : Message → Body
  lease_body : LeaseResponse → Body
  leases_body : List LeaseResponse → Body
  health_body : HealthResponse → Body
  no_body : Body

pub record Response : Type 0 where
  pub status : ℕ
  pub body : Body

abbrev pub write_error : ℕ → Message → Response
write_error status msg = record { status = status; body = error_body msg }

abbrev pub max_control_body_bytes : ℕ
max_control_body_bytes = 16384

pub data Decoded (A : Type 0) : Type 0 where
  decoded : A → Decoded A
  bad : Message → Decoded A

abbrev pub decode_rest : {A : Type 0} → Json A → A × Bytes → Decoded A
decode_rest json (a, rest) =
    if json.at_eof rest then decoded a else bad (text "unexpected trailing data after JSON object")

unfoldable pub decode_data : {A : Type 0} → Json A → Bytes → Decoded A
decode_data json data_read =
    if ltb max_control_body_bytes (length data_read)
    then bad (text "request body too large")
    else (elim (json.decode data_read) [ none ↦ bad decode_error | some r ↦ decode_rest json r ])

-- `none` for a body whose reading fails. One byte more than the limit is read.
unfoldable pub decode_json : {A : Type 0} → Json A → Option Bytes → Decoded A
unfolding decode_data
decode_json json none = bad decode_error
decode_json json (some body) = decode_data json (take (suc max_control_body_bytes) body)

unfoldable pub create_status : Error → Response
create_status ports_exhausted = write_error 503 (text "no free tunnel ports")
create_status (invalid_cidr c) = write_error 400 (lease_error (invalid_cidr c))
create_status e = write_error 500 (text "create failed")

unfoldable pub answer_create : {S : Type 0} → Result LeaseResponse × S → Response × S
unfolding create_status
answer_create (ok r, s) = (record { status = 200; body = lease_body r }, s)
answer_create (err e, s) = (create_status e, s)

unfoldable pub create_decoded :
    {S : Type 0} → Service S → Decoded CreateLeaseRequest → S → Response × S
unfolding answer_create
create_decoded svc (bad m) s = (write_error 400 m, s)
create_decoded svc (decoded req) s =
    ite (string_discrete req.lease_id "") (write_error 400 (text "lease_id is required"), s)
      (if leb_ℤ req.duration_seconds (pos 0)
        then (write_error 400 (text "duration_seconds must be positive"), s)
        else answer_create (svc.create_lease req s))

unfoldable pub extend_status : Error → Response
extend_status not_found = write_error 404 (text "lease not found")
extend_status e = write_error 500 (text "extend failed")

unfoldable pub answer_extend : {S : Type 0} → Result LeaseResponse × S → Response × S
unfolding extend_status
answer_extend (ok r, s) = (record { status = 200; body = lease_body r }, s)
answer_extend (err e, s) = (extend_status e, s)

unfoldable pub extend_decoded :
    {S : Type 0} → Service S → String → Decoded ExtendLeaseRequest → S → Response × S
unfolding answer_extend
extend_decoded svc id (bad m) s = (write_error 400 m, s)
extend_decoded svc id (decoded req) s =
    if leb_ℤ req.duration_seconds (pos 0)
    then (write_error 400 (text "duration_seconds must be positive"), s)
    else answer_extend (svc.extend_lease id req s)

unfoldable pub revoke_status : Error → Response
revoke_status not_found = write_error 404 (text "lease not found")
revoke_status e = write_error 500 (text "revoke failed")

unfoldable pub answer_revoke : {S : Type 0} → Result (Unit {0}) × S → Response × S
unfolding revoke_status
answer_revoke (ok u, s) = (record { status = 204; body = no_body }, s)
answer_revoke (err e, s) = (revoke_status e, s)

unfoldable pub answer_get : Option LeaseResponse → Response
answer_get none = write_error 404 (text "lease not found")
answer_get (some r) = record { status = 200; body = lease_body r }

-- The routes of the mux, with the operation's label.
pub data Route : Type 0 where
  create list health : Route
  get extend revoke : String → Route

unfoldable pub op_of : Route → String
op_of create = "create"
op_of list = "list"
op_of health = "health"
op_of (get id) = "get"
op_of (extend id) = "extend"
op_of (revoke id) = "revoke"

pub record Decoders : Type 0 where
  pub create_request : Json CreateLeaseRequest
  pub extend_request : Json ExtendLeaseRequest

-- The handlers.
unfoldable pub handle :
    {S : Type 0} → Service S → Decoders → Route → Option Bytes → S → Response × S
unfolding decode_json create_decoded extend_decoded answer_revoke answer_get
handle svc json create body s = create_decoded svc (decode_json json.create_request body) s
handle svc json list body s = (record { status = 200; body = leases_body (svc.list_leases s) }, s)
handle svc json health body s = (record { status = 200; body = health_body (svc.health s) }, s)
handle svc json (get id) body s = (answer_get (svc.get_lease id s), s)
handle svc json (extend id) body s = extend_decoded svc id (decode_json json.extend_request body) s
handle svc json (revoke id) body s = answer_revoke (svc.revoke_lease id s)

-- The service, and the pairs that the counter ControlRequests has counted.
pub record Api (S : Type 0) : Type 0 where
  pub state : S
  pub recorded : List (String × ℕ)

abbrev pub prefix : Bytes
prefix = bytes "Bearer "

-- The token that the header carries is the one of the API.
unfoldable pub authorized : (Bytes → Bytes) → Bytes → Bytes → Bool
authorized trim_space token auth =
    if has_prefix auth prefix
    then ite (bytes_discrete (trim_space (drop_prefix auth prefix)) token) true false
    else false

unfoldable pub finish : {S : Type 0} → String → Api S → Response × S → Response × Api S
finish op a (r, s) = (r, record { state = s; recorded = a.recorded ++ (op, r.status) ∷ [] })

-- withAuth round the handler of the route.
unfoldable pub serve :
    {S : Type 0}
    → Service S
    → Decoders
    → (Bytes → Bytes)
    → Bytes
    → Bytes
    → Route
    → Option Bytes
    → Api S
    → Response × Api S
unfolding finish
serve svc json trim_space token auth route body a =
    if authorized trim_space token auth
    then finish (op_of route) a (handle svc json route body a.state)
    else finish (op_of route) a (write_error 401 (text "unauthorized"), a.state)
