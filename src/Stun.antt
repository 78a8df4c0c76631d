-- ===== src/Stun.antt =====
-- The responder of internal/tunnel/stun/responder.go. Messages are those of github.com/pion/stun: a
-- datagram is a list of bytes, an address is an IP and a port.
pub mod Answers
use hyrule_network_proxy.Prelude.{
  ℕ, ◌+◌, ◌==◌, ◌++◌, String, Bool, true, false, Option, none, some, List, [], ◌∷◌, if◌then◌else◌,
  take,
}

-- net.UDPAddr
pub record UdpAddr : Type 0 where
  pub ip : List ℕ
  pub port : ℕ

pub record Message : Type 0 where
  pub message_type : ℕ
  pub transaction_id : List ℕ

-- What the responder uses of the package: Decode, and Build of a success response with the
-- transaction, the XOR-mapped address and the fingerprint.
pub record StunCodec : Type 0 where
  pub binding_request : ℕ
  pub decode : List ℕ → Option Message
  pub build : List ℕ → UdpAddr → Option (List ℕ)

pub record Responder : Type 0 where
  pub stun_requests : ℕ
  pub sent : List (List ℕ × UdpAddr)

-- `writes` says whether pc.WriteTo succeeds; what it fails to write is not sent.
unfoldable pub write_to : Bool → List ℕ → UdpAddr → Responder → Responder
write_to writes raw src r =
    if writes
    then record r { stun_requests = r.stun_requests + 1; sent = (raw, src) ∷ r.sent }
    else r

unfoldable pub respond : StunCodec → Bool → UdpAddr → List ℕ → Responder → Responder
unfolding write_to
respond c writes src raw r = elim (c.decode raw) [
  | none ↦ r
  | some req ↦
      if req.message_type == c.binding_request
      then (elim (c.build req.transaction_id src) [
        | none ↦ r
        | some resp ↦ write_to writes resp src r
      ])
      else r
]

-- What pc.ReadFrom brings: an error, with whether the context is done; a datagram of another kind of
-- address; or a datagram of an UDP address, with whether the answer can be written.
pub data Received : Type 0 where
  failed : Bool → Received
  other_addr : List ℕ → Received
  datagram : Bool → UdpAddr → List ℕ → Received

-- len(buf): ReadFrom drops what is longer.
abbrev pub buffer_size : ℕ
buffer_size = 1500

-- The loop, over what is received: whether it has returned.
unfoldable pub listen_and_serve : StunCodec → List Received → Responder → Bool × Responder
unfolding respond
listen_and_serve c [] r = (false, r)
listen_and_serve c (failed true ∷ rest) r = (true, r)
listen_and_serve c (failed false ∷ rest) r = listen_and_serve c rest r
listen_and_serve c (other_addr raw ∷ rest) r = listen_and_serve c rest r
listen_and_serve c (datagram writes src raw ∷ rest) r =
    listen_and_serve c rest (respond c writes src (take buffer_size raw) r)
