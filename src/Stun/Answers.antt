-- ===== src/Stun/Answers.antt =====
-- What the responder of internal/tunnel/stun/responder.go sends.
use hyrule_network_proxy.Prelude.{
  ℕ, ◌+◌, ◌≡◌, ◌==◌, ◌⊎◌, inl, inr, refl, sym, Bool, true, false, some, List, [], ◌∷◌, arith, take,
  length, All, subst, Option-cases, Bool-cases,
}
use hyrule_network_proxy.Stun.{
  UdpAddr, Message, StunCodec, Responder, write_to, respond, Received, failed, other_addr, datagram,
  buffer_size, listen_and_serve,
}

-- The datagram is the response to a binding request that has come from where it is sent to.
pub data IsAnswered (c : StunCodec) : List Received → List ℕ × UdpAddr → Type 0 where
  by_this :
      (src : UdpAddr) (raw resp : List ℕ) (m : Message) (rest : List Received)
      → c.decode (take buffer_size raw) ≡ some m
      → m.message_type ≡ c.binding_request
      → c.build m.transaction_id src ≡ some resp
      → IsAnswered c (datagram true src raw ∷ rest) (resp, src)
  by_later :
      (e : Received) (rest : List Received) (p : List ℕ × UdpAddr)
      → IsAnswered c rest p
      → IsAnswered c (e ∷ rest) p

-- A call of respond sends nothing, or one answer to the request, which it counts.
respond_cases :
    (c : StunCodec) (writes : Bool) (src : UdpAddr) (raw : List ℕ) (r : Responder)
    → (respond c writes src raw r ≡ r)
      ⊎ ((m : Message) × (resp : List ℕ) × (writes ≡ true)
          × (c.decode raw ≡ some m)
          × (m.message_type ≡ c.binding_request)
          × (c.build m.transaction_id src ≡ some resp)
          × (respond c writes src raw r
              ≡ record r { stun_requests = r.stun_requests + 1; sent = (resp, src) ∷ r.sent }))
unfolding respond write_to
respond_cases c writes src raw r = elim (Option-cases (c.decode raw)) [
  | inl e ↦ inl (ground arith)
  | inr (m, e) ↦ elim (Option-cases (c.build m.transaction_id src)) [
    | inl b ↦ inl (ground arith)
    | inr (resp, b) ↦ elim (Bool-cases (m.message_type == c.binding_request)) [
      | inr t ↦ inl (ground arith)
      | inl t ↦ elim (Bool-cases writes) [
        | inr w ↦ inl (ground arith)
        | inl w ↦ inr (m, resp, w, e, ground arith, b, ground arith)
      ]
    ]
  ]
]

-- The loop adds only what has the property of the answers, and counts each.
loop-All :
    (c : StunCodec) (P : List ℕ × UdpAddr → Type 0) (events : List Received) (r : Responder)
    → ((p : List ℕ × UdpAddr) → IsAnswered c events p → P p)
    → All P r.sent
    → let r' = (listen_and_serve c events r).1 in
      All P r'.sent × (r'.stun_requests + length r.sent ≡ r.stun_requests + length r'.sent)
unfolding listen_and_serve
loop-All c P [] r answers v = (v, refl)
loop-All c P (failed true ∷ rest) r answers v = (v, refl)
loop-All c P (failed false ∷ rest) r answers v =
    loop-All c P rest r (λ p a. answers p (by_later (failed false) rest p a)) v
loop-All c P (other_addr raw ∷ rest) r answers v =
    loop-All c P rest r (λ p a. answers p (by_later (other_addr raw) rest p a)) v
loop-All c P (datagram writes src raw ∷ rest) r answers v =
    let r' = respond c writes src (take buffer_size raw) r in
    let rest_of =
      loop-All c P rest r' (λ p a. answers p (by_later (datagram writes src raw) rest p a)) in
    elim (respond_cases c writes src (take buffer_size raw) r) [
      | inl same ↦
          let (a, n) = rest_of (subst (λ t. All P t.sent) (sym same) v) in (a, ground arith)
      | inr (m, resp, w, e, t, b, made) ↦
          let mine : P (resp, src) =
            answers (resp, src) (rw w (by_this src raw resp m rest e t b)) in
          let (a, n) = rest_of (subst (λ t. All P t.sent) (sym made) (mine, v)) in (a, ground arith)
    ]

-- Of the datagrams that the responder sends from its start, each is the success response, with its
-- transaction and its address, to a binding request that it has received, in the first 1500 bytes,
-- from just the address that it sends to, and the counter is their number.
pub listen_and_serve-IsAnswered :
    (c : StunCodec) (events : List Received)
    → let r = (listen_and_serve c events (record { stun_requests = 0; sent = [] })).1 in
      All (IsAnswered c events) r.sent × (r.stun_requests ≡ length r.sent)
listen_and_serve-IsAnswered c events =
    let (a, n) =
      loop-All c (IsAnswered c events) events (record { stun_requests = 0; sent = [] }) (λ p h. h)
        tt in
    (a, omega (arith, n))
