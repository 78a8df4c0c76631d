-- ===== src/Tunnel/Control/Guarded.antt =====
-- What stands before the operations of internal/tunnel/control: authorization and the checks of the
-- request.
use hyrule_network_proxy.Prelude.{
  bytes, has_prefix, drop_prefix, ℕ, ◌≤◌, ◌≡◌, ◌≢◌, ◌⊎◌, refl, ap, leb_ℤ, true, Option, none, some,
  [], ◌∷◌, ◌++◌, arith, pos, ◌<ℤ◌, length, take, Option-cases, Bool-cases, inl, inr, Bytes,
  string_discrete, zero, suc,
}
use hyrule_network_proxy.Lease.Error.{Result, ok, err}
use hyrule_network_proxy.Tunnel.Contract.{CreateLeaseRequest, LeaseResponse}
use hyrule_network_proxy.Tunnel.Control.{
  Service, Json, Decoders, Decoded, decoded, bad, Route, create, Api, decode_json, decode_data,
  max_control_body_bytes, create_decoded, answer_create, handle, authorized, serve, op_of, prefix,
}

-- Whatever the outcome, a request is recorded once, with the status of its answer.
serve_records :
    {S : Type 0} (svc : Service S) (json : Decoders) (trim_space : Bytes → Bytes)
    (token auth : Bytes) (route : Route) (body : Option Bytes) (a : Api S)
    → let (r, a') = serve svc json trim_space token auth route body a in
      a'.recorded ≡ a.recorded ++ (op_of route, r.status) ∷ []
unfolding serve
serve_records svc json trim_space token auth route body a = ground arith

has_prefix-append : (p s : Bytes) → has_prefix (p ++ s) p ≡ true
unfolding has_prefix
has_prefix-append [] s = refl
has_prefix-append (c ∷ cs) s = ground (arith, has_prefix-append cs s)

drop_prefix-append : (p s : Bytes) → drop_prefix (p ++ s) p ≡ s
unfolding drop_prefix
drop_prefix-append [] s = refl
drop_prefix-append (c ∷ cs) s = drop_prefix-append cs s

append-drop_prefix : (s p : Bytes) → has_prefix s p ≡ true → s ≡ p ++ drop_prefix s p
unfolding has_prefix drop_prefix
append-drop_prefix s [] h = refl
append-drop_prefix [] (p ∷ ps) h = absurd (ground arith)
append-drop_prefix (c ∷ cs) (p ∷ ps) h =
    let head : c ≡ p = ground arith in
    let tail = append-drop_prefix cs ps (ground arith) in ground arith

-- The header is the word Bearer, a space, and a text that is the token but for the space round it.
abbrev pub IsBearer : (Bytes → Bytes) → Bytes → Bytes → Type 0
IsBearer trim_space token auth =
    (text : Bytes) × (auth ≡ bytes "Bearer " ++ text) × (trim_space text ≡ token)

authorized-IsBearer :
    (trim_space : Bytes → Bytes) (token auth : Bytes)
    → authorized trim_space token auth ≡ true
    → IsBearer trim_space token auth
unfolding authorized
authorized-IsBearer trim_space token auth h = elim (Bool-cases (has_prefix auth prefix)) [
  | inr e ↦ absurd (ground arith)
  | inl e ↦ (drop_prefix auth prefix, append-drop_prefix auth prefix e, ground arith)
]

IsBearer-authorized :
    (trim_space : Bytes → Bytes) (token auth : Bytes)
    → IsBearer trim_space token auth
    → authorized trim_space token auth ≡ true
unfolding authorized
IsBearer-authorized trim_space token auth (text, e, same) =
    let front : has_prefix auth prefix ≡ true = rw e (has_prefix-append prefix text) in
    let rest : drop_prefix auth prefix ≡ text = rw e (drop_prefix-append prefix text) in
    ground arith

-- The handler of a route runs if the header is "Bearer " and a text that is the token of the API but
-- for the space round it, and then the answer is the handler's. Under any other header the answer is
-- 401 and the service's state is as before. Either way the request is recorded once, with the label
-- of its route and the status of its answer.
pub serve-IsBearer :
    {S : Type 0} (svc : Service S) (json : Decoders) (trim_space : Bytes → Bytes)
    (token auth : Bytes) (route : Route) (body : Option Bytes) (a : Api S)
    → let (r, a') = serve svc json trim_space token auth route body a in
      let handled = handle svc json route body a.state in
      ((IsBearer trim_space token auth × (r ≡ handled.0) × (a'.state ≡ handled.1))
        ⊎ ((¬ IsBearer trim_space token auth) × (r.status ≡ 401) × (a'.state ≡ a.state)))
      × (a'.recorded ≡ a.recorded ++ (op_of route, r.status) ∷ [])
unfolding serve
serve-IsBearer svc json trim_space token auth route body a = (
  elim (Bool-cases (authorized trim_space token auth)) [
    | inl e ↦ inl (authorized-IsBearer trim_space token auth e, ground arith, ground arith)
    | inr e ↦ inr (
      λ b. let h = IsBearer-authorized trim_space token auth b in ground arith,
      ground arith,
      ground arith,
    )
  ],
  serve_records svc json trim_space token auth route body a,
)

pub length-take_short : (n : ℕ) (xs : Bytes) → length (take (suc n) xs) ≤ n → take (suc n) xs ≡ xs
length-take_short n [] h = refl
length-take_short zero (x ∷ xs) h = absurd (omega arith)
length-take_short (suc n) (x ∷ xs) h = ap (◌∷◌ x) (length-take_short n xs (omega arith))

abbrev pub IsSingle : {A : Type 0} → Json A → Bytes → A → Type 0
IsSingle json data_read a =
    (rest : Bytes) × (length data_read ≤ max_control_body_bytes)
    × (json.decode data_read ≡ some (a, rest))
    × (json.at_eof rest ≡ true)

decode_data-IsSingle :
    {A : Type 0} (json : Json A) (data_read : Bytes) (a : A)
    → decode_data json data_read ≡ decoded a
    → IsSingle json data_read a
unfolding decode_data
decode_data-IsSingle json data_read a h = elim (Option-cases (json.decode data_read)) [
  | inl e ↦ absurd (ground arith)
  | inr ((x, rest), e) ↦ (rest, ground arith, ground arith, ground arith)
]

-- A body is decoded only if it was read whole, is at most 16 KiB long, and is one JSON value with
-- nothing behind it.
decode_json-IsSingle :
    {A : Type 0} (json : Json A) (body : Option Bytes) (a : A)
    → decode_json json body ≡ decoded a
    → (whole : Bytes) × (body ≡ some whole) × IsSingle json whole a
unfolding decode_json
decode_json-IsSingle json none a h = absurd (cc)
decode_json-IsSingle json (some body) a h =
    let single = decode_data-IsSingle json (take (suc max_control_body_bytes) body) a h in
    let same = length-take_short max_control_body_bytes body single.1 in
    (body, refl, rw same at single)

-- What creation asks of a request, and the state that it leaves.
abbrev pub CreateCalled : {S : Type 0} → Service S → Decoded CreateLeaseRequest → S → S → Type 0
CreateCalled svc d s s' =
    (req : CreateLeaseRequest) × (d ≡ decoded req)
    × (req.lease_id ≢ "")
    × (pos 0 <ℤ req.duration_seconds)
    × (s' ≡ (svc.create_lease req s).1)

answer_create_state : {S : Type 0} (x : Result LeaseResponse × S) → (answer_create x).1 ≡ x.1
unfolding answer_create
answer_create_state (ok r, s) = refl
answer_create_state (err e, s) = refl

create_decoded_cases :
    {S : Type 0} (svc : Service S) (d : Decoded CreateLeaseRequest) (s : S)
    → ((create_decoded svc d s).1 ≡ s) ⊎ CreateCalled svc d s (create_decoded svc d s).1
unfolding create_decoded
create_decoded_cases svc (bad m) s = inl refl
create_decoded_cases svc (decoded req) s = elim (string_discrete req.lease_id "") [
  | yes e ↦ inl (ground arith)
  | no e ↦ elim (Bool-cases (leb_ℤ req.duration_seconds (pos 0))) [
    | inl h ↦ inl (ground arith)
    | inr h ↦ inr (
      req,
      refl,
      e,
      grind arith,
      let q = answer_create_state (svc.create_lease req s) in ground arith,
    )
  ]
]

-- The creation route calls the service only with a request that was decoded from the body, has an
-- identifier and a positive duration: in every other case the state is the one from before.
pub handle-create :
    {S : Type 0} (svc : Service S) (json : Decoders) (body : Option Bytes) (s : S)
    → ((handle svc json create body s).1 ≡ s)
      ⊎ CreateCalled svc (decode_json json.create_request body) s (handle svc json create body s).1
unfolding handle
handle-create svc json body s = create_decoded_cases svc (decode_json json.create_request body) s
