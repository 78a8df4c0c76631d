-- ===== src/Egress/Client/Bounded.antt =====
-- What internal/transport/client.go hands back.
use hyrule_network_proxy.Prelude.{
  ℕ, zero, suc, ◌≤◌, ◌<◌, ◌≡◌, ◌≢◌, ◌⊎◌, inl, inr, refl, sym, ap, ◌∙◌, ◌^◌, ◌-◌, to_int64, Bool,
  true, false, Option, none, some, Option-cases, Bool-cases, List, [], ◌∷◌, String, length, take,
  ltb, if◌then◌else◌, arith, Bytes, bytes, string_discrete, join,
}
use hyrule_network_proxy.Prelude.Map.{Map, string_key, lookup, lookup-put}
use hyrule_network_proxy.Egress.Policy.{
  Url, Checked, pass, fail, policy_denied, invalid, parse_and_validate_url,
}
use hyrule_network_proxy.Egress.Headers.{allow_response_header}
use hyrule_network_proxy.Egress.Client.{
  Config, Client, NetworkRequest, NetworkResponse, network_error, read_error, bad_host,
  body_too_large, bad_request, bad_mode, bad_method, bad_url, Outgoing, Upstream, World, Outcome,
  Failure, error_response, copy_headers, mark_truncated, truncated_header, read_limit,
  build_response, answered, send, do_checked, host_checked, do_url, do_method, do_request,
  client_for_mode, mode_of, validate_host, normalize_method, outgoing, body_of,
}

length-take_le : (n : ℕ) (xs : Bytes) → length (take n xs) ≤ n
length-take_le zero xs = omega arith
length-take_le (suc n) [] = omega arith
length-take_le (suc n) (x ∷ xs) = omega (arith, length-take_le n xs)

take_all : (n : ℕ) (xs : Bytes) → length (take (suc n) xs) ≤ n → take (suc n) xs ≡ take n xs
take_all zero [] h = refl
take_all zero (x ∷ xs) h = absurd (omega arith)
take_all (suc n) [] h = refl
take_all (suc n) (x ∷ xs) h = ap (◌∷◌ x) (take_all n xs (omega arith))

take-take-suc : (n : ℕ) (xs : Bytes) → take n (take (suc n) xs) ≡ take n xs
take-take-suc zero xs = refl
take-take-suc (suc n) [] = refl
take-take-suc (suc n) (x ∷ xs) = ap (◌∷◌ x) (take-take-suc n xs)

length-take-suc : (n : ℕ) (xs : Bytes) → n < length xs → n < length (take (suc n) xs)
length-take-suc zero [] h = absurd (omega arith)
length-take-suc zero (x ∷ xs) h = omega arith
length-take-suc (suc n) [] h = absurd (omega arith)
length-take-suc (suc n) (x ∷ xs) h = omega (arith, length-take-suc n xs)

-- What is kept of a body of which `k` bytes are read, at most `n` of them.
abbrev kept_of : ℕ → ℕ → Bytes → Bytes
kept_of n k b = if ltb n (length (take k b)) then take n (take k b) else take k b

length-kept_of : (n k : ℕ) (b : Bytes) → length (kept_of n k b) ≤ n
length-kept_of n k b = ground (arith, length-take_le n (take k b))

-- The body that is kept is the start of the one that was read.
kept_of-suc : (n : ℕ) (b : Bytes) → kept_of n (suc n) b ≡ take n b
kept_of-suc n b = ground (arith, take-take-suc n b, take_all n b)

-- Below the largest int64, one byte more than the limit is read.
read_limit-eq-suc : (n : ℕ) → n < 2 ^ 63 - 1 → read_limit n ≡ suc n
unfolding read_limit to_int64
read_limit-eq-suc n h = ground arith

copied_allowed :
    (lower : String → String) (m : Map String (List Bytes)) (key : String)
    → lookup key (copy_headers lower m) ≢ none
    → allow_response_header lower key ≡ true
unfolding copy_headers lookup
copied_allowed lower [] key h = absurd (h refl)
copied_allowed lower ((k, vs) ∷ m) key h =
    let law = lookup-put k key (join vs (bytes ", ")) (copy_headers lower m) in
    elim (Bool-cases (allow_response_header lower k)) [
      | inl ok ↦ ground (arith, law, copied_allowed lower m key)
      | inr denied ↦ ground (arith, copied_allowed lower m key)
    ]

-- Only allowed headers, but for the client's own mark.
abbrev IsClean : (String → String) → NetworkResponse → Type 0
IsClean lower resp =
    (key : String)
    → lookup key resp.headers ≢ none
    → (allow_response_header lower key ≡ true) ⊎ (key ≡ truncated_header)

-- A response without an error is the upstream's.
abbrev Relayed : {Addr : Type 0} → World Addr → Config → Outcome → Option Failure → Type 0
Relayed w cfg (resp, sent) (some e) = (resp.headers ≡ []) × (resp.body ≡ [])
Relayed w cfg (resp, sent) none =
    (q : Outgoing) × (up : Upstream) × (b : Bytes) × (sent ≡ some q)
    × (w.exchange q ≡ some up)
    × (up.body ≡ some b)
    × (resp.status_code ≡ up.status_code)
    × (resp.body ≡ take cfg.max_response_body_bytes b)
    × (cfg.max_response_body_bytes < length b
        → lookup truncated_header resp.headers ≡ some (bytes "true"))

pub record IsAnswered {Addr : Type 0} (w : World Addr) (cfg : Config) (o : Outcome) : Type 0 where
  pub bounded : length o.0.body ≤ cfg.max_response_body_bytes
  pub clean : IsClean w.lower o.0
  pub relayed : Relayed w cfg o o.0.error

-- The same for any limit, with what was read of the body.
abbrev Served : {Addr : Type 0} → World Addr → Config → Outcome → Option Failure → Type 0
Served w cfg (resp, sent) (some e) = (resp.headers ≡ []) × (resp.body ≡ [])
Served w cfg (resp, sent) none =
    let n = cfg.max_response_body_bytes in
    (q : Outgoing) × (up : Upstream) × (b : Bytes) × (sent ≡ some q)
    × (w.exchange q ≡ some up)
    × (up.body ≡ some b)
    × (resp.status_code ≡ up.status_code)
    × (resp.body ≡ kept_of n (read_limit n) b)
    × (n < length (take (read_limit n) b)
        → lookup truncated_header resp.headers ≡ some (bytes "true"))

pub record IsServed {Addr : Type 0} (w : World Addr) (cfg : Config) (o : Outcome) : Type 0 where
  pub bounded : length o.0.body ≤ cfg.max_response_body_bytes
  pub clean : IsClean w.lower o.0
  pub served : Served w cfg o o.0.error

Served-Relayed :
    {Addr : Type 0} (w : World Addr) (cfg : Config) (o : Outcome) (e : Option Failure)
    → cfg.max_response_body_bytes < 2 ^ 63 - 1
    → Served w cfg o e
    → Relayed w cfg o e
Served-Relayed w cfg (resp, sent) (some e) fits v = v
Served-Relayed w cfg (resp, sent) none fits (q, up, b, s, x, y, st, body, mark) =
    let n = cfg.max_response_body_bytes in
    let same = read_limit-eq-suc n fits in
    (
      q,
      up,
      b,
      s,
      x,
      y,
      st,
      body ∙ ap (λ k. kept_of n k b) same ∙ kept_of-suc n b,
      λ long. mark (rw same (length-take-suc n b long)),
    )

module _ {Addr : Type 0} (w : World Addr) (cfg : Config) (mode : String) where
  error-IsServed :
      (status : ℕ) (e : Failure) (sent : Option Outgoing)
      → IsServed w cfg (error_response status mode e, sent)
  unfolding lookup
  error-IsServed status e sent = record {
    bounded = omega arith;
    clean = λ key h. absurd (h refl);
    served = (refl, refl);
  }

  marked_clean :
      (truncated : Bool) (m : Map String (List Bytes)) (key : String)
      → lookup key (mark_truncated truncated (copy_headers w.lower m)) ≢ none
      → (allow_response_header w.lower key ≡ true) ⊎ (key ≡ truncated_header)
  marked_clean false m key h = inl (copied_allowed w.lower m key h)
  marked_clean true m key h = elim (string_discrete truncated_header key) [
    | yes e ↦ inr (sym e)
    | no ne ↦
        let law = lookup-put truncated_header key (bytes "true") (copy_headers w.lower m) in
        inl (copied_allowed w.lower m key (ground arith))
  ]

  answered-IsServed :
      (q : Outgoing) (o : Option Upstream)
      → w.exchange q ≡ o
      → IsServed w cfg (answered w.lower cfg mode q o)
  unfolding answered
  answered-IsServed q none h = error-IsServed 502 network_error (some q)
  answered-IsServed q (some up) h = built up.body refl
    where
      built :
          (o : Option Bytes)
          → up.body ≡ o
          → IsServed w cfg (build_response w.lower cfg mode up o, some q)
      built none e = unfold build_response in error-IsServed 502 read_error (some q)
      built (some b) e =
          unfold build_response in
          record {
            bounded =
                length-kept_of cfg.max_response_body_bytes (read_limit cfg.max_response_body_bytes)
                  b;
            clean =
                marked_clean
                  (ltb cfg.max_response_body_bytes
                    (length (take (read_limit cfg.max_response_body_bytes) b)))
                  up.headers;
            served = (
              q,
              up,
              b,
              refl,
              h,
              e,
              refl,
              refl,
              λ long. ground (
                arith,
                lookup-put truncated_header truncated_header (bytes "true")
                    (copy_headers w.lower up.headers),
              ),
            );
          }

module _ {Addr : Type 0} (w : World Addr) (c : Client) (r : NetworkRequest) (mode : String) where
  send-IsServed : (method : String) (u : Url) → IsServed w c.cfg (send w c r mode method u)
  unfolding send
  send-IsServed method u = elim (Option-cases (client_for_mode c mode)) [
    | inl e ↦ rw (e, send) (error-IsServed w c.cfg mode 400 bad_mode none)
    | inr (h, e) ↦
        let q = outgoing w c.cfg r method u h in
        rw (e, send) (answered-IsServed w c.cfg mode q (w.exchange q) refl)
  ]

  do_checked-IsServed :
      (method : String) (u : Url) → IsServed w c.cfg (do_checked w c r mode method u)
  unfolding do_checked
  do_checked-IsServed method u =
      elim (Bool-cases (ltb c.cfg.max_request_body_bytes (length (body_of r.body)))) [
        | inl e ↦ rw (e, do_checked) (error-IsServed w c.cfg mode 400 body_too_large none)
        | inr e ↦ elim (Bool-cases (w.builds u)) [
          | inl f ↦ rw (e, f, do_checked) (send-IsServed method u)
          | inr f ↦ rw (e, f, do_checked) (error-IsServed w c.cfg mode 400 bad_request none)
        ]
      ]

  hosted-IsServed :
      (method : String) (u : Url) (o : Checked (Unit {0}))
      → IsServed w c.cfg (host_checked w c r mode method u o)
  hosted-IsServed method u (fail e) = error-IsServed w c.cfg mode 403 bad_host none
  hosted-IsServed method u (pass x) = do_checked-IsServed method u

  do_url-IsServed :
      (method : String) (o : Checked Url) → IsServed w c.cfg (do_url w c r mode method o)
  unfolding do_url
  do_url-IsServed method (fail policy_denied) =
      error-IsServed w c.cfg mode 403 (bad_url policy_denied) none
  do_url-IsServed method (fail invalid) = error-IsServed w c.cfg mode 400 (bad_url invalid) none
  do_url-IsServed method (pass u) = hosted-IsServed method u (validate_host w u.hostname mode)

  do_method-IsServed : (o : Option String) → IsServed w c.cfg (do_method w c r mode o)
  do_method-IsServed none = error-IsServed w c.cfg mode 400 bad_method none
  do_method-IsServed (some method) =
      do_url-IsServed method (parse_and_validate_url w.lib r.url mode)

-- Whatever the limit, a response has a body within it and no header of the denylist.
pub do_request-IsServed :
    {Addr : Type 0} (w : World Addr) (c : Client) (r : NetworkRequest)
    → IsServed w c.cfg (do_request w c r)
unfolding do_request
do_request-IsServed w c r =
    do_method-IsServed w c r (mode_of r.proxy_mode) (normalize_method w.upper r.method)

-- With a limit of the response below the largest int64, every response has a body within the limit
-- and no header of the denylist, but for the client's own mark. One without an error comes from the
-- upstream that the request was sent to: with its status and the start of its body, marked as
-- truncated if the body is longer. One with an error has neither headers nor a body.
pub do_request-IsAnswered :
    {Addr : Type 0} (w : World Addr) (c : Client) (r : NetworkRequest)
    → c.cfg.max_response_body_bytes < 2 ^ 63 - 1
    → IsAnswered w c.cfg (do_request w c r)
do_request-IsAnswered w c r fits =
    let v = do_request-IsServed w c r in
    record {
      bounded = v.bounded;
      clean = v.clean;
      relayed = Served-Relayed w c.cfg (do_request w c r) (do_request w c r).0.error fits v.served;
    }
