-- ===== src/Egress/Headers.antt =====
-- internal/policy/headers.go. `normal` stands for strings.ToLower behind strings.TrimSpace.
use hyrule_network_proxy.Prelude.{
  ◌≡◌, String, Bool, true, false, not, ite, none, List, [], ◌∷◌, if◌then◌else◌, string_discrete,
  arith,
}
use hyrule_network_proxy.Prelude.Map.{Map, string_key, lookup, put, lookup-put}

abbrev pub is_listed : String → List String → Bool
is_listed name [] = false
is_listed name (n ∷ ns) = ite (string_discrete n name) true (is_listed name ns)

abbrev pub request_header_allowlist : List String
request_header_allowlist =
    "accept" ∷ "accept-language" ∷ "cache-control" ∷ "content-type" ∷ "if-modified-since"
    ∷ "if-none-match" ∷ "user-agent" ∷ []

abbrev response_header_denylist : List String
response_header_denylist =
    "authorization" ∷ "cookie" ∷ "proxy-authorization" ∷ "set-cookie" ∷ "x-api-key" ∷ "x-payment"
    ∷ "payment-signature" ∷ []

abbrev pub is_request_header : (String → String) → String → Bool
is_request_header normal key = is_listed (normal key) request_header_allowlist

unfoldable pub sanitize_request_headers : (String → String) → Map String String → Map String String
sanitize_request_headers normal [] = []
sanitize_request_headers normal ((key, value) ∷ input) =
    let rest = sanitize_request_headers normal input in
    if is_request_header normal key then put key value rest else rest

unfoldable pub allow_response_header : (String → String) → String → Bool
allow_response_header normal key = not (is_listed (normal key) response_header_denylist)

-- A header is sent on exactly if it was given and its name is in the allowlist, with its value.
pub lookup-sanitize_request_headers :
    (normal : String → String) (input : Map String String) (key : String)
    → lookup key (sanitize_request_headers normal input)
      ≡ (if is_request_header normal key then lookup key input else none)
unfolding sanitize_request_headers lookup
lookup-sanitize_request_headers normal [] key = ground arith
lookup-sanitize_request_headers normal ((k, v) ∷ input) key = ground (
  arith,
  lookup-sanitize_request_headers normal input key,
  lookup-put k key v (sanitize_request_headers normal input),
)
