-- ===== src/Egress/Policy.antt =====
-- internal/policy: ip.go, url.go and redirect.go. A text is its list of bytes. `Library` holds what
-- is called of net/netip, net/url and net, with strings.ToLower
-- and strings.EqualFold, which know of Unicode; `Addr` is netip.Addr, and a resolver that fails
-- returns `none`.
pub mod Redirects
use hyrule_network_proxy.Prelude.{
  ltb_ℤ, ℤ, pos, has_suffix, trim_suffix, trim, ℕ, ◌&&◌, ◌||◌, not, Bool, true, false, ite, Option,
  none, some, List, [], ◌∷◌, String, ltb, if◌then◌else◌, length, is_empty, string_discrete, Bytes,
  bytes, bytes_discrete,
}

pub record Url : Type 0 where
  pub scheme : Bytes
  pub hostname : Bytes
  pub has_user : Bool

pub record Library (Addr : Type 0) : Type 0 where
  pub parse_addr : Bytes → Option Addr
  pub is_valid : Addr → Bool
  pub is_global_unicast : Addr → Bool
  pub is_private : Addr → Bool
  pub is_loopback : Addr → Bool
  pub is_link_local_unicast : Addr → Bool
  pub is_multicast : Addr → Bool
  pub is_unspecified : Addr → Bool
  pub in_yggdrasil_prefix : Addr → Bool
  pub unmap : Addr → Addr
  pub addr_text : Addr → Bytes
  pub parse_url : Bytes → Option Url
  pub to_lower : Bytes → Bytes
  pub equal_fold : Bytes → Bytes → Bool
  pub split_host_port : Bytes → Option (Bytes × Bytes)
  pub join_host_port : Bytes → Bytes → Bytes

-- ErrPolicyDenied, and the errors that do not wrap it.
pub data PolicyError : Type 0 where
  policy_denied invalid : PolicyError

pub data Checked (A : Type 0) : Type 0 where
  pass : A → Checked A
  fail : PolicyError → Checked A

abbrev pub is_mode : String → String → Bool
is_mode mode m = ite (string_discrete mode m) true false

abbrev pub same : Bytes → Bytes → Bool
same a b = ite (bytes_discrete a b) true false

unfoldable pub is_public_ip : {Addr : Type 0} → Library Addr → Addr → Bool
is_public_ip lib a =
    lib.is_valid a
    && lib.is_global_unicast a
    && not (lib.is_private a)
    && not (lib.is_loopback a)
    && not (lib.is_link_local_unicast a)
    && not (lib.is_multicast a)
    && not (lib.is_unspecified a)

unfoldable pub is_yggdrasil_ip : {Addr : Type 0} → Library Addr → Addr → Bool
is_yggdrasil_ip lib a = lib.is_valid a && lib.in_yggdrasil_prefix a

unfoldable pub ip_allowed_for_mode : {Addr : Type 0} → Library Addr → Addr → String → Bool
unfolding is_public_ip is_yggdrasil_ip
ip_allowed_for_mode lib a mode =
    if is_mode mode "direct" || is_mode mode "tor"
    then is_public_ip lib a && not (is_yggdrasil_ip lib a)
    else if is_mode mode "yggdrasil"
    then is_yggdrasil_ip lib a
    else false

abbrev pub max_url_length : ℕ
max_url_length = 2048

abbrev pub dot : Bytes
dot = bytes "."

abbrev pub brackets : Bytes
brackets = bytes "[]"

abbrev pub onion : Bytes
onion = bytes ".onion"

abbrev pub i2p : Bytes
i2p = bytes ".i2p"

-- The switch on the mode in ParseAndValidateURL, for the host in lower case and without its dot.
unfoldable pub check_mode : {Addr : Type 0} → Library Addr → Bytes → String → Url → Checked Url
check_mode lib host mode u =
    if is_mode mode "direct"
    then (if has_suffix host onion || has_suffix host i2p then fail policy_denied else pass u)
    else if is_mode mode "tor"
    then (if has_suffix host i2p then fail policy_denied else pass u)
    else if is_mode mode "i2p"
    then (if not (has_suffix host i2p) then fail policy_denied else pass u)
    else if is_mode mode "yggdrasil"
    then (if has_suffix host onion || has_suffix host i2p then fail policy_denied else pass u)
    else fail invalid

unfoldable pub check_url : {Addr : Type 0} → Library Addr → String → Url → Checked Url
unfolding check_mode
check_url lib mode u =
    if not (same u.scheme (bytes "http")) && not (same u.scheme (bytes "https"))
    then fail invalid
    else if is_empty u.hostname
    then fail invalid
    else if u.has_user
    then fail invalid
    else check_mode lib (lib.to_lower (trim_suffix u.hostname dot)) mode u

unfoldable pub parse_and_validate_url :
    {Addr : Type 0} → Library Addr → Bytes → String → Checked Url
unfolding check_url
parse_and_validate_url lib raw mode =
    if ltb max_url_length (length raw)
    then fail invalid
    else (elim (lib.parse_url raw) [ none ↦ fail invalid | some u ↦ check_url lib mode u ])

unfoldable pub all_allowed : {Addr : Type 0} → Library Addr → String → List Addr → Bool
all_allowed lib mode [] = true
all_allowed lib mode (a ∷ addrs) = ip_allowed_for_mode lib a mode && all_allowed lib mode addrs

abbrev pub is_localhost : {Addr : Type 0} → Library Addr → Bytes → Bool
is_localhost lib host =
    lib.equal_fold host (bytes "localhost") || lib.equal_fold host (bytes "localhost.localdomain")

abbrev check_resolved :
    {Addr : Type 0} → Library Addr → String → Option (List Addr) → Checked (Unit {0})
check_resolved lib mode none = fail invalid
check_resolved lib mode (some []) = fail invalid
check_resolved lib mode (some (a ∷ addrs)) =
    if all_allowed lib mode (a ∷ addrs) then pass tt else fail policy_denied

abbrev check_name :
    {Addr : Type 0}
    → Library Addr
    → (Bytes → Option (List Addr))
    → Bytes
    → String
    → Checked (Unit {0})
check_name lib resolver host mode =
    if is_localhost lib host
    then fail policy_denied
    else if has_suffix (lib.to_lower host) onion || has_suffix (lib.to_lower host) i2p
    then pass tt
    else check_resolved lib mode (resolver host)

unfoldable pub validate_resolved_host :
    {Addr : Type 0}
    → Library Addr
    → (Bytes → Option (List Addr))
    → Bytes
    → String
    → Checked (Unit {0})
unfolding all_allowed
validate_resolved_host lib resolver host mode =
    let bare = trim host brackets in
    elim (lib.parse_addr bare) [
      | some a ↦ if ip_allowed_for_mode lib a mode then pass tt else fail policy_denied
      | none ↦ check_name lib resolver bare mode
    ]

abbrev then_host : Checked Url → Checked (Unit {0}) → Checked (Unit {0})
then_host (fail e) r = fail e
then_host (pass u) r = r

-- RedirectPolicy, for a request with the text `raw` and the host name of its URL, behind `hops`
-- earlier requests.
unfoldable pub redirect_policy :
    {Addr : Type 0}
    → Library Addr
    → (Bytes → Option (List Addr))
    → String
    → ℤ
    → ℕ
    → Bytes
    → Bytes
    → Checked (Unit {0})
unfolding parse_and_validate_url validate_resolved_host
redirect_policy lib resolver mode max_redirects hops raw hostname =
    if ltb_ℤ max_redirects (pos hops)
    then fail invalid
    else then_host (parse_and_validate_url lib raw mode)
        (validate_resolved_host lib resolver hostname mode)
