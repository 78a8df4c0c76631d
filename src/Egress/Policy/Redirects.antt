-- ===== src/Egress/Policy/Redirects.antt =====
-- What internal/policy lets through.
use hyrule_network_proxy.Prelude.{
  ◌≤ℤ◌, ℤ, pos, has_suffix, trim_suffix, trim, ℕ, ◌≤◌, ◌≡◌, ◌⊎◌, inl, inr, refl, ◌||◌, true, false,
  Option, some, Option-cases, is_empty, length, List, String, Bytes, bytes, arith,
}
use hyrule_network_proxy.Egress.Policy.{
  dot, brackets, Library, Url, Checked, pass, fail, ip_allowed_for_mode, parse_and_validate_url,
  check_url, check_mode, validate_resolved_host, redirect_policy, max_url_length, same, is_mode,
  onion, i2p,
}

-- The modes with the hosts that they take.
abbrev FitsMode : {Addr : Type 0} → Library Addr → String → Bytes → Type 0
FitsMode lib mode host =
    ((is_mode mode "direct" ≡ true)
      × (has_suffix host onion ≡ false)
      × (has_suffix host i2p ≡ false))
    ⊎ (((is_mode mode "tor" ≡ true) × (has_suffix host i2p ≡ false))
        ⊎ (((is_mode mode "i2p" ≡ true) × (has_suffix host i2p ≡ true))
            ⊎ ((is_mode mode "yggdrasil" ≡ true)
                × (has_suffix host onion ≡ false)
                × (has_suffix host i2p ≡ false))))

-- A URL of the proxy: short, over HTTP, with a host that fits the mode and without a user.
abbrev pub IsAccepted : {Addr : Type 0} → Library Addr → String → Bytes → Url → Type 0
IsAccepted lib mode raw u =
    (length raw ≤ max_url_length)
    × (lib.parse_url raw ≡ some u)
    × ((same u.scheme (bytes "http") || same u.scheme (bytes "https")) ≡ true)
    × (is_empty u.hostname ≡ false)
    × (u.has_user ≡ false)
    × FitsMode lib mode (lib.to_lower (trim_suffix u.hostname dot))

check_mode-FitsMode :
    {Addr : Type 0} (lib : Library Addr) (host : Bytes) (mode : String) (u v : Url)
    → check_mode lib host mode u ≡ pass v
    → (v ≡ u) × FitsMode lib mode host
unfolding check_mode
check_mode-FitsMode lib host mode u v h = ground arith

check_url-FitsMode :
    {Addr : Type 0} (lib : Library Addr) (mode : String) (u v : Url)
    → check_url lib mode u ≡ pass v
    → (v ≡ u)
      × ((same u.scheme (bytes "http") || same u.scheme (bytes "https")) ≡ true)
      × (is_empty u.hostname ≡ false)
      × (u.has_user ≡ false)
      × FitsMode lib mode (lib.to_lower (trim_suffix u.hostname dot))
unfolding check_url
check_url-FitsMode lib mode u v h =
    ground (arith, check_mode-FitsMode lib (lib.to_lower (trim_suffix u.hostname dot)) mode u v)

-- A URL that ParseAndValidateURL returns is the one that the text parses to. It is at most 2048
-- bytes long, over http or https, with a host and without a user, and its host fits the mode: .i2p
-- names are for the i2p mode alone, which takes no others, and .onion names are neither for the
-- direct mode nor for yggdrasil.
pub parse_and_validate_url-IsAccepted :
    {Addr : Type 0} (lib : Library Addr) (raw : Bytes) (mode : String) (u : Url)
    → parse_and_validate_url lib raw mode ≡ pass u
    → IsAccepted lib mode raw u
unfolding parse_and_validate_url
parse_and_validate_url-IsAccepted lib raw mode u h = elim (Option-cases (lib.parse_url raw)) [
  | inl e ↦ absurd (ground arith)
  | inr (v, e) ↦ ground (arith, check_url-FitsMode lib mode v u)
]

-- A redirect that is followed is within the limit of hops; its target has a URL that
-- ParseAndValidateURL accepts, and is not an address outside those that the policy allows.
pub redirect_policy_guarded :
    {Addr : Type 0} (lib : Library Addr) (resolver : Bytes → Option (List Addr)) (mode : String)
    (max_redirects : ℤ) (hops : ℕ) (raw hostname : Bytes)
    → redirect_policy lib resolver mode max_redirects hops raw hostname ≡ pass tt
    → (pos hops ≤ℤ max_redirects)
      × ((u : Url) × IsAccepted lib mode raw u)
      × ((a : Addr)
          → lib.parse_addr (trim hostname brackets) ≡ some a
          → ip_allowed_for_mode lib a mode ≡ true)
unfolding redirect_policy validate_resolved_host
redirect_policy_guarded lib resolver mode max_redirects hops raw hostname h =
    (ground arith, accepted (parse_and_validate_url lib raw mode) refl, λ a e. ground arith)
  where
    accepted :
        (r : Checked Url)
        → parse_and_validate_url lib raw mode ≡ r
        → (u : Url) × IsAccepted lib mode raw u
    accepted (pass u) e = (u, parse_and_validate_url-IsAccepted lib raw mode u e)
    accepted (fail x) e = absurd (ground arith)
