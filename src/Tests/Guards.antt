-- ===== src/Tests/Guards.antt =====
-- The theorems on internal/policy and internal/transport with addresses of one byte.
use hyrule_network_proxy.Prelude.{
  ◌≤ℤ◌, pos, has_suffix, has_prefix, drop_prefix, trim_suffix, trim, ℕ, ◌≡◌, ◌⊎◌, ◌++◌, refl, true,
  false, Option, none, some, List, [], ◌∷◌, String, ◌==◌, Bytes, bytes, arith, bytes_discrete,
}
use hyrule_network_proxy.Prelude.Map.{Map, string_key}
use hyrule_network_proxy.Egress.Policy.{
  Library, Url, pass, parse_and_validate_url, validate_resolved_host, redirect_policy, check_url,
  check_mode, ip_allowed_for_mode, is_public_ip, is_yggdrasil_ip, onion,
}
use hyrule_network_proxy.Egress.Policy.Redirects.{IsAccepted, redirect_policy_guarded}
use hyrule_network_proxy.Egress.Dialer.{dial_address, socks_dial_address}
use hyrule_network_proxy.Egress.Dialer.Guard.{IsGuarded, dial-IsGuarded}

-- The address 127 is the loopback; a text of one byte is an address; every name is its own host.
abbrev pub lib : Library ℕ
lib = record {
  parse_addr = λ s. elim s [ [] ↦ none | x ∷ xs ↦ some x ];
  is_valid = λ a. true;
  is_global_unicast = λ a. true;
  is_private = λ a. false;
  is_loopback = λ a. a == 127;
  is_link_local_unicast = λ a. false;
  is_multicast = λ a. false;
  is_unspecified = λ a. a == 0;
  in_yggdrasil_prefix = λ a. false;
  unmap = λ a. a;
  addr_text = λ a. a ∷ [];
  parse_url = λ s. some (record { scheme = bytes "http"; hostname = s; has_user = false });
  to_lower = λ s. s;
  equal_fold = λ s t. false;
  split_host_port = λ s. elim s [ [] ↦ none | x ∷ xs ↦ some (x ∷ [], xs) ];
  join_host_port = λ h p. h ++ p;
}

abbrev pub resolver : Bytes → Option (List ℕ)
resolver host = none

abbrev pub target : Url
target = record { scheme = bytes "http"; hostname = 8 ∷ []; has_user = false }

dial-IsGuarded_example :
    ((out : Bytes)
      → dial_address lib resolver "direct" (8 ∷ 80 ∷ []) ≡ pass out
      → IsGuarded lib "direct" (80 ∷ []) out)
    × ((out : Bytes)
        → socks_dial_address lib resolver "direct" (8 ∷ 80 ∷ []) ≡ pass out
        → ((◌≡◌ {A = String} "direct" "tor")
            × (has_suffix (8 ∷ []) onion ≡ true)
            × (out ≡ 8 ∷ 80 ∷ []))
          ⊎ IsGuarded lib "direct" (80 ∷ []) out)
unfolding trim_suffix has_suffix has_prefix drop_prefix
dial-IsGuarded_example = dial-IsGuarded lib resolver "direct" (8 ∷ 80 ∷ []) (8 ∷ []) (80 ∷ []) refl

redirect_policy_guarded_example :
    (pos 2 ≤ℤ pos 3)
    × ((u : Url) × IsAccepted lib "direct" (8 ∷ []) u)
    × ((a : ℕ) → ◌≡◌ {A = Option ℕ} (some 8) (some a) → ip_allowed_for_mode lib a "direct" ≡ true)
unfolding trim trim_suffix has_suffix has_prefix drop_prefix redirect_policy validate_resolved_host
    parse_and_validate_url check_url check_mode ip_allowed_for_mode is_public_ip is_yggdrasil_ip
    bytes_discrete
redirect_policy_guarded_example =
    redirect_policy_guarded lib resolver "direct" (pos 3) 2 (8 ∷ []) (8 ∷ []) (ground arith)

abbrev pub headers : Map String String
headers = ("cookie", "c") ∷ ("accept", "a") ∷ []
