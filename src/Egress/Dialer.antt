-- ===== src/Egress/Dialer.antt =====
-- internal/transport/dialer.go: the address that a connection is made to. `look_up` is the resolver.
pub mod Guard
use hyrule_network_proxy.Prelude.{
  has_suffix, trim_suffix, trim, Bool, true, false, not, ◌&&◌, Option, none, some, List, [], ◌∷◌,
  String, if◌then◌else◌, Bytes,
}
use hyrule_network_proxy.Egress.Policy.{
  dot, brackets, Library, Checked, pass, fail, policy_denied, invalid, ip_allowed_for_mode,
  is_localhost, is_mode, onion,
}

abbrev pub selected_is_valid : {Addr : Type 0} → Library Addr → Option Addr → Bool
selected_is_valid lib none = false
selected_is_valid lib (some a) = lib.is_valid a

-- The loop over the answers: every one must be allowed, and the first one is selected.
unfoldable pub select_addr :
    {Addr : Type 0} → Library Addr → String → List Addr → Option Addr → Checked (Option Addr)
select_addr lib mode [] selected = pass selected
select_addr lib mode (a ∷ addrs) selected =
    let rest =
      select_addr lib mode addrs
        (if selected_is_valid lib selected then selected else some (lib.unmap a)) in
    if not (ip_allowed_for_mode lib (lib.unmap a) mode) then fail policy_denied else rest

unfoldable pub join_selected :
    {Addr : Type 0} → Library Addr → Bytes → Checked (Option Addr) → Checked Bytes
join_selected lib port (fail e) = fail e
join_selected lib port (pass none) = fail invalid
join_selected lib port (pass (some a)) =
    if lib.is_valid a then pass (lib.join_host_port (lib.addr_text a) port) else fail invalid

unfoldable pub resolve_name :
    {Addr : Type 0} → Library Addr → Bytes → String → Option (List Addr) → Checked Bytes
unfolding select_addr join_selected
resolve_name lib port mode none = fail invalid
resolve_name lib port mode (some []) = fail invalid
resolve_name lib port mode (some (a ∷ addrs)) =
    join_selected lib port (select_addr lib mode (a ∷ addrs) none)

unfoldable pub resolve_dial_address :
    {Addr : Type 0}
    → Library Addr
    → (Bytes → Option (List Addr))
    → Bytes
    → Bytes
    → String
    → Checked Bytes
unfolding resolve_name
resolve_dial_address lib look_up host port mode =
    let bare = trim host brackets in
    elim (lib.parse_addr bare) [
      | some a ↦
          if not (ip_allowed_for_mode lib a mode)
          then fail policy_denied
          else pass (lib.join_host_port (lib.addr_text a) port)
      | none ↦
          if is_localhost lib bare
          then fail policy_denied
          else resolve_name lib port mode (look_up bare)
    ]

-- guardedDialer.DialContext, up to the dial.
unfoldable pub dial_address :
    {Addr : Type 0} → Library Addr → (Bytes → Option (List Addr)) → String → Bytes → Checked Bytes
unfolding resolve_dial_address
dial_address lib look_up mode address = elim (lib.split_host_port address) [
  | none ↦ fail invalid
  | some (host, port) ↦ resolve_dial_address lib look_up host port mode
]

-- guardedSOCKSDialer.DialContext, up to the dial.
unfoldable pub socks_dial_address :
    {Addr : Type 0} → Library Addr → (Bytes → Option (List Addr)) → String → Bytes → Checked Bytes
unfolding resolve_dial_address
socks_dial_address lib look_up mode address = elim (lib.split_host_port address) [
  | none ↦ fail invalid
  | some (host, port) ↦
      if is_mode mode "tor" && has_suffix (lib.to_lower (trim_suffix host dot)) onion
      then pass address
      else resolve_dial_address lib look_up host port mode
]
