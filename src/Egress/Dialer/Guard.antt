-- ===== src/Egress/Dialer/Guard.antt =====
-- The guard of internal/transport/dialer.go against destinations inside the network: a connection
-- is made to an address that the policy allows.
use hyrule_network_proxy.Prelude.{
  has_suffix, trim_suffix, trim, ◌≡◌, ◌⊎◌, inl, inr, true, Option, none, some, Option-cases,
  Bool-cases, if◌then◌else◌, List, [], ◌∷◌, String, Bytes, arith,
}
use hyrule_network_proxy.Egress.Policy.{
  dot, brackets, Library, Checked, pass, fail, ip_allowed_for_mode, onion,
}
use hyrule_network_proxy.Egress.Dialer.{
  selected_is_valid, select_addr, join_selected, resolve_name, resolve_dial_address, dial_address,
  socks_dial_address,
}

-- The text is an allowed address with the port.
abbrev pub IsGuarded : {Addr : Type 0} → Library Addr → String → Bytes → Bytes → Type 0
IsGuarded {Addr} lib mode port out =
    (a : Addr) × (ip_allowed_for_mode lib a mode ≡ true)
    × (out ≡ lib.join_host_port (lib.addr_text a) port)

abbrev Fine : {Addr : Type 0} → Library Addr → String → Option Addr → Type 0
Fine lib mode none = Unit {0}
Fine lib mode (some a) = ip_allowed_for_mode lib a mode ≡ true

abbrev FineResult : {Addr : Type 0} → Library Addr → String → Checked (Option Addr) → Type 0
FineResult lib mode (fail e) = Unit {0}
FineResult lib mode (pass o) = Fine lib mode o

chosen-Fine :
    {Addr : Type 0} (lib : Library Addr) (mode : String) (a : Addr) (o : Option Addr)
    → ip_allowed_for_mode lib a mode ≡ true
    → Fine lib mode o
    → Fine lib mode (if selected_is_valid lib o then o else some a)
chosen-Fine lib mode a none ok h = ok
chosen-Fine lib mode a (some b) ok h = elim (Bool-cases (lib.is_valid b)) [
  | inl v ↦ rw v h
  | inr v ↦ rw v ok
]

select_addr-Fine :
    {Addr : Type 0} (lib : Library Addr) (mode : String) (addrs : List Addr) (o : Option Addr)
    → Fine lib mode o
    → FineResult lib mode (select_addr lib mode addrs o)
unfolding select_addr
select_addr-Fine lib mode [] o h = h
select_addr-Fine lib mode (a ∷ addrs) o h =
    elim (Bool-cases (ip_allowed_for_mode lib (lib.unmap a) mode)) [
      | inl ok ↦ rw ok (
          select_addr-Fine lib mode addrs
            (if selected_is_valid lib o then o else some (lib.unmap a))
            (chosen-Fine lib mode (lib.unmap a) o ok h))
      | inr bad ↦ rw bad tt
    ]

join_selected-IsGuarded :
    {Addr : Type 0} (lib : Library Addr) (mode : String) (port out : Bytes)
    (r : Checked (Option Addr))
    → FineResult lib mode r
    → join_selected lib port r ≡ pass out
    → IsGuarded lib mode port out
unfolding join_selected
join_selected-IsGuarded lib mode port out (fail e) h k = absurd (ground arith)
join_selected-IsGuarded lib mode port out (pass none) h k = absurd (ground arith)
join_selected-IsGuarded lib mode port out (pass (some a)) h k = (a, h, ground arith)

resolve_name-IsGuarded :
    {Addr : Type 0} (lib : Library Addr) (mode : String) (port out : Bytes) (o : Option (List Addr))
    → resolve_name lib port mode o ≡ pass out
    → IsGuarded lib mode port out
unfolding resolve_name
resolve_name-IsGuarded lib mode port out none h = absurd (ground arith)
resolve_name-IsGuarded lib mode port out (some []) h = absurd (ground arith)
resolve_name-IsGuarded lib mode port out (some (a ∷ addrs)) h =
    join_selected-IsGuarded lib mode port out (select_addr lib mode (a ∷ addrs) none)
      (select_addr-Fine lib mode (a ∷ addrs) none tt) h

resolve_dial_address-IsGuarded :
    {Addr : Type 0} (lib : Library Addr) (look_up : Bytes → Option (List Addr)) (host port : Bytes)
    (mode : String) (out : Bytes)
    → resolve_dial_address lib look_up host port mode ≡ pass out
    → IsGuarded lib mode port out
unfolding resolve_dial_address
resolve_dial_address-IsGuarded lib look_up host port mode out h =
    elim (Option-cases (lib.parse_addr (trim host brackets))) [
      | inr (a, e) ↦ (a, ground arith, ground arith)
      | inl e ↦
          resolve_name-IsGuarded lib mode port out (look_up (trim host brackets)) (ground arith)
    ]

-- For an address that splits into a host and a port: every address that the dialers hand on is one
-- that the policy allows in the mode, with that port. The one exception is a name in .onion in tor
-- mode, which goes to the SOCKS proxy as it is.
pub dial-IsGuarded :
    {Addr : Type 0} (lib : Library Addr) (look_up : Bytes → Option (List Addr)) (mode : String)
    (address host port : Bytes)
    → lib.split_host_port address ≡ some (host, port)
    → ((out : Bytes)
        → dial_address lib look_up mode address ≡ pass out
        → IsGuarded lib mode port out)
      × ((out : Bytes)
          → socks_dial_address lib look_up mode address ≡ pass out
          → ((mode ≡ "tor")
              × (has_suffix (lib.to_lower (trim_suffix host dot)) onion ≡ true)
              × (out ≡ address))
            ⊎ IsGuarded lib mode port out)
unfolding dial_address socks_dial_address
dial-IsGuarded lib look_up mode address host port h = (
  λ out e. resolve_dial_address-IsGuarded lib look_up host port mode out (ground arith),
  λ out e. ground (arith, resolve_dial_address-IsGuarded lib look_up host port mode out),
)
