-- ===== src/Sshd/Forward.antt =====
-- The forward of internal/tunnel/sshd/forward.go: a public listener with its visitors. Sockets,
-- connections and SSH channels are named by numbers. The methods run under the forward's mutex.
use hyrule_network_proxy.Prelude.{
  ℕ, ◌≡◌, ◌∙◌, String, Bool, true, false, not, ◌||◌, Option, none, some, List, [], ◌∷◌, arith,
  if◌then◌else◌, is_empty, refl,
}
use hyrule_network_proxy.Prelude.Map.{Map, nat_key, lookup, put, delete}
use hyrule_network_proxy.Lease.Model.{Ip, IpNet, Net, Lease, allows_ip, any_cidr}

pub record Forward : Type 0 where
  pub port : ℕ
  pub connected_addr : String
  pub connected_port : ℕ
  pub allow_nets : List IpNet
  pub allowlist_set : Bool
  pub visitors : Map ℕ (Option ℕ)
  pub closed : Bool

-- parseCIDRs: the entries that parse.
unfoldable pub parse_cidrs : Net → List String → List IpNet
parse_cidrs net [] = []
parse_cidrs net (c ∷ cs) =
    let rest = parse_cidrs net cs in elim (net.parse_cidr c) [ none ↦ rest | some n ↦ n ∷ rest ]

pub any_contains : Net → Ip → List IpNet → Bool
any_contains net ip [] = false
any_contains net ip (n ∷ ns) = net.contains n ip || any_contains net ip ns

unfoldable pub allows : Net → Forward → Ip → Bool
unfolding any_contains
allows net f ip =
    if is_empty f.allow_nets then not f.allowlist_set else any_contains net ip f.allow_nets

-- The guard at the head of handleVisitor; an address that cannot be told is empty.
unfoldable pub admits : Net → Forward → Ip → Bool
unfolding allows
admits net f ip =
    if f.allowlist_set || not (is_empty f.allow_nets)
    then (if is_empty ip then false else allows net f ip)
    else true

-- The sockets and the channels that `close` closes with the listener.
unfoldable pub sockets : Map ℕ (Option ℕ) → List ℕ
sockets [] = []
sockets ((vc, ch) ∷ m) = vc ∷ sockets m

unfoldable pub channels : Map ℕ (Option ℕ) → List ℕ
channels [] = []
channels ((vc, none) ∷ m) = channels m
channels ((vc, some ch) ∷ m) = ch ∷ channels m

unfoldable pub close : Forward → Forward
close f = record f { closed = true; visitors = [] }

unfoldable pub track_visitor : ℕ → Forward → Bool × Forward
track_visitor vc f =
    if f.closed then (false, f) else (true, record f { visitors = put vc none f.visitors })

unfoldable pub set_visitor_channel : ℕ → ℕ → Forward → Bool × Forward
set_visitor_channel vc ch f = if f.closed then (false, f) else (elim (lookup vc f.visitors) [
  | none ↦ (false, f)
  | some old ↦ (true, record f { visitors = put vc (some ch) f.visitors })
])

unfoldable pub untrack_visitor : ℕ → Forward → Forward
untrack_visitor vc f = record f { visitors = delete vc f.visitors }

-- What StartForward makes of a lease that is bound.
unfoldable pub new_forward : Net → Lease → String → ℕ → Forward
new_forward net l bind_addr connected_port = record {
  port = l.allocated_port;
  connected_addr = bind_addr;
  connected_port = connected_port;
  allow_nets = parse_cidrs net l.allowlist_cidrs;
  allowlist_set = not (is_empty l.allowlist_cidrs);
  visitors = [];
  closed = false;
}

any_contains-parse_cidrs :
    (net : Net) (ip : Ip) (cs : List String)
    → any_contains net ip (parse_cidrs net cs) ≡ any_cidr net ip cs
unfolding any_contains parse_cidrs any_cidr
any_contains-parse_cidrs net ip [] = refl
any_contains-parse_cidrs net ip (c ∷ cs) = ground (arith, any_contains-parse_cidrs net ip cs)

any_contains_none :
    (net : Net) (ip : Ip) (ns : List IpNet)
    → (if is_empty ns then false else any_contains net ip ns) ≡ any_contains net ip ns
unfolding any_contains
any_contains_none net ip [] = refl
any_contains_none net ip (n ∷ ns) = refl

admits_listed :
    (net : Net) (l : Lease) (bind_addr : String) (port : ℕ) (b : ℕ) (ip : Ip) (cs : List String)
    → l.allowlist_cidrs ≡ cs
    → admits net (new_forward net l bind_addr port) (b ∷ ip) ≡ allows_ip net l (b ∷ ip)
unfolding admits new_forward allows_ip parse_cidrs
admits_listed net l bind_addr port b ip [] e = rw e
admits_listed net l bind_addr port b ip (c ∷ cs) e =
    rw (e, allows_ip)
      (any_contains_none net (b ∷ ip) (parse_cidrs net (c ∷ cs))
        ∙ any_contains-parse_cidrs net (b ∷ ip) (c ∷ cs))

-- The forward of a lease admits a visitor, whose address is known, exactly if the lease allows it:
-- also where entries of the allowlist do not parse.
admits-new_forward :
    (net : Net) (l : Lease) (bind_addr : String) (port b : ℕ) (ip : Ip)
    → admits net (new_forward net l bind_addr port) (b ∷ ip) ≡ allows_ip net l (b ∷ ip)
admits-new_forward net l bind_addr port b ip =
    admits_listed net l bind_addr port b ip l.allowlist_cidrs refl
