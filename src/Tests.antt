-- ===== src/Tests.antt =====
-- Test data: a daemon with one lease. The platform's codec keeps the numbers of the leases that
-- have the one identifier and token of the tests and no allowlist, and refuses every other lease.
pub mod Stores
pub mod Servers
pub mod Services
pub mod Guards
pub mod Visitors
pub mod Sessions
pub mod Clients
pub mod Settings
pub mod Daemons
pub mod Starts
use hyrule_network_proxy.Prelude.{
  ℕ, ◌-◌, ◌%◌, ◌<◌, ◌≡◌, refl, String, Bool, true, false, not, ite, Option, none, some, List, [],
  ◌∷◌, arith, ℤ, pos, negsuc, ◌==◌, string_discrete,
}
use hyrule_network_proxy.Prelude.Map.{string_key, nat_key, lookup}
use hyrule_network_proxy.Lease.Allocator.{PortAllocator, IsValid, is_used}
use hyrule_network_proxy.Lease.Model.{Ip, IpNet, Net, Lease, status_active}
use hyrule_network_proxy.Lease.Platform.{Platform, Env}
use hyrule_network_proxy.Lease.Store.{Store}
use hyrule_network_proxy.Lease.Store.Reach.{IsSound}
use hyrule_network_proxy.Lease.Store.Open.Recovery.{RoundTrips}

abbrev pub lease_of : ℕ → ℕ → ℕ → Lease
lease_of port created expires = record {
  lease_id = "a";
  token = "t";
  allocated_port = port;
  allowlist_cidrs = [];
  created_at = pos created;
  expires_at = pos expires;
  status = "active";
}

abbrev encode : List String → ℕ → ℤ → ℤ → Option (List ℕ)
encode [] port (pos c) (pos e) = some (port ∷ c ∷ e ∷ [])
encode (x ∷ xs) port c e = none
encode [] port (negsuc c) e = none
encode [] port (pos c) (negsuc e) = none

abbrev marshal_lease : Lease → Option (List ℕ)
marshal_lease l =
    ite (string_discrete l.lease_id "a")
      (ite (string_discrete l.token "t")
        (ite (string_discrete l.status "active")
          (encode l.allowlist_cidrs l.allocated_port l.created_at l.expires_at) none)
        none)
      none

abbrev unmarshal_lease : List ℕ → Option Lease
unmarshal_lease (port ∷ c ∷ e ∷ []) = some (lease_of port c e)
unmarshal_lease d = none

-- Addresses of the one network that the tests know.
abbrev pub net : Net
net = record {
  parse_cidr = λ c.
      ite (string_discrete c "10.0.0.0/8")
        (some (record { ip = 10 ∷ 0 ∷ 0 ∷ 0 ∷ []; mask = 255 ∷ 0 ∷ 0 ∷ 0 ∷ [] })) none;
  contains = λ n ip. elim ip [ [] ↦ false | x ∷ xs ↦ x == 10 ];
}

abbrev pub pf : Platform
pf = record {
  marshal = marshal_lease;
  unmarshal = unmarshal_lease;
  encode_token = λ d. elim d [ [] ↦ "t" | x ∷ xs ↦ "u" ];
  net = net;
}

-- The port 10002 is busy.
abbrev pub env : Env
env = record { listen = λ p. not (p == 10002); random = some []; now = pos 1000; commits = true }

abbrev pub one : Store
one = record {
  db = record { bucket = some (("a", 10001 ∷ 1000 ∷ 1500 ∷ []) ∷ []) };
  by_id = ("a", 0) ∷ [];
  by_token = ("t", 0) ∷ [];
  alloc = record { min = 10000; max = 10002; next = 10002; used = (10001, true) ∷ [] };
  heap = λ _. lease_of 10001 1000 1500;
  next_ref = 1;
}

pub one-IsValid : IsValid one.alloc
unfolding lookup
one-IsValid = record {
  next_low = omega arith;
  next_high = omega arith;
  used_true = λ p b e. ground arith;
  used_low = λ p b e. ground arith;
  used_high = λ p b e. ground arith;
  distinct = (refl, tt);
}

pub one-IsSound : IsSound pf one
unfolding lookup is_used
one-IsSound = record {
  indexed = record {
    fresh = λ id r e. ground arith;
    id_of = λ id r e. ground arith;
    token_of = λ id r e. ground arith;
    token_at = λ t r e. ground arith;
    owner = λ t r e. ground arith;
    ids_distinct = (refl, tt);
    tokens_distinct = (refl, tt);
  };
  ports = record {
    allocator = one-IsValid;
    reserved = λ id r e. ground arith;
    leased = λ p e. ("a", 0, ground arith, ground arith);
    unshared = λ i j r q ei ej e. ground arith;
    counted = refl;
  };
  persisted = record {
    rows = ("a", 10001 ∷ 1000 ∷ 1500 ∷ []) ∷ [];
    bucket = refl;
    distinct = (refl, tt);
    row_of = λ id r e. (10001 ∷ 1000 ∷ 1500 ∷ [], ground arith, ground arith);
    no_row = λ id e. ground arith;
    active = λ id r e. ground arith;
  };
}

encoded :
    (l : Lease) (cs : List String) (c e : ℤ) (d : List ℕ)
    → encode cs l.allocated_port c e ≡ some d
    → l.lease_id ≡ "a"
    → l.token ≡ "t"
    → l.status ≡ "active"
    → l.allowlist_cidrs ≡ cs
    → l.created_at ≡ c
    → l.expires_at ≡ e
    → unmarshal_lease d ≡ some l
encoded l [] (pos c) (pos e) d h i t s a b x = ground arith
encoded l (y ∷ ys) c e d h i t s a b x = absurd (ground arith)
encoded l [] (negsuc c) e d h i t s a b x = absurd (ground arith)
encoded l [] (pos c) (negsuc e) d h i t s a b x = absurd (ground arith)

pub pf-RoundTrips : RoundTrips pf
pf-RoundTrips l d h = ground (arith, encoded l l.allowlist_cidrs l.created_at l.expires_at d)
