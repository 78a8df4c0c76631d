-- ===== src/Lease/Store/Reach.antt =====
-- The life of a store of internal/tunnel/lease/store.go: any sequence of its methods, each of which
-- may fail at any of its steps.
use hyrule_network_proxy.Prelude.{ℕ, ◌≤◌, refl, String, Bool, some, [], arith, ℤ}
use hyrule_network_proxy.Prelude.Map.{string_key, lookup}
use hyrule_network_proxy.Lease.Allocator
use hyrule_network_proxy.Lease.Allocator.{is_used}
use hyrule_network_proxy.Lease.Platform.{Platform, Env}
use hyrule_network_proxy.Lease.Store.{
  Store, CreateParams, create, extend, remove, mark_expired_if_before,
}
use hyrule_network_proxy.Lease.Store.Cases.{mark_cases}
use hyrule_network_proxy.Lease.Store.Indexed.{
  IsIndexed, IsFreshToken, create-IsIndexed, extend-IsIndexed, remove-IsIndexed,
}
use hyrule_network_proxy.Lease.Store.Ports.{
  HasPorts, create-HasPorts, extend-HasPorts, remove-HasPorts,
}
use hyrule_network_proxy.Lease.Store.Durable.{
  IsPersisted, create-IsPersisted, extend-IsPersisted, remove-IsPersisted,
}
use hyrule_network_proxy.Lease.Store.Open.{new_store}

pub data Step (pf : Platform) : Store → Store → Type 0 where
  creates :
      (env : Env) (p : CreateParams) (s : Store)
      → IsFreshToken pf env s
      → Step pf s (create pf env p s).1
  extends :
      (commits : Bool) (id : String) (d : ℤ) (s : Store) → Step pf s (extend pf commits id d s).1
  removes : (commits : Bool) (id : String) (s : Store) → Step pf s (remove commits id s).1
  marks :
      (commits : Bool) (id : String) (cutoff : ℤ) (s : Store)
      → Step pf s (mark_expired_if_before commits id cutoff s).1

pub data Reach (pf : Platform) (s : Store) : Store → Type 0 where
  here : Reach pf s s
  next : {t u : Store} → Reach pf s t → Step pf t u → Reach pf s u

pub record IsSound (pf : Platform) (s : Store) : Type 0 where
  pub indexed : IsIndexed s
  pub ports : HasPorts s
  pub persisted : IsPersisted pf s

remove-IsSound :
    (pf : Platform) (commits : Bool) (id : String) (s : Store)
    → IsSound pf s
    → IsSound pf (remove commits id s).1
remove-IsSound pf commits id s v = record {
  indexed = remove-IsIndexed commits id s v.indexed;
  ports = remove-HasPorts commits id s v.indexed v.ports;
  persisted = remove-IsPersisted pf commits id s v.persisted;
}

pub Step-IsSound : (pf : Platform) {s t : Store} → Step pf s t → IsSound pf s → IsSound pf t
Step-IsSound pf (creates env p s fresh) v = record {
  indexed = create-IsIndexed pf env p s fresh v.indexed;
  ports = create-HasPorts pf env p s v.indexed v.ports;
  persisted = create-IsPersisted pf env p s v.indexed v.persisted;
}
Step-IsSound pf (extends commits id d s) v = record {
  indexed = extend-IsIndexed pf commits id d s v.indexed;
  ports = extend-HasPorts pf commits id d s v.ports;
  persisted = extend-IsPersisted pf commits id d s v.indexed v.persisted;
}
Step-IsSound pf (removes commits id s) v = remove-IsSound pf commits id s v
Step-IsSound pf (marks commits id cutoff s) v =
    mark_cases commits id s cutoff (IsSound pf) v (remove-IsSound pf commits id s v)

-- From a store with the invariants, whatever methods run, in whatever order and whichever of their
-- steps fail, as long as no new token is in use: the indexes agree, the reserved ports are just
-- those of the live leases, no two of which share one, and the bucket holds just the rows of the
-- live leases.
pub Reach-IsSound : (pf : Platform) {s t : Store} → IsSound pf s → Reach pf s t → IsSound pf t
Reach-IsSound pf v here = v
Reach-IsSound pf v (next r st) = Step-IsSound pf st (Reach-IsSound pf v r)

-- The store that Open makes of a new file.
abbrev pub empty_store : ℕ → ℕ → Store
empty_store min max = new_store (record { bucket = some [] }) min max

pub empty_store-IsSound :
    (pf : Platform) (min max : ℕ) → min ≤ max → IsSound pf (empty_store min max)
unfolding new_store lookup is_used Allocator.new_port_allocator
empty_store-IsSound pf min max h = record {
  indexed = record {
    fresh = λ id r e. ground arith;
    id_of = λ id r e. ground arith;
    token_of = λ id r e. ground arith;
    token_at = λ id r e. ground arith;
    owner = λ id r e. ground arith;
    ids_distinct = tt;
    tokens_distinct = tt;
  };
  ports = record {
    allocator = Allocator.new_port_allocator-IsValid min max h;
    reserved = λ id r e. ground arith;
    leased = λ p e. absurd (ground arith);
    unshared = λ i j r q ei. ground arith;
    counted = refl;
  };
  persisted = record {
    rows = [];
    bucket = refl;
    distinct = tt;
    row_of = λ id r e. absurd (ground arith);
    no_row = λ id e. refl;
    active = λ id r e. ground arith;
  };
}
