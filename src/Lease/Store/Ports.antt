-- ===== src/Lease/Store/Ports.antt =====
-- The ports of the store of internal/tunnel/lease/store.go: the allocator has reserved just those
-- of the live leases, and no two leases share one.
use hyrule_network_proxy.Prelude.{
  write, ℕ, ◌+◌, ◌≡◌, String, Bool, true, none, some, arith, ℤ, length, pos, sym, ◌∙◌, ℕ_discrete,
}
use hyrule_network_proxy.Prelude.Map.{
  string_key, lookup, put, delete, lookup-put, lookup-delete, length-put_new, length-delete,
}
use hyrule_network_proxy.Lease.Error.{ok}
use hyrule_network_proxy.Lease.Allocator
use hyrule_network_proxy.Lease.Allocator.{PortAllocator, is_used}
use hyrule_network_proxy.Lease.Allocator.Effects.{
  SameUse, Granted, refused-SameUse, undone-SameUse, allocate-Granted, is_used-release,
  length-release,
}
use hyrule_network_proxy.Lease.Allocator.Counting.{free-IsRest}
use hyrule_network_proxy.Lease.Model.{Lease}
use hyrule_network_proxy.Lease.Platform.{Platform, Env, Db}
use hyrule_network_proxy.Lease.Store.{
  Store, CreateParams, new_lease, finish_create, create, extend, finish_remove, remove, stats,
}
use hyrule_network_proxy.Lease.Store.Cases.{create_cases, extend_cases, remove_cases}
use hyrule_network_proxy.Lease.Store.Indexed.{IsIndexed}

pub record HasPorts (s : Store) : Type 0 where
  pub allocator : Allocator.IsValid s.alloc
  pub reserved :
      (id : String) (r : ℕ)
      → lookup id s.by_id ≡ some r
      → is_used s.alloc (s.heap r).allocated_port ≡ true
  pub leased :
      (p : ℕ)
      → is_used s.alloc p ≡ true
      → (id : String) × (r : ℕ) × (lookup id s.by_id ≡ some r) × ((s.heap r).allocated_port ≡ p)
  pub unshared :
      (i j : String) (r q : ℕ)
      → lookup i s.by_id ≡ some r
      → lookup j s.by_id ≡ some q
      → (s.heap r).allocated_port ≡ (s.heap q).allocated_port
      → i ≡ j
  pub counted : length s.by_id ≡ length s.alloc.used

SameUse-HasPorts :
    (s : Store) (a : PortAllocator)
    → SameUse s.alloc a
    → HasPorts s
    → HasPorts (record s { alloc = a })
SameUse-HasPorts s a u v = record {
  allocator = u.valid;
  reserved = λ id r e. u.used_same (s.heap r).allocated_port ∙ v.reserved id r e;
  leased = λ p h. v.leased p (sym (u.used_same p) ∙ h);
  unshared = v.unshared;
  counted = v.counted ∙ sym u.count_same;
}

insert_leased :
    (listen : ℕ → Bool) (s : Store) (a : PortAllocator) (l : Lease)
    → Granted listen s.alloc a l.allocated_port
    → lookup l.lease_id s.by_id ≡ none
    → IsIndexed s
    → HasPorts s
    → (p : ℕ) → is_used a p ≡ true
    → Dec (l.allocated_port ≡ p)
    → (id : String) × (r : ℕ) × (lookup id (put l.lease_id s.next_ref s.by_id) ≡ some r)
      × ((write s.heap s.next_ref l r).allocated_port ≡ p)
unfolding write
insert_leased listen s a l g absent x v p h (yes e) = (
  l.lease_id,
  s.next_ref,
  ground (arith, lookup-put l.lease_id l.lease_id s.next_ref s.by_id),
  ground arith,
)
insert_leased listen s a l g absent x v p h (no ne) =
    let (id, r, at, port) = v.leased p (ground (arith, g.used_now p)) in
    (
      id,
      r,
      ground (arith, lookup-put l.lease_id id s.next_ref s.by_id),
      ground (arith, x.fresh id r at),
    )

-- A new lease on a port that the allocator has just given out.
pub insert-HasPorts :
    (listen : ℕ → Bool) (s : Store) (a : PortAllocator) (l : Lease) (db : Db)
    → Granted listen s.alloc a l.allocated_port
    → lookup l.lease_id s.by_id ≡ none
    → IsIndexed s
    → HasPorts s
    → HasPorts (finish_create s a l (ok db)).1
unfolding finish_create write
insert-HasPorts listen s a l db g absent x v = record {
  allocator = g.valid;
  reserved = λ id r e. ground (
    arith,
    lookup-put l.lease_id id s.next_ref s.by_id,
    x.fresh id r,
    v.reserved id r,
    g.used_now l.allocated_port,
    g.used_now (s.heap r).allocated_port,
  );
  leased = λ p h. insert_leased listen s a l g absent x v p h (ℕ_discrete l.allocated_port p);
  unshared = λ i j r q ei ej e. ground (
    arith,
    lookup-put l.lease_id i s.next_ref s.by_id,
    lookup-put l.lease_id j s.next_ref s.by_id,
    x.fresh i r,
    x.fresh j q,
    v.reserved i r,
    v.reserved j q,
    g.was_free,
    v.unshared i j r q,
  );
  counted =
      omega (arith, length-put_new l.lease_id s.next_ref s.by_id absent, g.count_now, v.counted);
}

remove_leased :
    (s : Store) (id : String) (ref : ℕ)
    → lookup id s.by_id ≡ some ref
    → HasPorts s
    → (p : ℕ) → is_used (Allocator.release s.alloc (s.heap ref).allocated_port) p ≡ true
    → (i : String) × (r : ℕ) × (lookup i (delete id s.by_id) ≡ some r)
      × ((s.heap r).allocated_port ≡ p)
remove_leased s id ref at v p h =
    let (i, r, found, port) =
      v.leased p (ground (arith, is_used-release s.alloc (s.heap ref).allocated_port p)) in
    (
      i,
      r,
      ground (
        arith,
        lookup-delete id i s.by_id,
        is_used-release s.alloc (s.heap ref).allocated_port p,
      ),
      port,
    )

remove-HasPorts_done :
    (s : Store) (id : String) (ref : ℕ) (db : Db)
    → lookup id s.by_id ≡ some ref
    → IsIndexed s
    → HasPorts s
    → HasPorts (finish_remove s id (s.heap ref) (ok db)).1
unfolding finish_remove
remove-HasPorts_done s id ref db at x v = record {
  allocator = Allocator.release-IsValid s.alloc (s.heap ref).allocated_port v.allocator;
  reserved = λ i r e. ground (
    arith,
    lookup-delete id i s.by_id,
    v.reserved i r,
    v.unshared id i ref r,
    is_used-release s.alloc (s.heap ref).allocated_port (s.heap r).allocated_port,
  );
  leased = remove_leased s id ref at v;
  unshared = λ i j r q ei ej e.
      ground (arith, lookup-delete id i s.by_id, lookup-delete id j s.by_id, v.unshared i j r q);
  counted = omega (
    arith,
    length-delete id ref s.by_id x.ids_distinct at,
    length-release s.alloc (s.heap ref).allocated_port v.allocator (v.reserved id ref at),
    v.counted,
  );
}

-- Create keeps the invariant of the ports, whether it returns an old lease, adds one, or fails at
-- any of its steps.
pub create-HasPorts :
    (pf : Platform) (env : Env) (p : CreateParams) (s : Store)
    → IsIndexed s
    → HasPorts s
    → HasPorts (create pf env p s).1
unfolding new_lease
create-HasPorts pf env p s x v =
    create_cases pf env p s (λ r. HasPorts r.1) (λ _ _. v) (λ _ _. v)
      (λ e a h. SameUse-HasPorts s a (refused-SameUse env.listen s.alloc a v.allocator e h) v)
      (λ port a e h.
        SameUse-HasPorts s (Allocator.release a port)
          (undone-SameUse env.listen s.alloc a port v.allocator h) v)
      (λ absent valid port a token db h _ _.
        insert-HasPorts env.listen s a (new_lease p token port env.now) db
          (allocate-Granted env.listen s.alloc a v.allocator port h) absent x v)

pub extend-HasPorts :
    (pf : Platform) (commits : Bool) (id : String) (d : ℤ) (s : Store)
    → HasPorts s
    → HasPorts (extend pf commits id d s).1
unfolding write
extend-HasPorts pf commits id d s v =
    extend_cases pf commits id d s (λ r. HasPorts r.1) (λ _. v) (λ _ _ _. v)
      (λ ref db at _. record {
        allocator = v.allocator;
        reserved = λ i r e. ground (arith, v.reserved i r);
        leased = λ p h. let (i, r, found, port) = v.leased p h in (i, r, found, ground arith);
        unshared = λ i j r q ei ej e. ground (arith, v.unshared i j r q);
        counted = v.counted;
      })

pub remove-HasPorts :
    (commits : Bool) (id : String) (s : Store)
    → IsIndexed s
    → HasPorts s
    → HasPorts (remove commits id s).1
remove-HasPorts commits id s x v =
    remove_cases commits id s (λ r. HasPorts r.1) (λ _. v) (λ _ _ _. v)
      (λ ref db at _. remove-HasPorts_done s id ref db at x v)

-- With the invariant of the ports, the two numbers of Stats make up the range of the ports: each
-- port is free or has one lease.
pub stats_total :
    (s : Store)
    → HasPorts s
    → (n : ℕ) × ((stats s).1 ≡ pos n) × ((stats s).0 + n ≡ Allocator.span s.alloc)
unfolding stats
stats_total s v =
    let (n, e, total) = free-IsRest s.alloc v.allocator in (n, e, omega (arith, v.counted))
