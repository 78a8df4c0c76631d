-- ===== src/Lease/Store/Open/Reopened.antt =====
-- The store that Open of internal/tunnel/lease/store.go builds from the bucket of a sound store has
-- the invariants of the other methods again, so that a restart goes on as before.
use hyrule_network_proxy.Prelude.{
  write, ℕ, ◌≡◌, ◌≢◌, ◌≤◌, refl, sym, ap, ◌∙◌, subst, String, true, false, not, ◌||◌, ◌++◌, ite,
  none, some, arith, ℤ, List, [], ◌∷◌, Option-cases, Bool-cases, inl, inr, string_discrete, ltb,
  length,
}
use hyrule_network_proxy.Prelude.Map.{
  string_key, nat_key, lookup, lookup-put, lookup-delete, length-put_new, IsDistinct, delete,
  delete-IsDistinct, put,
}
use hyrule_network_proxy.Lease.Allocator.{PortAllocator, IsValid, is_used, reserve, reserve-IsValid}
use hyrule_network_proxy.Lease.Allocator.Effects.{Granted, absent_of_unused}
use hyrule_network_proxy.Lease.Model.{Lease, expired, status_active}
use hyrule_network_proxy.Lease.Platform.{Platform, Bucket}
use hyrule_network_proxy.Lease.Store.{finish_create}
use hyrule_network_proxy.Lease.Store.Indexed.{IsIndexed, insert_IsIndexed}
use hyrule_network_proxy.Lease.Store.Ports.{HasPorts, insert-HasPorts}
use hyrule_network_proxy.Lease.Store.Open.{
  Loading, is_active, rehydrate, load_lease, load_row, delete_all, mark_stale,
}
use hyrule_network_proxy.Lease.Store.Open.Rows.{row_lease}
use hyrule_network_proxy.Lease.Store.Refine.{IsApart}

-- A port of the range that no lease has.
reserve-Granted :
    (a : PortAllocator) (port : ℕ)
    → IsValid a
    → is_used a port ≡ false
    → a.min ≤ port
    → port ≤ a.max
    → Granted (λ p. true) a (reserve a port) port
unfolding reserve is_used
reserve-Granted a port v free low high =
    let marked : reserve a port ≡ record a { used = put port true a.used } = ground arith in
    record {
      min_same = ground arith;
      max_same = ground arith;
      valid = reserve-IsValid a port v;
      low = low;
      high = high;
      was_free = free;
      listens = refl;
      used_now = λ q. rw marked (ground (arith, lookup-put port q true a.used));
      count_now =
          ap (λ b. length b.used) marked
          ∙ length-put_new port true a.used (absent_of_unused a port v free);
    }

lookup-delete_all_snoc :
    (ks : List String) (k id : String) (b : Bucket)
    → lookup id (delete_all (ks ++ k ∷ []) b)
      ≡ ite (string_discrete k id) none (lookup id (delete_all ks b))
unfolding delete_all
lookup-delete_all_snoc [] k id b = lookup-delete k id b
lookup-delete_all_snoc (j ∷ ks) k id b = lookup-delete_all_snoc ks k id (delete j b)

pub delete_all-IsDistinct :
    (ks : List String) (b : Bucket) → IsDistinct b → IsDistinct (delete_all ks b)
unfolding delete_all
delete_all-IsDistinct [] b d = d
delete_all-IsDistinct (k ∷ ks) b d = delete_all-IsDistinct ks (delete k b) (delete-IsDistinct k b d)

-- A bucket as the methods of a sound store leave it.
pub record IsArchive (pf : Platform) (rows : Bucket) : Type 0 where
  pub distinct : IsDistinct rows
  pub row_of :
      (id : String) (v : List ℕ)
      → lookup id rows ≡ some v
      → (l : Lease) × (pf.unmarshal v ≡ some l)
        × (pf.marshal l ≡ some v)
        × (l.lease_id ≡ id)
        × (l.status ≡ status_active)
  pub apart :
      (i j : String) (l m : Lease)
      → i ≢ j
      → row_lease pf rows i ≡ some l
      → row_lease pf rows j ≡ some m
      → IsApart l m

-- What the loop has made of the rows before the rest.
pub record IsLoaded (pf : Platform) (min max : ℕ) (rows rest : Bucket) (ld : Loading) : Type 0 where
  pub min_same : ld.store.alloc.min ≡ min
  pub max_same : ld.store.alloc.max ≡ max
  pub indexed : IsIndexed ld.store
  pub ports : HasPorts ld.store
  pub from_row :
      (id : String) (r : ℕ)
      → lookup id ld.store.by_id ≡ some r
      → row_lease pf rows id ≡ some (ld.store.heap r)
  pub before : (id : String) (r : ℕ) → lookup id ld.store.by_id ≡ some r → lookup id rest ≡ none
  pub kept_row :
      (id : String) (r : ℕ)
      → lookup id ld.store.by_id ≡ some r
      → lookup id (delete_all ld.stale rows) ≡ lookup id rows
  pub lost_row :
      (id : String)
      → lookup id ld.store.by_id ≡ none
      → lookup id rest ≡ none
      → lookup id (delete_all ld.stale rows) ≡ none
  pub untouched :
      (id : String) (v : List ℕ)
      → lookup id rest ≡ some v
      → (lookup id rows ≡ some v) × (lookup id (delete_all ld.stale rows) ≡ some v)

module _ (pf : Platform) (min max : ℕ) (rows : Bucket) (k : String) (v : List ℕ) (rest : Bucket)
    (ld : Loading) (new : lookup k rest ≡ none)
    (x : IsLoaded pf min max rows ((k, v) ∷ rest) ld) where
  absent : lookup k ld.store.by_id ≡ none
  unfolding lookup
  absent = elim (Option-cases (lookup k ld.store.by_id)) [
    | inl e ↦ e
    | inr (r, e) ↦ absurd (ground (arith, x.before k r e))
  ]

  mark_stale-IsLoaded : IsLoaded pf min max rows rest (mark_stale k ld)
  unfolding lookup
  mark_stale-IsLoaded = record {
    min_same = x.min_same;
    max_same = x.max_same;
    indexed = x.indexed;
    ports = x.ports;
    from_row = x.from_row;
    before = λ id r e. ground (arith, x.before id r e);
    kept_row = λ id r e.
        ground (arith, absent, lookup-delete_all_snoc ld.stale k id rows, x.kept_row id r e);
    lost_row = λ id e h. ground (arith, lookup-delete_all_snoc ld.stale k id rows, x.lost_row id e);
    untouched =
        λ id w h. ground (arith, lookup-delete_all_snoc ld.stale k id rows, x.untouched id w);
  }

  module _ (arch : IsArchive pf rows) (l : Lease) (made : pf.unmarshal v ≡ some l) where
    mine : row_lease pf rows k ≡ some l
    unfolding lookup
    mine = let (found, still) = x.untouched k v (ground arith) in ground arith

    named : l.lease_id ≡ k
    unfolding lookup
    named =
        let (found, still) = x.untouched k v (ground arith) in
        let (m, e, back, id, active) = arch.row_of k v found in ground arith

    others-IsApart :
        (id : String) (r : ℕ) → lookup id ld.store.by_id ≡ some r → IsApart l (ld.store.heap r)
    others-IsApart id r e =
        arch.apart k id l (ld.store.heap r)
          (λ same.
            ground (arith, absent, subst (λ i. lookup i ld.store.by_id ≡ some r) (sym same) e))
          mine (x.from_row id r e)

    token_free : lookup l.token ld.store.by_token ≡ none
    token_free = elim (Option-cases (lookup l.token ld.store.by_token)) [
      | inl e ↦ e
      | inr (r, e) ↦ absurd (
          (others-IsApart (ld.store.heap r).lease_id r (x.indexed.owner l.token r e)).1
            (sym (x.indexed.token_at l.token r e)))
    ]

    port_free : is_used ld.store.alloc l.allocated_port ≡ false
    port_free = elim (Bool-cases (is_used ld.store.alloc l.allocated_port)) [
      | inr e ↦ e
      | inl e ↦
          let (id, r, at, port) = x.ports.leased l.allocated_port e in
          absurd ((others-IsApart id r at).0 (sym port))
    ]

    rehydrate-IsLoaded :
        min ≤ l.allocated_port
        → l.allocated_port ≤ max
        → IsLoaded pf min max rows rest (record ld { store = rehydrate l ld.store })
    unfolding lookup rehydrate finish_create write
    rehydrate-IsLoaded low high =
        let a = reserve ld.store.alloc l.allocated_port in
        let unknown : lookup l.lease_id ld.store.by_id ≡ none = rw named absent in
        let given =
          reserve-Granted ld.store.alloc l.allocated_port x.ports.allocator port_free
            (rw x.min_same low) (rw x.max_same high) in
        record {
          min_same = given.min_same ∙ x.min_same;
          max_same = given.max_same ∙ x.max_same;
          indexed = insert_IsIndexed ld.store a l ld.store.db unknown token_free x.indexed;
          ports =
              insert-HasPorts (λ p. true) ld.store a l ld.store.db given unknown x.indexed x.ports;
          from_row = λ id r e. ground (
            arith,
            named,
            mine,
            lookup-put l.lease_id id ld.store.next_ref ld.store.by_id,
            x.from_row id r,
            x.indexed.fresh id r,
          );
          before = λ id r e. ground (
            arith,
            named,
            lookup-put l.lease_id id ld.store.next_ref ld.store.by_id,
            x.before id r,
          );
          kept_row = λ id r e. ground (
            arith,
            named,
            lookup-put l.lease_id id ld.store.next_ref ld.store.by_id,
            x.kept_row id r,
            x.untouched k v,
          );
          lost_row = λ id e h. ground (
            arith,
            named,
            lookup-put l.lease_id id ld.store.next_ref ld.store.by_id,
            x.lost_row id,
          );
          untouched = λ id w h. ground (arith, x.untouched id w);
        }

    load_lease-IsLoaded : (now : ℤ) → IsLoaded pf min max rows rest (load_lease now min max k l ld)
    unfolding load_lease
    load_lease-IsLoaded now = elim (Bool-cases (not (is_active l) || expired l now)) [
      | inl e ↦ rw (e, load_lease) mark_stale-IsLoaded
      | inr e ↦ elim (Bool-cases (ltb l.allocated_port min || ltb max l.allocated_port)) [
        | inl o ↦ rw (e, o, load_lease) mark_stale-IsLoaded
        | inr o ↦ rw (e, o, load_lease) (rehydrate-IsLoaded (ground arith) (ground arith))
      ]
    ]

  pub load_row-IsLoaded :
      IsArchive pf rows → (now : ℤ) → IsLoaded pf min max rows rest (load_row pf now min max k v ld)
  unfolding load_row
  load_row-IsLoaded arch now = elim (Option-cases (pf.unmarshal v)) [
    | inl e ↦ rw (e, load_row) mark_stale-IsLoaded
    | inr (l, e) ↦ rw (e, load_row) (load_lease-IsLoaded arch l e now)
  ]
