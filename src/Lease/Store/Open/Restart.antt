-- ===== src/Lease/Store/Open/Restart.antt =====
-- A restart of the daemon: Open of internal/tunnel/lease/store.go on the file of a sound store gives
-- a sound store.
use hyrule_network_proxy.Prelude.{
  none, Option, ◌||◌, if◌then◌else◌, ltb, ℕ, ◌≡◌, ◌≤◌, refl, sym, ap, ◌∙◌, subst, String, true,
  some, arith, ℤ, List, [], ◌∷◌, Option-cases, inl, inr,
}
use hyrule_network_proxy.Prelude.Map.{string_key, nat_key, lookup, IsDistinct}
use hyrule_network_proxy.Lease.Error.{ok}
use hyrule_network_proxy.Lease.Allocator
use hyrule_network_proxy.Lease.Model.{Lease, status_active, expired}
use hyrule_network_proxy.Lease.Platform.{Platform, Bucket, Db}
use hyrule_network_proxy.Lease.Store.{Store, get}
use hyrule_network_proxy.Lease.Store.Reach.{IsSound, empty_store, empty_store-IsSound}
use hyrule_network_proxy.Lease.Store.Refine.{apart}
use hyrule_network_proxy.Lease.Store.Open.{
  Loading, load_row, load_rows, delete_all, new_store, open_store,
}
use hyrule_network_proxy.Lease.Store.Open.Recovery.{
  RoundTrips, row_lease-eq-get, rows-IsKeyed, open_store-get,
}
use hyrule_network_proxy.Lease.Store.Open.Rows.{row_lease, kept, is_kept}
use hyrule_network_proxy.Lease.Store.Durable.{IsPersisted}
use hyrule_network_proxy.Lease.Store.Open.Reopened.{
  IsArchive, IsLoaded, load_row-IsLoaded, delete_all-IsDistinct,
}

load_rows-IsLoaded :
    (pf : Platform) (now : ℤ) (min max : ℕ) (rows rest : Bucket) (ld : Loading)
    → IsArchive pf rows
    → IsDistinct rest
    → IsLoaded pf min max rows rest ld
    → IsLoaded pf min max rows [] (load_rows pf now min max rest ld)
unfolding load_rows
load_rows-IsLoaded pf now min max rows [] ld arch d x = x
load_rows-IsLoaded pf now min max rows ((k, v) ∷ rest) ld arch d x =
    load_rows-IsLoaded pf now min max rows rest (load_row pf now min max k v ld) arch d.1
      (load_row-IsLoaded pf min max rows k v rest ld d.0 x arch now)

new_store-IsLoaded :
    (pf : Platform) (min max : ℕ) (rows : Bucket) (db : Db)
    → min ≤ max
    → IsLoaded pf min max rows rows (record { store = new_store db min max; stale = [] })
unfolding new_store lookup delete_all Allocator.new_port_allocator
new_store-IsLoaded pf min max rows db h =
    let v = empty_store-IsSound pf min max h in
    record {
      min_same = refl;
      max_same = refl;
      indexed = record {
        fresh = v.indexed.fresh;
        id_of = v.indexed.id_of;
        token_of = v.indexed.token_of;
        token_at = v.indexed.token_at;
        owner = v.indexed.owner;
        ids_distinct = tt;
        tokens_distinct = tt;
      };
      ports = record {
        allocator = v.ports.allocator;
        reserved = v.ports.reserved;
        leased = v.ports.leased;
        unshared = v.ports.unshared;
        counted = refl;
      };
      from_row = λ id r e. absurd (ground arith);
      before = λ id r e. absurd (ground arith);
      kept_row = λ id r e. refl;
      lost_row = λ id e gone. gone;
      untouched = λ id w e. (e, e);
    }

-- The bucket of a sound store.
IsSound-IsArchive :
    (pf : Platform) (s : Store) (trips : RoundTrips pf) (v : IsSound pf s)
    → IsArchive pf v.persisted.rows
IsSound-IsArchive pf s trips v = record {
  distinct = v.persisted.distinct;
  row_of = λ id w at. elim (Option-cases (lookup id s.by_id)) [
    | inl e ↦ absurd (ground (arith, v.persisted.no_row id e))
    | inr (r, e) ↦
        let (d, found, made) = v.persisted.row_of id r e in
        (
          s.heap r,
          ground (arith, trips (s.heap r) d made),
          ground arith,
          v.indexed.id_of id r e,
          v.persisted.active id r e,
        )
  ];
  apart = λ i j l m ne ei ej. apart pf s i j l m v (sym (same i) ∙ ei) (sym (same j) ∙ ej) ne;
}
  where
    same : (id : String) → row_lease pf v.persisted.rows id ≡ get s id
    same = row_lease-eq-get pf s trips v.indexed v.persisted

-- The store at the end of Open, with the bucket that the transaction leaves.
loaded-IsSound :
    (pf : Platform) (min max : ℕ) (rows : Bucket) (ld : Loading)
    → IsArchive pf rows
    → IsLoaded pf min max rows [] ld
    → IsSound pf (record ld.store { db = record { bucket = some (delete_all ld.stale rows) } })
unfolding lookup
loaded-IsSound pf min max rows ld arch x = record {
  indexed = record {
    fresh = x.indexed.fresh;
    id_of = x.indexed.id_of;
    token_of = x.indexed.token_of;
    token_at = x.indexed.token_at;
    owner = x.indexed.owner;
    ids_distinct = x.indexed.ids_distinct;
    tokens_distinct = x.indexed.tokens_distinct;
  };
  ports = record {
    allocator = x.ports.allocator;
    reserved = x.ports.reserved;
    leased = x.ports.leased;
    unshared = x.ports.unshared;
    counted = x.ports.counted;
  };
  persisted = record {
    rows = delete_all ld.stale rows;
    bucket = refl;
    distinct = delete_all-IsDistinct ld.stale rows arch.distinct;
    row_of = λ id r e. (archived id r e).1;
    no_row = λ id e. x.lost_row id e refl;
    active = λ id r e. (archived id r e).0;
  };
}
  where
    archived :
        (id : String) (r : ℕ)
        → lookup id ld.store.by_id ≡ some r
        → ((ld.store.heap r).status ≡ status_active)
          × ((d : List ℕ) × (lookup id (delete_all ld.stale rows) ≡ some d)
              × (pf.marshal (ld.store.heap r) ≡ some d))
    archived id r e = elim (Option-cases (lookup id rows)) [
      | inl none_there ↦ absurd (ground (arith, x.from_row id r e))
      | inr (d, at) ↦
          let (l, reads, back, named, active) = arch.row_of id d at in
          let same : l ≡ ld.store.heap r = ground (arith, x.from_row id r e) in
          (
            subst (λ m. m.status ≡ status_active) same active,
            (d, x.kept_row id r e ∙ at, subst (λ m. pf.marshal m ≡ some d) same back),
          )
    ]

-- Of a lease what outlives a restart at the given time with the given range.
abbrev pub outlasting : ℤ → ℕ → ℕ → Option Lease → Option Lease
outlasting now min max none = none
outlasting now min max (some l) =
    if expired l now || ltb l.allocated_port min || ltb max l.allocated_port then none else some l

kept-eq-outlasting :
    (pf : Platform) (now : ℤ) (min max : ℕ) (s : Store) (id : String)
    → IsPersisted pf s
    → kept now min max (get s id) ≡ outlasting now min max (get s id)
unfolding get is_kept
kept-eq-outlasting pf now min max s id v = elim (Option-cases (lookup id s.by_id)) [
  | inl e ↦ ground arith
  | inr (r, e) ↦ ground (arith, v.active id r e)
]

opened-IsSound :
    (pf : Platform) (s : Store) (now : ℤ) (min max : ℕ)
    → min ≤ max
    → RoundTrips pf
    → IsSound pf s
    → (s' : Store) × (open_store pf now true true min max s.db ≡ ok s') × IsSound pf s'
unfolding open_store
opened-IsSound pf s now min max range trips v =
    let rows = v.persisted.rows in
    let db : Db = record { bucket = some rows } in
    let arch = IsSound-IsArchive pf s trips v in
    let start : Loading = record { store = new_store db min max; stale = [] } in
    let ld = load_rows pf now min max rows start in
    (
      record ld.store { db = record { bucket = some (delete_all ld.stale rows) } },
      ap (λ b. open_store pf now true true min max (record { bucket = b })) v.persisted.bucket,
      loaded-IsSound pf min max rows ld arch (
          load_rows-IsLoaded pf now min max rows rows start arch v.persisted.distinct
            (new_store-IsLoaded pf min max rows db range)),
    )

opened_leases :
    (pf : Platform) (s : Store) (now : ℤ) (min max : ℕ)
    → RoundTrips pf
    → IsSound pf s
    → (s' : Store) × (open_store pf now true true min max s.db ≡ ok s')
      × ((id : String) → get s' id ≡ outlasting now min max (get s id))
opened_leases pf s now min max trips v =
    let (s', opened, gets) =
      open_store-get pf now min max v.persisted.rows v.persisted.distinct
        (rows-IsKeyed pf s trips v.indexed v.persisted) in
    (
      s',
      ap (λ b. open_store pf now true true min max (record { bucket = b })) v.persisted.bucket
          ∙ opened,
      λ id.
          gets id
          ∙ ap (kept now min max) (row_lease-eq-get pf s trips v.indexed v.persisted id)
          ∙ kept-eq-outlasting pf now min max s id v.persisted,
    )

-- Open of a new file.
pub open_store_new :
    (pf : Platform) (now : ℤ) (min max : ℕ)
    → open_store pf now true true min max (record { bucket = none }) ≡ ok (empty_store min max)
unfolding open_store delete_all
open_store_new pf now min max = refl

-- A restart of a sound store, whose codec reads back what it wrote. With any range of ports, a file
-- that opens and a transaction that commits, it succeeds, the new store is sound again, so that its
-- indexes, its ports and its bucket agree, and it has for each identifier the lease that the old
-- one had, unless that has run out or its port lies outside the range.
pub open_store_restarts :
    (pf : Platform) (s : Store) (now : ℤ) (min max : ℕ)
    → min ≤ max
    → RoundTrips pf
    → IsSound pf s
    → (s' : Store) × (open_store pf now true true min max s.db ≡ ok s')
      × IsSound pf s'
      × ((id : String) → get s' id ≡ outlasting now min max (get s id))
open_store_restarts pf s now min max range trips v =
    let (s', opened, w) = opened-IsSound pf s now min max range trips v in
    let (t, again, gets) = opened_leases pf s now min max trips v in
    let same : t ≡ s' = ground arith in
    (s', opened, w, λ id. ap (λ u. get u id) (sym same) ∙ gets id)
