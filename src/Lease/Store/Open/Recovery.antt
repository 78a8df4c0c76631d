-- ===== src/Lease/Store/Open/Recovery.antt =====
-- A restart of the daemon: Open of internal/tunnel/lease/store.go on the bucket that the other
-- methods have left.
use hyrule_network_proxy.Prelude.{
  ℕ, ◌≡◌, refl, ap, ◌∙◌, String, true, Option, none, some, arith, ℤ, List, [], ◌∷◌, Option-cases,
  inl, inr, if◌then◌else◌,
}
use hyrule_network_proxy.Prelude.Map.{string_key, lookup, IsDistinct}
use hyrule_network_proxy.Lease.Error.{ok}
use hyrule_network_proxy.Lease.Allocator.Effects.{present_of_used}
use hyrule_network_proxy.Lease.Model.{Lease, expired}
use hyrule_network_proxy.Lease.Platform.{Platform, Bucket}
use hyrule_network_proxy.Lease.Store.{Store, get}
use hyrule_network_proxy.Lease.Store.Indexed.{IsIndexed}
use hyrule_network_proxy.Lease.Store.Ports.{HasPorts}
use hyrule_network_proxy.Lease.Store.Durable.{IsPersisted}
use hyrule_network_proxy.Lease.Store.Open.{new_store, open_store}
use hyrule_network_proxy.Lease.Store.Open.Rows.{
  is_kept, kept, or_else, row_lease, IsKeyed, load_rows-get,
}

-- encoding/json reads back what it wrote.
abbrev pub RoundTrips : Platform → Type 0
RoundTrips pf = (l : Lease) (d : List ℕ) → pf.marshal l ≡ some d → pf.unmarshal d ≡ some l

lookup-IsKeyed :
    (pf : Platform) (rows : Bucket)
    → IsDistinct rows
    → ((k : String) (v : List ℕ)
        → lookup k rows ≡ some v
        → (l : Lease) → pf.unmarshal v ≡ some l
        → l.lease_id ≡ k)
    → IsKeyed pf rows
unfolding lookup
lookup-IsKeyed pf [] d h = tt
lookup-IsKeyed pf ((k, v) ∷ rows) d h =
    (h k v (ground arith), lookup-IsKeyed pf rows d.1 (λ j w e l. h j w (ground arith) l))

module _ (pf : Platform) (s : Store) (trips : RoundTrips pf) (x : IsIndexed s)
    (v : IsPersisted pf s) where
  -- The row of an identifier is its lease.
  pub row_lease-eq-get : (id : String) → row_lease pf v.rows id ≡ get s id
  unfolding get
  row_lease-eq-get id = elim (Option-cases (lookup id s.by_id)) [
    | inl e ↦ ground (arith, v.no_row id e)
    | inr (r, e) ↦ let (d, found, made) = v.row_of id r e in ground (arith, trips (s.heap r) d made)
  ]

  pub rows-IsKeyed : IsKeyed pf v.rows
  rows-IsKeyed = lookup-IsKeyed pf v.rows v.distinct λ k d found l e.
      elim (Option-cases (lookup k s.by_id)) [
        | inl absent ↦ ground (arith, v.no_row k absent)
        | inr (r, at) ↦
            let (y, row, made) = v.row_of k r at in
            ground (arith, trips (s.heap r) y made, x.id_of k r at)
      ]

-- Of a lease what outlives a restart at the given time.
abbrev unexpired : ℤ → Option Lease → Option Lease
unexpired now none = none
unexpired now (some l) = if expired l now then none else some l

or_else-none : (o : Option Lease) → or_else o none ≡ o
or_else-none none = refl
or_else-none (some l) = refl

pub open_store-get :
    (pf : Platform) (now : ℤ) (min max : ℕ) (rows : Bucket)
    → IsDistinct rows
    → IsKeyed pf rows
    → (s : Store) × (open_store pf now true true min max (record { bucket = some rows }) ≡ ok s)
      × ((id : String) → get s id ≡ kept now min max (row_lease pf rows id))
unfolding open_store get new_store lookup
open_store-get pf now min max rows d k = (
  _,
  refl,
  λ id.
      load_rows-get pf now min max rows
        (record { store = new_store (record { bucket = some rows }) min max; stale = [] }) id d k
        (λ i r e. ground arith)
      ∙ or_else-none (kept now min max (row_lease pf rows id)),
)

-- Which rows a restart keeps: in a store with the invariants only expiry counts, as the ports lie
-- in the range and the leases are active.
kept-eq-unexpired :
    (pf : Platform) (now : ℤ) (s : Store) (id : String)
    → HasPorts s
    → IsPersisted pf s
    → kept now s.alloc.min s.alloc.max (get s id) ≡ unexpired now (get s id)
unfolding get is_kept
kept-eq-unexpired pf now s id p v = elim (Option-cases (lookup id s.by_id)) [
  | inl e ↦ ground arith
  | inr (r, e) ↦
      let used = present_of_used s.alloc (s.heap r).allocated_port (p.reserved id r e) in
      ground (
        arith,
        v.active id r e,
        p.allocator.used_low (s.heap r).allocated_port true used,
        p.allocator.used_high (s.heap r).allocated_port true used,
      )
]

-- A restart of a store with the invariants of the indexes, the ports and the bucket, whose codec
-- reads back what it wrote. With the same range, a file that opens and a transaction that commits,
-- it succeeds, and the new store has for each identifier the lease that the old one had, unless
-- that has run out.
open_store_recovers :
    (pf : Platform) (s : Store) (now : ℤ)
    → RoundTrips pf
    → IsIndexed s
    → HasPorts s
    → IsPersisted pf s
    → (s' : Store) × (open_store pf now true true s.alloc.min s.alloc.max s.db ≡ ok s')
      × ((id : String) → get s' id ≡ unexpired now (get s id))
open_store_recovers pf s now trips x p v =
    let (s', opened, gets) =
      open_store-get pf now s.alloc.min s.alloc.max v.rows v.distinct
        (rows-IsKeyed pf s trips x v) in
    (
      s',
      ap (λ b. open_store pf now true true s.alloc.min s.alloc.max (record { bucket = b })) v.bucket
          ∙ opened,
      λ id.
          gets id
          ∙ ap (kept now s.alloc.min s.alloc.max) (row_lease-eq-get pf s trips x v id)
          ∙ kept-eq-unexpired pf now s id p v,
    )
