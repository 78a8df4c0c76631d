-- ===== src/Lease/Store/Open/Rows.antt =====
-- What Open of internal/tunnel/lease/store.go recovers from a bucket, and that the store it builds
-- keeps the invariants of the other methods.
use hyrule_network_proxy.Prelude.{
  write, ℕ, ◌≡◌, ◌<◌, refl, String, Bool, false, not, ◌||◌, ite, Option, none, some, arith, ℤ, List,
  [], ◌∷◌, Option-cases, inl, inr, string_discrete, ltb, if◌then◌else◌,
}
use hyrule_network_proxy.Prelude.Map.{string_key, lookup, lookup-put, IsDistinct}
use hyrule_network_proxy.Lease.Model.{Lease, expired}
use hyrule_network_proxy.Lease.Platform.{Platform, Bucket}
use hyrule_network_proxy.Lease.Store.{Store, get}
use hyrule_network_proxy.Lease.Store.Open.{
  Loading, is_active, rehydrate, load_lease, load_row, load_rows,
}

-- A row is kept if it is active, has not run out, and its port lies in the range.
unfoldable pub is_kept : ℤ → ℕ → ℕ → Lease → Bool
is_kept now min max l =
    if not (is_active l) || expired l now
    then false
    else not (ltb l.allocated_port min || ltb max l.allocated_port)

abbrev pub kept : ℤ → ℕ → ℕ → Option Lease → Option Lease
kept now min max none = none
kept now min max (some l) = if is_kept now min max l then some l else none

-- What a bucket says about an identifier.
abbrev pub row_lease : Platform → Bucket → String → Option Lease
row_lease pf rows id = elim (lookup id rows) [ none ↦ none | some v ↦ pf.unmarshal v ]

-- Each row that unmarshals does so to a lease of its own key.
abbrev pub IsKeyed : Platform → Bucket → Type 0
IsKeyed pf [] = Unit
IsKeyed pf ((k, v) ∷ rows) =
    ((l : Lease) → pf.unmarshal v ≡ some l → l.lease_id ≡ k) × IsKeyed pf rows

abbrev IsFresh : Store → Type 0
IsFresh s = (id : String) (r : ℕ) → lookup id s.by_id ≡ some r → r < s.next_ref

get-rehydrate :
    (l : Lease) (s : Store) (id : String)
    → IsFresh s
    → get (rehydrate l s) id ≡ ite (string_discrete l.lease_id id) (some l) (get s id)
unfolding get rehydrate write
get-rehydrate l s id fresh = elim (Option-cases (lookup id s.by_id)) [
  | inl e ↦ ground (arith, lookup-put l.lease_id id s.next_ref s.by_id)
  | inr (r, e) ↦ ground (arith, lookup-put l.lease_id id s.next_ref s.by_id, fresh id r e)
]

rehydrate-IsFresh : (l : Lease) (s : Store) → IsFresh s → IsFresh (rehydrate l s)
unfolding rehydrate
rehydrate-IsFresh l s fresh id r e =
    ground (arith, lookup-put l.lease_id id s.next_ref s.by_id, fresh id r)

abbrev pub or_else : Option Lease → Option Lease → Option Lease
or_else none o = o
or_else (some l) o = some l

load_lease-get :
    (now : ℤ) (min max : ℕ) (k : String) (l : Lease) (ld : Loading) (id : String)
    → l.lease_id ≡ k
    → IsFresh ld.store
    → get (load_lease now min max k l ld).store id
      ≡ ite
          (string_discrete k id)
          (or_else (kept now min max (some l)) (get ld.store id))
          (get ld.store id)
unfolding load_lease is_kept
load_lease-get now min max k l ld id e fresh = ground (arith, get-rehydrate l ld.store id fresh)

load_row-get :
    (pf : Platform) (now : ℤ) (min max : ℕ) (k : String) (v : List ℕ) (ld : Loading) (id : String)
    → ((l : Lease) → pf.unmarshal v ≡ some l → l.lease_id ≡ k)
    → IsFresh ld.store
    → get (load_row pf now min max k v ld).store id
      ≡ ite
          (string_discrete k id)
          (or_else (kept now min max (pf.unmarshal v)) (get ld.store id))
          (get ld.store id)
unfolding load_row
load_row-get pf now min max k v ld id keyed fresh = elim (Option-cases (pf.unmarshal v)) [
  | inl e ↦ ground arith
  | inr (l, e) ↦ rw (e, load_row) (load_lease-get now min max k l ld id (keyed l e) fresh)
]

load_row-IsFresh :
    (pf : Platform) (now : ℤ) (min max : ℕ) (k : String) (v : List ℕ) (ld : Loading)
    → IsFresh ld.store
    → IsFresh (load_row pf now min max k v ld).store
unfolding load_row load_lease
load_row-IsFresh pf now min max k v ld fresh = elim (Option-cases (pf.unmarshal v)) [
  | inl e ↦ rw (e, load_row) fresh
  | inr (l, e) ↦ λ id r. ground (arith, fresh id r, rehydrate-IsFresh l ld.store fresh id r)
]

-- The loop over the rows: an identifier has the lease of its row, if that is kept.
pub load_rows-get :
    (pf : Platform) (now : ℤ) (min max : ℕ) (rows : Bucket) (ld : Loading) (id : String)
    → IsDistinct rows
    → IsKeyed pf rows
    → IsFresh ld.store
    → get (load_rows pf now min max rows ld).store id
      ≡ or_else (kept now min max (row_lease pf rows id)) (get ld.store id)
unfolding load_rows lookup
load_rows-get pf now min max [] ld id d k fresh = refl
load_rows-get pf now min max ((j, v) ∷ rows) ld id d k fresh = ground (
  arith,
  load_rows-get pf now min max rows (load_row pf now min max j v ld) id d.1 k.1
      (load_row-IsFresh pf now min max j v ld fresh),
  load_row-get pf now min max j v ld id k.0 fresh,
)
