-- ===== src/Lease/Store/Open.antt =====
-- Open of internal/tunnel/lease/store.go: the rows of the bucket become the live leases, or stale
-- rows that are deleted in the same transaction.
pub mod Rows
pub mod Recovery
pub mod Reopened
pub mod Restart
use mathlib.Core.Option.{get_or}
use hyrule_network_proxy.Prelude.{
  write, ℕ, zero, suc, ◌+◌, String, Bool, true, false, not, ◌||◌, ◌++◌, ite, Option, none, some,
  List, [], ◌∷◌, ltb, if◌then◌else◌, ℤ, pos, string_discrete,
}
use hyrule_network_proxy.Prelude.Map.{string_key, put, delete}
use hyrule_network_proxy.Lease.Error.{Result, ok, err, open_failed}
use hyrule_network_proxy.Lease.Allocator
use hyrule_network_proxy.Lease.Model.{Lease, expired, status_active}
use hyrule_network_proxy.Lease.Platform.{Platform, Bucket, Db, update}
use hyrule_network_proxy.Lease.Store.{Store}

-- The zero value of the struct, at every pointer that is not yet in use.
abbrev pub zero_lease : Lease
zero_lease = record {
  lease_id = "";
  token = "";
  allocated_port = 0;
  allowlist_cidrs = [];
  created_at = pos 0;
  expires_at = pos 0;
  status = "";
}

unfoldable pub new_store : Db → ℕ → ℕ → Store
new_store db min max = record {
  db = db;
  by_id = [];
  by_token = [];
  alloc = Allocator.new_port_allocator min max;
  heap = λ _. zero_lease;
  next_ref = 0;
}

-- s.byID[l.LeaseID] = &cp; s.byToken[l.Token] = &cp; s.alloc.reserve(l.AllocatedPort)
pub rehydrate : Lease → Store → Store
rehydrate l s = record s {
  by_id = put l.lease_id s.next_ref s.by_id;
  by_token = put l.token s.next_ref s.by_token;
  alloc = Allocator.reserve s.alloc l.allocated_port;
  heap = write s.heap s.next_ref l;
  next_ref = s.next_ref + 1;
}

pub record Loading : Type 0 where
  pub store : Store
  pub stale : List String

abbrev mark_stale : String → Loading → Loading
mark_stale k ld = record ld { stale = ld.stale ++ k ∷ [] }

abbrev pub is_active : Lease → Bool
is_active l = ite (string_discrete l.status status_active) true false

pub load_lease : ℤ → ℕ → ℕ → String → Lease → Loading → Loading
load_lease now min max k l ld =
    if not (is_active l) || expired l now
    then mark_stale k ld
    else if ltb l.allocated_port min || ltb max l.allocated_port
    then mark_stale k ld
    else record ld { store = rehydrate l ld.store }

pub load_row : Platform → ℤ → ℕ → ℕ → String → List ℕ → Loading → Loading
unfolding load_lease
load_row pf now min max k v ld = elim (pf.unmarshal v) [
  | none ↦ mark_stale k ld
  | some l ↦ load_lease now min max k l ld
]

-- b.ForEach
pub load_rows : Platform → ℤ → ℕ → ℕ → Bucket → Loading → Loading
load_rows pf now min max [] ld = ld
load_rows pf now min max ((k, v) ∷ rows) ld =
    load_rows pf now min max rows (load_row pf now min max k v ld)

pub delete_all : List String → Bucket → Bucket
delete_all [] b = b
delete_all (k ∷ ks) b = delete_all ks (delete k b)

abbrev finish_open : Store → Result Db → Result Store
finish_open s (err e) = err e
finish_open s (ok db) = ok (record s { db = db })

-- `opens` says whether bolt.Open gets the file, `commits` whether the transaction commits.
unfoldable pub open_store : Platform → ℤ → Bool → Bool → ℕ → ℕ → Db → Result Store
unfolding load_rows update new_store
open_store pf now opens commits min max db =
    let rows = get_or db.bucket [] in
    let ld = load_rows pf now min max rows (record { store = new_store db min max; stale = [] }) in
    if opens
    then finish_open ld.store (update commits (λ _. ok (some (delete_all ld.stale rows))) db)
    else err open_failed
