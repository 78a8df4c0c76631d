-- ===== src/Lease/Store.antt =====
-- The Store of internal/tunnel/lease/store.go. The two indexes hold pointers to leases that they
-- share: `heap` gives the lease at each pointer, and `next_ref` the next pointer to be handed out.
-- Each method runs under the store's lock, so it is one step of the state.
pub mod Open
pub mod Cases
pub mod Indexed
pub mod Views
pub mod Ports
pub mod Durable
pub mod Expiry
pub mod Reach
pub mod Refine
use mathlib.Core.Option.{map as map_option}
use hyrule_network_proxy.Prelude.{
  write, ℕ, ◌+◌, String, Bool, true, false, ite, Option, none, some, List, [], ◌∷◌, ltb_ℤ, leb_ℤ,
  if◌then◌else◌, length, ℤ, ◌+ℤ◌, ℕ_discrete, string_discrete, map,
}
use Prim.Native.String.{compare}
use Prim.Native.Nat.{Ordering}
use hyrule_network_proxy.Prelude.Map.{Map, string_key, nat_key, lookup, put, delete}
use hyrule_network_proxy.Lease.Error.{
  Error, Result, ok, err, not_found, invalid_cidr, rand_failed, marshal_failed, bucket_missing,
}
use hyrule_network_proxy.Lease.Allocator
use hyrule_network_proxy.Lease.Allocator.{PortAllocator}
use hyrule_network_proxy.Lease.Model.{Lease, Net, IpNet, expired, status_active}
use hyrule_network_proxy.Lease.Platform.{Platform, Env, Bucket, Db, update}

pub record CreateParams : Type 0 where
  pub lease_id : String
  pub duration : ℤ
  pub allowlist_cidrs : List String

pub record Store : Type 0 where
  pub db : Db
  pub by_id : Map String ℕ
  pub by_token : Map String ℕ
  pub alloc : PortAllocator
  pub heap : ℕ → Lease
  pub next_ref : ℕ

pub put_row : String → List ℕ → Option Bucket → Result (Option Bucket)
put_row id row none = err bucket_missing
put_row id row (some b) = ok (some (put id row b))

pub delete_row : String → Option Bucket → Result (Option Bucket)
delete_row id none = ok none
delete_row id (some b) = ok (some (delete id b))

unfoldable pub persist : Platform → Bool → Lease → Db → Result Db
unfolding update put_row
persist pf commits l db = elim (pf.marshal l) [
  | none ↦ err marshal_failed
  | some row ↦ update commits (put_row l.lease_id row) db
]

pub mint_token : Platform → Option (List ℕ) → Option String
mint_token pf random = map_option pf.encode_token random

-- The first entry that net.ParseCIDR refuses.
pub first_invalid : Net → List String → Option String
first_invalid net [] = none
first_invalid net (c ∷ cs) =
    let rest = first_invalid net cs in elim (net.parse_cidr c) [ none ↦ some c | some n ↦ rest ]

pub new_lease : CreateParams → String → ℕ → ℤ → Lease
new_lease p token port now = record {
  lease_id = p.lease_id;
  token = token;
  allocated_port = port;
  allowlist_cidrs = p.allowlist_cidrs;
  created_at = now;
  expires_at = now +ℤ p.duration;
  status = status_active;
}

-- The end of Create, with the allocator that has given out the port and the result of `persist`.
unfoldable pub finish_create : Store → PortAllocator → Lease → Result Db → Result Lease × Store
unfolding write
finish_create s a l (err e) = (err e, record s { alloc = Allocator.release a l.allocated_port })
finish_create s a l (ok db) = (
  ok l,
  record {
    db = db;
    by_id = put l.lease_id s.next_ref s.by_id;
    by_token = put l.token s.next_ref s.by_token;
    alloc = a;
    heap = write s.heap s.next_ref l;
    next_ref = s.next_ref + 1;
  },
)

pub create_with_token :
    Platform → Env → CreateParams → Store → PortAllocator → ℕ → Option String → Result Lease × Store
unfolding finish_create persist new_lease
create_with_token pf env p s a port none =
    (err rand_failed, record s { alloc = Allocator.release a port })
create_with_token pf env p s a port (some token) =
    let l = new_lease p token port env.now in finish_create s a l (persist pf env.commits l s.db)

pub create_with_port :
    Platform → Env → CreateParams → Store → Result ℕ × PortAllocator → Result Lease × Store
unfolding create_with_token mint_token
create_with_port pf env p s (err e, a) = (err e, record s { alloc = a })
create_with_port pf env p s (ok port, a) =
    create_with_token pf env p s a port (mint_token pf env.random)

pub create_new : Platform → Env → CreateParams → Store → Result Lease × Store
unfolding create_with_port first_invalid
create_new pf env p s = elim (first_invalid pf.net p.allowlist_cidrs) [
  | some c ↦ (err (invalid_cidr c), s)
  | none ↦ create_with_port pf env p s (Allocator.allocate env.listen s.alloc)
]

unfoldable pub create : Platform → Env → CreateParams → Store → Result Lease × Store
unfolding create_new
create pf env p s = elim (lookup p.lease_id s.by_id) [
  | some ref ↦ (ok (s.heap ref), s)
  | none ↦ create_new pf env p s
]

pub finish_extend : Store → ℕ → ℤ → Result Db → Result Lease × Store
unfolding write
finish_extend s ref expires (err e) = (err e, s)
finish_extend s ref expires (ok db) =
    let l = record (s.heap ref) { expires_at = expires } in
    (ok l, record s { db = db; heap = write s.heap ref l })

unfoldable pub extend : Platform → Bool → String → ℤ → Store → Result Lease × Store
unfolding finish_extend persist
extend pf commits id d s = elim (lookup id s.by_id) [
  | none ↦ (err not_found, s)
  | some ref ↦
      let updated = record (s.heap ref) { expires_at = (s.heap ref).expires_at +ℤ d } in
      finish_extend s ref updated.expires_at (persist pf commits updated s.db)
]

pub finish_remove : Store → String → Lease → Result Db → Result (Unit {0}) × Store
finish_remove s id l (err e) = (err e, s)
finish_remove s id l (ok db) = (
  ok tt,
  record s {
    db = db;
    by_id = delete id s.by_id;
    by_token = delete l.token s.by_token;
    alloc = Allocator.release s.alloc l.allocated_port;
  },
)

-- The status argument of the source is not used there.
unfoldable pub remove : Bool → String → Store → Result (Unit {0}) × Store
unfolding finish_remove update delete_row
remove commits id s = elim (lookup id s.by_id) [
  | none ↦ (err not_found, s)
  | some ref ↦ finish_remove s id (s.heap ref) (update commits (delete_row id) s.db)
]

unfoldable pub revoke : Bool → String → Store → Result (Unit {0}) × Store
unfolding remove
revoke = remove

unfoldable pub mark_expired : Bool → String → Store → Result (Unit {0}) × Store
unfolding remove
mark_expired = remove

-- (wasExpired, removed, err)
pub record Marked : Type 0 where
  pub was_expired : Bool
  pub removed : Bool
  pub error : Option Error

pub marked : Result (Unit {0}) × Store → Marked × Store
marked (err e, s) = (record { was_expired = true; removed = false; error = some e }, s)
marked (ok u, s) = (record { was_expired = true; removed = true; error = none }, s)

abbrev pub not_marked : Marked
not_marked = record { was_expired = false; removed = false; error = none }

unfoldable pub mark_expired_if_before : Bool → String → ℤ → Store → Marked × Store
unfolding marked
mark_expired_if_before commits id cutoff s = elim (lookup id s.by_id) [
  | none ↦ (not_marked, s)
  | some ref ↦
      if ltb_ℤ cutoff (s.heap ref).expires_at then (not_marked, s) else marked (remove commits id s)
]

unfoldable pub get : Store → String → Option Lease
get s id = map_option s.heap (lookup id s.by_id)

-- subtle.ConstantTimeCompare is 1 on equal byte strings only.
unfoldable pub by_token : Store → String → Option Lease
by_token s token = elim (lookup token s.by_token) [
  | none ↦ none
  | some ref ↦ ite (string_discrete (s.heap ref).token token) (some (s.heap ref)) none
]

-- sort.Slice with the order of the identifiers.
pub insert_by_id : Lease → List Lease → List Lease
insert_by_id l [] = l ∷ []
insert_by_id l (m ∷ ms) = elim (compare m.lease_id l.lease_id) [
  | Ordering.lt ↦ m ∷ insert_by_id l ms
  | _ ↦ l ∷ m ∷ ms
]

pub sort_by_id : List Lease → List Lease
unfolding insert_by_id
sort_by_id [] = []
sort_by_id (l ∷ ls) = insert_by_id l (sort_by_id ls)

unfoldable pub list : Store → List Lease
unfolding sort_by_id
list s = sort_by_id (map (λ e. s.heap e.1) s.by_id)

pub expired_ids : (ℕ → Lease) → ℤ → Map String ℕ → List String
expired_ids heap now [] = []
expired_ids heap now ((id, ref) ∷ m) =
    let rest = expired_ids heap now m in if expired (heap ref) now then id ∷ rest else rest

unfoldable pub expired_before : Store → ℤ → List String
unfolding expired_ids
expired_before s now = expired_ids s.heap now s.by_id

unfoldable pub stats : Store → ℕ × ℤ
stats s = (length s.by_id, Allocator.free s.alloc)
