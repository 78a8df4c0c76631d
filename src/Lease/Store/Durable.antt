-- ===== src/Lease/Store/Durable.antt =====
-- The bucket of internal/tunnel/lease/store.go holds one row for each live lease, and the row is
-- that lease, marshalled: every method writes the row before it changes the memory.
use hyrule_network_proxy.Prelude.{
  write, ℕ, ◌≡◌, ◌≢◌, refl, String, Bool, none, some, arith, ℤ, List, Option-cases, inl, inr,
  string_discrete,
}
use hyrule_network_proxy.Prelude.Map.{
  string_key, lookup, put, delete, lookup-put, lookup-delete, IsDistinct, put-IsDistinct,
  delete-IsDistinct,
}
use hyrule_network_proxy.Lease.Error.{ok}
use hyrule_network_proxy.Lease.Model.{Lease, status_active}
use hyrule_network_proxy.Lease.Platform.{Platform, Env, Db, Bucket, update}
use hyrule_network_proxy.Lease.Allocator.{PortAllocator}
use hyrule_network_proxy.Lease.Store.{
  Store, CreateParams, persist, delete_row, new_lease, finish_create, create, extend, finish_remove,
  remove,
}
use hyrule_network_proxy.Lease.Store.Cases.{create_cases, extend_cases, remove_cases}
use hyrule_network_proxy.Lease.Store.Indexed.{IsIndexed}

pub record IsPersisted (pf : Platform) (s : Store) : Type 0 where
  pub rows : Bucket
  pub bucket : s.db.bucket ≡ some rows
  pub distinct : IsDistinct rows
  pub row_of :
      (id : String) (r : ℕ)
      → lookup id s.by_id ≡ some r
      → (d : List ℕ) × (lookup id rows ≡ some d) × (pf.marshal (s.heap r) ≡ some d)
  pub no_row : (id : String) → lookup id s.by_id ≡ none → lookup id rows ≡ none
  pub active :
      (id : String) (r : ℕ) → lookup id s.by_id ≡ some r → (s.heap r).status ≡ status_active

-- A write that succeeds has put the marshalled lease in place of its row.
persist-eq-ok :
    (pf : Platform) (commits : Bool) (l : Lease) (db db' : Db) (b : Bucket)
    → db.bucket ≡ some b
    → persist pf commits l db ≡ ok db'
    → (d : List ℕ) × (pf.marshal l ≡ some d) × (db'.bucket ≡ some (put l.lease_id d b))
unfolding persist
persist-eq-ok pf commits l db db' b e h = elim (Option-cases (pf.marshal l)) [
  | inl q ↦ ground arith
  | inr (d, q) ↦ (d, q, ground arith)
]

update-delete_row :
    (commits : Bool) (id : String) (db db' : Db) (b : Bucket)
    → db.bucket ≡ some b
    → update commits (delete_row id) db ≡ ok db'
    → db'.bucket ≡ some (delete id b)
unfolding update delete_row
update-delete_row commits id db db' b e h = ground arith

put_row_of :
    (pf : Platform) (s s' : Store) (l : Lease) (ref : ℕ) (d : List ℕ)
    → IsIndexed s
    → (v : IsPersisted pf s) → pf.marshal l ≡ some d
    → ((i : String) → lookup i s'.by_id ≡ lookup i (put l.lease_id ref s.by_id))
    → ((i : String) (r : ℕ) → lookup i s.by_id ≡ some r → l.lease_id ≢ i → s'.heap r ≡ s.heap r)
    → s'.heap ref ≡ l
    → (i : String) (r : ℕ) → lookup i s'.by_id ≡ some r
    → Dec (l.lease_id ≡ i)
    → (x : List ℕ) × (lookup i (put l.lease_id d v.rows) ≡ some x)
      × (pf.marshal (s'.heap r) ≡ some x)
put_row_of pf s s' l ref d x v m ids old new i r e (yes same) = (
  d,
  ground (arith, lookup-put l.lease_id i d v.rows),
  ground (arith, lookup-put l.lease_id i ref s.by_id, ids i),
)
put_row_of pf s s' l ref d x v m ids old new i r e (no other) =
    let at : lookup i s.by_id ≡ some r =
      ground (arith, lookup-put l.lease_id i ref s.by_id, ids i) in
    let (y, found, made) = v.row_of i r at in
    (y, ground (arith, lookup-put l.lease_id i d v.rows), ground (arith, old i r at))

-- A lease that is new or changed, with its row written.
put-IsPersisted :
    (pf : Platform) (s s' : Store) (l : Lease) (ref : ℕ) (d : List ℕ)
    → IsIndexed s
    → (v : IsPersisted pf s) → pf.marshal l ≡ some d
    → l.status ≡ status_active
    → s'.db.bucket ≡ some (put l.lease_id d v.rows)
    → ((i : String) → lookup i s'.by_id ≡ lookup i (put l.lease_id ref s.by_id))
    → ((i : String) (r : ℕ) → lookup i s.by_id ≡ some r → l.lease_id ≢ i → s'.heap r ≡ s.heap r)
    → s'.heap ref ≡ l
    → IsPersisted pf s'
put-IsPersisted pf s s' l ref d x v m live b ids old new = record {
  rows = put l.lease_id d v.rows;
  bucket = b;
  distinct = put-IsDistinct l.lease_id d v.rows v.distinct;
  row_of =
      λ i r e. put_row_of pf s s' l ref d x v m ids old new i r e (string_discrete l.lease_id i);
  no_row = λ i e. ground (
    arith,
    ids i,
    lookup-put l.lease_id i ref s.by_id,
    lookup-put l.lease_id i d v.rows,
    v.no_row i,
  );
  active =
      λ i r e. ground (arith, ids i, lookup-put l.lease_id i ref s.by_id, old i r, v.active i r);
}

alloc-IsPersisted :
    (pf : Platform) (s : Store) (a : PortAllocator)
    → IsPersisted pf s
    → IsPersisted pf (record s { alloc = a })
alloc-IsPersisted pf s a v = record {
  rows = v.rows;
  bucket = v.bucket;
  distinct = v.distinct;
  row_of = v.row_of;
  no_row = v.no_row;
  active = v.active;
}

insert-IsPersisted :
    (pf : Platform) (commits : Bool) (s : Store) (a : PortAllocator) (l : Lease) (db : Db)
    → l.status ≡ status_active
    → persist pf commits l s.db ≡ ok db
    → IsIndexed s
    → IsPersisted pf s
    → IsPersisted pf (finish_create s a l (ok db)).1
unfolding finish_create write
insert-IsPersisted pf commits s a l db live h x v =
    let (d, m, b) = persist-eq-ok pf commits l s.db db v.rows v.bucket h in
    put-IsPersisted pf s (finish_create s a l (ok db)).1 l s.next_ref d x v m live b (λ i. refl)
      (λ i r e ne. ground (arith, x.fresh i r)) (ground arith)

-- Create leaves the bucket and the memory in agreement, on every branch.
pub create-IsPersisted :
    (pf : Platform) (env : Env) (p : CreateParams) (s : Store)
    → IsIndexed s
    → IsPersisted pf s
    → IsPersisted pf (create pf env p s).1
unfolding new_lease
create-IsPersisted pf env p s x v =
    create_cases pf env p s (λ r. IsPersisted pf r.1) (λ _ _. v) (λ _ _. v)
      (λ e a _. alloc-IsPersisted pf s a v) (λ port a e _. alloc-IsPersisted pf s _ v)
      (λ _ _ port a token db _ _ written.
        insert-IsPersisted pf env.commits s a (new_lease p token port env.now) db refl written x v)

renew-IsPersisted :
    (pf : Platform) (commits : Bool) (s : Store) (id : String) (ref : ℕ) (t : ℤ) (db : Db)
    → lookup id s.by_id ≡ some ref
    → persist pf commits (record (s.heap ref) { expires_at = t }) s.db ≡ ok db
    → IsIndexed s
    → IsPersisted pf s
    → IsPersisted pf
        (record s { db = db; heap = write s.heap ref (record (s.heap ref) { expires_at = t }) })
unfolding write
renew-IsPersisted pf commits s id ref t db at h x v =
    let l = record (s.heap ref) { expires_at = t } in
    let (d, m, b) = persist-eq-ok pf commits l s.db db v.rows v.bucket h in
    put-IsPersisted pf s (record s { db = db; heap = write s.heap ref l }) l ref d x v m
      (v.active id ref at) b
      (λ i. ground (arith, lookup-put (s.heap ref).lease_id i ref s.by_id, x.id_of id ref at))
      (λ i r e ne. ground (arith, x.id_of id ref at, x.id_of i r e)) (ground arith)

pub extend-IsPersisted :
    (pf : Platform) (commits : Bool) (id : String) (d : ℤ) (s : Store)
    → IsIndexed s
    → IsPersisted pf s
    → IsPersisted pf (extend pf commits id d s).1
extend-IsPersisted pf commits id d s x v =
    extend_cases pf commits id d s (λ r. IsPersisted pf r.1) (λ _. v) (λ _ _ _. v)
      (λ ref db at written. renew-IsPersisted pf commits s id ref _ db at written x v)

drop-IsPersisted :
    (pf : Platform) (commits : Bool) (s : Store) (id : String) (ref : ℕ) (db : Db)
    → update commits (delete_row id) s.db ≡ ok db
    → IsPersisted pf s
    → IsPersisted pf (finish_remove s id (s.heap ref) (ok db)).1
unfolding finish_remove
drop-IsPersisted pf commits s id ref db h v = record {
  rows = delete id v.rows;
  bucket = update-delete_row commits id s.db db v.rows v.bucket h;
  distinct = delete-IsDistinct id v.rows v.distinct;
  row_of = λ i r e.
      let (d, found, made) = v.row_of i r (ground (arith, lookup-delete id i s.by_id)) in
      (d, ground (arith, lookup-delete id i s.by_id, lookup-delete id i v.rows), made);
  no_row = λ i e. ground (arith, lookup-delete id i s.by_id, lookup-delete id i v.rows, v.no_row i);
  active = λ i r e. ground (arith, lookup-delete id i s.by_id, v.active i r);
}

pub remove-IsPersisted :
    (pf : Platform) (commits : Bool) (id : String) (s : Store)
    → IsPersisted pf s
    → IsPersisted pf (remove commits id s).1
remove-IsPersisted pf commits id s v =
    remove_cases commits id s (λ r. IsPersisted pf r.1) (λ _. v) (λ _ _ _. v)
      (λ ref db at dropped. drop-IsPersisted pf commits s id ref db dropped v)
