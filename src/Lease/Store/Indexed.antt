-- ===== src/Lease/Store/Indexed.antt =====
-- The two indexes of the store of internal/tunnel/lease/store.go name the same leases.
use hyrule_network_proxy.Prelude.{write, ℕ, ◌<◌, ◌≡◌, String, Bool, none, some, arith, ℤ}
use hyrule_network_proxy.Prelude.Map.{
  string_key, lookup, lookup-put, lookup-delete, IsDistinct, put-IsDistinct, delete-IsDistinct,
}
use hyrule_network_proxy.Lease.Error.{ok}
use hyrule_network_proxy.Lease.Allocator
use hyrule_network_proxy.Lease.Allocator.{PortAllocator}
use hyrule_network_proxy.Lease.Model.{Lease}
use hyrule_network_proxy.Lease.Platform.{Platform, Env, Db}
use hyrule_network_proxy.Lease.Store.Cases.{create_cases, extend_cases, remove_cases}
use hyrule_network_proxy.Lease.Store.{
  Store, CreateParams, mint_token, new_lease, finish_create, create, extend, finish_remove, remove,
}

pub record IsIndexed (s : Store) : Type 0 where
  pub fresh : (id : String) (r : ℕ) → lookup id s.by_id ≡ some r → r < s.next_ref
  pub id_of : (id : String) (r : ℕ) → lookup id s.by_id ≡ some r → (s.heap r).lease_id ≡ id
  pub token_of :
      (id : String) (r : ℕ)
      → lookup id s.by_id ≡ some r
      → lookup (s.heap r).token s.by_token ≡ some r
  pub token_at : (t : String) (r : ℕ) → lookup t s.by_token ≡ some r → (s.heap r).token ≡ t
  pub owner :
      (t : String) (r : ℕ)
      → lookup t s.by_token ≡ some r
      → lookup (s.heap r).lease_id s.by_id ≡ some r
  pub ids_distinct : IsDistinct s.by_id
  pub tokens_distinct : IsDistinct s.by_token

-- A new lease under an identifier and a token that are not in use.
pub insert_IsIndexed :
    (s : Store) (a : PortAllocator) (l : Lease) (db : Db)
    → lookup l.lease_id s.by_id ≡ none
    → lookup l.token s.by_token ≡ none
    → IsIndexed s
    → IsIndexed (finish_create s a l (ok db)).1
unfolding finish_create write
insert_IsIndexed s a l db no_id no_token v = record {
  fresh = λ id r e. ground (arith, lookup-put l.lease_id id s.next_ref s.by_id, v.fresh id r);
  id_of = λ id r e.
      ground (arith, lookup-put l.lease_id id s.next_ref s.by_id, v.fresh id r, v.id_of id r);
  token_of = λ id r e. ground (
    arith,
    lookup-put l.lease_id id s.next_ref s.by_id,
    v.fresh id r,
    v.token_of id r,
    lookup-put l.token (s.heap r).token s.next_ref s.by_token,
    lookup-put l.token l.token s.next_ref s.by_token,
  );
  token_at = λ t r e. ground (
    arith,
    lookup-put l.token t s.next_ref s.by_token,
    v.fresh (s.heap r).lease_id r,
    v.owner t r,
    v.token_at t r,
  );
  owner = λ t r e. ground (
    arith,
    lookup-put l.token t s.next_ref s.by_token,
    v.fresh (s.heap r).lease_id r,
    v.owner t r,
    lookup-put l.lease_id (s.heap r).lease_id s.next_ref s.by_id,
    lookup-put l.lease_id l.lease_id s.next_ref s.by_id,
  );
  ids_distinct = put-IsDistinct l.lease_id s.next_ref s.by_id v.ids_distinct;
  tokens_distinct = put-IsDistinct l.token s.next_ref s.by_token v.tokens_distinct;
}

-- The token of a create is not one of a live lease (its 160 bits are random).
abbrev pub IsFreshToken : Platform → Env → Store → Type 0
IsFreshToken pf env s =
    (t : String) → mint_token pf env.random ≡ some t → lookup t s.by_token ≡ none

same_IsIndexed : (s : Store) (a : PortAllocator) → IsIndexed s → IsIndexed (record s { alloc = a })
same_IsIndexed s a v = record {
  fresh = v.fresh;
  id_of = v.id_of;
  token_of = v.token_of;
  token_at = v.token_at;
  owner = v.owner;
  ids_distinct = v.ids_distinct;
  tokens_distinct = v.tokens_distinct;
}

pub create-IsIndexed :
    (pf : Platform) (env : Env) (p : CreateParams) (s : Store)
    → IsFreshToken pf env s
    → IsIndexed s
    → IsIndexed (create pf env p s).1
unfolding new_lease
create-IsIndexed pf env p s fresh v =
    create_cases pf env p s (λ r. IsIndexed r.1) (λ _ _. v) (λ _ _. v)
      (λ e a _. same_IsIndexed s a v) (λ port a e _. same_IsIndexed s (Allocator.release a port) v)
      (λ absent valid port a token db _ minted _.
        insert_IsIndexed s a (new_lease p token port env.now) db absent (fresh token minted) v)

-- A write that keeps the identifier and the token of a lease.
pub extend-IsIndexed :
    (pf : Platform) (commits : Bool) (id : String) (d : ℤ) (s : Store)
    → IsIndexed s
    → IsIndexed (extend pf commits id d s).1
unfolding write
extend-IsIndexed pf commits id d s v =
    extend_cases pf commits id d s (λ r. IsIndexed r.1) (λ _. v) (λ _ _ _. v)
      (λ ref db at _. record {
        fresh = v.fresh;
        id_of = λ i r e. ground (arith, v.id_of i r);
        token_of = λ i r e. ground (arith, v.token_of i r);
        token_at = λ t r e. ground (arith, v.token_at t r);
        owner = λ t r e. ground (arith, v.owner t r);
        ids_distinct = v.ids_distinct;
        tokens_distinct = v.tokens_distinct;
      })

finish_remove-IsIndexed :
    (s : Store) (id : String) (ref : ℕ) (db : Db)
    → lookup id s.by_id ≡ some ref
    → IsIndexed s
    → IsIndexed (finish_remove s id (s.heap ref) (ok db)).1
unfolding finish_remove
finish_remove-IsIndexed s id ref db at v = record {
  fresh = λ i r e. ground (arith, lookup-delete id i s.by_id, v.fresh i r);
  id_of = λ i r e. ground (arith, lookup-delete id i s.by_id, v.id_of i r);
  token_of = λ i r e. ground (
    arith,
    lookup-delete id i s.by_id,
    v.token_of i r,
    v.id_of i r,
    v.id_of id ref,
    v.token_of id ref,
    lookup-delete (s.heap ref).token (s.heap r).token s.by_token,
  );
  token_at = λ t r e. ground (arith, lookup-delete (s.heap ref).token t s.by_token, v.token_at t r);
  owner = λ t r e. ground (
    arith,
    lookup-delete (s.heap ref).token t s.by_token,
    v.owner t r,
    v.token_at t r,
    v.id_of id ref,
    lookup-delete id (s.heap r).lease_id s.by_id,
  );
  ids_distinct = delete-IsDistinct id s.by_id v.ids_distinct;
  tokens_distinct = delete-IsDistinct (s.heap ref).token s.by_token v.tokens_distinct;
}

pub remove-IsIndexed :
    (commits : Bool) (id : String) (s : Store) → IsIndexed s → IsIndexed (remove commits id s).1
remove-IsIndexed commits id s v =
    remove_cases commits id s (λ r. IsIndexed r.1) (λ _. v) (λ _ _ _. v)
      (λ ref db at _. finish_remove-IsIndexed s id ref db at v)
