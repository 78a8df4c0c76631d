-- ===== src/Lease/Store/Cases.antt =====
-- Case analysis of the methods of the store: each rule has one premise for each way to return.
use hyrule_network_proxy.Prelude.{
  write, ℕ, ◌≡◌, refl, String, Bool, Option, none, some, ℤ, ◌+ℤ◌, Option-cases, inl, inr, arith,
}
use hyrule_network_proxy.Prelude.Map.{string_key, lookup}
use hyrule_network_proxy.Lease.Error.{
  Error, Result, ok, err, Result-cases, not_found, invalid_cidr, rand_failed,
}
use hyrule_network_proxy.Lease.Allocator
use hyrule_network_proxy.Lease.Allocator.{PortAllocator}
use hyrule_network_proxy.Lease.Model.{Lease}
use hyrule_network_proxy.Lease.Platform.{Platform, Env, Db, update}
use hyrule_network_proxy.Lease.Store.{
  Store, CreateParams, persist, delete_row, mint_token, first_invalid, new_lease, finish_create,
  create_with_token, create_with_port, create_new, create, finish_extend, extend, finish_remove,
  remove, marked, mark_expired_if_before,
}

module _ (pf : Platform) (env : Env) (p : CreateParams) (s : Store)
    (P : Result Lease × Store → Type 0) where
  with_token_cases :
      (a : PortAllocator) (port : ℕ)
      → ((e : Error) → P (err e, record s { alloc = Allocator.release a port }))
      → ((token : String) (db : Db)
          → mint_token pf env.random ≡ some token
          → persist pf env.commits (new_lease p token port env.now) s.db ≡ ok db
          → P (finish_create s a (new_lease p token port env.now) (ok db)))
      → (t : Option String) → mint_token pf env.random ≡ t
      → P (create_with_token pf env p s a port t)
  unfolding create_with_token finish_create
  with_token_cases a port undone done none e = undone rand_failed
  with_token_cases a port undone done (some token) e =
      elim (Result-cases (persist pf env.commits (new_lease p token port env.now) s.db)) [
        | inl (x, q) ↦ rw (q, create_with_token) (undone x)
        | inr (db, q) ↦ rw (q, create_with_token) (done token db e q)
      ]

  with_port_cases :
      (found : Result ℕ × PortAllocator)
      → Allocator.allocate env.listen s.alloc ≡ found
      → ((e : Error) (a : PortAllocator)
          → Allocator.allocate env.listen s.alloc ≡ (err e, a)
          → P (err e, record s { alloc = a }))
      → ((port : ℕ) (a : PortAllocator) (e : Error)
          → Allocator.allocate env.listen s.alloc ≡ (ok port, a)
          → P (err e, record s { alloc = Allocator.release a port }))
      → ((port : ℕ) (a : PortAllocator) (token : String) (db : Db)
          → Allocator.allocate env.listen s.alloc ≡ (ok port, a)
          → mint_token pf env.random ≡ some token
          → persist pf env.commits (new_lease p token port env.now) s.db ≡ ok db
          → P (finish_create s a (new_lease p token port env.now) (ok db)))
      → P (create_with_port pf env p s found)
  unfolding create_with_port
  with_port_cases (err e, a) q exhausted undone done = exhausted e a q
  with_port_cases (ok port, a) q exhausted undone done =
      with_token_cases a port (λ e. undone port a e q) (λ token db. done port a token db q)
        (mint_token pf env.random) refl

  -- Create returns the lease that the identifier has; refuses the allowlist; finds no port; gives
  -- the port back, where a later step fails; or adds a lease.
  pub create_cases :
      ((ref : ℕ) → lookup p.lease_id s.by_id ≡ some ref → P (ok (s.heap ref), s))
      → ((c : String)
          → first_invalid pf.net p.allowlist_cidrs ≡ some c
          → P (err (invalid_cidr c), s))
      → ((e : Error) (a : PortAllocator)
          → Allocator.allocate env.listen s.alloc ≡ (err e, a)
          → P (err e, record s { alloc = a }))
      → ((port : ℕ) (a : PortAllocator) (e : Error)
          → Allocator.allocate env.listen s.alloc ≡ (ok port, a)
          → P (err e, record s { alloc = Allocator.release a port }))
      → (lookup p.lease_id s.by_id ≡ none
          → first_invalid pf.net p.allowlist_cidrs ≡ none
          → (port : ℕ) (a : PortAllocator) (token : String) (db : Db)
          → Allocator.allocate env.listen s.alloc ≡ (ok port, a)
          → mint_token pf env.random ≡ some token
          → persist pf env.commits (new_lease p token port env.now) s.db ≡ ok db
          → P (finish_create s a (new_lease p token port env.now) (ok db)))
      → P (create pf env p s)
  unfolding create
  create_cases existing refused exhausted undone done =
      elim (Option-cases (lookup p.lease_id s.by_id)) [
        | inr (ref, e) ↦ rw (e, create) (existing ref e)
        | inl absent ↦ elim (Option-cases (first_invalid pf.net p.allowlist_cidrs)) [
          | inr (c, bad) ↦ rw (absent, create) (rw (bad, create_new) (refused c bad))
          | inl valid ↦
              rw (absent, create)
                (rw (valid, create_new)
                  (with_port_cases (Allocator.allocate env.listen s.alloc) refl exhausted undone
                    (done absent valid)))
        ]
      ]

module _ (pf : Platform) (commits : Bool) (id : String) (d : ℤ) (s : Store)
    (P : Result Lease × Store → Type 0) where
  pub extend_cases :
      (lookup id s.by_id ≡ none → P (err not_found, s))
      → ((ref : ℕ) (e : Error) → lookup id s.by_id ≡ some ref → P (err e, s))
      → ((ref : ℕ) (db : Db)
          → lookup id s.by_id ≡ some ref
          → let l = record (s.heap ref) { expires_at = (s.heap ref).expires_at +ℤ d } in
            persist pf commits l s.db ≡ ok db
            → P (ok l, record s { db = db; heap = write s.heap ref l }))
      → P (extend pf commits id d s)
  unfolding extend
  extend_cases absent failed done = elim (Option-cases (lookup id s.by_id)) [
    | inl e ↦ rw (e, extend) (absent e)
    | inr (ref, e) ↦
        let l = record (s.heap ref) { expires_at = (s.heap ref).expires_at +ℤ d } in
        elim (Result-cases (persist pf commits l s.db)) [
          | inl (x, q) ↦ rw (e, extend) (rw (q, finish_extend) (failed ref x e))
          | inr (db, q) ↦ rw (e, extend) (rw (q, finish_extend) (done ref db e q))
        ]
  ]

module _ (commits : Bool) (id : String) (s : Store) where
  pub remove_cases :
      (P : Result (Unit {0}) × Store → Type 0)
      → (lookup id s.by_id ≡ none → P (err not_found, s))
      → ((ref : ℕ) (e : Error) → lookup id s.by_id ≡ some ref → P (err e, s))
      → ((ref : ℕ) (db : Db)
          → lookup id s.by_id ≡ some ref
          → update commits (delete_row id) s.db ≡ ok db
          → P (finish_remove s id (s.heap ref) (ok db)))
      → P (remove commits id s)
  unfolding remove
  remove_cases P absent failed done = elim (Option-cases (lookup id s.by_id)) [
    | inl e ↦ rw (e, remove) (absent e)
    | inr (ref, e) ↦ elim (Result-cases (update commits (delete_row id) s.db)) [
      | inl (x, q) ↦ rw (e, remove) (rw (q, finish_remove) (failed ref x e))
      | inr (db, q) ↦ rw (e, remove) (rw (q, finish_remove) (done ref db e q))
    ]
  ]

  -- What holds of the state before and after `remove` holds after a marking.
  pub mark_cases :
      (cutoff : ℤ) (P : Store → Type 0)
      → P s
      → P (remove commits id s).1
      → P (mark_expired_if_before commits id cutoff s).1
  unfolding mark_expired_if_before marked
  mark_cases cutoff P same gone = ground arith
