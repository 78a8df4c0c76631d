-- ===== src/Lease/Store/Views.antt =====
-- The store of internal/tunnel/lease/store.go as its callers see it: a map from identifiers to
-- leases, and one from tokens to leases that follows it.
use hyrule_network_proxy.Prelude.{
  write, ◌≡◌, ◌≢◌, ◌↔◌, refl, String, Bool, ite, Option, none, some, arith, ℤ, ◌+ℤ◌, Option-cases,
  inl, inr, string_discrete,
}
use hyrule_network_proxy.Prelude.Map.{string_key, lookup, lookup-put, lookup-delete}
use hyrule_network_proxy.Lease.Error.{Result, ok, err, not_found}
use hyrule_network_proxy.Lease.Model.{Lease}
use hyrule_network_proxy.Lease.Platform.{Platform, Env}
use hyrule_network_proxy.Lease.Store.{
  Store, CreateParams, new_lease, finish_create, create, extend, finish_remove, remove, get,
  by_token,
}
use hyrule_network_proxy.Lease.Store.Cases.{create_cases, extend_cases, remove_cases}
use hyrule_network_proxy.Lease.Store.Indexed.{IsIndexed}

-- In a store whose indexes agree, a token finds just the lease that carries it, and the same one
-- that its identifier finds.
pub by_token_iff :
    (s : Store) (t : String) (l : Lease)
    → IsIndexed s
    → (by_token s t ≡ some l) ↔ ((get s l.lease_id ≡ some l) × (l.token ≡ t))
unfolding by_token get
by_token_iff s t l x = (found, known)
  where
    found : by_token s t ≡ some l → (get s l.lease_id ≡ some l) × (l.token ≡ t)
    found e = elim (Option-cases (lookup t s.by_token)) [
      | inl q ↦ absurd (ground arith)
      | inr (r, q) ↦ ground (arith, x.owner t r q, x.token_at t r q)
    ]

    known : (get s l.lease_id ≡ some l) × (l.token ≡ t) → by_token s t ≡ some l
    known (e, p) = elim (Option-cases (lookup l.lease_id s.by_id)) [
      | inl q ↦ absurd (ground arith)
      | inr (r, q) ↦ ground (arith, x.token_of l.lease_id r q)
    ]

-- The state that a create with the result leaves behind.
abbrev pub Created : CreateParams → Store → Result Lease × Store → Type 0
Created p s (ok l, s') =
    (l.lease_id ≡ p.lease_id)
    × ((id : String) → get s' id ≡ ite (string_discrete p.lease_id id) (some l) (get s id))
Created p s (err e, s') = (id : String) → get s' id ≡ get s id

-- Create under an identifier, in a store whose indexes agree: on success the identifier has the
-- lease that was returned, and all others have theirs; on failure, at whatever step, every
-- identifier has the lease it had.
pub create-Created :
    (pf : Platform) (env : Env) (p : CreateParams) (s : Store)
    → IsIndexed s
    → Created p s (create pf env p s)
unfolding get finish_create write new_lease
create-Created pf env p s x =
    create_cases pf env p s (Created p s)
      (λ ref at. (x.id_of p.lease_id ref at, λ id. ground arith)) (λ _ _ id. refl)
      (λ _ _ _ id. refl) (λ _ _ _ _ id. refl)
      (λ absent _ port a token db _ _ _. (
        refl,
        λ id. elim (Option-cases (lookup id s.by_id)) [
          | inl q ↦ ground (arith, lookup-put p.lease_id id s.next_ref s.by_id)
          | inr (r, q) ↦ ground (arith, lookup-put p.lease_id id s.next_ref s.by_id, x.fresh id r q)
        ],
      ))

-- Create is idempotent: for an identifier that has a lease it returns that lease, whatever the
-- other parameters, the clock and the allocator say, and changes nothing.
pub create_idempotent :
    (pf : Platform) (env : Env) (p : CreateParams) (s : Store) (l : Lease)
    → get s p.lease_id ≡ some l
    → create pf env p s ≡ (ok l, s)
unfolding get create
create_idempotent pf env p s l h = ground arith

abbrev pub extended : ℤ → Option Lease → Option Lease
extended d none = none
extended d (some l) = some (record l { expires_at = l.expires_at +ℤ d })

abbrev pub Extended : String → ℤ → Store → Result Lease × Store → Type 0
Extended id d s (ok l, s') =
    (some l ≡ extended d (get s id))
    × ((j : String) → get s' j ≡ ite (string_discrete id j) (some l) (get s j))
Extended id d s (err e, s') = s' ≡ s

-- In a store whose indexes agree, Extend moves the expiry of the one lease by the duration and
-- leaves all others alone; if it fails, because the identifier is unknown or the row is not
-- written, nothing at all changes.
pub extend-Extended :
    (pf : Platform) (commits : Bool) (id : String) (d : ℤ) (s : Store)
    → IsIndexed s
    → Extended id d s (extend pf commits id d s)
unfolding get write
extend-Extended pf commits id d s x =
    extend_cases pf commits id d s (Extended id d s) (λ _. refl) (λ _ _ _. refl)
      (λ ref db at _. (
        ground arith,
        λ j. elim (Option-cases (lookup j s.by_id)) [
          | inl q ↦ ground arith
          | inr (r, q) ↦ ground (arith, x.id_of id ref at, x.id_of j r q)
        ],
      ))

abbrev pub Removed : String → Store → Result (Unit {0}) × Store → Type 0
Removed id s (ok u, s') =
    (get s id ≢ none) × ((j : String) → get s' j ≡ ite (string_discrete id j) none (get s j))
Removed id s (err e, s') = (s' ≡ s) × ((get s id ≡ none) → e ≡ not_found)

-- A removal takes away the one lease; if it fails, nothing changes, so that a lease whose row is
-- still on disk keeps its port. An unknown identifier gives ErrNotFound.
pub remove-Removed : (commits : Bool) (id : String) (s : Store) → Removed id s (remove commits id s)
unfolding get finish_remove
remove-Removed commits id s =
    remove_cases commits id s (Removed id s) (λ _. (refl, λ _. refl))
      (λ ref e at. (refl, λ h. ground arith))
      (λ ref db at _. (ground arith, λ j. ground (arith, lookup-delete id j s.by_id)))
