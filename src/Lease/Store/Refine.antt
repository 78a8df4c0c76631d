-- ===== src/Lease/Store/Refine.antt =====
-- What the store of internal/tunnel/lease/store.go promises its callers, as a service of its own: a
-- map from identifiers to leases that is changed by granting, renewing and ending one lease.
use hyrule_network_proxy.Prelude.{
  ◌≡◌, ◌≢◌, sym, ap, subst, ◌∙◌, String, true, ite, Option, none, some, arith, ℤ, ◌+ℤ◌,
  Option-cases, Bool-cases, inl, inr, string_discrete,
}
use hyrule_network_proxy.Prelude.Map.{string_key, lookup}
use hyrule_network_proxy.Lease.Error.{Result, ok, err}
use hyrule_network_proxy.Lease.Model.{Lease}
use hyrule_network_proxy.Lease.Platform.{Platform, Env}
use hyrule_network_proxy.Lease.Store.{
  Store, CreateParams, create, extend, remove, mark_expired_if_before, get, Marked,
}
use hyrule_network_proxy.Lease.Store.Views.{
  Created, create-Created, create_idempotent, Extended, extend-Extended, Removed, remove-Removed,
}
use hyrule_network_proxy.Lease.Store.Expiry.{has_expired, MarkedAs, mark_expired_if_before-MarkedAs}
use hyrule_network_proxy.Lease.Store.Reach.{
  IsSound, Step, creates, extends, removes, marks, Step-IsSound, Reach, here, next, Reach-IsSound,
}

-- The service's state.
abbrev pub Leases : Type 0
Leases = String → Option Lease

-- No other lease has the port of a lease, or its token.
abbrev pub IsApart : Lease → Lease → Type 0
IsApart l m = (l.allocated_port ≢ m.allocated_port) × (l.token ≢ m.token)

abbrev pub Assigned : String → Option Lease → Leases → Leases → Type 0
Assigned id o a b = (j : String) → b j ≡ ite (string_discrete id j) o (a j)

-- What the service may do: nothing; grant a lease under an identifier that has none, with a port and
-- a token that no lease has; move the expiry of a lease; or end one.
pub data Serves (a b : Leases) : Type 0 where
  keeps : ((j : String) → b j ≡ a j) → Serves a b
  grants :
      (id : String) (l : Lease)
      → a id ≡ none
      → l.lease_id ≡ id
      → ((j : String) (m : Lease) → a j ≡ some m → IsApart l m)
      → Assigned id (some l) a b
      → Serves a b
  renews :
      (id : String) (d : ℤ) (l : Lease)
      → a id ≡ some l
      → Assigned id (some (record l { expires_at = l.expires_at +ℤ d })) a b
      → Serves a b
  ends : (id : String) → a id ≢ none → Assigned id none a b → Serves a b

pub apart :
    (pf : Platform) (t : Store) (i j : String) (l m : Lease)
    → IsSound pf t
    → get t i ≡ some l
    → get t j ≡ some m
    → i ≢ j
    → IsApart l m
unfolding get
apart pf t i j l m v ei ej ne = elim (Option-cases (lookup i t.by_id)) [
  | inl e ↦ absurd (ground arith)
  | inr (r, e) ↦ elim (Option-cases (lookup j t.by_id)) [
    | inl f ↦ absurd (ground arith)
    | inr (q, f) ↦ (
      λ same. ne (v.ports.unshared i j r q e f (ground arith)),
      λ same.
          let same_token : (t.heap r).token ≡ (t.heap q).token = ground arith in
          ne (
            ground (
              arith,
              v.indexed.token_of i r e,
              v.indexed.token_of j q f,
              v.indexed.id_of i r e,
              v.indexed.id_of j q f,
            )),
    )
  ]
]

other_id : (i j : String) (s : Store) (m : Lease) → get s i ≡ none → get s j ≡ some m → i ≢ j
other_id i j s m absent e same = absurd (ground (arith, subst (λ k. get s k ≡ none) same absent))

Created-Serves :
    (pf : Platform) (p : CreateParams) (s : Store) (r : Result Lease × Store)
    → IsSound pf r.1
    → get s p.lease_id ≡ none
    → Created p s r
    → Serves (get s) (get r.1)
Created-Serves pf p s (err e, s') v absent c = keeps c
Created-Serves pf p s (ok l, s') v absent (named, c) =
    grants p.lease_id l absent named
      (λ j m e.
        let other = other_id p.lease_id j s m absent e in
        apart pf s' p.lease_id j l m v (ground (arith, c p.lease_id)) (ground (arith, c j)) other)
      c

Extended-Serves :
    (id : String) (d : ℤ) (s : Store) (r : Result Lease × Store)
    → Extended id d s r
    → Serves (get s) (get r.1)
Extended-Serves id d s (err e, s') c = keeps (λ j. ap (λ t. get t j) c)
Extended-Serves id d s (ok l, s') (same, c) = elim (Option-cases (get s id)) [
  | inl e ↦ absurd (ground arith)
  | inr (m, e) ↦ renews id d m e (λ j. ground (arith, c j))
]

Removed-Serves :
    (id : String) (s : Store) (r : Result (Unit {0}) × Store)
    → Removed id s r
    → Serves (get s) (get r.1)
Removed-Serves id s (err e, s') (same, c) = keeps (λ j. ap (λ t. get t j) same)
Removed-Serves id s (ok u, s') (present, c) = ends id present c

MarkedAs-Serves :
    (id : String) (cutoff : ℤ) (s : Store) (r : Marked × Store)
    → MarkedAs id cutoff s r
    → Serves (get s) (get r.1)
MarkedAs-Serves id cutoff s (m, s') (found, done, not_done, failed, alive) =
    elim (Bool-cases m.removed) [
      | inr e ↦ keeps (λ j. ap (λ t. get t j) (not_done e))
      | inl e ↦
          let (due, fine, c) = done e in
          ends id (λ absent. present_of_due (get s id) absent (sym found ∙ due)) c
    ]
  where
    present_of_due : (o : Option Lease) → o ≡ none → has_expired cutoff o ≡ true → ⊥
    present_of_due o e h = ground arith

pub created_step :
    (pf : Platform) (env : Env) (p : CreateParams) (s : Store)
    → IsSound pf s
    → IsSound pf (create pf env p s).1
    → Serves (get s) (get (create pf env p s).1)
created_step pf env p s v w = elim (Option-cases (get s p.lease_id)) [
  | inl absent ↦
      Created-Serves pf p s (create pf env p s) w absent (create-Created pf env p s v.indexed)
  | inr (l, present) ↦ keeps (λ j. ap (λ r. get r.1 j) (create_idempotent pf env p s l present))
]

-- Each method of a sound store is a step of the service.
pub Step-Serves :
    (pf : Platform) {s t : Store} → Step pf s t → IsSound pf s → Serves (get s) (get t)
Step-Serves pf (creates env p s fresh) v =
    created_step pf env p s v (Step-IsSound pf (creates env p s fresh) v)
Step-Serves pf (extends commits id d s) v =
    Extended-Serves id d s (extend pf commits id d s) (extend-Extended pf commits id d s v.indexed)
Step-Serves pf (removes commits id s) v =
    Removed-Serves id s (remove commits id s) (remove-Removed commits id s)
Step-Serves pf (marks commits id cutoff s) v =
    MarkedAs-Serves id cutoff s (mark_expired_if_before commits id cutoff s)
      (mark_expired_if_before-MarkedAs commits id cutoff s)

pub data Service (a : Leases) : Leases → Type 0 where
  rests : Service a a
  goes_on : {b c : Leases} → Service a b → Serves b c → Service a c

-- From a sound store, whatever methods run, in whatever order and whichever of their steps fail, as
-- long as no new token is in use: what the store has for each identifier changes as the service
-- does, which grants a lease only under an identifier without one and apart from all others, renews
-- or ends one lease at a time, and otherwise keeps all.
pub Reach-Service :
    (pf : Platform) {s t : Store} → IsSound pf s → Reach pf s t → Service (get s) (get t)
Reach-Service pf v here = rests
Reach-Service pf v (next r st) =
    goes_on (Reach-Service pf v r) (Step-Serves pf st (Reach-IsSound pf v r))
