-- ===== src/Tunnel/Coordinator/Responses.antt =====
-- The responses of internal/tunnel/coordinator.go: who gets a token, and repeated requests.
use hyrule_network_proxy.Prelude.{
  ◌≡◌, refl, String, Bool, false, some, arith, List, [], ◌∷◌, map, All,
}
use hyrule_network_proxy.Prelude.Map.{string_key}
use hyrule_network_proxy.Lease.Error.{Result, ok, err}
use hyrule_network_proxy.Lease.Model.{Lease}
use hyrule_network_proxy.Lease.Platform.{Platform, Env}
use hyrule_network_proxy.Lease.Store.{Store, CreateParams, create, get, list}
use hyrule_network_proxy.Lease.Store.Indexed.{IsIndexed}
use hyrule_network_proxy.Lease.Store.Views.{Created, create-Created, create_idempotent}
use hyrule_network_proxy.Tunnel.Contract.{CreateLeaseRequest, ExtendLeaseRequest, LeaseResponse}
use hyrule_network_proxy.Tunnel.Coordinator.{
  Coordinator, create_lease, finish_create, extend_lease, finish_extend, get_lease, list_leases,
  to_response, create_params,
}

hidden :
    (c : Coordinator) (ls : List Lease)
    → All (λ r. r.token ≡ "") (map (λ l. to_response c l false) ls)
unfolding to_response
hidden c [] = tt
hidden c (l ∷ ls) = (refl, hidden c ls)

-- No response but that of a create carries a token: not the list, not a single lease, not the
-- response to an extension.
pub tokens_hidden :
    (pf : Platform) (commits : Bool) (id : String) (req : ExtendLeaseRequest) (c : Coordinator)
    → All (λ r. r.token ≡ "") (list_leases c)
      × ((r : LeaseResponse) → get_lease id c ≡ some r → r.token ≡ "")
      × ((r : LeaseResponse) → (extend_lease pf commits id req c).0 ≡ ok r → r.token ≡ "")
unfolding list_leases get_lease extend_lease to_response finish_extend
tokens_hidden pf commits id req c =
    (hidden c (list c.store), λ r e. ground arith, λ r e. ground arith)

-- The response shows the lease that the store has for the identifier.
abbrev Shows : LeaseResponse → Lease → Type 0
Shows r l = (r.token ≡ l.token) × (r.port ≡ l.allocated_port) × (r.expires_at ≡ l.expires_at)

create-Shows :
    (p : CreateParams) (c : Coordinator) (r : LeaseResponse) (result : Result Lease × Store)
    → Created p c.store result
    → (finish_create c result).0 ≡ ok r
    → (l : Lease) × (get (finish_create c result).1.store p.lease_id ≡ some l) × Shows r l
unfolding finish_create to_response
create-Shows p c r (err e, s) d h = absurd (ground arith)
create-Shows p c r (ok l, s) d h =
    (l, ground (arith, d.1 p.lease_id), (ground arith, ground arith, ground arith))

known_shown :
    (pf : Platform) (env : Env) (req : CreateLeaseRequest) (c : Coordinator) (l : Lease)
    → get c.store req.lease_id ≡ some l
    → (r : LeaseResponse) × ((create_lease pf env req c).0 ≡ ok r)
      × Shows r l
      × ((create_lease pf env req c).1.store ≡ c.store)
unfolding create_lease finish_create to_response
known_shown pf env req c l e =
    rw (create_idempotent pf env (create_params c.cfg req) c.store l e)
      (_, refl, (refl, refl, refl), refl)

-- A create that has succeeded on a store whose indexes agree, sent again to the state that it left,
-- at any time and with the same identifier, gives the same token, port and expiry, and leaves the
-- store as it is.
pub create_lease_again :
    (pf : Platform) (env env' : Env) (req req' : CreateLeaseRequest) (c : Coordinator)
    (r : LeaseResponse)
    → IsIndexed c.store
    → req'.lease_id ≡ req.lease_id
    → (create_lease pf env req c).0 ≡ ok r
    → let c' = (create_lease pf env req c).1 in
      (r' : LeaseResponse) × ((create_lease pf env' req' c').0 ≡ ok r')
      × (r'.token ≡ r.token)
      × (r'.port ≡ r.port)
      × (r'.expires_at ≡ r.expires_at)
      × ((create_lease pf env' req' c').1.store ≡ c'.store)
unfolding create_lease
create_lease_again pf env env' req req' c r x same done =
    let p = create_params c.cfg req in
    let (l, known, first) =
      create-Shows p c r (create pf env p c.store) (create-Created pf env p c.store x) done in
    let (r', again, second, unchanged) =
      known_shown pf env' req' (create_lease pf env req c).1 l (rw same known) in
    (r', again, cc, cc, cc, unchanged)
