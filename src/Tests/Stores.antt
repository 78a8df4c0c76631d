-- ===== src/Tests/Stores.antt =====
-- The theorems on internal/tunnel/lease at concrete stores.
use hyrule_network_proxy.Prelude.{
  arith, ℕ, ◌≤◌, ◌≡◌, ◌↔◌, String, Bool, true, not, some, [], ◌∷◌, pos, ◌==◌,
}
use hyrule_network_proxy.Prelude.Map.{string_key, nat_key}
use hyrule_network_proxy.Lease.Error.{ok, err, ports_exhausted}
use hyrule_network_proxy.Lease.Allocator.{Outcome, IsTaken, allocate, allocate-Outcome}
use hyrule_network_proxy.Lease.Allocator.Exhaustion.{allocate_fails_iff}
use hyrule_network_proxy.Lease.Platform.{Env}
use hyrule_network_proxy.Lease.Store.{Store, CreateParams, create, extend, remove, get}
use hyrule_network_proxy.Lease.Store.Views.{Created, create-Created}
use hyrule_network_proxy.Lease.Store.Refine.{Service, Reach-Service}
use hyrule_network_proxy.Lease.Store.Reach.{IsSound, here, next, extends, removes, Reach-IsSound}
use hyrule_network_proxy.Lease.Store.Open.{open_store}
use hyrule_network_proxy.Lease.Store.Open.Restart.{outlasting, open_store_restarts}
use hyrule_network_proxy.Tests.{pf, env, one, one-IsValid, one-IsSound, pf-RoundTrips}

abbrev listen : ℕ → Bool
listen p = not (p == 10002)

-- A second lease, with a token of its own.
abbrev second : CreateParams
second = record { lease_id = "b"; duration = pos 7; allowlist_cidrs = "10.0.0.0/8" ∷ [] }

abbrev again : CreateParams
again = record { lease_id = "a"; duration = pos 9; allowlist_cidrs = "no network" ∷ [] }

abbrev env_b : Env
env_b = record env { random = some (5 ∷ []) }

allocate-Outcome_example :
    Outcome listen one.alloc (allocate listen one.alloc).1 (allocate listen one.alloc).0
allocate-Outcome_example = allocate-Outcome listen one.alloc one-IsValid

allocate_fails_iff_example :
    ((allocate listen one.alloc).0 ≡ err ports_exhausted)
    ↔ ((q : ℕ) → 10000 ≤ q → q ≤ 10002 → IsTaken listen one.alloc q)
allocate_fails_iff_example = allocate_fails_iff listen one.alloc one-IsValid

Reach-IsSound_example : IsSound pf (remove true "a" (extend pf true "a" (pos 5) one).1).1
Reach-IsSound_example = Reach-IsSound pf one-IsSound (
    next (next here (extends true "a" (pos 5) one))
      (removes true "a" (extend pf true "a" (pos 5) one).1))

create-Created_example : Created second one (create pf env_b second one)
create-Created_example = create-Created pf env_b second one one-IsSound.indexed

Reach-Service_example :
    Service (get one) (get (remove true "a" (extend pf true "a" (pos 5) one).1).1)
Reach-Service_example = Reach-Service pf one-IsSound (
    next (next here (extends true "a" (pos 5) one))
      (removes true "a" (extend pf true "a" (pos 5) one).1))

open_store_restarts_example :
    (s' : Store) × (open_store pf (pos 1400) true true 10001 10009 one.db ≡ ok s')
    × IsSound pf s'
    × ((id : String) → get s' id ≡ outlasting (pos 1400) 10001 10009 (get one id))
open_store_restarts_example =
    open_store_restarts pf one (pos 1400) 10001 10009 (omega arith) pf-RoundTrips one-IsSound
