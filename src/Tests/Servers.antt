-- ===== src/Tests/Servers.antt =====
-- The theorems on internal/tunnel/sshd at a concrete manager and limiter.
use hyrule_network_proxy.Prelude.{
  ℕ, ◌+◌, ◌≤◌, ◌≡◌, ◌≢◌, ◌-ℤ◌, refl, String, true, false, Option, none, some, [], ◌∷◌, arith,
  length, pos,
}
use hyrule_network_proxy.Prelude.Map.{Map, IsDistinct, string_key, nat_key, lookup}
use hyrule_network_proxy.Lease.Model.{Lease, expired}
use hyrule_network_proxy.Sshd.Limiter.{WindowCounter, AuthLimiter, sub, new_auth_limiter}
use hyrule_network_proxy.Sshd.Limiter.Bounded.{attempted, attempted_bounded}
use hyrule_network_proxy.Sshd.Limiter.Rate.{admitted, admitted-le-max}
use hyrule_network_proxy.Sshd.Forward.{Forward}
use hyrule_network_proxy.Sshd.Manager.{
  Manager, LeaseLookup, new_state, register_conn, start_forward, teardown, cancel_forward,
}
use hyrule_network_proxy.Sshd.Manager.Dropped.{IsOwned}
use hyrule_network_proxy.Sshd.Manager.Owned.{here, next, tears, cancels, Reach-IsOwned}
use hyrule_network_proxy.Sshd.Manager.Effects.{
  StartedAs, start_forward-StartedAs, teardown_closes, register_conn_replaces,
}
use hyrule_network_proxy.Tests.{lease_of, net}

abbrev lease_a : Lease
lease_a = lease_of 10001 1000 1500

abbrev listed : Lease
listed = record lease_a { allowlist_cidrs = "no network" ∷ "10.0.0.0/8" ∷ [] }

-- The lease "a" and no other, under every name.
abbrev pub leases : LeaseLookup
leases = record { by_token = λ t. some lease_a; get = λ id. some lease_a }

abbrev pub visited : Forward
visited = record {
  port = 10001;
  connected_addr = "";
  connected_port = 10001;
  allow_nets = [];
  allowlist_set = false;
  visitors = (3, some 4) ∷ [];
  closed = false;
}

-- The connection 7 of the lease "a" has the forward 0, with the visitor 3 on the channel 4.
abbrev pub busy : Manager
busy = record {
  leases = ("a", 0) ∷ [];
  states = λ _. record { conn = 7; forward = some 0; visitors = 1; bytes_in = 0; bytes_out = 0 };
  forwards = λ _. visited;
  next_state = 1;
  next_forward = 1;
  conn_closed = λ _. false;
  socket_closed = λ _. false;
  channel_closed = λ _. false;
  max_visitors = 8;
}

-- The same connection, before its forward.
abbrev idle : Manager
idle = record busy { states = λ _. new_state 7; next_forward = 0 }

pub busy-IsOwned : IsOwned busy
unfolding lookup
busy-IsOwned = record {
  fresh_state = λ id r e. ground arith;
  fresh_forward = λ id r f e h. ground arith;
  is_open = λ id r f e h. refl;
  unshared = λ i j r ei ej. ground arith;
  exclusive = λ i j r q f ei ej hi hj. ground arith;
  no_leak = λ f below opened. ("a", 0, ground arith, ground arith);
}

Reach-IsOwned_example : IsOwned (teardown "a" (cancel_forward "a" 7 busy))
Reach-IsOwned_example =
    Reach-IsOwned busy-IsOwned
      (next (next here (cancels "a" 7 busy)) (tears "a" (cancel_forward "a" 7 busy)))

start_forward-StartedAs_example :
    StartedAs leases
      (pos 1100)
      7
      "a"
      0
      idle
      (start_forward net leases (pos 1100) 7 "a" "0.0.0.0" 0 true idle)
start_forward-StartedAs_example =
    start_forward-StartedAs net leases (pos 1100) 7 "a" "0.0.0.0" 0 true idle

teardown_closes_example :
    let m' = teardown "a" busy in
    (lookup "a" m'.leases ≡ none)
    × (m'.conn_closed 7 ≡ true)
    × ((m'.forwards 0).closed ≡ true)
    × ((vc : ℕ) (o : Option ℕ) → lookup vc ((3, some 4) ∷ []) ≡ some o → m'.socket_closed vc ≡ true)
    × ((vc ch : ℕ) → lookup vc ((3, some 4) ∷ []) ≡ some (some ch) → m'.channel_closed ch ≡ true)
    × ((j : String) → "a" ≢ j → lookup j m'.leases ≡ lookup j busy.leases)
unfolding lookup
teardown_closes_example = teardown_closes "a" 0 0 busy (ground arith) refl

register_conn_replaces_example :
    let (done, m') = register_conn leases (pos 1100) 8 "a" busy in
    (done ≡ true)
    × (lookup "a" m'.leases ≡ some 1)
    × (m'.states 1 ≡ new_state 8)
    × (m'.conn_closed 7 ≡ true)
    × ((m'.forwards 0).closed ≡ true)
unfolding lookup expired
register_conn_replaces_example =
    register_conn_replaces leases (pos 1100) 8 0 0 "a" busy (ground arith) (ground arith) refl
      (λ e. absurd (omega arith))

abbrev opened : WindowCounter
opened = record { count = 1; start = pos 100 }

abbrev limiter : Map String WindowCounter → AuthLimiter
limiter seen = record { max = 2; window = pos 50; seen = seen; last_cleanup = pos 100 }

admitted-le-max_example :
    1
      + admitted "x"
          ((pos 110, "x") ∷ (pos 120, "y") ∷ (pos 130, "x") ∷ [])
          (limiter (("x", opened) ∷ []))
    ≤ 2
unfolding lookup sub ◌-ℤ◌
admitted-le-max_example =
    admitted-le-max "x" ((pos 110, "x") ∷ (pos 120, "y") ∷ (pos 130, "x") ∷ [])
      (limiter (("x", opened) ∷ [])) opened (ground arith) (omega arith) (refl, (refl, (refl, tt)))

attempted_bounded_example :
    let a =
      attempted ((pos 110, "x") ∷ (pos 120, "y") ∷ []) (new_auth_limiter 2 (pos 50) (pos 0)) in
    IsDistinct a.seen × (length a.seen ≤ 65536)
attempted_bounded_example =
    attempted_bounded 2 (pos 50) (pos 0) ((pos 110, "x") ∷ (pos 120, "y") ∷ [])
