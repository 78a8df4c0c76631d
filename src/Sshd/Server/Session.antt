-- ===== src/Sshd/Server/Session.antt =====
-- A connection of internal/tunnel/sshd/server.go, from its handshake to its end, among the other
-- goroutines.
use hyrule_network_proxy.Prelude.{ℕ, ◌≡◌, ◌≢◌, String, true, some, List, [], ◌∷◌}
use hyrule_network_proxy.Prelude.Map.{string_key, lookup}
use hyrule_network_proxy.Sshd.Manager.{Manager}
use hyrule_network_proxy.Sshd.Manager.Dropped.{IsOwned}
use hyrule_network_proxy.Sshd.Manager.Owned.{Reach}
use hyrule_network_proxy.Sshd.Server.{GlobalRequest}

-- What the other goroutines do to the manager are its methods.
abbrev pub IsReach : (Manager → Manager) → Type 0
IsReach others = (m : Manager) → Reach m (others m)

abbrev pub AllReach : List GlobalRequest → Type 0
AllReach [] = Unit {0}
AllReach (req ∷ reqs) = IsReach req.others × AllReach reqs

-- The lease has no state of the connection.
abbrev pub IsUnheld : String → ℕ → Manager → Type 0
IsUnheld id conn m = (r : ℕ) → lookup id m.leases ≡ some r → (m.states r).conn ≢ conn

-- The connection is closed, the lease has no state of it, and the listeners are owned.
pub record IsEnded (id : String) (conn : ℕ) (m : Manager) : Type 0 where
  pub owned : IsOwned m
  pub conn_closed : m.conn_closed conn ≡ true
  pub unheld : IsUnheld id conn m
