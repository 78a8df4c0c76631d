-- ===== src/Sshd/Server/Accepting.antt =====
-- The accept loop of internal/tunnel/sshd/server.go.
use hyrule_network_proxy.Prelude.{
  ℕ, ◌+◌, ◌≤◌, ◌≡◌, ◌⊎◌, inl, inr, String, List, [], ◌∷◌, length, arith, ite, ℤ, string_discrete,
}
use hyrule_network_proxy.Sshd.Limiter.Rate.{admitted}
use hyrule_network_proxy.Sshd.Server.{
  Accepted, failed, accepted, Intake, first_backoff, max_accept_backoff, next_backoff,
}

-- The connections among what Accept brings.
pub arrivals : List Accepted → List (ℤ × String)
arrivals [] = []
arrivals (failed ∷ rest) = arrivals rest
arrivals (accepted now host conn ∷ rest) = (now, host) ∷ arrivals rest

pub from_host : String → List (String × ℕ) → ℕ
from_host ip [] = 0
from_host ip ((host, conn) ∷ rest) =
    let n = from_host ip rest in ite (string_discrete host ip) (n + 1) n

abbrev pub InBounds : ℕ → Type 0
InBounds d = (first_backoff ≤ d) × (d ≤ max_accept_backoff)

abbrev pub AllInBounds : List ℕ → Type 0
AllInBounds [] = Unit {0}
AllInBounds (d ∷ ds) = InBounds d × AllInBounds ds

pub record IsPaced (s : Intake) : Type 0 where
  pub delay : (s.accept_backoff ≡ 0) ⊎ InBounds s.accept_backoff
  pub delays : AllInBounds s.waited

pub next_backoff-InBounds : (d : ℕ) → (d ≡ 0) ⊎ InBounds d → InBounds (next_backoff d)
unfolding next_backoff
next_backoff-InBounds d (inl e) = ground arith
next_backoff-InBounds d (inr b) = ground arith

-- What a run of the loop has done, by the connections that came.
pub record Served (ip : String) (came : List (ℤ × String)) (s t : Intake) : Type 0 where
  pub paced : IsPaced t
  pub handed : from_host ip t.handled ≡ admitted ip came s.limiter + from_host ip s.handled
  pub counted : t.auth_failures + length s.dropped ≡ s.auth_failures + length t.dropped
  pub each_once :
      length t.handled + length t.dropped ≡ length came + (length s.handled + length s.dropped)
