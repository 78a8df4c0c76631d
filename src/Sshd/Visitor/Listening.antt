-- ===== src/Sshd/Visitor/Listening.antt =====
-- The loop of acceptVisitors of internal/tunnel/sshd/forward.go, with the address that it takes a
-- visitor to have. Its delays are those of the accept loop of internal/tunnel/sshd/server.go.
use hyrule_network_proxy.Prelude.{
  ℕ, ◌<◌, ◌≡◌, refl, ◌⊎◌, inl, inr, Option, none, some, List, [], ◌∷◌,
}
use hyrule_network_proxy.Lease.Model.{Ip}
use hyrule_network_proxy.Sshd.Server.{next_backoff}
use hyrule_network_proxy.Sshd.Server.Accepting.{InBounds, AllInBounds, next_backoff-InBounds}
use hyrule_network_proxy.Sshd.Visitor.{System, accept, accepts, Run, later}

-- A net.Addr: a *net.TCPAddr with its IP, or another, with what net.ParseIP makes of the host that
-- net.SplitHostPort finds in its text. A nil IP is the empty list.
pub data RemoteAddr : Type 0 where
  tcp_addr : Ip → RemoteAddr
  other_addr : Option Ip → RemoteAddr

unfoldable pub visitor_ip : RemoteAddr → Ip
visitor_ip (tcp_addr ip) = ip
visitor_ip (other_addr none) = []
visitor_ip (other_addr (some ip)) = ip

pub data Outcome : Type 0 where
  listener_closed accept_failed : Outcome
  arrives : RemoteAddr → Outcome

pub record Listening : Type 0 where
  pub system : System
  pub backoff : ℕ
  pub slept : List ℕ

unfoldable pub accept_visitors : ℕ → ℕ → List Outcome → Listening → Listening
unfolding next_backoff accept visitor_ip
accept_visitors r f [] l = l
accept_visitors r f (listener_closed ∷ rest) l = l
accept_visitors r f (accept_failed ∷ rest) l =
    accept_visitors r f rest
      (record l { backoff = next_backoff l.backoff; slept = next_backoff l.backoff ∷ l.slept })
accept_visitors r f (arrives a ∷ rest) l =
    accept_visitors r f rest (record l { system = accept r f (visitor_ip a) l.system; backoff = 0 })

pub record IsListening (s : System) (r f : ℕ) (l : Listening) : Type 0 where
  pub run : Run s l.system
  pub known_state : r < l.system.manager.next_state
  pub known_forward : f < l.system.manager.next_forward
  pub delay : (l.backoff ≡ 0) ⊎ InBounds l.backoff
  pub delays : AllInBounds l.slept

-- The loop does nothing to the system but start visitors of its forward, and each of its delays is
-- between five milliseconds and a second.
pub accept_visitors-IsListening :
    (s : System) (r f : ℕ) (outcomes : List Outcome) (l : Listening)
    → IsListening s r f l
    → IsListening s r f (accept_visitors r f outcomes l)
unfolding accept_visitors
accept_visitors-IsListening s r f [] l v = v
accept_visitors-IsListening s r f (listener_closed ∷ rest) l v = v
accept_visitors-IsListening s r f (accept_failed ∷ rest) l v =
    let b = next_backoff-InBounds l.backoff v.delay in
    accept_visitors-IsListening s r f rest _ (record {
      run = v.run;
      known_state = v.known_state;
      known_forward = v.known_forward;
      delay = inr b;
      delays = (b, v.delays);
    })
accept_visitors-IsListening s r f (arrives a ∷ rest) l v =
    accept_visitors-IsListening s r f rest _ (record {
      run = later v.run (accepts l.system r f (visitor_ip a) v.known_state v.known_forward);
      known_state = v.known_state;
      known_forward = v.known_forward;
      delay = inl refl;
      delays = v.delays;
    })
