-- ===== src/Tests/Visitors.antt =====
-- The theorems on the visitors of internal/tunnel/sshd/forward.go: one visitor, from its arrival to
-- its end.
use hyrule_network_proxy.Prelude.{
  ℕ, zero, suc, ◌<◌, ◌≡◌, refl, subst, true, none, some, [], ◌∷◌, arith, number,
}
use hyrule_network_proxy.Prelude.Map.{nat_key, lookup}
use hyrule_network_proxy.Sshd.Manager.{Manager}
use hyrule_network_proxy.Sshd.Visitor.{
  arrived, System, Event, visit, set_phase, visits, Run, start, later,
}
use hyrule_network_proxy.Sshd.Visitor.Slots.{IsCounted}
use hyrule_network_proxy.Sshd.Visitor.Counted.{Run-IsCounted}
use hyrule_network_proxy.Sshd.Visitor.Caught.{is_finished}
use hyrule_network_proxy.Sshd.Visitor.Tracking.{IsCaught, Run-IsCaught}
use hyrule_network_proxy.Sshd.Visitor.Ending.{moves_of, visitor_ends, all_released}
use hyrule_network_proxy.Tests.{net}
use hyrule_network_proxy.Tests.Servers.{busy, visited}

-- The daemon with a forward that has no visitors yet.
abbrev open_forward : Manager
open_forward = record busy {
  states = λ _. record { conn = 7; forward = some 0; visitors = 0; bytes_in = 0; bytes_out = 0 };
  forwards = λ _. record visited { visitors = [] };
}

abbrev at_door : System
at_door = record {
  manager = open_forward;
  visitors = λ _. record { state = 0; forward = 0; phase = arrived (10 ∷ []) };
  next_visitor = 1;
}

-- The channel 4 opens, and each direction copies five bytes.
abbrev event : Event
event = record { channel = some 4; inward = true; bytes = 5 }

at_door-IsCounted : IsCounted at_door
unfolding number
at_door-IsCounted = record {
  known_state = λ i h. omega arith;
  known_forward = λ i h. omega arith;
  counted = λ r h. ground arith;
  bounded = λ r h. omega arith;
}

at_door-IsCaught : IsCaught at_door
unfolding lookup
at_door-IsCaught = record {
  known_forward = λ i h. omega arith;
  held = λ i h. record {
    socket_shut = λ e. absurd (ground arith);
    entered = λ e. absurd (ground arith);
    channel_shut = λ ch e. absurd (ground arith);
    channel_entered = λ ch e. absurd (ground arith);
    left = λ e. refl;
    ended = λ e. absurd (ground arith);
  };
  own = λ i f h e. absurd (e refl);
}

-- The visitor after some steps of its own.
walked : ℕ → System
walked zero = at_door
walked (suc n) = visit net event 0 (walked n)

walked_next : (n : ℕ) → (walked n).next_visitor ≡ 1
unfolding walked visit set_phase
walked_next zero = refl
walked_next (suc n) = walked_next n

walk : (n : ℕ) → Run at_door (walked n)
unfolding walked
walk zero = start
walk (suc n) = later (walk n) (visits (walked n) net event 0 (omega (arith, walked_next n)))

walk_moves : (n : ℕ) → moves_of 0 (walk n) ≡ n
unfolding walked walk moves_of
walk_moves zero = refl
walk_moves (suc n) = omega (arith, walk_moves n)

Run-IsCounted_example : IsCounted (walked 12)
Run-IsCounted_example = Run-IsCounted at_door-IsCounted (walk 12)

Run-IsCaught_example : IsCaught (walked 12)
Run-IsCaught_example = Run-IsCaught at_door-IsCaught (walk 12)

visitor_ends_example :
    (is_finished ((walked 12).visitors 0).phase ≡ true)
    × ((walked 12).manager.socket_closed 0 ≡ true)
    × (lookup 0 ((walked 12).manager.forwards ((walked 12).visitors 0).forward).visitors ≡ none)
visitor_ends_example =
    visitor_ends 0 (walk 12) at_door-IsCaught (omega arith) (omega (arith, walk_moves 12))

all_finished :
    (i : ℕ) → i < (walked 12).next_visitor → is_finished ((walked 12).visitors i).phase ≡ true
all_finished i h =
    subst (λ j. is_finished ((walked 12).visitors j).phase ≡ true) {x = 0} {y = i}
      (omega (arith, walked_next 12))
      (visitor_ends 0 (walk 12) at_door-IsCaught (omega arith) (omega (arith, walk_moves 12))).0

all_released_example :
    ((r : ℕ) → r < (walked 12).manager.next_state → ((walked 12).manager.states r).visitors ≡ 0)
    × ((f i : ℕ)
        → f < (walked 12).manager.next_forward
        → lookup i ((walked 12).manager.forwards f).visitors ≡ none)
    × ((i : ℕ) → i < (walked 12).next_visitor → (walked 12).manager.socket_closed i ≡ true)
all_released_example = all_released at_door-IsCounted at_door-IsCaught (walk 12) all_finished
