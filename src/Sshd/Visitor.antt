-- ===== src/Sshd/Visitor.antt =====
-- The goroutines of the visitors: acceptVisitors and handleVisitor of internal/tunnel/sshd/forward.go.
-- A visitor's socket has the visitor's number. Its phase says which deferred calls it has still to
-- make. A step of a visitor is one access to what it shares with the others: the forward, under its
-- mutex, the atomic counter of the lease, or its own socket and channel. The half-closing of a
-- socket behind one direction of the copy is left out.
pub mod Evolution
pub mod Slots
pub mod Counted
pub mod Caught
pub mod Apart
pub mod Tracking
pub mod Ending
pub mod Listening
use hyrule_network_proxy.Prelude.{
  ℕ, ◌+◌, ◌-◌, ◌<◌, ◌≡◌, Bool, true, false, Option, none, some, leb, if◌then◌else◌, write,
}
use hyrule_network_proxy.Lease.Model.{Ip, Net}
use hyrule_network_proxy.Sshd.Forward.{
  Forward, admits, track_visitor, set_visitor_channel, untrack_visitor,
}
use hyrule_network_proxy.Sshd.Manager.{Manager, LeaseState}
use hyrule_network_proxy.Sshd.Manager.Owned.{Step}

pub data Phase : Type 0 where
  arrived : Ip → Phase
  admitted tracked holding : Phase
  opened : ℕ → Phase
  copying : ℕ → Bool → Bool → Phase
  closing_channel : ℕ → Phase
  releasing untracking closing finished : Phase

-- The goroutine of one visitor: the lease's state and the forward that acceptVisitors passes it.
pub record Visitor : Type 0 where
  pub state : ℕ
  pub forward : ℕ
  pub phase : Phase

pub record System : Type 0 where
  pub manager : Manager
  pub visitors : ℕ → Visitor
  pub next_visitor : ℕ

-- What a step meets: the channel that OpenChannel opens, which direction's copy ends next, and how
-- many bytes it has copied.
pub record Event : Type 0 where
  pub channel : Option ℕ
  pub inward : Bool
  pub bytes : ℕ

-- reserveVisitorSlot: the compare-and-swap that succeeds does so on the count that it has read, so
-- that the loop is one step.
unfoldable pub reserve_visitor_slot : ℕ → LeaseState → Bool × LeaseState
reserve_visitor_slot max st =
    if leb max st.visitors then (false, st) else (true, record st { visitors = st.visitors + 1 })

unfoldable pub set_forward : ℕ → Bool × Forward → Manager → Manager
set_forward f r m = record m { forwards = write m.forwards f r.1 }

unfoldable pub set_state : ℕ → Bool × LeaseState → Manager → Manager
set_state s r m = record m { states = write m.states s r.1 }

unfoldable pub copied_in : ℕ → LeaseState → LeaseState
copied_in n st = record st { bytes_in = st.bytes_in + n }

unfoldable pub copied_out : ℕ → LeaseState → LeaseState
copied_out n st = record st { bytes_out = st.bytes_out + n }

-- One step of handleVisitor. The allowlist of a forward never changes, so that the guard reads it
-- without a lock.
unfoldable pub advance : Net → Event → ℕ → Visitor → Phase → Manager → Phase × Manager
unfolding reserve_visitor_slot set_forward set_state copied_in copied_out
advance net ev vc v (arrived ip) m =
    (if admits net (m.forwards v.forward) ip then admitted else closing, m)
advance net ev vc v admitted m =
    let r = track_visitor vc (m.forwards v.forward) in
    (if r.0 then tracked else closing, set_forward v.forward r m)
advance net ev vc v tracked m =
    let r = reserve_visitor_slot m.max_visitors (m.states v.state) in
    (if r.0 then holding else untracking, set_state v.state r m)
advance net ev vc v holding m = (elim ev.channel [ none ↦ releasing | some ch ↦ opened ch ], m)
advance net ev vc v (opened ch) m =
    let r = set_visitor_channel vc ch (m.forwards v.forward) in
    (if r.0 then copying ch true true else closing_channel ch, set_forward v.forward r m)
advance net ev vc v (copying ch false false) m = (closing_channel ch, m)
advance net ev vc v (copying ch true false) m =
    (copying ch false false, set_state v.state (true, copied_in ev.bytes (m.states v.state)) m)
advance net ev vc v (copying ch false true) m =
    (copying ch false false, set_state v.state (true, copied_out ev.bytes (m.states v.state)) m)
advance net ev vc v (copying ch true true) m =
    if ev.inward
    then (copying ch false true, set_state v.state (true, copied_in ev.bytes (m.states v.state)) m)
    else (copying ch true false, set_state v.state (true, copied_out ev.bytes (m.states v.state)) m)
advance net ev vc v (closing_channel ch) m =
    (releasing, record m { channel_closed = write m.channel_closed ch true })
advance net ev vc v releasing m =
    let st = m.states v.state in
    (untracking, set_state v.state (true, record st { visitors = st.visitors - 1 }) m)
advance net ev vc v untracking m =
    (closing, set_forward v.forward (true, untrack_visitor vc (m.forwards v.forward)) m)
advance net ev vc v closing m =
    (finished, record m { socket_closed = write m.socket_closed vc true })
advance net ev vc v finished m = (finished, m)

unfoldable pub set_phase : ℕ → Phase × Manager → System → System
set_phase vc (p, m) s = record s {
  manager = m;
  visitors = write s.visitors vc (record (s.visitors vc) { phase = p });
}

unfoldable pub visit : Net → Event → ℕ → System → System
unfolding set_phase advance
visit net ev vc s = let v = s.visitors vc in set_phase vc (advance net ev vc v v.phase s.manager) s

-- Accept returns a connection: acceptVisitors starts its goroutine.
unfoldable pub accept : ℕ → ℕ → Ip → System → System
accept r f ip s = record s {
  visitors =
      write s.visitors s.next_visitor (record { state = r; forward = f; phase = arrived ip });
  next_visitor = s.next_visitor + 1;
}

-- The daemon under its visitors: a method of the manager, a new visitor, or a step of one of them.
pub data Move : System → System → Type 0 where
  manages : (s : System) (m : Manager) → Step s.manager m → Move s (record s { manager = m })
  accepts :
      (s : System) (r f : ℕ) (ip : Ip)
      → r < s.manager.next_state
      → f < s.manager.next_forward
      → Move s (accept r f ip s)
  visits :
      (s : System) (net : Net) (ev : Event) (vc : ℕ)
      → vc < s.next_visitor
      → Move s (visit net ev vc s)

pub data Run (s : System) : System → Type 0 where
  start : Run s s
  later : {t u : System} → Run s t → Move t u → Run s u
