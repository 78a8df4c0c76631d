-- ===== src/Sshd/Visitor/Slots.antt =====
-- The slots of the visitors: reserveVisitorSlot and its release in handleVisitor of
-- internal/tunnel/sshd/forward.go.
use hyrule_network_proxy.Prelude.{
  ℕ, ◌+◌, ◌≤◌, ◌<◌, ◌==◌, ◌&&◌, ◌≡◌, ◌≢◌, refl, Bool, true, false, arith, number, one_if, write,
  leb, Bool-cases, inl, inr,
}
use hyrule_network_proxy.Lease.Model.{Net}
use hyrule_network_proxy.Sshd.Manager.{Manager, LeaseState}
use hyrule_network_proxy.Sshd.Visitor.{
  Phase, arrived, admitted, tracked, holding, opened, copying, closing_channel, releasing,
  untracking, closing, finished, Visitor, System, Event, advance, reserve_visitor_slot, set_forward,
  set_state, copied_in, copied_out,
}

-- The phases between the reservation of the slot and its release.
abbrev pub holds : Phase → Bool
holds (arrived ip) = false
holds admitted = false
holds tracked = false
holds holding = true
holds (opened ch) = true
holds (copying ch a b) = true
holds (closing_channel ch) = true
holds releasing = true
holds untracking = false
holds closing = false
holds finished = false

abbrev pub holds_slot : ℕ → Visitor → Bool
holds_slot r v = (v.state == r) && holds v.phase

pub record IsCounted (s : System) : Type 0 where
  pub known_state : (i : ℕ) → i < s.next_visitor → (s.visitors i).state < s.manager.next_state
  pub known_forward : (i : ℕ) → i < s.next_visitor → (s.visitors i).forward < s.manager.next_forward
  pub counted :
      (r : ℕ)
      → r < s.manager.next_state
      → (s.manager.states r).visitors ≡ number (holds_slot r) s.next_visitor s.visitors
  pub bounded :
      (r : ℕ) → r < s.manager.next_state → (s.manager.states r).visitors ≤ s.manager.max_visitors

-- A step of a visitor moves the count of its lease by what its phase says, and no other count.
pub record Slotwise (v : Visitor) (p : Phase) (m : Manager) (r : Phase × Manager) : Type 0 where
  pub next_states : r.1.next_state ≡ m.next_state
  pub next_forwards : r.1.next_forward ≡ m.next_forward
  pub max_same : r.1.max_visitors ≡ m.max_visitors
  pub others : (q : ℕ) → v.state ≢ q → (r.1.states q).visitors ≡ (m.states q).visitors
  pub itself :
      (r.1.states v.state).visitors + one_if (holds p)
      ≡ (m.states v.state).visitors + one_if (holds r.0)
  pub still_bounded : (r.1.states v.state).visitors ≤ m.max_visitors

-- A step that leaves the counts alone.
quiet-Slotwise :
    (v : Visitor) (p p' : Phase) (m m' : Manager)
    → m'.states ≡ m.states
    → m'.next_state ≡ m.next_state
    → m'.next_forward ≡ m.next_forward
    → m'.max_visitors ≡ m.max_visitors
    → holds p ≡ holds p'
    → (m.states v.state).visitors ≤ m.max_visitors
    → Slotwise v p m (p', m')
quiet-Slotwise v p p' m m' ss ns nf mx e b = record {
  next_states = ns;
  next_forwards = nf;
  max_same = mx;
  others = λ q ne. ground arith;
  itself = ground arith;
  still_bounded = ground arith;
}

-- A step that writes the state of the lease.
stated-Slotwise :
    (v : Visitor) (p p' : Phase) (m : Manager) (r : Bool × LeaseState)
    → r.1.visitors + one_if (holds p) ≡ (m.states v.state).visitors + one_if (holds p')
    → r.1.visitors ≤ m.max_visitors
    → Slotwise v p m (p', set_state v.state r m)
unfolding set_state write
stated-Slotwise v p p' m r e b = record {
  next_states = refl;
  next_forwards = refl;
  max_same = refl;
  others = λ q ne. ground arith;
  itself = ground arith;
  still_bounded = ground arith;
}

module _ (net : Net) (ev : Event) (vc : ℕ) (v : Visitor) (m : Manager)
    (b : (m.states v.state).visitors ≤ m.max_visitors) where
  reserves-Slotwise : Slotwise v tracked m (advance net ev vc v tracked m)
  unfolding advance reserve_visitor_slot
  reserves-Slotwise = elim (Bool-cases (leb m.max_visitors (m.states v.state).visitors)) [
    | inl full ↦ rw full (stated-Slotwise v tracked untracking m (false, m.states v.state) refl b)
    | inr free ↦
        rw free (stated-Slotwise v tracked holding m (true, _) (omega arith) (ground arith))
  ]

  copies-Slotwise :
      (ch : ℕ) → Slotwise v (copying ch true true) m (advance net ev vc v (copying ch true true) m)
  unfolding advance copied_in copied_out
  copies-Slotwise ch = elim (Bool-cases ev.inward) [
    | inl e ↦
        rw e (stated-Slotwise v (copying ch true true) (copying ch false true) m (true, _) refl b)
    | inr e ↦
        rw e (stated-Slotwise v (copying ch true true) (copying ch true false) m (true, _) refl b)
  ]

  pub advance-Slotwise :
      (p : Phase)
      → one_if (holds p) ≤ (m.states v.state).visitors
      → Slotwise v p m (advance net ev vc v p m)
  unfolding advance set_forward copied_in copied_out
  advance-Slotwise (arrived ip) h =
      quiet-Slotwise v (arrived ip) _ m m refl refl refl refl (ground arith) b
  advance-Slotwise admitted h = quiet-Slotwise v admitted _ m _ refl refl refl refl (ground arith) b
  advance-Slotwise tracked h = reserves-Slotwise
  advance-Slotwise holding h = quiet-Slotwise v holding _ m m refl refl refl refl (ground arith) b
  advance-Slotwise (opened ch) h =
      quiet-Slotwise v (opened ch) _ m _ refl refl refl refl (ground arith) b
  advance-Slotwise (copying ch true true) h = copies-Slotwise ch
  advance-Slotwise (copying ch true false) h =
      stated-Slotwise v (copying ch true false) (copying ch false false) m (true, _) refl b
  advance-Slotwise (copying ch false true) h =
      stated-Slotwise v (copying ch false true) (copying ch false false) m (true, _) refl b
  advance-Slotwise (copying ch false false) h =
      quiet-Slotwise v (copying ch false false) _ m m refl refl refl refl refl b
  advance-Slotwise (closing_channel ch) h =
      quiet-Slotwise v (closing_channel ch) _ m _ refl refl refl refl refl b
  advance-Slotwise releasing h =
      stated-Slotwise v releasing untracking m (true, _) (omega arith) (omega arith)
  advance-Slotwise untracking h = quiet-Slotwise v untracking _ m _ refl refl refl refl refl b
  advance-Slotwise closing h = quiet-Slotwise v closing _ m _ refl refl refl refl refl b
  advance-Slotwise finished h = quiet-Slotwise v finished _ m m refl refl refl refl refl b
