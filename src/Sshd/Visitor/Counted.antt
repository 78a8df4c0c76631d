-- ===== src/Sshd/Visitor/Counted.antt =====
-- The count of a lease's visitors in internal/tunnel/sshd/forward.go is the number of goroutines
-- that hold one of its slots, under every interleaving.
use hyrule_network_proxy.Prelude.{
  ℕ, ◌≤◌, ◌<◌, ◌≡◌, sym, ◌∙◌, arith, number, number-write, number-suc, number-ge, number-eq-zero,
  write, ℕ_discrete, dec_lt,
}
use hyrule_network_proxy.Lease.Model.{Ip, Net}
use hyrule_network_proxy.Sshd.Manager.{Manager}
use hyrule_network_proxy.Sshd.Visitor.Evolution.{Evolves, Step-Evolves}
use hyrule_network_proxy.Sshd.Visitor.Slots.{holds_slot, IsCounted, Slotwise, advance-Slotwise}
use hyrule_network_proxy.Sshd.Visitor.{
  Phase, arrived, System, Event, set_phase, visit, accept, Move, manages, accepts, visits, Run,
  start, later,
}

evolved_count :
    (s : System) (m : Manager) (r : ℕ)
    → IsCounted s
    → Evolves s.manager m
    → r < m.next_state
    → Dec (r < s.manager.next_state)
    → ((m.states r).visitors ≡ number (holds_slot r) s.next_visitor s.visitors)
      × ((m.states r).visitors ≤ m.max_visitors)
evolved_count s m r v d h (yes old) = (
  d.slots_kept r old ∙ v.counted r old,
  omega (arith, d.slots_kept r old, v.bounded r old, d.max_same),
)
evolved_count s m r v d h (no new) =
    let empty = d.slots_fresh r (omega arith) h in
    (
      empty
          ∙ sym (
              number-eq-zero (holds_slot r) s.next_visitor s.visitors
                (λ i l. ground (arith, v.known_state i l))),
      omega (arith, empty),
    )

manages-IsCounted :
    (s : System) (m : Manager)
    → Evolves s.manager m
    → IsCounted s
    → IsCounted (record s { manager = m })
manages-IsCounted s m d v = record {
  known_state = λ i h. omega (arith, v.known_state i h, d.next_states);
  known_forward = λ i h. omega (arith, v.known_forward i h, d.next_forwards);
  counted = λ r h. (evolved_count s m r v d h (dec_lt r s.manager.next_state)).0;
  bounded = λ r h. (evolved_count s m r v d h (dec_lt r s.manager.next_state)).1;
}

accepts-IsCounted :
    (s : System) (r f : ℕ) (ip : Ip)
    → r < s.manager.next_state
    → f < s.manager.next_forward
    → IsCounted s
    → IsCounted (accept r f ip s)
unfolding accept write
accepts-IsCounted s r f ip hr hf v = record {
  known_state = λ i h. ground (arith, v.known_state i);
  known_forward = λ i h. ground (arith, v.known_forward i);
  counted = λ q h. ground (
    arith,
    v.counted q h,
    number-suc (holds_slot q) s.next_visitor s.visitors
        (record { state = r; forward = f; phase = arrived ip }),
  );
  bounded = v.bounded;
}

module _ (s : System) (vc : ℕ) (p : Phase) (m : Manager) (h : vc < s.next_visitor) (v : IsCounted s)
    (w : Slotwise (s.visitors vc) (s.visitors vc).phase s.manager (p, m)) where
  stepped_count :
      (q : ℕ)
      → q < s.manager.next_state
      → Dec ((s.visitors vc).state ≡ q)
      → ((m.states q).visitors
          ≡ number
              (holds_slot q)
              s.next_visitor
              (write s.visitors vc (record (s.visitors vc) { phase = p })))
        × ((m.states q).visitors ≤ s.manager.max_visitors)
  stepped_count q l (yes e) =
      let n =
        number-write (holds_slot q) s.next_visitor s.visitors vc
          (record (s.visitors vc) { phase = p }) h in
      ground (arith, n, w.itself, w.still_bounded, v.counted q l)
  stepped_count q l (no ne) =
      let n =
        number-write (holds_slot q) s.next_visitor s.visitors vc
          (record (s.visitors vc) { phase = p }) h in
      ground (arith, n, w.others q ne, v.bounded q l, v.counted q l)

  stepped-IsCounted : IsCounted (set_phase vc (p, m) s)
  unfolding set_phase write
  stepped-IsCounted = record {
    known_state = λ i l. ground (arith, v.known_state i l, w.next_states);
    known_forward = λ i l. ground (arith, v.known_forward i l, w.next_forwards);
    counted = λ q l.
        (stepped_count q (omega (arith, w.next_states)) (ℕ_discrete (s.visitors vc).state q)).0;
    bounded = λ q l. omega (
      arith,
      w.max_same,
      (stepped_count q (omega (arith, w.next_states)) (ℕ_discrete (s.visitors vc).state q)).1,
    );
  }

visits-IsCounted :
    (s : System) (net : Net) (ev : Event) (vc : ℕ)
    → vc < s.next_visitor
    → IsCounted s
    → IsCounted (visit net ev vc s)
unfolding visit
visits-IsCounted s net ev vc h v =
    let x = s.visitors vc in
    let n = number-ge (holds_slot x.state) s.next_visitor s.visitors vc h in
    let known = v.known_state vc h in
    stepped-IsCounted s vc _ _ h v (
      advance-Slotwise net ev vc x s.manager (v.bounded x.state known) x.phase
        (ground (arith, v.counted x.state known)))

pub Move-IsCounted : {s t : System} → Move s t → IsCounted s → IsCounted t
Move-IsCounted (manages s m st) v = manages-IsCounted s m (Step-Evolves st) v
Move-IsCounted (accepts s r f ip hr hf) v = accepts-IsCounted s r f ip hr hf v
Move-IsCounted (visits s net ev vc h) v = visits-IsCounted s net ev vc h v

-- From a system with the invariant, under every interleaving of the visitors with the methods of
-- the manager: the count of each lease is the number of the visitors that hold one of its slots,
-- and never more than the limit.
pub Run-IsCounted : {s t : System} → IsCounted s → Run s t → IsCounted t
Run-IsCounted v start = v
Run-IsCounted v (later r mv) = Move-IsCounted mv (Run-IsCounted v r)
