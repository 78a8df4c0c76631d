-- ===== src/Sshd/Visitor/Tracking.antt =====
-- The tables of visitors of internal/tunnel/sshd/forward.go under every interleaving.
use hyrule_network_proxy.Prelude.{
  ℕ, ◌<◌, ◌≡◌, ◌≢◌, refl, sym, Option, none, [], arith, inl, inr, write, ◌⊎◌, ℕ_discrete, dec_lt,
  Option-cases, Bool-cases, write-cases,
}
use hyrule_network_proxy.Prelude.Map.{nat_key, lookup}
use hyrule_network_proxy.Lease.Model.{Ip}
use hyrule_network_proxy.Sshd.Manager.{Manager}
use hyrule_network_proxy.Sshd.Visitor.{
  Phase, arrived, System, advance, set_phase, visit, accept, Move, manages, accepts, visits, Run,
  start, later,
}
use hyrule_network_proxy.Sshd.Visitor.Evolution.{Evolves, IsClosedOff, Step-Evolves}
use hyrule_network_proxy.Sshd.Visitor.Caught.{Held, advance-Held}
use hyrule_network_proxy.Sshd.Visitor.Apart.{Apart, Apart-Held, advance-Apart}

-- Each visitor is held as its phase says, and a forward tracks its own visitors only.
pub record IsCaught (s : System) : Type 0 where
  pub known_forward : (i : ℕ) → i < s.next_visitor → (s.visitors i).forward < s.manager.next_forward
  pub held :
      (i : ℕ) → i < s.next_visitor → Held i (s.visitors i).forward (s.visitors i).phase s.manager
  pub own :
      (i f : ℕ)
      → f < s.manager.next_forward
      → lookup i (s.manager.forwards f).visitors ≢ none
      → (i < s.next_visitor) × ((s.visitors i).forward ≡ f)

empty_lookup : (i : ℕ) → lookup {V = Option ℕ} i [] ≡ none
unfolding lookup
empty_lookup i = refl

evolved-Held :
    (i f : ℕ) (p : Phase) (m m' : Manager)
    → Evolves m m'
    → (m'.forwards f ≡ m.forwards f) ⊎ IsClosedOff f m m'
    → Held i f p m
    → Held i f p m'
evolved-Held i f p m m' d (inl e) h = record {
  socket_shut = λ t c. d.sockets_grow i (h.socket_shut t (ground arith));
  entered = λ t c. ground (arith, h.entered t);
  channel_shut = λ ch q c. d.channels_grow ch (h.channel_shut ch q (ground arith));
  channel_entered = λ ch q c. ground (arith, h.channel_entered ch q);
  left = λ t. ground (arith, h.left t);
  ended = λ t. d.sockets_grow i (h.ended t);
}
evolved-Held i f p m m' d (inr x) h = record {
  socket_shut = λ t c. elim (Bool-cases (m.forwards f).closed) [
    | inl shut ↦ d.sockets_grow i (h.socket_shut t shut)
    | inr live ↦ elim (Option-cases (lookup i (m.forwards f).visitors)) [
      | inl absent ↦ absurd (h.entered t live absent)
      | inr (o, at) ↦ x.sockets_shut i o at
    ]
  ];
  entered = λ t c. absurd (ground (arith, x.is_closed));
  channel_shut = λ ch q c. elim (Bool-cases (m.forwards f).closed) [
    | inl shut ↦ d.channels_grow ch (h.channel_shut ch q shut)
    | inr live ↦ x.channels_shut i ch (h.channel_entered ch q live)
  ];
  channel_entered = λ ch q c. absurd (ground (arith, x.is_closed));
  left = λ t. ground (arith, x.emptied, empty_lookup i);
  ended = λ t. d.sockets_grow i (h.ended t);
}

module _ (s : System) (m : Manager) (d : Evolves s.manager m) (v : IsCaught s) where
  evolved_own :
      (i f : ℕ)
      → f < m.next_forward
      → lookup i (m.forwards f).visitors ≢ none
      → Dec (f < s.manager.next_forward)
      → (i < s.next_visitor) × ((s.visitors i).forward ≡ f)
  evolved_own i f h at (no new) =
      absurd (at (ground (arith, d.forwards_fresh f (omega arith) h, empty_lookup i)))
  evolved_own i f h at (yes old) = elim (d.forward_kept f old) [
    | inl e ↦ v.own i f old (ground arith)
    | inr x ↦ absurd (at (ground (arith, x.emptied, empty_lookup i)))
  ]

  manages-IsCaught : IsCaught (record s { manager = m })
  manages-IsCaught = record {
    known_forward = λ i h. omega (arith, v.known_forward i h, d.next_forwards);
    held = λ i h.
        evolved-Held i (s.visitors i).forward (s.visitors i).phase s.manager m d
          (d.forward_kept (s.visitors i).forward (v.known_forward i h)) (v.held i h);
    own = λ i f h at. evolved_own i f h at (dec_lt f s.manager.next_forward);
  }

-- A visitor that has just arrived is not held.
arrived-Held :
    (i f : ℕ) (ip : Ip) (m : Manager)
    → lookup i (m.forwards f).visitors ≡ none
    → Held i f (arrived ip) m
arrived-Held i f ip m e = record {
  socket_shut = λ t c. absurd (ground arith);
  entered = λ t c. absurd (ground arith);
  channel_shut = λ ch q c. absurd (ground arith);
  channel_entered = λ ch q c. absurd (ground arith);
  left = λ t. e;
  ended = λ t. absurd (ground arith);
}

absent_of_new :
    (s : System) (f : ℕ)
    → IsCaught s
    → f < s.manager.next_forward
    → lookup s.next_visitor (s.manager.forwards f).visitors ≡ none
absent_of_new s f v h =
    elim (Option-cases (lookup s.next_visitor (s.manager.forwards f).visitors)) [
      | inl e ↦ e
      | inr (o, e) ↦ absurd (ground (arith, v.own s.next_visitor f h))
    ]

accepts-IsCaught :
    (s : System) (r f : ℕ) (ip : Ip)
    → f < s.manager.next_forward
    → IsCaught s
    → IsCaught (accept r f ip s)
unfolding accept write
accepts-IsCaught s r f ip hf v = record {
  known_forward = λ i h. ground (arith, v.known_forward i);
  held = λ i h.
      write-cases s.visitors s.next_visitor (record { state = r; forward = f; phase = arrived ip })
        (λ x. Held i x.forward x.phase s.manager) i
        (λ e. rw (← e) (arrived-Held s.next_visitor f ip s.manager (absent_of_new s f v hf)))
        (λ ne. v.held i (omega arith));
  own = λ i g h at. ground (arith, v.own i g h at);
}

module _ (s : System) (vc : ℕ) (r : Phase × Manager) (h : vc < s.next_visitor) (v : IsCaught s)
    (a : Apart vc (s.visitors vc).forward s.manager r.1)
    (w : Held vc (s.visitors vc).forward r.0 r.1) where
  stepped_own :
      (i f : ℕ)
      → f < s.manager.next_forward
      → lookup i (r.1.forwards f).visitors ≢ none
      → Dec (vc ≡ i)
      → Dec (f ≡ (s.visitors vc).forward)
      → (i < s.next_visitor) × ((s.visitors i).forward ≡ f)
  stepped_own i f l at (yes e) (yes own) = (ground arith, ground arith)
  stepped_own i f l at (yes e) (no ne) = v.own i f l (ground (arith, a.other_forwards f ne))
  stepped_own i f l at (no ne) d = v.own i f l (ground (arith, a.same_entry f i))

  stepped-IsCaught : IsCaught (set_phase vc r s)
  unfolding set_phase write
  stepped-IsCaught = record {
    known_forward = λ i l. ground (arith, v.known_forward i, a.next_forwards);
    held = λ i l.
        write-cases s.visitors vc (record (s.visitors vc) { phase = r.0 })
          (λ x. Held i x.forward x.phase r.1) i (λ e. rw (← e) w)
          (λ ne.
            Apart-Held vc (s.visitors vc).forward i (s.visitors i).forward (s.visitors i).phase
              s.manager r.1 a (λ e. ne (sym e)) (v.held i l));
    own = λ i f l at.
        let (known, on) =
          stepped_own i f (omega (arith, a.next_forwards)) at (ℕ_discrete vc i)
            (ℕ_discrete f (s.visitors vc).forward) in
        (known, ground arith);
  }

Move-IsCaught : {s t : System} → Move s t → IsCaught s → IsCaught t
unfolding visit
Move-IsCaught (manages s m st) v = manages-IsCaught s m (Step-Evolves st) v
Move-IsCaught (accepts s r f ip hr hf) v = accepts-IsCaught s r f ip hf v
Move-IsCaught (visits s net ev vc h) v =
    let x = s.visitors vc in
    stepped-IsCaught s vc (advance net ev vc x x.phase s.manager) h v
      (advance-Apart net ev vc x x.phase s.manager)
      (advance-Held net ev vc x s.manager x.phase (v.held vc h))

-- From a system with the invariant, under every interleaving of the visitors with the methods of
-- the manager: a visitor that is under way when its forward is closed has its socket closed, and,
-- if it copies, its channel; while the forward is open, the visitor is in its table, with the
-- channel; and the table has no entry but those of the forward's own visitors that are under way.
pub Run-IsCaught : {s t : System} → IsCaught s → Run s t → IsCaught t
Run-IsCaught v start = v
Run-IsCaught v (later r mv) = Move-IsCaught mv (Run-IsCaught v r)
