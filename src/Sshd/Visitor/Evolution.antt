-- ===== src/Sshd/Visitor/Evolution.antt =====
-- What the methods of the manager of internal/tunnel/sshd/forward.go may do under the visitors'
-- feet: open new forwards, and close forwards together with all that their visitors hold.
use hyrule_network_proxy.Prelude.{
  ℕ, ◌+◌, ◌≤◌, ◌<◌, ◌≡◌, ◌⊎◌, inl, inr, refl, ◌∙◌, String, Bool, true, false, Option, none, some,
  [], arith, Option-cases, Bool-cases, ◌==◌, write, ℕ_discrete, dec_lt, ap,
}
use hyrule_network_proxy.Prelude.Map.{string_key, nat_key, lookup, put, delete}
use hyrule_network_proxy.Lease.Model.{Lease, Net}
use hyrule_network_proxy.Sshd.Forward.{close, sockets, channels, new_forward}
use hyrule_network_proxy.Sshd.Manager.{
  Manager, close_forward, close_optional, close_conn, replace_state, new_state, install, teardown,
  cancel_forward, on_conn_closed,
}
use hyrule_network_proxy.Sshd.Manager.Cases.{register_conn_cases, start_forward_cases}
use hyrule_network_proxy.Sshd.Manager.Effects.{sockets_marked, channels_marked, mark_all-marks}
use hyrule_network_proxy.Sshd.Manager.Owned.{Step, registers, starts, tears, cancels, closes}

-- The forward has been closed, and with it the sockets and channels of those that it tracked.
pub record IsClosedOff (f : ℕ) (m m' : Manager) : Type 0 where
  pub is_closed : (m'.forwards f).closed ≡ true
  pub emptied : (m'.forwards f).visitors ≡ []
  pub sockets_shut :
      (vc : ℕ) (o : Option ℕ)
      → lookup vc (m.forwards f).visitors ≡ some o
      → m'.socket_closed vc ≡ true
  pub channels_shut :
      (vc ch : ℕ) → lookup vc (m.forwards f).visitors ≡ some (some ch) → m'.channel_closed ch ≡ true

pub record Evolves (m m' : Manager) : Type 0 where
  pub forward_kept :
      (f : ℕ) → f < m.next_forward → (m'.forwards f ≡ m.forwards f) ⊎ IsClosedOff f m m'
  pub sockets_grow : (vc : ℕ) → m.socket_closed vc ≡ true → m'.socket_closed vc ≡ true
  pub channels_grow : (ch : ℕ) → m.channel_closed ch ≡ true → m'.channel_closed ch ≡ true
  pub next_states : m.next_state ≤ m'.next_state
  pub next_forwards : m.next_forward ≤ m'.next_forward
  pub slots_kept : (r : ℕ) → r < m.next_state → (m'.states r).visitors ≡ (m.states r).visitors
  pub slots_fresh : (r : ℕ) → m.next_state ≤ r → r < m'.next_state → (m'.states r).visitors ≡ 0
  pub forwards_fresh :
      (f : ℕ) → m.next_forward ≤ f → f < m'.next_forward → (m'.forwards f).visitors ≡ []
  pub max_same : m'.max_visitors ≡ m.max_visitors

-- The same but for what the visitors do not see.
same_Evolves :
    (m m' : Manager)
    → m'.forwards ≡ m.forwards
    → m'.states ≡ m.states
    → m'.socket_closed ≡ m.socket_closed
    → m'.channel_closed ≡ m.channel_closed
    → m'.next_state ≡ m.next_state
    → m'.next_forward ≡ m.next_forward
    → m'.max_visitors ≡ m.max_visitors
    → Evolves m m'
same_Evolves m m' fs ss so ch ns nf mx = record {
  forward_kept = λ f h. inl (ground arith);
  sockets_grow = λ vc h. ground arith;
  channels_grow = λ vc h. ground arith;
  next_states = omega arith;
  next_forwards = omega arith;
  slots_kept = λ r h. ground arith;
  slots_fresh = λ r l h. absurd (omega arith);
  forwards_fresh = λ f l h. absurd (omega arith);
  max_same = mx;
}

refl-Evolves : (m : Manager) → Evolves m m
refl-Evolves m = same_Evolves m m refl refl refl refl refl refl refl

close_forward-IsClosedOff : (f : ℕ) (m : Manager) → IsClosedOff f m (close_forward f m)
unfolding close_forward close write
close_forward-IsClosedOff f m = record {
  is_closed = ground arith;
  emptied = ground arith;
  sockets_shut = λ vc o e. sockets_marked vc o (m.forwards f).visitors m.socket_closed e;
  channels_shut = λ vc ch e. channels_marked vc ch (m.forwards f).visitors m.channel_closed e;
}

closed_forward-IsClosedOff : (f g : ℕ) (m : Manager) → f ≡ g → IsClosedOff g m (close_forward f m)
closed_forward-IsClosedOff f g m e = rw (← e) (close_forward-IsClosedOff f m)

close_forward-Evolves : (f : ℕ) (m : Manager) → Evolves m (close_forward f m)
unfolding close_forward write
close_forward-Evolves f m = record {
  forward_kept = λ g h. elim (ℕ_discrete f g) [
    | yes e ↦ inr (closed_forward-IsClosedOff f g m e)
    | no ne ↦ inl (ground arith)
  ];
  sockets_grow = λ vc h. mark_all-marks vc (sockets (m.forwards f).visitors) m.socket_closed h;
  channels_grow = λ ch h. mark_all-marks ch (channels (m.forwards f).visitors) m.channel_closed h;
  next_states = omega arith;
  next_forwards = omega arith;
  slots_kept = λ r h. refl;
  slots_fresh = λ r l h. absurd (omega arith);
  forwards_fresh = λ f l h. absurd (omega arith);
  max_same = refl;
}

close_optional-Evolves : (o : Option ℕ) (m : Manager) → Evolves m (close_optional o m)
unfolding close_optional
close_optional-Evolves none m = refl-Evolves m
close_optional-Evolves (some f) m = close_forward-Evolves f m

Evolves-trans : (a b c : Manager) → Evolves a b → Evolves b c → Evolves a c
Evolves-trans a b c x y = record {
  forward_kept =
      λ f h. kept f h (x.forward_kept f h) (y.forward_kept f (omega (arith, x.next_forwards)));
  sockets_grow = λ vc h. y.sockets_grow vc (x.sockets_grow vc h);
  channels_grow = λ ch h. y.channels_grow ch (x.channels_grow ch h);
  next_states = omega (arith, x.next_states, y.next_states);
  next_forwards = omega (arith, x.next_forwards, y.next_forwards);
  slots_kept = λ r h. y.slots_kept r (omega (arith, x.next_states)) ∙ x.slots_kept r h;
  slots_fresh = λ r l h. ground (arith, x.slots_fresh r l, y.slots_kept r, y.slots_fresh r);
  forwards_fresh = λ f l h. fresh f l h (dec_lt f b.next_forward);
  max_same = y.max_same ∙ x.max_same;
}
  where
    fresh :
        (f : ℕ)
        → a.next_forward ≤ f
        → f < c.next_forward
        → Dec (f < b.next_forward)
        → (c.forwards f).visitors ≡ []
    fresh f l h (no new) = y.forwards_fresh f (omega arith) h
    fresh f l h (yes old) = elim (y.forward_kept f old) [
      | inl e ↦ ap (λ w. w.visitors) e ∙ x.forwards_fresh f l old
      | inr d ↦ d.emptied
    ]

    kept :
        (f : ℕ)
        → f < a.next_forward
        → (b.forwards f ≡ a.forwards f) ⊎ IsClosedOff f a b
        → (c.forwards f ≡ b.forwards f) ⊎ IsClosedOff f b c
        → (c.forwards f ≡ a.forwards f) ⊎ IsClosedOff f a c
    kept f h (inl e) (inl e') = inl (e' ∙ e)
    kept f h (inl e) (inr d) = inr (record {
      is_closed = d.is_closed;
      emptied = d.emptied;
      sockets_shut = λ vc o at. d.sockets_shut vc o (ground arith);
      channels_shut = λ vc ch at. d.channels_shut vc ch (ground arith);
    })
    kept f h (inr d) (inl e) = inr (record {
      is_closed = ground (arith, d.is_closed);
      emptied = ground (arith, d.emptied);
      sockets_shut = λ vc o at. y.sockets_grow vc (d.sockets_shut vc o at);
      channels_shut = λ vc ch at. y.channels_grow ch (d.channels_shut vc ch at);
    })
    kept f h (inr d) (inr d') = inr (record {
      is_closed = d'.is_closed;
      emptied = d'.emptied;
      sockets_shut = λ vc o at. y.sockets_grow vc (d.sockets_shut vc o at);
      channels_shut = λ vc ch at. y.channels_grow ch (d.channels_shut vc ch at);
    })

close_conn-Evolves : (c : ℕ) (m : Manager) → Evolves m (close_conn c m)
unfolding close_conn
close_conn-Evolves c m = same_Evolves m (close_conn c m) refl refl refl refl refl refl refl

teardown-Evolves : (id : String) (m : Manager) → Evolves m (teardown id m)
unfolding teardown
teardown-Evolves id m = elim (Option-cases (lookup id m.leases)) [
  | inl e ↦ rw (e, teardown) (refl-Evolves m)
  | inr (r, e) ↦
      let m₁ : Manager = record m { leases = delete id m.leases } in
      let m₂ = close_optional (m.states r).forward m₁ in
      rw (e, teardown)
        (Evolves-trans m m₁ (close_conn (m.states r).conn m₂)
          (same_Evolves m m₁ refl refl refl refl refl refl refl)
          (Evolves-trans m₁ m₂ (close_conn (m.states r).conn m₂)
            (close_optional-Evolves (m.states r).forward m₁)
            (close_conn-Evolves (m.states r).conn m₂)))
]

on_conn_closed-Evolves :
    (id : String) (conn : ℕ) (m : Manager) → Evolves m (on_conn_closed id conn m)
unfolding on_conn_closed
on_conn_closed-Evolves id conn m = elim (Option-cases (lookup id m.leases)) [
  | inl e ↦ rw (e, on_conn_closed) (refl-Evolves m)
  | inr (r, e) ↦ elim (Bool-cases ((m.states r).conn == conn)) [
    | inr other ↦ rw (e, other, on_conn_closed) (refl-Evolves m)
    | inl mine ↦
        let m₁ : Manager = record m { leases = delete id m.leases } in
        rw (e, mine, on_conn_closed)
          (Evolves-trans m m₁ (close_optional (m.states r).forward m₁)
            (same_Evolves m m₁ refl refl refl refl refl refl refl)
            (close_optional-Evolves (m.states r).forward m₁))
  ]
]

-- A state that differs but in its forward.
idle_state-Evolves :
    (r : ℕ) (m : Manager)
    → Evolves m (record m { states = write m.states r (record (m.states r) { forward = none }) })
unfolding write
idle_state-Evolves r m = record {
  forward_kept = λ f h. inl refl;
  sockets_grow = λ vc h. h;
  channels_grow = λ ch h. h;
  next_states = omega arith;
  next_forwards = omega arith;
  slots_kept = λ q h. ground arith;
  slots_fresh = λ q l h. absurd (omega arith);
  forwards_fresh = λ f l h. absurd (omega arith);
  max_same = refl;
}

cancel_forward-Evolves :
    (id : String) (conn : ℕ) (m : Manager) → Evolves m (cancel_forward id conn m)
unfolding cancel_forward
cancel_forward-Evolves id conn m = elim (Option-cases (lookup id m.leases)) [
  | inl e ↦ rw (e, cancel_forward) (refl-Evolves m)
  | inr (r, e) ↦ elim (Bool-cases ((m.states r).conn == conn)) [
    | inr other ↦ rw (e, other, cancel_forward) (refl-Evolves m)
    | inl mine ↦
        let m₁ : Manager = record m {
          states = write m.states r (record (m.states r) { forward = none });
        } in
        rw (e, mine, cancel_forward)
          (Evolves-trans m m₁ (close_optional (m.states r).forward m₁) (idle_state-Evolves r m)
            (close_optional-Evolves (m.states r).forward m₁))
  ]
]

-- The state of a new connection.
added_state-Evolves :
    (conn : ℕ) (id : String) (m : Manager)
    → Evolves m (record m {
      leases = put id m.next_state m.leases;
      states = write m.states m.next_state (new_state conn);
      next_state = m.next_state + 1;
    })
unfolding write new_state
added_state-Evolves conn id m = record {
  forward_kept = λ f h. inl refl;
  sockets_grow = λ vc h. h;
  channels_grow = λ ch h. h;
  next_states = omega arith;
  next_forwards = omega arith;
  slots_kept = λ q h. ground arith;
  slots_fresh = λ q l h. ground arith;
  forwards_fresh = λ f l h. absurd (omega arith);
  max_same = refl;
}

replace_state-Evolves :
    (conn : ℕ) (id : String) (o : Option ℕ) (m : Manager) → Evolves m (replace_state conn id o m)
unfolding replace_state
replace_state-Evolves conn id none m = added_state-Evolves conn id m
replace_state-Evolves conn id (some r) m =
    let st = m.states r in
    let m₁ : Manager = record m {
      leases = put id m.next_state m.leases;
      states = write m.states m.next_state (new_state conn);
      next_state = m.next_state + 1;
    } in
    let m₂ = close_optional st.forward m₁ in
    let done =
      Evolves-trans m m₁ m₂ (added_state-Evolves conn id m)
        (close_optional-Evolves st.forward m₁) in
    elim (Bool-cases (st.conn == conn)) [
      | inl mine ↦ rw (mine, replace_state) done
      | inr other ↦
          rw (other, replace_state)
            (Evolves-trans m m₂ (close_conn st.conn m₂) done (close_conn-Evolves st.conn m₂))
    ]

install-Evolves :
    (net : Net) (l : Lease) (bind_addr : String) (requested : ℕ) (binds : Bool) (r : ℕ)
    (m : Manager)
    → Evolves m (install net l bind_addr requested binds r m).1
unfolding install write new_forward
install-Evolves net l bind_addr requested false r m = refl-Evolves m
install-Evolves net l bind_addr requested true r m = record {
  forward_kept = λ f h. inl (ground arith);
  sockets_grow = λ vc h. h;
  channels_grow = λ ch h. h;
  next_states = omega arith;
  next_forwards = omega arith;
  slots_kept = λ q h. ground arith;
  slots_fresh = λ q l h. absurd (omega arith);
  forwards_fresh = λ f l h. ground arith;
  max_same = refl;
}

-- Each method of the manager.
pub Step-Evolves : {m m' : Manager} → Step m m' → Evolves m m'
Step-Evolves (registers store now conn id m) =
    register_conn_cases store now conn id m (λ x. Evolves m x.1) (λ _. refl-Evolves m)
      (λ _. replace_state-Evolves conn id (lookup id m.leases) m)
Step-Evolves (starts net store now conn id bind_addr requested binds m) =
    start_forward_cases net store now conn id bind_addr requested binds m (λ x. Evolves m x.1)
      (λ _. refl-Evolves m) (λ l r _ _ _ _ _. install-Evolves net l bind_addr requested binds r m)
Step-Evolves (tears id m) = teardown-Evolves id m
Step-Evolves (cancels id conn m) = cancel_forward-Evolves id conn m
Step-Evolves (closes id conn m) = on_conn_closed-Evolves id conn m
