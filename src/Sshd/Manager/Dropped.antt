-- ===== src/Sshd/Manager/Dropped.antt =====
-- What the methods of internal/tunnel/sshd/forward.go that end a forward have in common: they close
-- the one of their lease and keep those of the others.
use hyrule_network_proxy.Prelude.{
  ℕ, ◌≤◌, ◌<◌, ◌≡◌, ◌≢◌, refl, String, true, false, ite, Option, none, some, arith, Option-cases,
  inl, inr, string_discrete, ℕ_discrete,
}
use hyrule_network_proxy.Prelude.Map.{string_key, lookup, lookup-put, lookup-delete}
use hyrule_network_proxy.Sshd.Manager.{
  Manager, close_optional, replace_state, teardown, cancel_forward, on_conn_closed,
}

pub record IsOwned (m : Manager) : Type 0 where
  pub fresh_state : (id : String) (r : ℕ) → lookup id m.leases ≡ some r → r < m.next_state
  pub fresh_forward :
      (id : String) (r f : ℕ)
      → lookup id m.leases ≡ some r
      → (m.states r).forward ≡ some f
      → f < m.next_forward
  pub is_open :
      (id : String) (r f : ℕ)
      → lookup id m.leases ≡ some r
      → (m.states r).forward ≡ some f
      → (m.forwards f).closed ≡ false
  pub unshared :
      (i j : String) (r : ℕ) → lookup i m.leases ≡ some r → lookup j m.leases ≡ some r → i ≡ j
  pub exclusive :
      (i j : String) (r q f : ℕ)
      → lookup i m.leases ≡ some r
      → lookup j m.leases ≡ some q
      → (m.states r).forward ≡ some f
      → (m.states q).forward ≡ some f
      → i ≡ j
  pub no_leak :
      (f : ℕ)
      → f < m.next_forward
      → (m.forwards f).closed ≡ false
      → (id : String) × (r : ℕ) × (lookup id m.leases ≡ some r) × ((m.states r).forward ≡ some f)

-- The forward of a lease, if it has a connection with one.
abbrev pub forward_of : Manager → String → Option ℕ
forward_of m id = elim (lookup id m.leases) [ none ↦ none | some r ↦ (m.states r).forward ]

-- The second manager has closed the forward of the lease and keeps those of the others.
pub record Dropped (id : String) (m m' : Manager) : Type 0 where
  pub others : (j : String) → id ≢ j → lookup j m'.leases ≡ lookup j m.leases
  pub same_states :
      (j : String) (q : ℕ) → id ≢ j → lookup j m.leases ≡ some q → m'.states q ≡ m.states q
  pub itself :
      (q : ℕ)
      → lookup id m'.leases ≡ some q
      → ((m'.states q).forward ≡ none)
        × (q < m'.next_state)
        × ((j : String) → id ≢ j → lookup j m.leases ≢ some q)
  pub closes :
      (f : ℕ)
      → (m'.forwards f).closed ≡ (elim (forward_of m id) [
        | none ↦ (m.forwards f).closed
        | some g ↦ ite (ℕ_discrete g f) true (m.forwards f).closed
      ])
  pub next_states : m.next_state ≤ m'.next_state
  pub next_forwards : m'.next_forward ≡ m.next_forward

module _ (id : String) (m m' : Manager) (d : Dropped id m m') (v : IsOwned m) where
  -- A lease of the second manager with a forward is another lease, as it was.
  pub kept :
      (j : String) (r f : ℕ)
      → lookup j m'.leases ≡ some r
      → (m'.states r).forward ≡ some f
      → (id ≢ j) × (lookup j m.leases ≡ some r) × ((m.states r).forward ≡ some f)
  kept j r f at has = elim (string_discrete id j) [
    | yes p ↦ absurd (ground (arith, d.itself r))
    | no p ↦ (p, ground (arith, d.others j p), ground (arith, d.others j p, d.same_states j r p))
  ]

  still_owned :
      (f : ℕ)
      → f < m'.next_forward
      → (m'.forwards f).closed ≡ false
      → (j : String) × (r : ℕ) × (lookup j m'.leases ≡ some r) × ((m'.states r).forward ≡ some f)
  still_owned f below open_now =
      let (j, r, at, has) =
        v.no_leak f (ground (arith, d.next_forwards)) (ground (arith, d.closes f)) in
      let other : id ≢ j = λ e. ground (arith, d.closes f) in
      (j, r, ground (arith, d.others j other), ground (arith, d.same_states j r other))

  still_open :
      (j : String) (r f : ℕ)
      → (id ≢ j) × (lookup j m.leases ≡ some r) × ((m.states r).forward ≡ some f)
      → (m'.forwards f).closed ≡ false
  still_open j r f k = elim (Option-cases (lookup id m.leases)) [
    | inl absent ↦ ground (arith, d.closes f, v.is_open j r f k.1 k.2)
    | inr (q, at) ↦
        ground (arith, d.closes f, v.is_open j r f k.1 k.2, v.exclusive id j q r f at k.1)
  ]

  still_unshared :
      (i j : String) (r : ℕ)
      → lookup i m'.leases ≡ some r
      → lookup j m'.leases ≡ some r
      → Dec (id ≡ i)
      → Dec (id ≡ j)
      → i ≡ j
  still_unshared i j r ei ej (yes p) (yes q) = cc
  still_unshared i j r ei ej (yes p) (no q) =
      absurd ((d.itself r (ground arith)).2 j q (ground (arith, d.others j q)))
  still_unshared i j r ei ej (no p) (yes q) =
      absurd ((d.itself r (ground arith)).2 i p (ground (arith, d.others i p)))
  still_unshared i j r ei ej (no p) (no q) =
      ground (arith, v.unshared i j r, d.others i p, d.others j q)

  pub Dropped-IsOwned : IsOwned m'
  Dropped-IsOwned = record {
    fresh_state = λ j r at.
        ground
          (arith, d.itself r, d.others j, v.fresh_state j r, d.next_states, string_discrete id j);
    fresh_forward = λ j r f at has.
        let k = kept j r f at has in ground (arith, v.fresh_forward j r f k.1 k.2, d.next_forwards);
    is_open = λ j r f at has. still_open j r f (kept j r f at has);
    unshared =
        λ i j r ei ej. still_unshared i j r ei ej (string_discrete id i) (string_discrete id j);
    exclusive = λ i j r q f ei ej hi hj.
        let k = kept i r f ei hi in
        let l = kept j q f ej hj in v.exclusive i j r q f k.1 l.1 k.2 l.2;
    no_leak = still_owned;
  }

close_optional_closes :
    (o : Option ℕ) (m : Manager) (f : ℕ)
    → ((close_optional o m).forwards f).closed ≡ (elim o [
      | none ↦ (m.forwards f).closed
      | some g ↦ ite (ℕ_discrete g f) true (m.forwards f).closed
    ])
unfolding close_optional
close_optional_closes none m f = refl
close_optional_closes (some g) m f = ground arith

pub teardown-Dropped : (id : String) (m : Manager) → IsOwned m → Dropped id m (teardown id m)
unfolding teardown close_optional
teardown-Dropped id m v = record {
  others = λ j ne. ground (arith, lookup-delete id j m.leases);
  same_states = λ j q ne at. ground arith;
  itself = λ q at. absurd (ground (arith, lookup-delete id id m.leases));
  closes = λ f. ground arith;
  next_states = ground arith;
  next_forwards = ground arith;
}

pub on_conn_closed-Dropped :
    (id : String) (conn r : ℕ) (m : Manager)
    → lookup id m.leases ≡ some r
    → (m.states r).conn ≡ conn
    → Dropped id m (on_conn_closed id conn m)
unfolding on_conn_closed close_optional
on_conn_closed-Dropped id conn r m at mine = record {
  others = λ j ne. ground (arith, lookup-delete id j m.leases);
  same_states = λ j q ne e. ground arith;
  itself = λ q e. absurd (ground (arith, lookup-delete id id m.leases));
  closes = λ f. ground arith;
  next_states = ground arith;
  next_forwards = ground arith;
}

pub cancel_forward-Dropped :
    (id : String) (conn r : ℕ) (m : Manager)
    → IsOwned m
    → lookup id m.leases ≡ some r
    → (m.states r).conn ≡ conn
    → Dropped id m (cancel_forward id conn m)
unfolding cancel_forward close_optional
cancel_forward-Dropped id conn r m v at mine = record {
  others = λ j ne. ground arith;
  same_states = λ j q ne e. ground (arith, v.unshared id j r at);
  itself = λ q e. (
    ground arith,
    ground (arith, v.fresh_state id r at),
    λ j ne e'. ground (arith, v.unshared id j r at),
  );
  closes = λ f. ground arith;
  next_states = ground arith;
  next_forwards = ground arith;
}

pub replace_state-Dropped :
    (conn : ℕ) (id : String) (m : Manager)
    → IsOwned m
    → Dropped id m (replace_state conn id (lookup id m.leases) m)
unfolding replace_state close_optional
replace_state-Dropped conn id m v = record {
  others = λ j ne. ground (arith, lookup-put id j m.next_state m.leases);
  same_states = λ j q ne e. ground (arith, v.fresh_state j q e);
  itself = λ q e. (
    ground (arith, lookup-put id id m.next_state m.leases),
    ground (arith, lookup-put id id m.next_state m.leases),
    λ j ne e'. ground (arith, lookup-put id id m.next_state m.leases, v.fresh_state j q e'),
  );
  closes = λ f. ground arith;
  next_states = ground arith;
  next_forwards = ground arith;
}
