-- ===== src/Sshd/Manager/Delayed.antt =====
-- What the methods of internal/tunnel/sshd/forward.go take out of the manager, and the start of a
-- forward while others are still to be closed.
use hyrule_network_proxy.Prelude.{
  write, ℕ, ◌<◌, ◌≤◌, ◌≡◌, ◌==◌, refl, String, Bool, true, false, Option, none, some, ℤ, arith,
  Option-cases, Bool-cases, inl, inr,
}
use hyrule_network_proxy.Prelude.Map.{string_key, lookup}
use hyrule_network_proxy.Lease.Model.{Net, Lease, expired}
use hyrule_network_proxy.Sshd.Forward.{close, new_forward}
use hyrule_network_proxy.Sshd.Manager.{Manager, LeaseLookup, install, start_on_state, start_forward}
use hyrule_network_proxy.Sshd.Manager.Locked.{
  Taken, put_state, register_locked, teardown_locked, cancel_locked, closed_locked,
}
use hyrule_network_proxy.Sshd.Manager.Settled.{settled, Alike}

abbrev pub HasFresh : Manager → Type 0
HasFresh m =
    (id : String) (r f : ℕ)
    → lookup id m.leases ≡ some r
    → (m.states r).forward ≡ some f
    → f < m.next_forward

-- A method makes no forward, and takes one that the manager had.
pub record Takes (m : Manager) (r : Taken × Manager) : Type 0 where
  pub old : (f : ℕ) → r.0.forward ≡ some f → f < m.next_forward
  pub same : r.1.next_forward ≡ m.next_forward

pub teardown_locked-Takes :
    (id : String) (m : Manager) → HasFresh m → Takes m (teardown_locked id m)
unfolding teardown_locked
teardown_locked-Takes id m h = elim (Option-cases (lookup id m.leases)) [
  | inl e ↦ record { old = λ f has. ground arith; same = ground arith }
  | inr (r, e) ↦ record { old = λ f has. ground (arith, h id r f e); same = ground arith }
]

pub cancel_locked-Takes :
    (id : String) (conn : ℕ) (m : Manager) → HasFresh m → Takes m (cancel_locked id conn m)
unfolding cancel_locked
cancel_locked-Takes id conn m h = elim (Option-cases (lookup id m.leases)) [
  | inl e ↦ record { old = λ f has. ground arith; same = ground arith }
  | inr (r, e) ↦ record { old = λ f has. ground (arith, h id r f e); same = ground arith }
]

pub closed_locked-Takes :
    (id : String) (conn : ℕ) (m : Manager) → HasFresh m → Takes m (closed_locked id conn m)
unfolding closed_locked
closed_locked-Takes id conn m h = elim (Option-cases (lookup id m.leases)) [
  | inl e ↦ record { old = λ f has. ground arith; same = ground arith }
  | inr (r, e) ↦ record { old = λ f has. ground (arith, h id r f e); same = ground arith }
]

pub register_locked-Takes :
    (store : LeaseLookup) (now : ℤ) (conn : ℕ) (id : String) (m : Manager)
    → HasFresh m
    → Takes m (register_locked store now conn id m)
unfolding register_locked put_state
register_locked-Takes store now conn id m h = elim (Option-cases (lookup id m.leases)) [
  | inl e ↦ record { old = λ f has. ground arith; same = ground arith }
  | inr (r, e) ↦ record { old = λ f has. ground (arith, h id r f e); same = ground arith }
]

-- The forwards that are still to be closed are old ones.
abbrev pub AreOld : (ℕ → ℕ) → Manager → Type 0
AreOld q m = (f : ℕ) → m.next_forward ≤ f → q f ≡ 0

install-Alike :
    (q : ℕ → ℕ) (net : Net) (l : Lease) (bind_addr : String) (requested : ℕ) (binds : Bool) (r : ℕ)
    (m : Manager)
    → AreOld q m
    → Alike
        (install net l bind_addr requested binds r (settled q m)).1
        (settled q (install net l bind_addr requested binds r m).1)
unfolding install settled write new_forward close
install-Alike q net l bind_addr requested false r m h = record {
  leases = refl;
  states = λ r. refl;
  closed = λ f. refl;
  ports = λ f. refl;
  next_state = refl;
  next_forward = refl;
}
install-Alike q net l bind_addr requested true r m h = record {
  leases = refl;
  states = λ s. refl;
  closed = λ f. ground (arith, h f);
  ports = λ f. ground (arith, h f);
  next_state = refl;
  next_forward = refl;
}

same-Alike : (m : Manager) → Alike m m
same-Alike m = record {
  leases = refl;
  states = λ r. refl;
  closed = λ f. refl;
  ports = λ f. refl;
  next_state = refl;
  next_forward = refl;
}

start_on_state-Alike :
    (q : ℕ → ℕ) (net : Net) (l : Lease) (conn : ℕ) (bind_addr : String) (requested : ℕ)
    (binds : Bool) (o : Option ℕ) (m : Manager)
    → AreOld q m
    → Alike
        (start_on_state net l conn bind_addr requested binds o (settled q m)).1
        (settled q (start_on_state net l conn bind_addr requested binds o m).1)
unfolding start_on_state
start_on_state-Alike q net l conn bind_addr requested binds none m h = same-Alike (settled q m)
start_on_state-Alike q net l conn bind_addr requested binds (some r) m h =
    unfold settled in
    elim (Bool-cases ((m.states r).conn == conn)) [
      | inr e ↦ rw (e, start_on_state) (same-Alike (settled q m))
      | inl e ↦ elim (Option-cases (m.states r).forward) [
        | inl idle ↦
            rw (e, idle, start_on_state) (install-Alike q net l bind_addr requested binds r m h)
        | inr (f, has) ↦ rw (e, has, start_on_state) (same-Alike (settled q m))
      ]
    ]

pub start_forward-Alike :
    (q : ℕ → ℕ) (net : Net) (store : LeaseLookup) (now : ℤ) (conn : ℕ) (id bind_addr : String)
    (requested : ℕ) (binds : Bool) (m : Manager)
    → AreOld q m
    → Alike
        (start_forward net store now conn id bind_addr requested binds (settled q m)).1
        (settled q (start_forward net store now conn id bind_addr requested binds m).1)
unfolding start_forward
start_forward-Alike q net store now conn id bind_addr requested binds m h =
    elim (Option-cases (store.get id)) [
      | inl e ↦ rw (e, start_forward) (same-Alike (settled q m))
      | inr (l, e) ↦ elim (Bool-cases (expired l now)) [
        | inl late ↦ rw (e, late, start_forward) (same-Alike (settled q m))
        | inr live ↦
            rw (e, live, start_forward)
              (unfold settled in
                start_on_state-Alike q net l conn bind_addr requested binds (lookup id m.leases) m
                  h)
      ]
    ]

-- A start leaves the old forwards old.
pub start_forward-next :
    (net : Net) (store : LeaseLookup) (now : ℤ) (conn : ℕ) (id bind_addr : String) (requested : ℕ)
    (binds : Bool) (m : Manager)
    → m.next_forward
      ≤ (start_forward net store now conn id bind_addr requested binds m).1.next_forward
unfolding start_forward start_on_state install
start_forward-next net store now conn id bind_addr requested binds m = ground arith
