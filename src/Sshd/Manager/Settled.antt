-- ===== src/Sshd/Manager/Settled.antt =====
-- The manager of internal/tunnel/sshd/forward.go once the forwards that its methods have taken out are
-- closed: closing them later comes to the same as closing them at once.
use hyrule_network_proxy.Prelude.{
  write, ℕ, ◌+◌, ◌-◌, ◌<◌, ◌≡◌, refl, String, ite, Option, none, some, if◌then◌else◌, ℤ, arith, ltb,
  Option-cases, inl, inr, ℕ_discrete,
}
use hyrule_network_proxy.Prelude.Map.{string_key, lookup}
use hyrule_network_proxy.Sshd.Forward.{close}
use hyrule_network_proxy.Sshd.Manager.{
  Manager, LeaseLookup, close_forward, close_optional, close_conn,
}
use hyrule_network_proxy.Sshd.Manager.Locked.{
  Taken, close_taken, register_locked, teardown_locked, cancel_locked, closed_locked,
}

-- `q f` counts the goroutines that have yet to close the forward.
unfoldable pub bump : Option ℕ → (ℕ → ℕ) → ℕ → ℕ
bump none q g = q g
bump (some f) q g = ite (ℕ_discrete f g) (q g + 1) (q g)

unfoldable pub fewer : ℕ → (ℕ → ℕ) → ℕ → ℕ
fewer f q g = ite (ℕ_discrete f g) (q g - 1) (q g)

unfoldable pub settled : (ℕ → ℕ) → Manager → Manager
unfolding close
settled q m = record m {
  forwards = λ f. if ltb 0 (q f) then close (m.forwards f) else m.forwards f;
}

-- The leases, the forward of each connection, and for each forward whether it is closed, and its port.
pub record Alike (m m' : Manager) : Type 0 where
  pub leases : m'.leases ≡ m.leases
  pub states : (r : ℕ) → (m'.states r).forward ≡ (m.states r).forward
  pub closed : (f : ℕ) → (m'.forwards f).closed ≡ (m.forwards f).closed
  pub ports : (f : ℕ) → (m'.forwards f).port ≡ (m.forwards f).port
  pub next_state : m'.next_state ≡ m.next_state
  pub next_forward : m'.next_forward ≡ m.next_forward

pub close_taken-Alike :
    (q : ℕ → ℕ) (t : Taken) (m : Manager)
    → Alike (close_taken (t, settled q m)) (settled (bump t.forward q) m)
unfolding settled bump close_conn close_optional close_forward write close
close_taken-Alike q t m = elim (Option-cases t.forward) [
  | inl e ↦ record {
    leases = ground arith;
    states = λ r. ground arith;
    closed = λ f. ground arith;
    ports = λ f. ground arith;
    next_state = ground arith;
    next_forward = ground arith;
  }
  | inr (g, e) ↦ record {
    leases = ground arith;
    states = λ r. ground arith;
    closed = λ f. ground arith;
    ports = λ f. ground arith;
    next_state = ground arith;
    next_forward = ground arith;
  }
]

pub close_forward-Alike :
    (q : ℕ → ℕ) (g : ℕ) (m : Manager)
    → 0 < q g
    → Alike (settled q m) (settled (fewer g q) (close_forward g m))
unfolding settled fewer close_forward write close
close_forward-Alike q g m h = record {
  leases = refl;
  states = λ r. refl;
  closed = λ f. ground arith;
  ports = λ f. ground arith;
  next_state = refl;
  next_forward = refl;
}

pub teardown_locked-settled :
    (q : ℕ → ℕ) (id : String) (m : Manager)
    → teardown_locked id (settled q m)
      ≡ ((teardown_locked id m).0, settled q (teardown_locked id m).1)
unfolding teardown_locked settled
teardown_locked-settled q id m = elim (Option-cases (lookup id m.leases)) [
  | inl e ↦ ground arith
  | inr (r, e) ↦ ground arith
]

pub cancel_locked-settled :
    (q : ℕ → ℕ) (id : String) (conn : ℕ) (m : Manager)
    → cancel_locked id conn (settled q m)
      ≡ ((cancel_locked id conn m).0, settled q (cancel_locked id conn m).1)
unfolding cancel_locked settled
cancel_locked-settled q id conn m = elim (Option-cases (lookup id m.leases)) [
  | inl e ↦ ground arith
  | inr (r, e) ↦ ground arith
]

pub closed_locked-settled :
    (q : ℕ → ℕ) (id : String) (conn : ℕ) (m : Manager)
    → closed_locked id conn (settled q m)
      ≡ ((closed_locked id conn m).0, settled q (closed_locked id conn m).1)
unfolding closed_locked settled
closed_locked-settled q id conn m = elim (Option-cases (lookup id m.leases)) [
  | inl e ↦ ground arith
  | inr (r, e) ↦ ground arith
]

pub register_locked-settled :
    (q : ℕ → ℕ) (store : LeaseLookup) (now : ℤ) (conn : ℕ) (id : String) (m : Manager)
    → register_locked store now conn id (settled q m)
      ≡ ((register_locked store now conn id m).0, settled q (register_locked store now conn id m).1)
unfolding register_locked settled
register_locked-settled q store now conn id m = elim (Option-cases (lookup id m.leases)) [
  | inl e ↦ ground arith
  | inr (r, e) ↦ ground arith
]
