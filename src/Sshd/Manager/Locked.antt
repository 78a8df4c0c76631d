-- ===== src/Sshd/Manager/Locked.antt =====
-- The methods of the manager in internal/tunnel/sshd/forward.go in their two parts: what they do while
-- they hold the manager's mutex, and what they close behind it. The methods of the parent are the two
-- parts one after the other, with nothing in between.
use hyrule_network_proxy.Prelude.{
  write, ℕ, ◌+◌, ◌==◌, ◌≡◌, String, Option, none, some, if◌then◌else◌, ℤ, arith, Option-cases, inl,
  inr,
}
use hyrule_network_proxy.Prelude.Map.{string_key, lookup, put, delete}
use hyrule_network_proxy.Sshd.Manager.{
  Manager, LeaseLookup, is_live, new_state, close_optional, close_conn, replace_state,
  register_conn, teardown, cancel_forward, on_conn_closed,
}

-- What a method has taken out of the manager and is to close.
pub record Taken : Type 0 where
  pub forward : Option ℕ
  pub conn : Option ℕ

abbrev pub nothing : Taken
nothing = record { forward = none; conn = none }

abbrev pub close_conn_of : Option ℕ → Manager → Manager
close_conn_of none m = m
close_conn_of (some c) m = close_conn c m

-- Behind the mutex: the forward, then the connection.
abbrev pub close_taken : Taken × Manager → Manager
close_taken (t, m) = close_conn_of t.conn (close_optional t.forward m)

abbrev pub replaced : Option ℕ → ℕ → Manager → Taken
replaced old conn m = elim old [
  | none ↦ nothing
  | some r ↦
      let st = m.states r in
      record { forward = st.forward; conn = (if st.conn == conn then none else some st.conn) }
]

unfoldable pub put_state : ℕ → String → Manager → Manager
unfolding write new_state
put_state conn id m = record m {
  leases = put id m.next_state m.leases;
  states = write m.states m.next_state (new_state conn);
  next_state = m.next_state + 1;
}

unfoldable pub register_locked : LeaseLookup → ℤ → ℕ → String → Manager → Taken × Manager
unfolding put_state
register_locked store now conn id m =
    if is_live store now id
    then (replaced (lookup id m.leases) conn m, put_state conn id m)
    else (nothing, m)

unfoldable pub teardown_locked : String → Manager → Taken × Manager
teardown_locked id m = elim (lookup id m.leases) [
  | none ↦ (nothing, m)
  | some r ↦
      let st = m.states r in
      (
        record { forward = st.forward; conn = some st.conn },
        record m { leases = delete id m.leases },
      )
]

unfoldable pub cancel_locked : String → ℕ → Manager → Taken × Manager
unfolding write
cancel_locked id conn m = elim (lookup id m.leases) [
  | none ↦ (nothing, m)
  | some r ↦
      let st = m.states r in
      if st.conn == conn
      then (
        record { forward = st.forward; conn = none },
        record m { states = write m.states r (record st { forward = none }) },
      )
      else (nothing, m)
]

unfoldable pub closed_locked : String → ℕ → Manager → Taken × Manager
closed_locked id conn m = elim (lookup id m.leases) [
  | none ↦ (nothing, m)
  | some r ↦
      let st = m.states r in
      if st.conn == conn
      then (record { forward = st.forward; conn = none }, record m { leases = delete id m.leases })
      else (nothing, m)
]

pub teardown-eq-close_taken :
    (id : String) (m : Manager) → teardown id m ≡ close_taken (teardown_locked id m)
unfolding teardown teardown_locked
teardown-eq-close_taken id m = elim (Option-cases (lookup id m.leases)) [
  | inl e ↦ ground arith
  | inr (r, e) ↦ ground arith
]

pub cancel_forward-eq-close_taken :
    (id : String) (conn : ℕ) (m : Manager)
    → cancel_forward id conn m ≡ close_taken (cancel_locked id conn m)
unfolding cancel_forward cancel_locked
cancel_forward-eq-close_taken id conn m = elim (Option-cases (lookup id m.leases)) [
  | inl e ↦ ground arith
  | inr (r, e) ↦ ground arith
]

pub on_conn_closed-eq-close_taken :
    (id : String) (conn : ℕ) (m : Manager)
    → on_conn_closed id conn m ≡ close_taken (closed_locked id conn m)
unfolding on_conn_closed closed_locked
on_conn_closed-eq-close_taken id conn m = elim (Option-cases (lookup id m.leases)) [
  | inl e ↦ ground arith
  | inr (r, e) ↦ ground arith
]

pub register_conn-eq-close_taken :
    (store : LeaseLookup) (now : ℤ) (conn : ℕ) (id : String) (m : Manager)
    → (register_conn store now conn id m).1 ≡ close_taken (register_locked store now conn id m)
unfolding register_conn register_locked replace_state
register_conn-eq-close_taken store now conn id m = elim (Option-cases (lookup id m.leases)) [
  | inl e ↦ ground arith
  | inr (r, e) ↦ ground arith
]
