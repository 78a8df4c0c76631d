-- ===== src/Sshd/Manager/Cases.antt =====
-- Case analysis of the methods of internal/tunnel/sshd/forward.go.
use hyrule_network_proxy.Prelude.{
  ℕ, ◌==◌, ◌≡◌, refl, String, Bool, true, false, Option, none, some, arith, ℤ, Option-cases,
  Bool-cases, inl, inr,
}
use hyrule_network_proxy.Prelude.Map.{string_key, lookup}
use hyrule_network_proxy.Lease.Model.{Lease, Net, expired}
use hyrule_network_proxy.Sshd.Manager.{
  Manager, LeaseLookup, Started, ForwardError, refused, lease_gone, duplicate_forward, is_live,
  replace_state, register_conn, install, start_on_state, start_forward, cancel_forward,
  on_conn_closed,
}

same_conn : (a b : ℕ) → (a == b) ≡ true → a ≡ b
same_conn a b e = ground arith

pub register_conn_cases :
    (store : LeaseLookup) (now : ℤ) (conn : ℕ) (id : String) (m : Manager)
    (P : Bool × Manager → Type 0)
    → (is_live store now id ≡ false → P (false, m))
    → (is_live store now id ≡ true → P (true, replace_state conn id (lookup id m.leases) m))
    → P (register_conn store now conn id m)
unfolding register_conn
register_conn_cases store now conn id m P gone live = elim (Bool-cases (is_live store now id)) [
  | inl e ↦ rw (e, register_conn) (live e)
  | inr e ↦ rw (e, register_conn) (gone e)
]

module _ (net : Net) (conn : ℕ) (bind_addr : String) (requested : ℕ) (binds : Bool) (m : Manager)
    (P : Started × Manager → Type 0) where
  start_on_state_cases :
      (l : Lease) (o : Option ℕ)
      → ((e : ForwardError) → P (refused e, m))
      → ((r : ℕ)
          → o ≡ some r
          → (m.states r).conn ≡ conn
          → (m.states r).forward ≡ none
          → P (install net l bind_addr requested binds r m))
      → P (start_on_state net l conn bind_addr requested binds o m)
  unfolding start_on_state
  start_on_state_cases l none refuses installs = refuses lease_gone
  start_on_state_cases l (some r) refuses installs = elim (Bool-cases ((m.states r).conn == conn)) [
    | inr e ↦ rw (e, start_on_state) (refuses lease_gone)
    | inl e ↦ elim (Option-cases (m.states r).forward) [
      | inl idle ↦ rw (e, idle, start_on_state) (installs r refl (same_conn _ conn e) idle)
      | inr (f, has) ↦ rw (e, has, start_on_state) (refuses duplicate_forward)
    ]
  ]

pub start_forward_cases :
    (net : Net) (store : LeaseLookup) (now : ℤ) (conn : ℕ) (id bind_addr : String) (requested : ℕ)
    (binds : Bool) (m : Manager) (P : Started × Manager → Type 0)
    → ((e : ForwardError) → P (refused e, m))
    → ((l : Lease) (r : ℕ)
        → store.get id ≡ some l
        → expired l now ≡ false
        → lookup id m.leases ≡ some r
        → (m.states r).conn ≡ conn
        → (m.states r).forward ≡ none
        → P (install net l bind_addr requested binds r m))
    → P (start_forward net store now conn id bind_addr requested binds m)
unfolding start_forward
start_forward_cases net store now conn id bind_addr requested binds m P refuses installs =
    elim (Option-cases (store.get id)) [
      | inl e ↦ rw (e, start_forward) (refuses lease_gone)
      | inr (l, e) ↦ elim (Bool-cases (expired l now)) [
        | inl late ↦ rw (e, late, start_forward) (refuses lease_gone)
        | inr live ↦
            rw (e, live, start_forward)
              (start_on_state_cases net conn bind_addr requested binds m P l (lookup id m.leases)
                refuses (λ r. installs l r e live))
      ]
    ]

pub cancel_forward_cases :
    (id : String) (conn : ℕ) (m : Manager) (P : Manager → Type 0)
    → P m
    → ((r : ℕ)
        → lookup id m.leases ≡ some r
        → (m.states r).conn ≡ conn
        → P (cancel_forward id conn m))
    → P (cancel_forward id conn m)
unfolding cancel_forward
cancel_forward_cases id conn m P same done = elim (Option-cases (lookup id m.leases)) [
  | inl e ↦ rw (e, cancel_forward) same
  | inr (r, e) ↦ elim (Bool-cases ((m.states r).conn == conn)) [
    | inl mine ↦ done r e (same_conn _ conn mine)
    | inr other ↦ rw (e, other, cancel_forward) same
  ]
]

pub on_conn_closed_cases :
    (id : String) (conn : ℕ) (m : Manager) (P : Manager → Type 0)
    → P m
    → ((r : ℕ)
        → lookup id m.leases ≡ some r
        → (m.states r).conn ≡ conn
        → P (on_conn_closed id conn m))
    → P (on_conn_closed id conn m)
unfolding on_conn_closed
on_conn_closed_cases id conn m P same done = elim (Option-cases (lookup id m.leases)) [
  | inl e ↦ rw (e, on_conn_closed) same
  | inr (r, e) ↦ elim (Bool-cases ((m.states r).conn == conn)) [
    | inl mine ↦ done r e (same_conn _ conn mine)
    | inr other ↦ rw (e, other, on_conn_closed) same
  ]
]
