-- ===== src/Tunnel/Daemon/Covered.antt =====
-- A lease that the SSH server serves is in the store, or its teardown is yet to come: how this
-- outlives each change of the store.
use hyrule_network_proxy.Prelude.{
  ℕ, ◌<◌, ◌≡◌, ◌≢◌, ◌⊎◌, inl, inr, refl, sym, ap, ◌∙◌, ◌+ℤ◌, subst, String, none, some, arith, ℤ,
  Bool-cases, string_discrete,
}
use hyrule_network_proxy.Lease.Error.{Result, ok, err}
use hyrule_network_proxy.Lease.Model.{Lease}
use hyrule_network_proxy.Lease.Store.{Store, CreateParams, Marked, get}
use hyrule_network_proxy.Lease.Store.Views.{Created, Extended, Removed}
use hyrule_network_proxy.Lease.Store.Expiry.{MarkedAs}
use hyrule_network_proxy.Lease.Store.Refine.{Leases, Serves, keeps, grants, renews, ends}
use hyrule_network_proxy.Tunnel.Daemon.{Daemon, one_more, after_revoke, after_mark}

-- The store has the lease with the port, or a teardown is pending.
abbrev pub IsCovered : Leases → (String → ℕ) → String → ℕ → Type 0
IsCovered a p id port = ((l : Lease) × (a id ≡ some l) × (l.allocated_port ≡ port)) ⊎ (0 < p id)

-- Each lease is still there, with its port, or its teardown has become pending.
abbrev pub Keeps : Leases → Leases → (String → ℕ) → Type 0
Keeps a b q = (id : String) (l : Lease) → a id ≡ some l → IsCovered b q id l.allocated_port

abbrev pub Grows : (String → ℕ) → (String → ℕ) → Type 0
Grows p q = (id : String) → 0 < p id → 0 < q id

pub still_covered :
    (a b : Leases) (p q : String → ℕ)
    → Keeps a b q
    → Grows p q
    → (id : String) (port : ℕ) → IsCovered a p id port
    → IsCovered b q id port
still_covered a b p q keep grow id port (inr h) = inr (grow id h)
still_covered a b p q keep grow id port (inl (l, e, same)) =
    subst (λ k. IsCovered b q id k) same (keep id l e)

pub one_more-Grows : (id : String) (p : String → ℕ) → Grows p (one_more id p)
unfolding one_more
one_more-Grows id p j h = ground arith

-- A change of the store as the service makes it, where what ends has a teardown to come.
pub Serves-Keeps :
    (a b : Leases) (q : String → ℕ)
    → Serves a b
    → ((id : String) → a id ≢ none → b id ≡ none → 0 < q id)
    → Keeps a b q
Serves-Keeps a b q (keeps same) gone j m e = inl (m, ground (arith, same j), refl)
Serves-Keeps a b q (grants id l fresh named apart set) gone j m e =
    inl (m, ground (arith, set j), refl)
Serves-Keeps a b q (renews id d l at set) gone j m e = elim (string_discrete id j) [
  | yes same ↦
      let known : some l ≡ some m = sym at ∙ ap a same ∙ e in
      inl (record l { expires_at = l.expires_at +ℤ d }, ground (arith, set j), ground arith)
  | no other ↦ inl (m, ground (arith, set j), refl)
]
Serves-Keeps a b q (ends id at set) gone j m e = elim (string_discrete id j) [
  | yes same ↦ inr (gone j (ground arith) (ground (arith, set j)))
  | no other ↦ inl (m, ground (arith, set j), refl)
]

-- Create and Extend end no lease.
pub create_present :
    (p : CreateParams) (s : Store) (r : Result Lease × Store)
    → Created p s r
    → (id : String) → get s id ≢ none
    → get r.1 id ≢ none
create_present p s (err e, s') c id h = λ gone. h (sym (c id) ∙ gone)
create_present p s (ok l, s') c id h = λ gone. ground (arith, c.1 id)

pub extend_present :
    (i : String) (t : ℤ) (s : Store) (r : Result Lease × Store)
    → Extended i t s r
    → (id : String) → get s id ≢ none
    → get r.1 id ≢ none
extend_present i t s (err e, s') c id h = λ gone. h (ap (λ u. get u id) (sym c) ∙ gone)
extend_present i t s (ok l, s') c id h = λ gone. ground (arith, c.1 id)

-- What a removal takes out of the store has its teardown to come.
pub revoked_Keeps :
    (id : String) (d : Daemon) (r : Result (Unit {0}) × Store)
    → Removed id d.store r
    → Keeps (get d.store) (get (after_revoke id d r).store) (after_revoke id d r).pending
revoked_Keeps id d (err e, s) c j m at = inl (m, ap (λ u. get u j) c.0 ∙ at, refl)
revoked_Keeps id d (ok u, s) c j m at = elim (string_discrete id j) [
  | yes same ↦ inr (unfold one_more in ground arith)
  | no other ↦ inl (m, ground (arith, c.1 j), refl)
]

pub marked_Keeps :
    (id : String) (cutoff : ℤ) (d : Daemon) (r : Marked × Store)
    → MarkedAs id cutoff d.store r
    → Keeps (get d.store) (get (after_mark id d r).store) (after_mark id d r).pending
marked_Keeps id cutoff d (m, s) (found, done, not_done, failed, alive) j l at =
    elim (Bool-cases m.removed) [
      | inr stays ↦
          let same : get s j ≡ some l = ap (λ u. get u j) (not_done stays) ∙ at in
          inl (l, ground arith, refl)
      | inl gone ↦ elim (string_discrete id j) [
        | yes same ↦ let (due, x, y) = done gone in inr (unfold one_more in ground arith)
        | no other ↦ let (due, fine, c) = done gone in inl (l, ground (arith, c j), refl)
      ]
    ]

pub revoked_Grows :
    (id : String) (d : Daemon) (r : Result (Unit {0}) × Store)
    → Grows d.pending (after_revoke id d r).pending
revoked_Grows id d (err e, s) j h = h
revoked_Grows id d (ok u, s) j h = one_more-Grows id d.pending j h

pub marked_Grows :
    (id : String) (d : Daemon) (r : Marked × Store) → Grows d.pending (after_mark id d r).pending
marked_Grows id d (m, s) j h = elim (Bool-cases m.was_expired) [
  | inl e ↦ rw (e) (one_more-Grows id d.pending j h)
  | inr e ↦ rw (e) h
]
