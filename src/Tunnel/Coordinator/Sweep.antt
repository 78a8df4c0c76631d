-- ===== src/Tunnel/Coordinator/Sweep.antt =====
-- SweepExpired of internal/tunnel/coordinator.go.
use hyrule_network_proxy.Prelude.{
  ℕ, ◌≡◌, ◌∙◌, refl, String, Bool, true, false, Option, none, arith, ℤ, List, [], ◌∷◌, ite,
  string_discrete, Bool-cases, inl, inr, ◌⊎◌, if◌then◌else◌, ltb,
}
use hyrule_network_proxy.Prelude.Map.{string_key, lookup}
use hyrule_network_proxy.Lease.Store.{Store, Marked, get, mark_expired_if_before, expired_before}
use hyrule_network_proxy.Lease.Store.Indexed.{IsIndexed}
use hyrule_network_proxy.Lease.Store.Expiry.{
  is_member, has_expired, MarkedAs, mark_expired_if_before-MarkedAs, expired_before-member,
}
use hyrule_network_proxy.Sshd.Manager.Effects.{lookup-teardown}
use hyrule_network_proxy.Tunnel.Coordinator.{
  Coordinator, sweep_one, sweep_loop, sweep_expired, refresh_metrics,
}

-- The connection of a lease.
abbrev conn_of : Coordinator → String → Option ℕ
conn_of c j = lookup j c.manager.leases

sweep_one-conn :
    (id : String) (c : Coordinator) (reaped : ℕ) (m : Marked) (s : Store) (j : String)
    → conn_of (sweep_one id c reaped (m, s)).1 j
      ≡ (if m.was_expired then ite (string_discrete id j) none (conn_of c j) else conn_of c j)
unfolding sweep_one
sweep_one-conn id c reaped m s j = ground (arith, lookup-teardown id j c.manager)

sweep_one-store :
    (id : String) (c : Coordinator) (reaped : ℕ) (m : Marked) (s : Store)
    → (sweep_one id c reaped (m, s)).1.store ≡ s
unfolding sweep_one
sweep_one-store id c reaped m s = ground arith

-- A round leaves each other lease as it was, and this one too or removed.
marked_get :
    (id : String) (cutoff : ℤ) (s s' : Store) (m : Marked) (j : String)
    → MarkedAs id cutoff s (m, s')
    → (get s' j ≡ get s j) ⊎ ((id ≡ j) × (has_expired cutoff (get s j) ≡ true) × (get s' j ≡ none))
marked_get id cutoff s s' m j d = elim (Bool-cases m.removed) [
  | inr stays ↦ inl (ground (arith, d.2 stays))
  | inl gone ↦ elim (string_discrete id j) [
    | no ne ↦ inl (ground (arith, (d.1 gone).2 j))
    | yes e ↦ inr (e, ground (arith, d.0, (d.1 gone).0), ground (arith, (d.1 gone).2 j))
  ]
]

-- What a part of the sweep does to each lease and its connection.
pub record SweptAs (cutoff : ℤ) (ids : List String) (c c' : Coordinator) : Type 0 where
  pub cut_off :
      (j : String)
      → is_member j ids ≡ true
      → has_expired cutoff (get c.store j) ≡ true
      → conn_of c' j ≡ none
  pub spares :
      (j : String)
      → has_expired cutoff (get c.store j) ≡ false
      → (get c'.store j ≡ get c.store j) × (conn_of c' j ≡ conn_of c j)
  pub removes : (j : String) → (get c'.store j ≡ get c.store j) ⊎ (get c'.store j ≡ none)
  pub stays_off : (j : String) → conn_of c j ≡ none → conn_of c' j ≡ none

-- One round and the rest of the rounds.
module _ (cutoff : ℤ) (id : String) (ids : List String) (c c₁ c' : Coordinator) (m : Marked)
    (d : MarkedAs id cutoff c.store (m, c₁.store))
    (conns : (j : String)
      → conn_of c₁ j
        ≡ (if m.was_expired then ite (string_discrete id j) none (conn_of c j) else conn_of c j))
    (rest : SweptAs cutoff ids c₁ c') where
  first_cut :
      (j : String)
      → is_member j (id ∷ ids) ≡ true
      → has_expired cutoff (get c.store j) ≡ true
      → conn_of c' j ≡ none
  first_cut j at late = elim (string_discrete id j) [
    | yes e ↦ rest.stays_off j (ground (arith, conns j, d.0))
    | no ne ↦ elim (marked_get id cutoff c.store c₁.store m j d) [
      | inr (e, late', gone) ↦ absurd (ne e)
      | inl same ↦ rest.cut_off j (ground arith) (ground arith)
    ]
  ]

  first_spares :
      (j : String)
      → has_expired cutoff (get c.store j) ≡ false
      → (get c'.store j ≡ get c.store j) × (conn_of c' j ≡ conn_of c j)
  first_spares j live = elim (marked_get id cutoff c.store c₁.store m j d) [
    | inr (e, late, gone) ↦ absurd (ground arith)
    | inl same ↦
        let r = rest.spares j (ground arith) in (r.0 ∙ same, r.1 ∙ ground (arith, conns j, d.0))
  ]

  pub SweptAs-cons : SweptAs cutoff (id ∷ ids) c c'
  SweptAs-cons = record {
    cut_off = first_cut;
    spares = first_spares;
    removes = λ j. ground (arith, rest.removes j, marked_get id cutoff c.store c₁.store m j d);
    stays_off = λ j e. rest.stays_off j (ground (arith, conns j));
  }

sweep_loop-SweptAs :
    (commits : String → Bool) (cutoff : ℤ) (ids : List String) (reaped : ℕ) (c : Coordinator)
    → SweptAs cutoff ids c (sweep_loop commits cutoff ids reaped c).1
unfolding sweep_loop
sweep_loop-SweptAs commits cutoff [] reaped c = record {
  cut_off = λ j at late. cc;
  spares = λ j live. (refl, refl);
  removes = λ j. inl refl;
  stays_off = λ j e. e;
}
sweep_loop-SweptAs commits cutoff (id ∷ ids) reaped c =
    let (m, s) = mark_expired_if_before (commits id) id cutoff c.store in
    let r = sweep_one id c reaped (m, s) in
    SweptAs-cons cutoff id ids c r.1 (sweep_loop commits cutoff ids r.0 r.1).1 m
      (rw (sweep_one-store id c reaped m s)
        (mark_expired_if_before-MarkedAs (commits id) id cutoff c.store))
      (sweep_one-conn id c reaped m s) (sweep_loop-SweptAs commits cutoff ids r.0 r.1)

refreshed :
    (cutoff : ℤ) (ids : List String) (c : Coordinator) (r : ℕ × Coordinator)
    → SweptAs cutoff ids c r.1
    → SweptAs cutoff ids c (if ltb 0 r.0 then (r.0, refresh_metrics r.1) else r).1
unfolding refresh_metrics
refreshed cutoff ids c r v = elim (Bool-cases (ltb 0 r.0)) [
  | inl some_reaped ↦ rw some_reaped (record {
    cut_off = v.cut_off;
    spares = v.spares;
    removes = v.removes;
    stays_off = v.stays_off;
  })
  | inr none_reaped ↦ rw none_reaped v
]

-- A sweep of a store whose indexes agree takes out of the manager every lease that has run out at
-- the cutoff, also where its row cannot be deleted; it leaves alone every lease that has not run
-- out, with its connection; and it changes no lease otherwise than by removing it.
pub sweep_expired-SweptAs :
    (commits : String → Bool) (cutoff : ℤ) (c : Coordinator)
    → IsIndexed c.store
    → let c' = (sweep_expired commits cutoff c).1 in
      ((j : String) → has_expired cutoff (get c.store j) ≡ true → lookup j c'.manager.leases ≡ none)
      × ((j : String)
          → has_expired cutoff (get c.store j) ≡ false
          → (get c'.store j ≡ get c.store j)
            × (lookup j c'.manager.leases ≡ lookup j c.manager.leases))
      × ((j : String) → (get c'.store j ≡ get c.store j) ⊎ (get c'.store j ≡ none))
unfolding sweep_expired
sweep_expired-SweptAs commits cutoff c x =
    let ids = expired_before c.store cutoff in
    let v =
      refreshed cutoff ids c (sweep_loop commits cutoff ids 0 c)
        (sweep_loop-SweptAs commits cutoff ids 0 c) in
    (
      λ j late. v.cut_off j (expired_before-member c.store cutoff j x ∙ late) late,
      v.spares,
      v.removes,
    )
