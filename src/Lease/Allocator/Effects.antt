-- ===== src/Lease/Allocator/Effects.antt =====
-- What the methods of allocator.go do to the set of reserved ports.
use hyrule_network_proxy.Prelude.{
  ℕ, ◌+◌, ◌≤◌, ◌≡◌, Bool, true, false, ite, none, some, Option-cases, arith, length, ap, ◌∙◌,
  ℕ_discrete, inl, inr,
}
use hyrule_network_proxy.Prelude.Map.{
  nat_key, lookup, lookup-put, lookup-delete, length-put_new, length-delete,
}
use hyrule_network_proxy.Lease.Error.{Error, Result, ok, err}
use hyrule_network_proxy.Lease.Allocator.{
  PortAllocator, IsValid, Outcome, is_used, allocate, release, allocate-Outcome, release-IsValid,
}

-- The second allocator reserves the ports of the first one.
pub record SameUse (a a' : PortAllocator) : Type 0 where
  pub min_same : a'.min ≡ a.min
  pub max_same : a'.max ≡ a.max
  pub valid : IsValid a'
  pub used_same : (q : ℕ) → is_used a' q ≡ is_used a q
  pub count_same : length a'.used ≡ length a.used

-- The second allocator reserves one port more.
pub record Granted (listen : ℕ → Bool) (a a' : PortAllocator) (port : ℕ) : Type 0 where
  pub min_same : a'.min ≡ a.min
  pub max_same : a'.max ≡ a.max
  pub valid : IsValid a'
  pub low : a.min ≤ port
  pub high : port ≤ a.max
  pub was_free : is_used a port ≡ false
  pub listens : listen port ≡ true
  pub used_now : (q : ℕ) → is_used a' q ≡ ite (ℕ_discrete port q) true (is_used a q)
  pub count_now : length a'.used ≡ length a.used + 1

is_used_of_used : (a a' : PortAllocator) (q : ℕ) → a'.used ≡ a.used → is_used a' q ≡ is_used a q
unfolding is_used
is_used_of_used a a' q e = ground arith

pub absent_of_unused :
    (a : PortAllocator) (p : ℕ) → IsValid a → is_used a p ≡ false → lookup p a.used ≡ none
unfolding is_used
absent_of_unused a p v h = elim (Option-cases (lookup p a.used)) [
  | inl e ↦ e
  | inr (b, e) ↦ ground (arith, v.used_true p b)
]

pub present_of_used : (a : PortAllocator) (p : ℕ) → is_used a p ≡ true → lookup p a.used ≡ some true
unfolding is_used
present_of_used a p h = ground arith

module _ (listen : ℕ → Bool) (a a' : PortAllocator) (v : IsValid a) where
  result-Outcome : (r : Result ℕ) → allocate listen a ≡ (r, a') → Outcome listen a a' r
  result-Outcome r e = rw e at (allocate-Outcome listen a v)

  pub refused-SameUse : (x : Error) → allocate listen a ≡ (err x, a') → SameUse a a'
  refused-SameUse x e =
      let o = result-Outcome (err x) e in
      record {
        min_same = o.min_same;
        max_same = o.max_same;
        valid = o.valid;
        used_same = λ q. is_used_of_used a a' q o.did.1;
        count_same = ap length o.did.1;
      }

  pub allocate-Granted : (p : ℕ) → allocate listen a ≡ (ok p, a') → Granted listen a a' p
  unfolding is_used
  allocate-Granted p e =
      let o = result-Outcome (ok p) e in
      record {
        min_same = o.min_same;
        max_same = o.max_same;
        valid = o.valid;
        low = o.did.0;
        high = o.did.1;
        was_free = o.did.2;
        listens = o.did.3;
        used_now = λ q. rw o.did.4 (ground (arith, lookup-put p q true a.used));
        count_now =
            ap length o.did.4 ∙ length-put_new p true a.used (absent_of_unused a p v o.did.2);
      }

pub is_used-release :
    (a : PortAllocator) (p q : ℕ)
    → is_used (release a p) q ≡ ite (ℕ_discrete p q) false (is_used a q)
unfolding is_used release
is_used-release a p q = ground (arith, lookup-delete p q a.used)

pub length-release :
    (a : PortAllocator) (p : ℕ)
    → IsValid a
    → is_used a p ≡ true
    → length (release a p).used + 1 ≡ length a.used
unfolding release
length-release a p v h = length-delete p true a.used v.distinct (present_of_used a p h)

-- To give a port back behind its allocation leaves the reserved ports as they were.
pub undone-SameUse :
    (listen : ℕ → Bool) (a a' : PortAllocator) (p : ℕ)
    → IsValid a
    → allocate listen a ≡ (ok p, a')
    → SameUse a (release a' p)
unfolding release
undone-SameUse listen a a' p v e =
    let g = allocate-Granted listen a a' v p e in
    record {
      min_same = g.min_same;
      max_same = g.max_same;
      valid = release-IsValid a' p g.valid;
      used_same = λ q. ground (arith, is_used-release a' p q, g.used_now q, g.was_free);
      count_same =
          omega (arith, length-release a' p g.valid (ground (arith, g.used_now p)), g.count_now);
    }
