-- ===== src/Lease/Allocator.antt =====
-- internal/tunnel/lease/allocator.go. `listen p` says whether `net.Listen` on the port succeeds
-- while the allocator runs. Ports are never negative, so a port is a natural number.
pub mod Exhaustion
pub mod Effects
pub mod Counting
use hyrule_network_proxy.Prelude.{
  ℕ, zero, suc, ◌+◌, ◌-◌, ◌≤◌, ◌⊎◌, ◌≡◌, refl, Bool, true, false, not, ◌&&◌, Option, none, some, [],
  arith, ltb, leb, if◌then◌else◌, length, Bool-cases, inl, inr, ℤ, sub_ℕ, ℕ_discrete,
}
use hyrule_network_proxy.Prelude.Map.{
  Map, nat_key, lookup, put, delete, IsDistinct, lookup-put, lookup-delete, put-IsDistinct,
  delete-IsDistinct,
}
use hyrule_network_proxy.Lease.Error.{Result, ok, err, ports_exhausted}

pub record PortAllocator : Type 0 where
  pub min : ℕ
  pub max : ℕ
  pub next : ℕ
  pub used : Map ℕ Bool

unfoldable pub new_port_allocator : ℕ → ℕ → PortAllocator
new_port_allocator min max = record { min = min; max = max; next = min; used = [] }

-- a.used[port]: the zero value, if the key is absent.
unfoldable pub is_used : PortAllocator → ℕ → Bool
is_used a port = elim (lookup port a.used) [ none ↦ false | some b ↦ b ]

unfoldable pub reserve : PortAllocator → ℕ → PortAllocator
reserve a port =
    if leb a.min port && leb port a.max then record a { used = put port true a.used } else a

pub release : PortAllocator → ℕ → PortAllocator
release a port = record a { used = delete port a.used }

abbrev pub span : PortAllocator → ℕ
span a = a.max + 1 - a.min

-- (a.max - a.min + 1) - len(a.used), as a signed number.
pub free : PortAllocator → ℤ
free a = sub_ℕ (a.max + 1) (a.min + length a.used)

pub port_in_use : (ℕ → Bool) → ℕ → Bool
port_in_use listen port = not (listen port)

-- a.next++, back to the first port behind the last one.
pub advance : PortAllocator → PortAllocator
advance a = record a { next = (if ltb a.max (a.next + 1) then a.min else a.next + 1) }

-- The rounds that are left of the loop. Where a port is skipped only `next` has moved.
pub allocate_loop : (ℕ → Bool) → ℕ → PortAllocator → Result ℕ × PortAllocator
allocate_loop listen zero a = (err ports_exhausted, a)
allocate_loop listen (suc n) a =
    let a' = advance a in
    let rest = allocate_loop listen n a' in
    if is_used a' a.next
    then rest
    else if port_in_use listen a.next
    then rest
    else (ok a.next, record a' { used = put a.next true a'.used })

pub allocate : (ℕ → Bool) → PortAllocator → Result ℕ × PortAllocator
allocate listen a = allocate_loop listen (span a) a

-- The next candidate and every reserved port lie in the range, and a reserved port is marked so.
pub record IsValid (a : PortAllocator) : Type 0 where
  pub next_low : a.min ≤ a.next
  pub next_high : a.next ≤ a.max
  pub used_true : (p : ℕ) (b : Bool) → lookup p a.used ≡ some b → b ≡ true
  pub used_low : (p : ℕ) (b : Bool) → lookup p a.used ≡ some b → a.min ≤ p
  pub used_high : (p : ℕ) (b : Bool) → lookup p a.used ≡ some b → p ≤ a.max
  pub distinct : IsDistinct a.used

pub new_port_allocator-IsValid : (min max : ℕ) → min ≤ max → IsValid (new_port_allocator min max)
unfolding new_port_allocator lookup
new_port_allocator-IsValid min max h = record {
  next_low = omega arith;
  next_high = h;
  used_true = λ p b e. ground arith;
  used_low = λ p b e. ground arith;
  used_high = λ p b e. ground arith;
  distinct = tt;
}

pub mark-IsValid :
    (a : PortAllocator) (port : ℕ)
    → a.min ≤ port
    → port ≤ a.max
    → IsValid a
    → IsValid (record a { used = put port true a.used })
mark-IsValid a port l h v = record {
  next_low = v.next_low;
  next_high = v.next_high;
  used_true = λ p b e. ground (arith, lookup-put port p true a.used, v.used_true p b);
  used_low = λ p b e. ground (arith, lookup-put port p true a.used, v.used_low p b);
  used_high = λ p b e. ground (arith, lookup-put port p true a.used, v.used_high p b);
  distinct = put-IsDistinct port true a.used v.distinct;
}

pub reserve-IsValid : (a : PortAllocator) (port : ℕ) → IsValid a → IsValid (reserve a port)
unfolding reserve
reserve-IsValid a port v = ground (arith, mark-IsValid a port)

pub release-IsValid : (a : PortAllocator) (port : ℕ) → IsValid a → IsValid (release a port)
unfolding release
release-IsValid a port v = record {
  next_low = v.next_low;
  next_high = v.next_high;
  used_true = λ p b e. ground (arith, lookup-delete port p a.used, v.used_true p b);
  used_low = λ p b e. ground (arith, lookup-delete port p a.used, v.used_low p b);
  used_high = λ p b e. ground (arith, lookup-delete port p a.used, v.used_high p b);
  distinct = delete-IsDistinct port a.used v.distinct;
}

pub advance-IsValid : (a : PortAllocator) → IsValid a → IsValid (advance a)
unfolding advance
advance-IsValid a v = record {
  next_low = ground arith;
  next_high = ground arith;
  used_true = v.used_true;
  used_low = v.used_low;
  used_high = v.used_high;
  distinct = v.distinct;
}

-- What an allocation did: it reserved one port that was free, or it reserved none.
abbrev pub Allocated : (ℕ → Bool) → PortAllocator → PortAllocator → Result ℕ → Type 0
Allocated listen a a' (ok p) =
    (a.min ≤ p)
    × (p ≤ a.max)
    × (is_used a p ≡ false)
    × (listen p ≡ true)
    × (a'.used ≡ put p true a.used)
Allocated listen a a' (err e) = (e ≡ ports_exhausted) × (a'.used ≡ a.used)

pub record Outcome (listen : ℕ → Bool) (a a' : PortAllocator) (r : Result ℕ) : Type 0 where
  pub min_same : a'.min ≡ a.min
  pub max_same : a'.max ≡ a.max
  pub valid : IsValid a'
  pub did : Allocated listen a a' r

advance-Outcome :
    (listen : ℕ → Bool) (a a' : PortAllocator) (r : Result ℕ)
    → Outcome listen (advance a) a' r
    → Outcome listen a a' r
unfolding advance is_used
advance-Outcome listen a a' (ok p) o = record {
  min_same = o.min_same;
  max_same = o.max_same;
  valid = o.valid;
  did = o.did;
}
advance-Outcome listen a a' (err e) o = record {
  min_same = o.min_same;
  max_same = o.max_same;
  valid = o.valid;
  did = o.did;
}

grant_Outcome :
    (listen : ℕ → Bool) (a : PortAllocator)
    → IsValid a
    → is_used (advance a) a.next ≡ false
    → port_in_use listen a.next ≡ false
    → Outcome listen a (record (advance a) { used = put a.next true a.used }) (ok a.next)
unfolding advance is_used port_in_use
grant_Outcome listen a v unused silent = record {
  min_same = refl;
  max_same = refl;
  valid = mark-IsValid (advance a) a.next v.next_low v.next_high (advance-IsValid a v);
  did = (v.next_low, v.next_high, unused, ground arith, refl);
}

-- The port cannot be given out: it is reserved, or something listens on it.
abbrev pub IsTaken : (ℕ → Bool) → PortAllocator → ℕ → Type 0
IsTaken listen a p = (is_used a p ≡ true) ⊎ (port_in_use listen p ≡ true)

-- A round skips the candidate, which is taken, or returns it.
allocate_loop-step :
    (P : Result ℕ × PortAllocator → Type 0) (listen : ℕ → Bool) (n : ℕ) (a : PortAllocator)
    → (IsTaken listen (advance a) a.next → P (allocate_loop listen n (advance a)))
    → (is_used (advance a) a.next ≡ false
        → port_in_use listen a.next ≡ false
        → P (ok a.next, record (advance a) { used = put a.next true a.used }))
    → P (allocate_loop listen (suc n) a)
unfolding allocate_loop advance
allocate_loop-step P listen n a skip take = elim (Bool-cases (is_used (advance a) a.next)) [
  | inl taken ↦ rw (taken, allocate_loop) (skip (inl taken))
  | inr unused ↦ elim (Bool-cases (port_in_use listen a.next)) [
    | inl busy ↦ rw (unused, busy, allocate_loop) (skip (inr busy))
    | inr silent ↦ rw (unused, silent, allocate_loop) (take unused silent)
  ]
]

-- Every round keeps the range and the invariant, and reserves at most the port that it returns.
pub allocate_loop-Outcome :
    (listen : ℕ → Bool) (n : ℕ) (a : PortAllocator)
    → IsValid a
    → Outcome listen a (allocate_loop listen n a).1 (allocate_loop listen n a).0
unfolding allocate_loop
allocate_loop-Outcome listen zero a v = record {
  min_same = refl;
  max_same = refl;
  valid = v;
  did = (refl, refl);
}
allocate_loop-Outcome listen (suc n) a v =
    let next_round = allocate_loop-Outcome listen n (advance a) (advance-IsValid a v) in
    allocate_loop-step (λ r. Outcome listen a r.1 r.0) listen n a
      (λ _. advance-Outcome listen a _ _ next_round) (grant_Outcome listen a v)

-- An allocation in a valid state keeps the range and the invariant. It returns a port of the range
-- that was not reserved and that can be listened on, and reserves just that one; or it fails with
-- ErrPortsExhausted and reserves nothing.
pub allocate-Outcome :
    (listen : ℕ → Bool) (a : PortAllocator)
    → IsValid a
    → Outcome listen a (allocate listen a).1 (allocate listen a).0
unfolding allocate
allocate-Outcome listen a = allocate_loop-Outcome listen (span a) a
