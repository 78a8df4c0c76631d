-- ===== src/Lease/Allocator/Exhaustion.antt =====
-- `allocate` of allocator.go fails only if no port of the range can be given out: its rounds, one
-- for each port, visit the whole range from `next` on.
use hyrule_network_proxy.Prelude.{
  ℕ, zero, suc, ◌+◌, ◌-◌, ◌≤◌, ◌<◌, ◌≡◌, ◌↔◌, ◌⊎◌, inl, inr, Bool, ap, arith, leb, if◌then◌else◌,
}
use hyrule_network_proxy.Lease.Error.{Error, Result, ok, err, ports_exhausted}
use hyrule_network_proxy.Lease.Allocator.{
  PortAllocator, IsValid, IsTaken, Allocated, span, port_in_use, allocate_loop-Outcome, is_used,
  advance, allocate_loop, allocate, advance-IsValid, allocate_loop-step,
}

-- How many steps of `next` lead to the port.
distance : PortAllocator → ℕ → ℕ
distance a q = if leb a.next q then q - a.next else q + span a - a.next

distance-advance :
    (a : PortAllocator) (q : ℕ)
    → IsValid a
    → a.min ≤ q
    → q ≤ a.max
    → (q ≡ a.next) ⊎ (distance (advance a) q + 1 ≡ distance a q)
unfolding distance advance
distance-advance a q v l h = ground arith

-- An outcome beside the fact that every port is taken is a refusal.
all_taken :
    (listen : ℕ → Bool) (a a' : PortAllocator) (r : Result ℕ)
    → ((q : ℕ) → a.min ≤ q → q ≤ a.max → IsTaken listen a q)
    → Allocated listen a a' r
    → r ≡ err ports_exhausted
unfolding port_in_use
all_taken listen a a' (ok p) taken did = ground (arith, taken p did.0 did.1)
all_taken listen a a' (err e) taken did = ap err did.0

-- A loop that fails in n rounds has found each of the next n ports taken.
allocate_loop-exhausts :
    (listen : ℕ → Bool) (n : ℕ) (a : PortAllocator) (q : ℕ) (e : Error)
    → IsValid a
    → a.min ≤ q
    → q ≤ a.max
    → distance a q < n
    → (allocate_loop listen n a).0 ≡ err e
    → IsTaken listen a q
unfolding distance advance is_used
allocate_loop-exhausts listen zero a q e v l h d = λ _. absurd (omega arith)
allocate_loop-exhausts listen (suc n) a q e v l h d =
    allocate_loop-step (λ r. r.0 ≡ err e → IsTaken listen a q) listen n a
      (λ taken failed. elim (distance-advance a q v l h) [
        | inl here ↦ rw here taken
        | inr later ↦
            allocate_loop-exhausts listen n (advance a) q e (advance-IsValid a v) l h (omega arith)
              failed
      ])
      (λ _ _ f. cc f)

distance-span :
    (a : PortAllocator) (q : ℕ) → IsValid a → a.min ≤ q → q ≤ a.max → distance a q < span a
unfolding distance
distance-span a q v l h = ground arith

-- An allocator in a valid state fails, with ErrPortsExhausted, exactly when every port of its
-- range is reserved or is listened on.
pub allocate_fails_iff :
    (listen : ℕ → Bool) (a : PortAllocator)
    → IsValid a
    → ((allocate listen a).0 ≡ err ports_exhausted)
      ↔ ((q : ℕ) → a.min ≤ q → q ≤ a.max → IsTaken listen a q)
unfolding allocate
allocate_fails_iff listen a v = (
  λ failed q l h.
      allocate_loop-exhausts listen (span a) a q ports_exhausted v l h (distance-span a q v l h)
        failed,
  λ taken.
      all_taken listen a (allocate_loop listen (span a) a).1 (allocate_loop listen (span a) a).0
        taken (allocate_loop-Outcome listen (span a) a v).did,
)
