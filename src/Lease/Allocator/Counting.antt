-- ===== src/Lease/Allocator/Counting.antt =====
-- `free` of allocator.go counts the ports of the range that are not reserved.
use hyrule_network_proxy.Prelude.{
  ℕ, zero, suc, ◌+◌, ◌≤◌, ◌<◌, ◌≡◌, inl, inr, some, ap, [], ◌∷◌, ◌-◌, Bool, arith, length, pos,
  Option-cases,
}
use hyrule_network_proxy.Prelude.Map.{
  Map, nat_key, lookup, delete, IsDistinct, lookup-delete, delete-IsDistinct, length-delete,
  delete_absent,
}
use hyrule_network_proxy.Lease.Allocator.{PortAllocator, IsValid, free, span}

length-delete-ge : (k : ℕ) (m : Map ℕ Bool) → IsDistinct m → length m ≤ length (delete k m) + 1
length-delete-ge k m d = elim (Option-cases (lookup k m)) [
  | inl absent ↦ omega (arith, ap length (delete_absent k m absent))
  | inr (b, present) ↦ omega (arith, length-delete k b m d present)
]

-- A map whose keys lie in a range of n numbers has at most n entries.
length-le_of_range :
    (n lo : ℕ) (m : Map ℕ Bool)
    → IsDistinct m
    → ((p : ℕ) (b : Bool) → lookup p m ≡ some b → (lo ≤ p) × (p < lo + n))
    → length m ≤ n
unfolding lookup
length-le_of_range zero lo [] d within = omega arith
length-le_of_range zero lo ((p, b) ∷ m) d within = ground (arith, within p b)
length-le_of_range (suc n) lo m d within = omega (
  arith,
  length-delete-ge (lo + n) m d,
  length-le_of_range n lo (delete (lo + n) m) (delete-IsDistinct (lo + n) m d)
      (λ p b e. ground (arith, lookup-delete (lo + n) p m, within p b)),
)

-- In a valid state the number of free ports is not negative: with the reserved ports it makes up
-- the range.
pub free-IsRest :
    (a : PortAllocator) → IsValid a → (n : ℕ) × (free a ≡ pos n) × (n + length a.used ≡ span a)
unfolding free
free-IsRest a v = (span a - length a.used, ground (arith, fits), ground (arith, fits))
  where
    fits : length a.used ≤ span a
    fits =
        length-le_of_range (span a) a.min a.used v.distinct
          (λ p b e. ground (arith, v.used_low p b, v.used_high p b, v.next_low, v.next_high))
