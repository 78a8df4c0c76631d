-- ===== src/Lease/Error.antt =====
-- The errors of internal/tunnel/lease/store.go, with one constructor for each place that makes one.
use hyrule_network_proxy.Prelude.{String, ◌≡◌, refl, ◌⊎◌, inl, inr}

pub data Error : Type 0 where
  -- ErrNotFound, ErrPortsExhausted and ErrInvalidCIDR
  not_found ports_exhausted : Error
  invalid_cidr : String → Error
  -- what crypto/rand, encoding/json and bbolt return
  rand_failed marshal_failed bucket_missing commit_failed open_failed : Error

pub data Result {ℓ} (A : Type ℓ) : Type ℓ where
  ok : A → Result A
  err : Error → Result A

pub Result-cases {ℓ} :
    {A : Type ℓ} (r : Result A) → ((e : Error) × (r ≡ err e)) ⊎ ((a : A) × (r ≡ ok a))
Result-cases (ok a) = inr (a, refl)
Result-cases (err e) = inl (e, refl)
