-- ===== src/Prelude/Counts.antt =====
-- How many of the first n members of a family pass a test, and updates of the family.
use Prim.Native.Nat.{ℕ, zero, suc, ◌+◌, ◌≤◌, ◌<◌}
use mathlib.Core.Path.{◌≡◌, refl}
use mathlib.Core.Logic.{ite, ◌≢◌}
use mathlib.Core.Bool.{Bool, false}
use native.Mathlib.Omega.{arith}
use native.Mathlib.Decide.{dec_lt, ℕ_discrete}
use hyrule_network_proxy.Prelude.Tests.{if◌then◌else◌}

-- *p = a
unfoldable pub write {ℓ} : {A : Type ℓ} → (ℕ → A) → ℕ → A → ℕ → A
write heap p a q = ite (ℕ_discrete p q) a (heap q)

module _ {ℓ κ} {A : Type ℓ} (f : ℕ → A) (i : ℕ) (a : A) where
  write_eq : (j : ℕ) → i ≡ j → write f i a j ≡ a
  unfolding write
  write_eq j e = ground arith

  write_ne : (j : ℕ) → i ≢ j → write f i a j ≡ f j
  unfolding write
  write_ne j ne = ground arith

  -- What holds of the new value and of the others holds of each value.
  pub write-cases : (P : A → Type κ) (j : ℕ) → (i ≡ j → P a) → (i ≢ j → P (f j)) → P (write f i a j)
  write-cases P j new old = elim (ℕ_discrete i j) [
    | yes e ↦ rw (write_eq j e) (new e)
    | no ne ↦ rw (write_ne j ne) (old ne)
  ]

abbrev pub one_if : Bool → ℕ
one_if b = if b then 1 else 0

module _ {ℓ} {A : Type ℓ} where
  unfoldable pub number : (A → Bool) → ℕ → (ℕ → A) → ℕ
  number p zero f = 0
  number p (suc n) f = number p n f + one_if (p (f n))

  number-write_of_le :
      (p : A → Bool) (n : ℕ) (f : ℕ → A) (i : ℕ) (a : A)
      → n ≤ i
      → number p n (write f i a) ≡ number p n f
  unfolding number write
  number-write_of_le p zero f i a h = refl
  number-write_of_le p (suc n) f i a h = ground (arith, number-write_of_le p n f i a)

  pub number-write :
      (p : A → Bool) (n : ℕ) (f : ℕ → A) (i : ℕ) (a : A)
      → i < n
      → number p n (write f i a) + one_if (p (f i)) ≡ number p n f + one_if (p a)
  unfolding number write
  number-write p zero f i a h = absurd (omega arith)
  number-write p (suc n) f i a h = elim (dec_lt i n) [
    | yes below ↦ ground (arith, number-write p n f i a below)
    | no last ↦ ground (arith, number-write_of_le p n f i a)
  ]

  pub number-eq-zero :
      (p : A → Bool) (n : ℕ) (f : ℕ → A) → ((i : ℕ) → i < n → p (f i) ≡ false) → number p n f ≡ 0
  unfolding number
  number-eq-zero p zero f h = refl
  number-eq-zero p (suc n) f h =
      ground (arith, h n, number-eq-zero p n f (λ i l. h i (omega arith)))

  -- One member more.
  pub number-suc :
      (p : A → Bool) (n : ℕ) (f : ℕ → A) (a : A)
      → number p (n + 1) (write f n a) ≡ number p n f + one_if (p a)
  unfolding number write
  number-suc p n f a = ground (arith, number-write_of_le p n f n a)

  -- A member that passes the test is counted.
  pub number-ge :
      (p : A → Bool) (n : ℕ) (f : ℕ → A) (i : ℕ) → i < n → one_if (p (f i)) ≤ number p n f
  unfolding number
  number-ge p zero f i h = absurd (omega arith)
  number-ge p (suc n) f i h = ground (arith, number-ge p n f i)
