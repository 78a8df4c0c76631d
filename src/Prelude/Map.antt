-- ===== src/Prelude/Map.antt =====
-- Go's maps as association lists with one entry for each key, over keys with a decidable equality.
-- The order of the entries stands for the order in which the runtime walks the map.
use Prim.Native.Nat.{ℕ, ◌+◌, ◌≤◌}
use Prim.Native.String.{String}
use mathlib.Core.Path.{◌≡◌, refl}
use mathlib.Core.Logic.{ite}
use mathlib.Core.Option.{Option, none, some}
use mathlib.Core.List.{List, [], ◌∷◌, map}
use native.Mathlib.Omega.{arith}
use native.Mathlib.Decide.{ℕ_discrete}
use hyrule_network_proxy.Prelude.Tests.{string_discrete}
use hyrule_network_proxy.Prelude.Lists.{length}

pub record Key {ℓ} (K : Type ℓ) : Type ℓ where
  pub dec : Discrete K

instance abbrev pub nat_key : Key ℕ
nat_key = record { dec = ℕ_discrete }

instance abbrev pub string_key : Key String
string_key = record { dec = string_discrete }

abbrev pub Map {ℓ} : Type ℓ → Type ℓ → Type ℓ
Map K V = List (K × V)

module _ {ℓ} {K V : Type ℓ} ⦃e : Key K⦄ where
  -- v, ok := m[k]
  unfoldable pub lookup : K → Map K V → Option V
  lookup k [] = none
  lookup k ((j, v) ∷ m) = ite (e.dec j k) (some v) (lookup k m)

  -- m[k] = v
  unfoldable pub put : K → V → Map K V → Map K V
  put k v [] = (k, v) ∷ []
  put k v ((j, w) ∷ m) = ite (e.dec j k) ((k, v) ∷ m) ((j, w) ∷ put k v m)

  -- delete(m, k)
  unfoldable pub delete : K → Map K V → Map K V
  delete k [] = []
  delete k ((j, w) ∷ m) = ite (e.dec j k) (delete k m) ((j, w) ∷ delete k m)

  pub lookup-put :
      (k j : K) (v : V) (m : Map K V) → lookup j (put k v m) ≡ ite (e.dec k j) (some v) (lookup j m)
  unfolding lookup put
  lookup-put k j v [] = refl
  lookup-put k j v ((i, w) ∷ m) = ground (arith, lookup-put k j v m)

  pub lookup-delete :
      (k j : K) (m : Map K V) → lookup j (delete k m) ≡ ite (e.dec k j) none (lookup j m)
  unfolding lookup delete
  lookup-delete k j [] = ground arith
  lookup-delete k j ((i, w) ∷ m) = ground (arith, lookup-delete k j m)

  -- No key has two entries.
  abbrev pub IsDistinct : Map K V → Type ℓ
  IsDistinct [] = Unit
  IsDistinct ((k, v) ∷ m) = (lookup k m ≡ none) × IsDistinct m

  pub put-IsDistinct : (k : K) (v : V) (m : Map K V) → IsDistinct m → IsDistinct (put k v m)
  unfolding lookup put
  put-IsDistinct k v [] d = (refl, tt)
  put-IsDistinct k v ((j, w) ∷ m) d = ground (arith, put-IsDistinct k v m d.1, lookup-put k j v m)

  pub delete-IsDistinct : (k : K) (m : Map K V) → IsDistinct m → IsDistinct (delete k m)
  unfolding delete
  delete-IsDistinct k [] d = tt
  delete-IsDistinct k ((j, w) ∷ m) d =
      ground (arith, delete-IsDistinct k m d.1, lookup-delete k j m)

  pub length-put_new :
      (k : K) (v : V) (m : Map K V) → lookup k m ≡ none → length (put k v m) ≡ length m + 1
  unfolding lookup put
  length-put_new k v [] h = ground arith
  length-put_new k v ((j, w) ∷ m) h = ground (arith, length-put_new k v m)

  pub length-put_old :
      (k : K) (v w : V) (m : Map K V) → lookup k m ≡ some w → length (put k v m) ≡ length m
  unfolding lookup put
  length-put_old k v w [] h = ground arith
  length-put_old k v w ((j, x) ∷ m) h = ground (arith, length-put_old k v w m)

  pub delete_absent : (k : K) (m : Map K V) → lookup k m ≡ none → delete k m ≡ m
  unfolding lookup delete
  delete_absent k [] h = refl
  delete_absent k ((j, w) ∷ m) h = ground (arith, delete_absent k m)

  pub length-delete :
      (k : K) (v : V) (m : Map K V)
      → IsDistinct m
      → lookup k m ≡ some v
      → length (delete k m) + 1 ≡ length m
  unfolding lookup delete
  length-delete k v [] d h = ground arith
  length-delete k v ((j, w) ∷ m) d h = ground (arith, length-delete k v m d.1, delete_absent k m)

  pub length-delete-le : (k : K) (m : Map K V) → length (delete k m) ≤ length m
  unfolding delete
  length-delete-le k [] = ground arith
  length-delete-le k ((j, w) ∷ m) = ground (arith, length-delete-le k m)

  -- for k, v := range m { if p(v) { … } } : the entries whose value passes the test.
  unfoldable pub keys : Map K V → List K
  keys = map (λ x. x.0)
