-- ===== src/Lease/Store/Expiry.antt =====
-- Expiry in internal/tunnel/lease/store.go: ExpiredBefore and MarkExpiredIfBefore.
use hyrule_network_proxy.Prelude.{
  ℕ, ◌≡◌, ◌≢◌, refl, sym, String, Bool, true, false, ite, Option, none, some, arith, ℤ, List, [],
  ◌∷◌, Option-cases, Bool-cases, inl, inr, string_discrete,
}
use hyrule_network_proxy.Prelude.Map.{Map, string_key, lookup, IsDistinct}
use hyrule_network_proxy.Lease.Error.{Result, ok, err}
use hyrule_network_proxy.Lease.Model.{Lease, expired}
use hyrule_network_proxy.Lease.Store.{
  Store, remove, get, expired_ids, expired_before, mark_expired_if_before, marked, not_marked,
  Marked,
}
use hyrule_network_proxy.Lease.Store.Indexed.{IsIndexed}
use hyrule_network_proxy.Lease.Store.Views.{Removed, remove-Removed}

abbrev pub is_member : String → List String → Bool
is_member id [] = false
is_member id (j ∷ js) = ite (string_discrete j id) true (is_member id js)

abbrev pub has_expired : ℤ → Option Lease → Bool
has_expired now none = false
has_expired now (some l) = expired l now

expired_ids_of_absent :
    (heap : ℕ → Lease) (now : ℤ) (m : Map String ℕ) (id : String)
    → lookup id m ≡ none
    → is_member id (expired_ids heap now m) ≡ false
unfolding expired_ids lookup
expired_ids_of_absent heap now [] id h = refl
expired_ids_of_absent heap now ((j, r) ∷ m) id h =
    ground (arith, expired_ids_of_absent heap now m id)

expired_ids-member :
    (heap : ℕ → Lease) (now : ℤ) (m : Map String ℕ) (id : String)
    → IsDistinct m
    → is_member id (expired_ids heap now m)
      ≡ (elim (lookup id m) [ none ↦ false | some r ↦ expired (heap r) now ])
unfolding expired_ids lookup
expired_ids-member heap now [] id d = refl
expired_ids-member heap now ((j, r) ∷ m) id d =
    ground (arith, expired_ids-member heap now m id d.1, expired_ids_of_absent heap now m j d.0)

-- In a store whose indexes agree, ExpiredBefore lists just the identifiers whose lease has run out.
pub expired_before-member :
    (s : Store) (now : ℤ) (id : String)
    → IsIndexed s
    → is_member id (expired_before s now) ≡ has_expired now (get s id)
unfolding expired_before get
expired_before-member s now id x = elim (Option-cases (lookup id s.by_id)) [
  | inl e ↦ ground (arith, expired_ids-member s.heap now s.by_id id x.ids_distinct)
  | inr (r, e) ↦ ground (arith, expired_ids-member s.heap now s.by_id id x.ids_distinct)
]

-- What MarkExpiredIfBefore reports is what it has found and done.
abbrev pub MarkedAs : String → ℤ → Store → Marked × Store → Type 0
MarkedAs id cutoff s (m, s') =
    (m.was_expired ≡ has_expired cutoff (get s id))
    × (m.removed ≡ true
        → (m.was_expired ≡ true)
          × (m.error ≡ none)
          × ((j : String) → get s' j ≡ ite (string_discrete id j) none (get s j)))
    × (m.removed ≡ false → s' ≡ s)
    × (m.was_expired ≡ true → m.removed ≡ false → m.error ≢ none)
    × (m.was_expired ≡ false → (m.removed ≡ false) × (m.error ≡ none))

marked-MarkedAs :
    (id : String) (cutoff : ℤ) (s : Store) (r : Result (Unit {0}) × Store)
    → has_expired cutoff (get s id) ≡ true
    → Removed id s r
    → MarkedAs id cutoff s (marked r)
unfolding marked
marked-MarkedAs id cutoff s (ok u, s') h d =
    (cc, λ _. (refl, refl, d.1), λ e. cc, λ _ e. cc, λ e. cc)
marked-MarkedAs id cutoff s (err e, s') h d = (cc, λ x. cc, λ _. d.0, λ _ _ x. cc, λ x. cc)

not_marked-MarkedAs :
    (id : String) (cutoff : ℤ) (s : Store)
    → has_expired cutoff (get s id) ≡ false
    → MarkedAs id cutoff s (not_marked, s)
not_marked-MarkedAs id cutoff s h = (sym h, λ x. cc, λ _. refl, λ x. cc, λ _. (refl, refl))

mark_alive :
    (commits : Bool) (id : String) (cutoff : ℤ) (s : Store)
    → has_expired cutoff (get s id) ≡ false
    → mark_expired_if_before commits id cutoff s ≡ (not_marked, s)
unfolding mark_expired_if_before get expired
mark_alive commits id cutoff s h = ground arith

mark_due :
    (commits : Bool) (id : String) (cutoff : ℤ) (s : Store)
    → has_expired cutoff (get s id) ≡ true
    → mark_expired_if_before commits id cutoff s ≡ marked (remove commits id s)
unfolding mark_expired_if_before get expired
mark_due commits id cutoff s h = ground arith

-- MarkExpiredIfBefore reports that the lease has run out exactly if it is there and does not
-- outlive the cutoff. It removes that lease alone; a lease that was renewed, or whose row could
-- not be deleted, stays with everything else as it was, and only the second is an error.
pub mark_expired_if_before-MarkedAs :
    (commits : Bool) (id : String) (cutoff : ℤ) (s : Store)
    → MarkedAs id cutoff s (mark_expired_if_before commits id cutoff s)
mark_expired_if_before-MarkedAs commits id cutoff s =
    elim (Bool-cases (has_expired cutoff (get s id))) [
      | inl due ↦
          rw (mark_due commits id cutoff s due)
            (marked-MarkedAs id cutoff s (remove commits id s) due (remove-Removed commits id s))
      | inr alive ↦
          rw (mark_alive commits id cutoff s alive) (not_marked-MarkedAs id cutoff s alive)
    ]
