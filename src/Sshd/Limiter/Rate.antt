-- ===== src/Sshd/Limiter/Rate.antt =====
-- The rate that the limiter of internal/tunnel/sshd/limiter.go lets through, for each address.
use hyrule_network_proxy.Prelude.{
  ℕ, ◌+◌, ◌≤◌, ◌≡◌, refl, ◌∙◌, String, Bool, true, none, some, Option, List, [], ◌∷◌, arith, ite, ℤ,
  if◌then◌else◌, string_discrete,
}
use hyrule_network_proxy.Prelude.Map.{Map, string_key, lookup, lookup-put}
use hyrule_network_proxy.Sshd.Limiter.{
  WindowCounter, AuthLimiter, is_live, evict, maybe_cleanup, admit, allow,
}

evict_keeps :
    (now window : ℤ) (m : Map String WindowCounter) (ip : String) (w : WindowCounter)
    → lookup ip m ≡ some w
    → is_live now window w ≡ true
    → lookup ip (evict now window m) ≡ some w
unfolding evict lookup
evict_keeps now window [] ip w e h = e
evict_keeps now window ((k, x) ∷ m) ip w e h = ground (arith, evict_keeps now window m ip w)

maybe_cleanup_keeps :
    (now : ℤ) (a : AuthLimiter) (ip : String) (w : WindowCounter)
    → lookup ip a.seen ≡ some w
    → is_live now a.window w ≡ true
    → lookup ip (maybe_cleanup now a).seen ≡ some w
unfolding maybe_cleanup
maybe_cleanup_keeps now a ip w e h = ground (arith, evict_keeps now a.window a.seen ip w)

maybe_cleanup_window :
    (now : ℤ) (a : AuthLimiter)
    → ((maybe_cleanup now a).window ≡ a.window) × ((maybe_cleanup now a).max ≡ a.max)
unfolding maybe_cleanup
maybe_cleanup_window now a = ground arith

-- The attempts of a run, in order, with the clock and the address of each: how many from one
-- address are admitted.
unfoldable pub admitted : String → List (ℤ × String) → AuthLimiter → ℕ
admitted ip [] a = 0
admitted ip ((now, from) ∷ rest) a =
    let r = allow now from a in
    let n = admitted ip rest r.1 in if r.0 then ite (string_discrete from ip) (n + 1) n else n

-- Every attempt of the run falls into the window that began at the start of `w`.
abbrev pub Within : ℤ → WindowCounter → List (ℤ × String) → Type 0
Within window w [] = Unit {0}
Within window w ((now, from) ∷ rest) = (is_live now window w ≡ true) × Within window w rest

-- The counter behind an attempt that was admitted or not.
abbrev counted : Bool → String → String → ℕ → ℕ
counted yes_or_no from ip n = if yes_or_no then ite (string_discrete from ip) (n + 1) n else n

record Counts (from ip : String) (a : AuthLimiter) (w : WindowCounter) (r : Bool × AuthLimiter)
    : Type 0 where
  entry : lookup ip r.1.seen ≡ some (record w { count = counted r.0 from ip w.count })
  window_same : r.1.window ≡ a.window
  max_same : r.1.max ≡ a.max
  below : counted r.0 from ip w.count ≤ a.max

admit-Counts :
    (now : ℤ) (from ip : String) (a : AuthLimiter) (w : WindowCounter) (o : Option WindowCounter)
    → lookup from a.seen ≡ o
    → lookup ip a.seen ≡ some w
    → is_live now a.window w ≡ true
    → w.count ≤ a.max
    → Counts from ip a w (admit now from a o)
unfolding admit
admit-Counts now from ip a w none q e live h =
    let new : WindowCounter = record { count = 1; start = now } in
    ground (arith, lookup-put from ip new a.seen)
admit-Counts now from ip a w (some x) q e live h =
    let new : WindowCounter = record { count = 1; start = now } in
    ground (
      arith,
      lookup-put from ip new a.seen,
      lookup-put from ip (record x { count = x.count + 1 }) a.seen,
    )

-- One attempt, seen from the entry of an address whose window is open.
allow-Counts :
    (now : ℤ) (from ip : String) (a : AuthLimiter) (w : WindowCounter)
    → lookup ip a.seen ≡ some w
    → is_live now a.window w ≡ true
    → w.count ≤ a.max
    → Counts from ip a w (allow now from a)
unfolding allow
allow-Counts now from ip a w e live h =
    let c = maybe_cleanup_window now a in
    let done =
      admit-Counts now from ip (maybe_cleanup now a) w (lookup from (maybe_cleanup now a).seen) refl
        (maybe_cleanup_keeps now a ip w e live) (ground arith) (ground arith) in
    record {
      entry = done.entry;
      window_same = done.window_same ∙ c.0;
      max_same = done.max_same ∙ c.1;
      below = omega (arith, done.below, c.1);
    }

-- In a run whose attempts all fall into the open window of an address, whose count is not above the
-- limit, the address is admitted at most as often as the limit leaves room for, whatever other
-- addresses do in between.
pub admitted-le-max :
    (ip : String) (run : List (ℤ × String)) (a : AuthLimiter) (w : WindowCounter)
    → lookup ip a.seen ≡ some w
    → w.count ≤ a.max
    → Within a.window w run
    → w.count + admitted ip run a ≤ a.max
unfolding admitted
admitted-le-max ip [] a w e h k = omega arith
admitted-le-max ip ((now, from) ∷ rest) a w e h k =
    let c = allow-Counts now from ip a w e k.0 h in
    ground (
      arith,
      c.max_same,
      c.below,
      admitted-le-max ip rest (allow now from a).1 _ c.entry (omega (arith, c.below, c.max_same))
          (rw c.window_same k.1),
    )
