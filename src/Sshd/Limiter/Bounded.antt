-- ===== src/Sshd/Limiter/Bounded.antt =====
-- The memory of the limiter of internal/tunnel/sshd/limiter.go is bounded.
use hyrule_network_proxy.Prelude.{
  ℕ, ◌+◌, ◌≤◌, ◌≡◌, refl, String, none, some, Option, [], ◌∷◌, arith, length, ℤ, List, Bool-cases,
  inl, inr,
}
use hyrule_network_proxy.Prelude.Map.{
  Map, string_key, lookup, IsDistinct, put-IsDistinct, length-put_new, length-put_old,
}
use hyrule_network_proxy.Sshd.Limiter.{
  WindowCounter, AuthLimiter, new_auth_limiter, auth_hard_cap, is_live, evict, maybe_cleanup, admit,
  allow,
}

length-evict :
    (now window : ℤ) (m : Map String WindowCounter) → length (evict now window m) ≤ length m
unfolding evict
length-evict now window [] = ground arith
length-evict now window ((k, w) ∷ m) = ground (arith, length-evict now window m)

length-maybe_cleanup :
    (now : ℤ) (a : AuthLimiter) → length (maybe_cleanup now a).seen ≤ length a.seen
unfolding maybe_cleanup
length-maybe_cleanup now a = ground (arith, length-evict now a.window a.seen)

admit_bounded :
    (now : ℤ) (ip : String) (a : AuthLimiter) (o : Option WindowCounter)
    → lookup ip a.seen ≡ o
    → length a.seen ≤ auth_hard_cap
    → length (admit now ip a o).1.seen ≤ auth_hard_cap
unfolding admit
admit_bounded now ip a none e h =
    ground (arith, length-put_new ip (record { count = 1; start = now }) a.seen e)
admit_bounded now ip a (some w) e h = ground (
  arith,
  length-put_old ip (record { count = 1; start = now }) w a.seen e,
  length-put_old ip (record w { count = w.count + 1 }) w a.seen e,
)

-- No attempt makes a table of addresses that is within the hard cap larger than the hard cap.
allow_bounded :
    (now : ℤ) (ip : String) (a : AuthLimiter)
    → length a.seen ≤ auth_hard_cap
    → length (allow now ip a).1.seen ≤ auth_hard_cap
unfolding allow
allow_bounded now ip a h =
    admit_bounded now ip (maybe_cleanup now a) (lookup ip (maybe_cleanup now a).seen) refl
      (omega (arith, length-maybe_cleanup now a))

evict_absent :
    (now window : ℤ) (k : String) (m : Map String WindowCounter)
    → lookup k m ≡ none
    → lookup k (evict now window m) ≡ none
unfolding evict lookup
evict_absent now window k [] h = h
evict_absent now window k ((j, w) ∷ m) h = ground (arith, evict_absent now window k m)

evict-IsDistinct :
    (now window : ℤ) (m : Map String WindowCounter) → IsDistinct m → IsDistinct (evict now window m)
unfolding evict
evict-IsDistinct now window [] d = tt
evict-IsDistinct now window ((k, w) ∷ m) d = elim (Bool-cases (is_live now window w)) [
  | inl e ↦ rw (e, evict) (evict_absent now window k m d.0, evict-IsDistinct now window m d.1)
  | inr e ↦ rw (e, evict) (evict-IsDistinct now window m d.1)
]

admit-IsDistinct :
    (now : ℤ) (ip : String) (a : AuthLimiter) (o : Option WindowCounter)
    → IsDistinct a.seen
    → IsDistinct (admit now ip a o).1.seen
unfolding admit
admit-IsDistinct now ip a none d =
    ground (arith, put-IsDistinct ip (record { count = 1; start = now }) a.seen d)
admit-IsDistinct now ip a (some w) d = ground (
  arith,
  put-IsDistinct ip (record { count = 1; start = now }) a.seen d,
  put-IsDistinct ip (record w { count = w.count + 1 }) a.seen d,
)

maybe_cleanup-IsDistinct :
    (now : ℤ) (a : AuthLimiter) → IsDistinct a.seen → IsDistinct (maybe_cleanup now a).seen
unfolding maybe_cleanup
maybe_cleanup-IsDistinct now a d = ground (arith, evict-IsDistinct now a.window a.seen d)

allow-IsDistinct :
    (now : ℤ) (ip : String) (a : AuthLimiter)
    → IsDistinct a.seen
    → IsDistinct (allow now ip a).1.seen
unfolding allow
allow-IsDistinct now ip a d =
    admit-IsDistinct now ip (maybe_cleanup now a) (lookup ip (maybe_cleanup now a).seen)
      (maybe_cleanup-IsDistinct now a d)

-- The limiter after the attempts of a run, in order, with the clock and the address of each.
unfoldable pub attempted : List (ℤ × String) → AuthLimiter → AuthLimiter
attempted [] a = a
attempted ((now, ip) ∷ rest) a = attempted rest (allow now ip a).1

attempted_within :
    (run : List (ℤ × String)) (a : AuthLimiter)
    → IsDistinct a.seen
    → length a.seen ≤ auth_hard_cap
    → IsDistinct (attempted run a).seen × (length (attempted run a).seen ≤ auth_hard_cap)
unfolding attempted
attempted_within [] a d h = (d, h)
attempted_within ((now, ip) ∷ rest) a d h =
    attempted_within rest (allow now ip a).1 (allow-IsDistinct now ip a d)
      (allow_bounded now ip a h)

-- From a new limiter, whatever the attempts, their addresses and the clock: the table has each
-- address once, and at most 65536 of them.
pub attempted_bounded :
    (max : ℕ) (window zero_time : ℤ) (run : List (ℤ × String))
    → let a = attempted run (new_auth_limiter max window zero_time) in
      IsDistinct a.seen × (length a.seen ≤ auth_hard_cap)
unfolding new_auth_limiter
attempted_bounded max window zero_time run =
    attempted_within run (new_auth_limiter max window zero_time) tt (omega arith)
