-- ===== src/Sshd/Server/Alive.antt =====
-- The keepalives of internal/tunnel/sshd/server.go.
use hyrule_network_proxy.Prelude.{
  ℕ, ◌+◌, ◌≡◌, ◌<◌, ◌↔◌, refl, Bool, true, false, List, [], ◌∷◌, ◌++◌, arith, ℤ, pos, ◌<ℤ◌, ap,
  leb_ℤ, Bool-cases, inl, inr, zero, suc,
}
use hyrule_network_proxy.Sshd.Server.{keepalive_loop, keepalive}

-- Three requests in a row have failed.
abbrev pub HasThreeMisses : List Bool → Type 0
HasThreeMisses answers =
    (before : List Bool) × (after : List Bool) × (answers ≡ before ++ false ∷ false ∷ false ∷ after)

-- The failures that the loop has in mind, as answers.
misses_before : ℕ → List Bool → List Bool
misses_before zero answers = answers
misses_before (suc n) answers = misses_before n (false ∷ answers)

later_misses :
    (b : Bool) (answers : List Bool) → HasThreeMisses answers → HasThreeMisses (b ∷ answers)
later_misses b answers (before, after, e) = (b ∷ before, after, ap (◌∷◌ b) e)

with_misses :
    (n : ℕ) (answers : List Bool)
    → HasThreeMisses answers
    → HasThreeMisses (misses_before n answers)
unfolding misses_before
with_misses zero answers h = h
with_misses (suc n) answers h = with_misses n (false ∷ answers) (later_misses false answers h)

loop-closes :
    (answers : List Bool) (misses : ℕ)
    → misses < 3
    → keepalive_loop misses answers ≡ true
    → HasThreeMisses (misses_before misses answers)
unfolding keepalive_loop misses_before
loop-closes [] misses h e = absurd (ground arith)
loop-closes (true ∷ rest) misses h e =
    with_misses misses (true ∷ rest) (later_misses true rest (loop-closes rest 0 (omega arith) e))
loop-closes (false ∷ rest) zero h e = loop-closes rest 1 (omega arith) e
loop-closes (false ∷ rest) (suc zero) h e = loop-closes rest 2 (omega arith) e
loop-closes (false ∷ rest) (suc (suc zero)) h e = ([], rest, refl)
loop-closes (false ∷ rest) (suc (suc (suc n))) h e = absurd (omega arith)

closes-loop :
    (before after : List Bool) (misses : ℕ)
    → keepalive_loop misses (before ++ false ∷ false ∷ false ∷ after) ≡ true
unfolding keepalive_loop
closes-loop [] after misses = ground arith
closes-loop (true ∷ bs) after misses = closes-loop bs after 0
closes-loop (false ∷ bs) after misses = ground (arith, closes-loop bs after (misses + 1))

-- The keepalives close the connection exactly if their interval is positive and three of them in a
-- row fail.
pub keepalive_iff :
    (interval : ℤ) (answers : List Bool)
    → (keepalive interval answers ≡ true) ↔ ((pos 0 <ℤ interval) × HasThreeMisses answers)
unfolding keepalive misses_before
keepalive_iff interval answers = (there, back)
  where
    there : keepalive interval answers ≡ true → (pos 0 <ℤ interval) × HasThreeMisses answers
    there e = elim (Bool-cases (leb_ℤ interval (pos 0))) [
      | inl off ↦ absurd (ground arith)
      | inr on ↦ (ground arith, loop-closes answers 0 (omega arith) (ground arith))
    ]

    back : (pos 0 <ℤ interval) × HasThreeMisses answers → keepalive interval answers ≡ true
    back (on, (before, after, e)) = rw (e) (ground (arith, closes-loop before after 0))
