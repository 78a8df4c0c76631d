-- ===== src/Sshd/Visitor/Ending.antt =====
-- Every goroutine of a visitor of internal/tunnel/sshd/forward.go comes to an end, whatever the
-- others do, and gives back all that it holds.
use hyrule_network_proxy.Prelude.{
  ℕ, ◌+◌, ◌-◌, ◌≤◌, ◌<◌, ◌==◌, ◌≡◌, ◌∙◌, true, false, Option, none, some, arith, write, write-cases,
  if◌then◌else◌, number-eq-zero, ap, Option-cases, ◌⊎◌, inl, inr,
}
use hyrule_network_proxy.Prelude.Map.{nat_key, lookup}
use hyrule_network_proxy.Lease.Model.{Net}
use hyrule_network_proxy.Sshd.Manager.{Manager}
use hyrule_network_proxy.Sshd.Visitor.{
  Phase, arrived, admitted, tracked, holding, opened, copying, closing_channel, releasing,
  untracking, closing, finished, Visitor, System, Event, advance, set_phase, visit, accept, Move,
  manages, accepts, visits, Run, start, later,
}
use hyrule_network_proxy.Sshd.Visitor.Slots.{IsCounted, holds_slot}
use hyrule_network_proxy.Sshd.Visitor.Counted.{Run-IsCounted}
use hyrule_network_proxy.Sshd.Visitor.Caught.{is_finished, is_tracked}
use hyrule_network_proxy.Sshd.Visitor.Tracking.{IsCaught, Run-IsCaught}

-- The steps that a visitor has at most before it.
abbrev pub remaining : Phase → ℕ
remaining (arrived ip) = 12
remaining admitted = 11
remaining tracked = 10
remaining holding = 9
remaining (opened ch) = 8
remaining (copying ch true true) = 7
remaining (copying ch true false) = 6
remaining (copying ch false true) = 6
remaining (copying ch false false) = 5
remaining (closing_channel ch) = 4
remaining releasing = 3
remaining untracking = 2
remaining closing = 1
remaining finished = 0

remaining-le : (p : Phase) → remaining p ≤ 12
remaining-le p = ground arith

finished_of_remaining : (p : Phase) → remaining p ≡ 0 → is_finished p ≡ true
finished_of_remaining p h = ground arith

untracked_of_finished : (p : Phase) → is_finished p ≡ true → is_tracked p ≡ false
untracked_of_finished p h = ground arith

unslotted_of_finished : (r : ℕ) (v : Visitor) → is_finished v.phase ≡ true → holds_slot r v ≡ false
unslotted_of_finished r v h = ground arith

remaining-advance :
    (net : Net) (ev : Event) (vc : ℕ) (v : Visitor) (p : Phase) (m : Manager)
    → remaining (advance net ev vc v p m).0 ≤ remaining p - 1
unfolding advance
remaining-advance net ev vc v (arrived ip) m = ground arith
remaining-advance net ev vc v admitted m = ground arith
remaining-advance net ev vc v tracked m = ground arith
remaining-advance net ev vc v holding m = ground arith
remaining-advance net ev vc v (opened ch) m = ground arith
remaining-advance net ev vc v (copying ch true true) m = ground arith
remaining-advance net ev vc v (copying ch true false) m = omega arith
remaining-advance net ev vc v (copying ch false true) m = omega arith
remaining-advance net ev vc v (copying ch false false) m = omega arith
remaining-advance net ev vc v (closing_channel ch) m = omega arith
remaining-advance net ev vc v releasing m = omega arith
remaining-advance net ev vc v untracking m = omega arith
remaining-advance net ev vc v closing m = omega arith
remaining-advance net ev vc v finished m = omega arith

abbrev is_move_of : ℕ → {s t : System} → Move s t → ℕ
is_move_of vc (manages s m st) = 0
is_move_of vc (accepts s r f ip hr hf) = 0
is_move_of vc (visits s net ev i h) = if i == vc then 1 else 0

-- How many steps of a run are steps of the visitor.
unfoldable pub moves_of : ℕ → {s t : System} → Run s t → ℕ
moves_of vc start = 0
moves_of vc (later r mv) = moves_of vc r + is_move_of vc mv

visited_remaining :
    (s : System) (net : Net) (ev : Event) (i vc : ℕ)
    → remaining ((visit net ev i s).visitors vc).phase
      ≤ remaining (s.visitors vc).phase - (if i == vc then 1 else 0)
unfolding visit set_phase
visited_remaining s net ev i vc =
    let x = s.visitors i in
    let r = advance net ev i x x.phase s.manager in
    write-cases s.visitors i (record x { phase = r.0 })
      (λ y. remaining y.phase ≤ remaining (s.visitors vc).phase - (if i == vc then 1 else 0)) vc
      (λ e. ground (
        arith,
        remaining-advance net ev i x x.phase s.manager,
        ap (λ j. remaining (s.visitors j).phase) e,
      ))
      (λ ne. ground arith)

Move-remaining :
    {s t : System} (vc : ℕ) (mv : Move s t)
    → vc < s.next_visitor
    → (vc < t.next_visitor)
      × (remaining (t.visitors vc).phase ≤ remaining (s.visitors vc).phase - is_move_of vc mv)
unfolding accept write visit set_phase
Move-remaining vc (manages s m st) h = (h, omega arith)
Move-remaining vc (accepts s r f ip hr hf) h = (omega arith, ground arith)
Move-remaining vc (visits s net ev i l) h = (h, visited_remaining s net ev i vc)

run_remaining :
    {s t : System} (vc : ℕ) (run : Run s t)
    → vc < s.next_visitor
    → (vc < t.next_visitor)
      × (remaining (t.visitors vc).phase ≤ remaining (s.visitors vc).phase - moves_of vc run)
unfolding moves_of
run_remaining vc start h = (h, omega arith)
run_remaining vc (later r mv) h =
    let (k, before) = run_remaining vc r h in
    let (l, step) = Move-remaining vc mv k in (l, omega (arith, before, step))

-- In any run from a system with the invariant, a visitor that has made twelve steps of its own has
-- finished: its socket is closed and its forward has forgotten it.
pub visitor_ends :
    {s t : System} (vc : ℕ) (run : Run s t)
    → IsCaught s
    → vc < s.next_visitor
    → 12 ≤ moves_of vc run
    → (is_finished (t.visitors vc).phase ≡ true)
      × (t.manager.socket_closed vc ≡ true)
      × (lookup vc (t.manager.forwards (t.visitors vc).forward).visitors ≡ none)
visitor_ends {s} {t} vc run v h enough =
    let p = (t.visitors vc).phase in
    let (known, left) = run_remaining vc run h in
    let done =
      finished_of_remaining p (omega (arith, left, remaining-le ((s.visitors vc).phase))) in
    let held = (Run-IsCaught v run).held vc known in
    (done, held.ended done, held.left (untracked_of_finished p done))

-- When, after any run from a system with the invariants, all visitors have finished, nothing is
-- left of them: the count of every lease is zero, every table is empty, every socket is closed.
pub all_released :
    {s t : System}
    → IsCounted s
    → IsCaught s
    → Run s t
    → ((i : ℕ) → i < t.next_visitor → is_finished (t.visitors i).phase ≡ true)
    → ((r : ℕ) → r < t.manager.next_state → (t.manager.states r).visitors ≡ 0)
      × ((f i : ℕ) → f < t.manager.next_forward → lookup i (t.manager.forwards f).visitors ≡ none)
      × ((i : ℕ) → i < t.next_visitor → t.manager.socket_closed i ≡ true)
all_released {s} {t} c v run done = (
  λ r h.
      (Run-IsCounted c run).counted r h
      ∙ number-eq-zero (holds_slot r) t.next_visitor t.visitors
          (λ i l. unslotted_of_finished r (t.visitors i) (done i l)),
  λ f i h. emptied f i h (Option-cases (lookup i (t.manager.forwards f).visitors)),
  λ i h. ((Run-IsCaught v run).held i h).ended (done i h),
)
  where
    emptied :
        (f i : ℕ)
        → f < t.manager.next_forward
        → (lookup i (t.manager.forwards f).visitors ≡ none)
          ⊎ ((o : Option ℕ) × (lookup i (t.manager.forwards f).visitors ≡ some o))
        → lookup i (t.manager.forwards f).visitors ≡ none
    emptied f i h (inl e) = e
    emptied f i h (inr (o, e)) =
        let w = Run-IsCaught v run in
        let (known, on) = w.own i f h (λ q. cc) in
        let gone =
          (w.held i known).left (untracked_of_finished (t.visitors i).phase (done i known)) in
        rw on at gone
