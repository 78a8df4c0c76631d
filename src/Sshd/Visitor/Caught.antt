-- ===== src/Sshd/Visitor/Caught.antt =====
-- No visitor of internal/tunnel/sshd/forward.go escapes the end of its forward, and none stays behind
-- in a forward's table.
use hyrule_network_proxy.Prelude.{
  ℕ, ◌≡◌, ◌≢◌, refl, Bool, true, false, Option, none, some, arith, write,
}
use hyrule_network_proxy.Prelude.Map.{nat_key, lookup, lookup-put, lookup-delete}
use hyrule_network_proxy.Lease.Model.{Net}
use hyrule_network_proxy.Sshd.Forward.{track_visitor, set_visitor_channel, untrack_visitor}
use hyrule_network_proxy.Sshd.Manager.{Manager}
use hyrule_network_proxy.Sshd.Visitor.{
  Phase, arrived, admitted, tracked, holding, opened, copying, closing_channel, releasing,
  untracking, closing, finished, Visitor, Event, advance, set_forward, set_state,
}

-- The phases between trackVisitor and untrackVisitor.
abbrev pub is_tracked : Phase → Bool
is_tracked (arrived ip) = false
is_tracked admitted = false
is_tracked tracked = true
is_tracked holding = true
is_tracked (opened ch) = true
is_tracked (copying ch a b) = true
is_tracked (closing_channel ch) = true
is_tracked releasing = true
is_tracked untracking = true
is_tracked closing = false
is_tracked finished = false

-- The channel of a visitor that copies.
abbrev pub channel_of : Phase → Option ℕ
channel_of (copying ch a b) = some ch
channel_of (arrived ip) = none
channel_of admitted = none
channel_of tracked = none
channel_of holding = none
channel_of (opened ch) = none
channel_of (closing_channel ch) = none
channel_of releasing = none
channel_of untracking = none
channel_of closing = none
channel_of finished = none

abbrev pub is_finished : Phase → Bool
is_finished finished = true
is_finished (copying ch a b) = false
is_finished (arrived ip) = false
is_finished admitted = false
is_finished tracked = false
is_finished holding = false
is_finished (opened ch) = false
is_finished (closing_channel ch) = false
is_finished releasing = false
is_finished untracking = false
is_finished closing = false

-- The hold that the forward f has on the visitor i.
pub record Held (i f : ℕ) (p : Phase) (m : Manager) : Type 0 where
  pub socket_shut : is_tracked p ≡ true → (m.forwards f).closed ≡ true → m.socket_closed i ≡ true
  pub entered :
      is_tracked p ≡ true → (m.forwards f).closed ≡ false → lookup i (m.forwards f).visitors ≢ none
  pub channel_shut :
      (ch : ℕ) → channel_of p ≡ some ch → (m.forwards f).closed ≡ true → m.channel_closed ch ≡ true
  pub channel_entered :
      (ch : ℕ)
      → channel_of p ≡ some ch
      → (m.forwards f).closed ≡ false
      → lookup i (m.forwards f).visitors ≡ some (some ch)
  pub left : is_tracked p ≡ false → lookup i (m.forwards f).visitors ≡ none
  pub ended : is_finished p ≡ true → m.socket_closed i ≡ true

-- A step that leaves the forward and, but for closing more, the sockets and channels as they are.
quiet-Held :
    (i f : ℕ) (p p' : Phase) (m m' : Manager)
    → m'.forwards ≡ m.forwards
    → m'.socket_closed ≡ m.socket_closed
    → ((ch : ℕ) → m.channel_closed ch ≡ true → m'.channel_closed ch ≡ true)
    → is_tracked p' ≡ is_tracked p
    → ((ch : ℕ) → channel_of p' ≡ some ch → channel_of p ≡ some ch)
    → is_finished p' ≡ false
    → Held i f p m
    → Held i f p' m'
quiet-Held i f p p' m m' fs ss grow t c e h = record {
  socket_shut = ground (arith, h.socket_shut);
  entered = ground (arith, h.entered);
  channel_shut = λ ch q w. grow ch (h.channel_shut ch (c ch q) (ground arith));
  channel_entered = λ ch q w. ground (arith, h.channel_entered ch (c ch q));
  left = ground (arith, h.left);
  ended = λ q. absurd (ground arith);
}

module _ (net : Net) (ev : Event) (vc : ℕ) (v : Visitor) (m : Manager) where
  tracks-Held :
      Held vc v.forward admitted m
      → Held vc v.forward (advance net ev vc v admitted m).0 (advance net ev vc v admitted m).1
  unfolding advance set_forward track_visitor write
  tracks-Held h = record {
    socket_shut = ground (arith, h.socket_shut);
    entered = ground (arith, h.entered, lookup-put vc vc none (m.forwards v.forward).visitors);
    channel_shut = λ ch e c. ground (arith, h.channel_shut ch);
    channel_entered = λ ch e c. ground (arith, h.channel_entered ch);
    left = ground (arith, h.left);
    ended = ground (arith, h.ended);
  }

  opens-Held :
      (ch : ℕ)
      → Held vc v.forward (opened ch) m
      → Held vc v.forward
          (advance net ev vc v (opened ch) m).0
          (advance net ev vc v (opened ch) m).1
  unfolding advance set_forward set_visitor_channel write
  opens-Held ch h =
      let put_law = lookup-put vc vc (some ch) (m.forwards v.forward).visitors in
      record {
        socket_shut = ground (arith, h.socket_shut);
        entered = ground (arith, h.entered, put_law);
        channel_shut = λ c e w. ground (arith, h.entered);
        channel_entered = λ c e w. ground (arith, h.entered, put_law);
        left = ground (arith, h.left);
        ended = ground (arith, h.ended);
      }

  untracks-Held :
      Held vc v.forward untracking m
      → Held vc v.forward (advance net ev vc v untracking m).0 (advance net ev vc v untracking m).1
  unfolding advance set_forward untrack_visitor write
  untracks-Held h = record {
    socket_shut = λ e. absurd (ground arith);
    entered = λ e. absurd (ground arith);
    channel_shut = λ c e w. absurd (ground arith);
    channel_entered = λ c e w. absurd (ground arith);
    left = λ e. ground (arith, lookup-delete vc vc (m.forwards v.forward).visitors);
    ended = λ e. absurd (ground arith);
  }

  shuts-Held :
      Held vc v.forward closing m
      → Held vc v.forward (advance net ev vc v closing m).0 (advance net ev vc v closing m).1
  unfolding advance write
  shuts-Held h = record {
    socket_shut = λ e. absurd (ground arith);
    entered = λ e. absurd (ground arith);
    channel_shut = λ c e w. absurd (ground arith);
    channel_entered = λ c e w. absurd (ground arith);
    left = h.left;
    ended = λ e. ground arith;
  }

  -- A step of a visitor keeps the hold that its forward has on it.
  pub advance-Held :
      (p : Phase)
      → Held vc v.forward p m
      → Held vc v.forward (advance net ev vc v p m).0 (advance net ev vc v p m).1
  unfolding advance set_state write
  advance-Held (arrived ip) h =
      quiet-Held vc v.forward (arrived ip) _ m m refl refl (λ ch e. e) (ground arith)
        (λ ch e. ground arith) (ground arith) h
  advance-Held admitted h = tracks-Held h
  advance-Held tracked h =
      quiet-Held vc v.forward tracked _ m _ refl refl (λ ch e. e) (ground arith)
        (λ ch e. ground arith) (ground arith) h
  advance-Held holding h =
      quiet-Held vc v.forward holding _ m m refl refl (λ ch e. e) (ground arith)
        (λ ch e. ground arith) (ground arith) h
  advance-Held (opened ch) h = opens-Held ch h
  advance-Held (copying ch true true) h =
      quiet-Held vc v.forward (copying ch true true) _ m _ (ground arith) (ground arith)
        (λ c e. ground arith) (ground arith) (λ c e. ground arith) (ground arith) h
  advance-Held (copying ch true false) h =
      quiet-Held vc v.forward (copying ch true false) _ m _ refl refl (λ c e. e) refl (λ c e. e)
        refl h
  advance-Held (copying ch false true) h =
      quiet-Held vc v.forward (copying ch false true) _ m _ refl refl (λ c e. e) refl (λ c e. e)
        refl h
  advance-Held (copying ch false false) h =
      quiet-Held vc v.forward (copying ch false false) _ m m refl refl (λ c e. e) refl
        (λ c e. ground arith) refl h
  advance-Held (closing_channel ch) h =
      quiet-Held vc v.forward (closing_channel ch) _ m _ refl refl (λ c e. ground arith) refl
        (λ c e. e) refl h
  advance-Held releasing h =
      quiet-Held vc v.forward releasing _ m _ refl refl (λ c e. e) refl (λ c e. e) refl h
  advance-Held untracking h = untracks-Held h
  advance-Held closing h = shuts-Held h
  advance-Held finished h = h
