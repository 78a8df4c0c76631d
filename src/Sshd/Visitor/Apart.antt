-- ===== src/Sshd/Visitor/Apart.antt =====
-- What a step of one visitor of internal/tunnel/sshd/forward.go leaves to the others.
use hyrule_network_proxy.Prelude.{ℕ, ◌≡◌, ◌≢◌, refl, Bool, true, false, none, some, arith, write}
use hyrule_network_proxy.Prelude.Map.{nat_key, lookup, lookup-put, lookup-delete}
use hyrule_network_proxy.Lease.Model.{Net}
use hyrule_network_proxy.Sshd.Forward.{Forward, track_visitor, set_visitor_channel, untrack_visitor}
use hyrule_network_proxy.Sshd.Manager.{Manager}
use hyrule_network_proxy.Sshd.Visitor.{
  Phase, arrived, admitted, tracked, holding, opened, copying, closing_channel, releasing,
  untracking, closing, finished, Visitor, Event, advance, set_forward, set_state,
}
use hyrule_network_proxy.Sshd.Visitor.Caught.{Held}

pub record Apart (vc f : ℕ) (m m' : Manager) : Type 0 where
  pub other_forwards : (g : ℕ) → g ≢ f → m'.forwards g ≡ m.forwards g
  pub same_closed : (g : ℕ) → (m'.forwards g).closed ≡ (m.forwards g).closed
  pub same_entry :
      (g j : ℕ) → j ≢ vc → lookup j (m'.forwards g).visitors ≡ lookup j (m.forwards g).visitors
  pub sockets_grow : (j : ℕ) → m.socket_closed j ≡ true → m'.socket_closed j ≡ true
  pub channels_grow : (ch : ℕ) → m.channel_closed ch ≡ true → m'.channel_closed ch ≡ true
  pub next_forwards : m'.next_forward ≡ m.next_forward

quiet-Apart :
    (vc f : ℕ) (m m' : Manager)
    → m'.forwards ≡ m.forwards
    → ((j : ℕ) → m.socket_closed j ≡ true → m'.socket_closed j ≡ true)
    → ((ch : ℕ) → m.channel_closed ch ≡ true → m'.channel_closed ch ≡ true)
    → m'.next_forward ≡ m.next_forward
    → Apart vc f m m'
quiet-Apart vc f m m' fs so ch nf = record {
  other_forwards = λ g ne. ground arith;
  same_closed = λ g. ground arith;
  same_entry = λ g j ne. ground arith;
  sockets_grow = so;
  channels_grow = ch;
  next_forwards = nf;
}

same-Apart : (vc f : ℕ) (m : Manager) → Apart vc f m m
same-Apart vc f m = quiet-Apart vc f m m refl (λ j e. e) (λ ch e. e) refl

-- A write to one forward that touches the entry of one visitor.
entry-Apart :
    (vc f : ℕ) (m : Manager) (r : Bool × Forward)
    → r.1.closed ≡ (m.forwards f).closed
    → ((j : ℕ) → j ≢ vc → lookup j r.1.visitors ≡ lookup j (m.forwards f).visitors)
    → Apart vc f m (set_forward f r m)
unfolding set_forward write
entry-Apart vc f m r c e = record {
  other_forwards = λ g ne. ground arith;
  same_closed = λ g. ground arith;
  same_entry = λ g j ne. ground (arith, e j ne);
  sockets_grow = λ j h. h;
  channels_grow = λ ch h. h;
  next_forwards = refl;
}

pub advance-Apart :
    (net : Net) (ev : Event) (vc : ℕ) (v : Visitor) (p : Phase) (m : Manager)
    → Apart vc v.forward m (advance net ev vc v p m).1
unfolding advance set_state track_visitor set_visitor_channel untrack_visitor write
advance-Apart net ev vc v (arrived ip) m = same-Apart vc v.forward m
advance-Apart net ev vc v admitted m =
    entry-Apart vc v.forward m (track_visitor vc (m.forwards v.forward)) (ground arith)
      (λ j ne. ground (arith, lookup-put vc j none (m.forwards v.forward).visitors))
advance-Apart net ev vc v tracked m = quiet-Apart vc v.forward m _ refl (λ j e. e) (λ ch e. e) refl
advance-Apart net ev vc v holding m = same-Apart vc v.forward m
advance-Apart net ev vc v (opened ch) m =
    entry-Apart vc v.forward m (set_visitor_channel vc ch (m.forwards v.forward)) (ground arith)
      (λ j ne. ground (arith, lookup-put vc j (some ch) (m.forwards v.forward).visitors))
advance-Apart net ev vc v (copying ch true true) m =
    quiet-Apart vc v.forward m _ (ground arith) (λ j e. ground arith) (λ c e. ground arith)
      (ground arith)
advance-Apart net ev vc v (copying ch true false) m =
    quiet-Apart vc v.forward m _ refl (λ j e. e) (λ ch e. e) refl
advance-Apart net ev vc v (copying ch false true) m =
    quiet-Apart vc v.forward m _ refl (λ j e. e) (λ ch e. e) refl
advance-Apart net ev vc v (copying ch false false) m = same-Apart vc v.forward m
advance-Apart net ev vc v (closing_channel ch) m =
    quiet-Apart vc v.forward m _ refl (λ j e. e) (λ c e. ground arith) refl
advance-Apart net ev vc v releasing m =
    quiet-Apart vc v.forward m _ refl (λ j e. e) (λ ch e. e) refl
advance-Apart net ev vc v untracking m =
    entry-Apart vc v.forward m (true, untrack_visitor vc (m.forwards v.forward)) refl
      (λ j ne. ground (arith, lookup-delete vc j (m.forwards v.forward).visitors))
advance-Apart net ev vc v closing m =
    quiet-Apart vc v.forward m _ refl (λ j e. ground arith) (λ ch e. e) refl
advance-Apart net ev vc v finished m = same-Apart vc v.forward m

-- So it keeps the hold on every other visitor.
pub Apart-Held :
    (vc g i f : ℕ) (p : Phase) (m m' : Manager)
    → Apart vc g m m'
    → i ≢ vc
    → Held i f p m
    → Held i f p m'
Apart-Held vc g i f p m m' a ne h = record {
  socket_shut = λ t c. a.sockets_grow i (h.socket_shut t (ground (arith, a.same_closed f)));
  entered = λ t c. ground (arith, h.entered t, a.same_entry f i ne, a.same_closed f);
  channel_shut =
      λ ch e c. a.channels_grow ch (h.channel_shut ch e (ground (arith, a.same_closed f)));
  channel_entered =
      λ ch e c. ground (arith, h.channel_entered ch e, a.same_entry f i ne, a.same_closed f);
  left = λ t. ground (arith, h.left t, a.same_entry f i ne);
  ended = λ t. a.sockets_grow i (h.ended t);
}
