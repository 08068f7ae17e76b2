-- ===== src/Transport/Channel/Discard.antt =====
-- What `discard_journaled` drops, what it counts, and that it keeps the channel sound.
use rekuest.Prelude.{
  ◌+◌, ◌≡◌, refl, sym, ap, ◌∙◌, inl, inr, String, Bool, not, none, List, [], ◌∷◌, ◌++◌, arith,
  length, keep, keep-append, keep-keep, option_list,
}
use rekuest.Transport.Channel.{
  Channel, Event, asked, connected, init_handled, taken, sent, stopped, discarded, drain, drop_held,
  discard_journaled, step,
}
use rekuest.Transport.Channel.Sound.{
  pending, history, IsSound, asend-IsSound, stop_sending-IsSound, start_sending-IsSound,
  release_sends-IsSound, take_frame-IsSound, frame_sent-IsSound,
}

module _ (journaled : String → Bool) where
  abbrev pub fresh : String → Bool
  fresh frame = not (journaled frame)

  drain_lem :
      (q : List String)
      → ((drain journaled q).0 ≡ keep fresh q)
        × ((drain journaled q).1 + length (keep fresh q) ≡ length q)
  unfolding drain
  drain_lem [] = (refl, refl)
  drain_lem (f ∷ q) = ground (arith, drain_lem q)

  -- Dropping the frames with a position leaves exactly the others that were waiting, in their order,
  -- returns how many went, and leaves the queue's count at what is still to be sent; the wire and a
  -- frame in flight are untouched.
  pub discard_journaled_lem :
      (ch : Channel)
      → ch.unfinished ≡ length (pending ch)
      → let (ch', dropped) = discard_journaled journaled ch in
        (option_list ch'.held ++ ch'.send_queue ≡ keep fresh (option_list ch.held ++ ch.send_queue))
        × (dropped + length (pending ch') ≡ length (pending ch))
        × (ch'.unfinished ≡ length (pending ch'))
        × (ch'.in_flight ≡ ch.in_flight)
        × (ch'.wire ≡ ch.wire)
        × (ch'.released ≡ ch.released)
  unfolding discard_journaled drop_held
  discard_journaled_lem ch counted = ground (arith, drain_lem ch.send_queue)

  pub discard-IsSound : (ch : Channel) → IsSound ch → IsSound (discard_journaled journaled ch).0
  discard-IsSound ch s =
      let d = discard_journaled_lem ch s.counted in
      record {
        one_out = elim s.one_out [
          | inl e ↦ inl (d.3 ∙ e)
          | inr e ↦ inr (ground (arith, held_none ch e))
        ];
        counted = d.2;
        gated = λ e. d.3 ∙ s.gated (sym d.5 ∙ e);
      }
    where
      held_none : (ch : Channel) → ch.held ≡ none → (discard_journaled journaled ch).0.held ≡ none
      held_none ch e = unfold discard_journaled drop_held in ground arith

  -- Every event keeps a channel sound: the queue's count stays at what is still to be sent, no frame
  -- is both in flight and another one held, and none is in flight on a connection that may not send.
  pub step-IsSound : (e : Event) (ch : Channel) → IsSound ch → IsSound (step journaled e ch)
  unfolding step
  step-IsSound (asked f) ch s = asend-IsSound f ch s
  step-IsSound (connected b) ch s = start_sending-IsSound b ch s
  step-IsSound init_handled ch s = release_sends-IsSound ch s
  step-IsSound taken ch s = take_frame-IsSound ch ch.send_queue refl s
  step-IsSound sent ch s = frame_sent-IsSound ch s
  step-IsSound stopped ch s = stop_sending-IsSound ch s
  step-IsSound discarded ch s = discard-IsSound ch s

  pub history-discard :
      (ch : Channel)
      → IsSound ch
      → keep fresh (history (discard_journaled journaled ch).0) ≡ keep fresh (history ch)
  history-discard ch s =
      let d = discard_journaled_lem ch s.counted in
      let rest = option_list ch.held ++ ch.send_queue in
      ap (keep fresh) (kept (discard_journaled journaled ch).0 d.0 d.3 d.4)
      ∙ simp (keep-append, keep-keep)
    where
      kept :
          (ch' : Channel) {xs : List String}
          → option_list ch'.held ++ ch'.send_queue ≡ xs
          → ch'.in_flight ≡ ch.in_flight
          → ch'.wire ≡ ch.wire
          → history ch' ≡ ch.wire ++ (option_list ch.in_flight ++ xs)
      kept ch' a b c = cc
