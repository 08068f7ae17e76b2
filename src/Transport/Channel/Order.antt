-- ===== src/Transport/Channel/Order.antt =====
-- What the host asked to send reaches the wire once and in order, over any number of connections.
use rekuest.Prelude.{
  ◌≡◌, ◌≢◌, refl, sym, ap, ◌∙◌, String, Bool, false, some, List, [], ◌∷◌, ◌++◌, append-nil,
  append_assoc, arith, keep, keep-append, All,
}
use rekuest.Transport.Channel.{
  Channel, Event, asked, connected, init_handled, taken, sent, stopped, discarded, asend,
  start_sending, stop_sending, take_frame, frame_sent, step, run, asked_frames,
}
use rekuest.Transport.Channel.Sound.{
  history, IsSound, history-asend, history-stop_sending, history-start_sending,
  history-release_sends, history-take_frame, history-frame_sent,
}
use rekuest.Transport.Channel.Discard.{fresh, discard_journaled_lem, step-IsSound, history-discard}

module _ (journaled : String → Bool) where
  history-step :
      (e : Event) (ch : Channel)
      → e ≢ discarded
      → IsSound ch
      → history (step journaled e ch) ≡ history ch ++ asked_frames (e ∷ [])
  unfolding step
  history-step (asked f) ch h s = history-asend ch s f
  history-step (connected b) ch h s = history-start_sending ch s b ∙ sym (append-nil (history ch))
  history-step init_handled ch h s = history-release_sends ch s ∙ sym (append-nil (history ch))
  history-step taken ch h s =
      history-take_frame ch s ch.send_queue refl ∙ sym (append-nil (history ch))
  history-step sent ch h s = history-frame_sent ch s ∙ sym (append-nil (history ch))
  history-step stopped ch h s = history-stop_sending ch s ∙ sym (append-nil (history ch))
  history-step discarded ch h s = absurd (h refl)

  asked_frames-cons :
      (e : Event) (es : List Event)
      → asked_frames (e ∷ es) ≡ asked_frames (e ∷ []) ++ asked_frames es
  asked_frames-cons (asked f) es = refl
  asked_frames-cons discarded es = refl
  asked_frames-cons _ es = refl

  -- While nothing is discarded on a sound channel, the wire followed by what is still pending is always what was there
  -- followed by what was asked for since: no frame is lost, repeated or overtaken, however often the
  -- link drops, a send fails or the sender is cancelled.
  pub history-run :
      (es : List Event) (ch : Channel)
      → All (λ e. e ≢ discarded) es
      → IsSound ch
      → history (run journaled es ch) ≡ history ch ++ asked_frames es
  unfolding run
  history-run [] ch h s = sym (append-nil (history ch))
  history-run (e ∷ es) ch h s =
      history-run es (step journaled e ch) h.1 (step-IsSound journaled e ch s)
      ∙ ap (λ xs. xs ++ asked_frames es) (history-step e ch h.0 s)
      ∙ append_assoc (history ch) (asked_frames (e ∷ [])) (asked_frames es)
      ∙ ap (λ xs. history ch ++ xs) (sym (asked_frames-cons e es))

  fresh-step :
      (e : Event) (ch : Channel)
      → IsSound ch
      → keep (fresh journaled) (history (step journaled e ch))
        ≡ keep (fresh journaled) (history ch ++ asked_frames (e ∷ []))
  unfolding step
  fresh-step discarded ch s =
      history-discard journaled ch s ∙ ap (keep (fresh journaled)) (sym (append-nil (history ch)))
  fresh-step (asked f) ch s = ap (keep (fresh journaled)) (history-step (asked f) ch (λ e. cc) s)
  fresh-step (connected f) ch s =
      ap (keep (fresh journaled)) (history-step (connected f) ch (λ e. cc) s)
  fresh-step init_handled ch s =
      ap (keep (fresh journaled)) (history-step init_handled ch (λ e. cc) s)
  fresh-step taken ch s = ap (keep (fresh journaled)) (history-step taken ch (λ e. cc) s)
  fresh-step sent ch s = ap (keep (fresh journaled)) (history-step sent ch (λ e. cc) s)
  fresh-step stopped ch s = ap (keep (fresh journaled)) (history-step stopped ch (λ e. cc) s)

  -- Whatever befalls a sound channel, discards of numbered frames too, the frames without a position
  -- on the wire and pending are those that were there followed by those asked for since: none of them
  -- is lost, repeated or overtaken by another.
  pub fresh-run :
      (es : List Event) (ch : Channel)
      → IsSound ch
      → keep (fresh journaled) (history (run journaled es ch))
        ≡ keep (fresh journaled) (history ch ++ asked_frames es)
  unfolding run
  fresh-run [] ch s = ap (keep (fresh journaled)) (sym (append-nil (history ch)))
  fresh-run (e ∷ es) ch s =
      fresh-run es (step journaled e ch) (step-IsSound journaled e ch s)
      ∙ keep-append (fresh journaled) (history (step journaled e ch)) (asked_frames es)
      ∙ ap (λ xs. xs ++ keep (fresh journaled) (asked_frames es)) (fresh-step e ch s)
      ∙ sym (keep-append (fresh journaled) (history ch ++ asked_frames (e ∷ [])) (asked_frames es))
      ∙ ap (keep (fresh journaled)) (
          append_assoc (history ch) (asked_frames (e ∷ [])) (asked_frames es)
          ∙ ap (λ xs. history ch ++ xs) (sym (asked_frames-cons e es)))

  silent-step :
      (e : Event) (ch : Channel)
      → e ≢ init_handled
      → e ≢ connected false
      → IsSound ch
      → ch.released ≡ some false
      → ((step journaled e ch).wire ≡ ch.wire) × ((step journaled e ch).released ≡ some false)
  unfolding step asend start_sending stop_sending take_frame frame_sent
  silent-step discarded ch h k s r =
      let d = discard_journaled_lem journaled ch s.counted in (d.4, d.5 ∙ r)
  silent-step init_handled ch h k s r = absurd (h refl)
  silent-step (connected false) ch h k s r = absurd (k refl)
  silent-step _ ch h k s r = ground arith

  -- Between `Register` and `Init` nothing goes out: a connection whose host holds the sends puts no
  -- frame on the wire, whatever happens, until the `Init` is handled or a connection without that
  -- rule replaces it.
  pub silent-run :
      (es : List Event) (ch : Channel)
      → All (λ e. (e ≢ init_handled) × (e ≢ connected false)) es
      → IsSound ch
      → ch.released ≡ some false
      → (run journaled es ch).wire ≡ ch.wire
  unfolding run
  silent-run [] ch h s r = refl
  silent-run (e ∷ es) ch h s r =
      let now = silent-step e ch h.0.0 h.0.1 s r in
      silent-run es (step journaled e ch) h.1 (step-IsSound journaled e ch s) now.1 ∙ now.0
