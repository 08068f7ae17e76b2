-- ===== src/Transport/Channel/Sound.antt =====
-- The frames that are on their way, and what each step keeps of them.
use rekuest.Prelude.{
  ◌≡◌, refl, String, Bool, false, none, some, List, [], ◌∷◌, ◌++◌, append_assoc, arith, length,
  length-append, Option-cases, option_list, ◌⊎◌, inl, inr,
}
use rekuest.Transport.Channel.{
  Channel, entered, asend, start_sending, release_sends, take_frame, frame_sent, stop_sending,
}

-- The frames that are asked for and not on the wire yet, the next one first.
abbrev pub pending : Channel → List String
pending ch = option_list ch.in_flight ++ (option_list ch.held ++ ch.send_queue)

-- Everything that was asked for, the oldest first.
abbrev pub history : Channel → List String
history ch = ch.wire ++ pending ch

pub record IsSound (ch : Channel) : Type 0 where
  pub one_out : (ch.in_flight ≡ none) ⊎ (ch.held ≡ none)
  pub counted : ch.unfinished ≡ length (pending ch)
  pub gated : ch.released ≡ some false → ch.in_flight ≡ none

pub entered-IsSound : IsSound entered
entered-IsSound = record { one_out = inl refl; counted = refl; gated = λ e. refl }

pub asend-IsSound : (frame : String) (ch : Channel) → IsSound ch → IsSound (asend frame ch)
unfolding asend
asend-IsSound frame ch s = ground (arith, length-append ch.send_queue (frame ∷ []))

pub stop_sending-IsSound : (ch : Channel) → IsSound ch → IsSound (stop_sending ch)
unfolding stop_sending
stop_sending-IsSound ch s = ground arith

pub start_sending-IsSound :
    (holds : Bool) (ch : Channel) → IsSound ch → IsSound (start_sending holds (stop_sending ch))
unfolding start_sending stop_sending
start_sending-IsSound holds ch s = ground arith

pub release_sends-IsSound : (ch : Channel) → IsSound ch → IsSound (release_sends ch)
unfolding release_sends
release_sends-IsSound ch s = ground arith

pub take_frame-IsSound :
    (ch : Channel) (q : List String) → ch.send_queue ≡ q → IsSound ch → IsSound (take_frame ch)
unfolding take_frame
take_frame-IsSound ch [] e s = ground arith
take_frame-IsSound ch (f ∷ q) e s = ground arith

pub frame_sent-IsSound : (ch : Channel) → IsSound ch → IsSound (frame_sent ch)
unfolding frame_sent
frame_sent-IsSound ch s = ground arith

module _ (ch : Channel) (s : IsSound ch) where
  pub history-asend : (frame : String) → history (asend frame ch) ≡ history ch ++ frame ∷ []
  unfolding asend
  history-asend frame = simp append_assoc

  pub history-stop_sending : history (stop_sending ch) ≡ history ch
  unfolding stop_sending
  history-stop_sending = ground arith

  pub history-start_sending :
      (holds : Bool) → history (start_sending holds (stop_sending ch)) ≡ history ch
  unfolding start_sending
  history-start_sending holds = history-stop_sending

  pub history-release_sends : history (release_sends ch) ≡ history ch
  unfolding release_sends
  history-release_sends = ground arith

  pub history-take_frame :
      (q : List String) → ch.send_queue ≡ q → history (take_frame ch) ≡ history ch
  unfolding take_frame
  history-take_frame [] e = ground arith
  history-take_frame (f ∷ q) e = ground arith

  pub history-frame_sent : history (frame_sent ch) ≡ history ch
  unfolding frame_sent
  history-frame_sent = elim (Option-cases ch.in_flight) [
    | inl e ↦ ground arith
    | inr (f, e) ↦
        ground (arith, append_assoc ch.wire (f ∷ []) (option_list ch.held ++ ch.send_queue))
  ]
