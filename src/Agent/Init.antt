-- ===== src/Agent/Init.antt =====
-- `_aafter_init`: what an agent sends once a connection is registered.
use rekuest.Prelude.{
  ◌≡◌, ◌≢◌, refl, sym, ap, ◌∙◌, String, Bool, true, false, ◌&&◌, none, some, List, [], ◌∷◌, ◌++◌,
  append-nil, append_assoc, map, arith, keep, string_eq,
}
use rekuest.Transport.Channel.{Channel, asend, release_sends, discard_journaled}
use rekuest.Transport.Channel.Sound.{pending, IsSound, asend-IsSound, release_sends-IsSound}
use rekuest.Transport.Channel.Discard.{fresh, discard_journaled_lem, discard-IsSound}
use rekuest.Agent.{FrameKind, terminal_report, Frame, Delivery, retained_frames}
use rekuest.Agent.Resume.{is_of}

-- `asend` for each frame in turn; the transport is entered, so it only queues.
unfoldable pub send_all : List String → Channel → Channel
send_all [] ch = ch
send_all (frame ∷ rest) ch = send_all rest (asend frame ch)

unfoldable pub resend_retained : (Frame → String) → Delivery Frame → Channel → Channel
unfolding send_all
resend_retained dump d ch = send_all (map dump (retained_frames d)) ch

-- The transport's part of `_aafter_init`, on a transport with both methods
unfoldable pub after_init : (String → Bool) → (Frame → String) → Delivery Frame → Channel → Channel
unfolding resend_retained
after_init journaled dump d ch =
    release_sends (resend_retained dump d (discard_journaled journaled ch).0)

abbrev is_terminal : FrameKind → Bool
is_terminal terminal_report = true
is_terminal _ = false

unfoldable pub retained_terminal_reports : String → Delivery Frame → List Frame
retained_terminal_reports task d =
    keep (λ frame. is_terminal frame.kind && is_of task frame) (retained_frames d)

-- `_aresend_retained_report`: whether a finished task's reports were sent again
unfoldable pub resend_retained_report :
    (Frame → String) → String → Delivery Frame → Channel → Bool × Channel
unfolding retained_terminal_reports send_all
resend_retained_report dump task d ch = elim (retained_terminal_reports task d) [
  | [] ↦ (false, ch)
  | report ∷ reports ↦ (true, send_all (map dump (report ∷ reports)) ch)
]

pending-send_all :
    (frames : List String) (ch : Channel)
    → (pending (send_all frames ch) ≡ pending ch ++ frames)
      × ((send_all frames ch).wire ≡ ch.wire)
      × ((send_all frames ch).released ≡ ch.released)
      × ((send_all frames ch).in_flight ≡ ch.in_flight)
unfolding send_all asend
pending-send_all [] ch = (sym (append-nil (pending ch)), refl, refl, refl)
pending-send_all (frame ∷ rest) ch =
    let later = pending-send_all rest (asend frame ch) in
    (later.0 ∙ simp append_assoc, later.1, later.2, later.3)

keep-fresh :
    (journaled : String → Bool) (xs : List String) → keep journaled (keep (fresh journaled) xs) ≡ []
keep-fresh journaled [] = refl
keep-fresh journaled (x ∷ xs) = ground (arith, keep-fresh journaled xs)

pending-release_sends :
    (ch : Channel)
    → (pending (release_sends ch) ≡ pending ch)
      × ((release_sends ch).wire ≡ ch.wire)
      × (ch.released ≢ none → (release_sends ch).released ≡ some true)
unfolding release_sends
pending-release_sends ch = ground arith

-- On a connection that sent nothing since `Register`, handling `Init` puts no frame on the wire by
-- itself and lets the sender go. What is then to be sent are the frames without a position that were
-- waiting, in their order, followed by every retained frame in the resend order.
pub after_init_lem :
    (journaled : String → Bool) (dump : Frame → String) (d : Delivery Frame) (ch : Channel)
    → IsSound ch
    → ch.released ≡ some false
    → let ch' = after_init journaled dump d ch in
      (pending ch' ≡ keep (fresh journaled) (pending ch) ++ map dump (retained_frames d))
      × (ch'.wire ≡ ch.wire)
      × (ch'.released ≡ some true)
unfolding after_init resend_retained
after_init_lem journaled dump d ch s r =
    let dropped = discard_journaled_lem journaled ch s.counted in
    let ch₁ = (discard_journaled journaled ch).0 in
    let sent = pending-send_all (map dump (retained_frames d)) ch₁ in
    let out = pending-release_sends (send_all (map dump (retained_frames d)) ch₁) in
    (
      out.0 ∙ sent.0 ∙ ap (λ xs. xs ++ map dump (retained_frames d)) left,
      out.1 ∙ sent.1 ∙ dropped.4,
      out.2 (λ e. ground (arith, sent.2, dropped.5)),
    )
  where
    left : pending (discard_journaled journaled ch).0 ≡ keep (fresh journaled) (pending ch)
    left =
        let dropped = discard_journaled_lem journaled ch s.counted in
        ground (arith, dropped.0, dropped.3, s.gated r)

send_all-IsSound : (frames : List String) (ch : Channel) → IsSound ch → IsSound (send_all frames ch)
unfolding send_all
send_all-IsSound [] ch s = s
send_all-IsSound (frame ∷ rest) ch s =
    send_all-IsSound rest (asend frame ch) (asend-IsSound frame ch s)

pub after_init-IsSound :
    (journaled : String → Bool) (dump : Frame → String) (d : Delivery Frame) (ch : Channel)
    → IsSound ch
    → IsSound (after_init journaled dump d ch)
unfolding after_init resend_retained
after_init-IsSound journaled dump d ch s =
    release_sends-IsSound _
      (send_all-IsSound (map dump (retained_frames d)) _ (discard-IsSound journaled ch s))
