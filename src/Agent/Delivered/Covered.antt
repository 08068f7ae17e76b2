-- ===== src/Agent/Delivered/Covered.antt =====
-- On a connection that has handled its `Init` every retained frame was sent or still waits.
use rekuest.Prelude.{
  ℕ, ◌≡◌, ◌≢◌, refl, sym, ap, subst, ◌∙◌, String, Bool, true, false, Option, none, some, List, [],
  ◌∷◌, ◌++◌, append-nil, append_assoc, map, arith, contains, contains-append, keep, option_list,
  string_eq, nat_eq, pair_eq,
}
use rekuest.Prelude.Dict.{lookup}
use rekuest.Transport.Channel.{Channel, asend, start_sending, stop_sending, take_frame, frame_sent}
use rekuest.Transport.Channel.Sound.{
  pending, IsSound, entered-IsSound, asend-IsSound, start_sending-IsSound, stop_sending-IsSound,
  take_frame-IsSound, frame_sent-IsSound,
}
use rekuest.Transport.Channel.Discard.{fresh}
use rekuest.Agent.{Frame, Delivery, retained_frames}
use rekuest.Agent.Init.{after_init_lem, after_init-IsSound}
use rekuest.Agent.Delivered.{
  Host, Step, emits, says, acks, connects, handles_init, takes, sends, stops, Reach, starts, then_,
  lookup-retain, lookup-journal_ack, open_store-opened, contains-retained_frames,
}

-- The frames between two states of a channel, from its steps: what the step puts on the wire, and what
-- is left of what was pending.
take_frame_lem :
    (ch : Channel) (q : List String)
    → IsSound ch
    → ch.send_queue ≡ q
    → (pending (take_frame ch) ≡ pending ch)
      × ((take_frame ch).wire ≡ ch.wire)
      × ((take_frame ch).released ≡ ch.released)
unfolding take_frame
take_frame_lem ch [] s e = ground arith
take_frame_lem ch (f ∷ q) s e = ground arith

frame_sent_lem :
    (ch : Channel)
    → (pending ch ≡ option_list ch.in_flight ++ pending (frame_sent ch))
      × ((frame_sent ch).wire ≡ ch.wire ++ option_list ch.in_flight)
      × ((frame_sent ch).released ≡ ch.released)
unfolding frame_sent
frame_sent_lem ch = ground (arith, append-nil ch.wire)

stop_sending_lem :
    (ch : Channel)
    → IsSound ch
    → (pending (stop_sending ch) ≡ pending ch)
      × ((stop_sending ch).wire ≡ ch.wire)
      × ((stop_sending ch).released ≡ ch.released)
unfolding stop_sending
stop_sending_lem ch s = ground arith

connect_lem :
    (ch : Channel)
    → ((start_sending true (stop_sending ch)).released ≡ some false)
      × ((start_sending true (stop_sending ch)).wire ≡ ch.wire)
unfolding start_sending stop_sending
connect_lem ch = ground arith

asend_lem :
    (text : String) (ch : Channel)
    → (pending (asend text ch) ≡ pending ch ++ text ∷ [])
      × ((asend text ch).wire ≡ ch.wire)
      × ((asend text ch).released ≡ ch.released)
unfolding asend
asend_lem text ch = (simp append_assoc, refl, refl)

module _ (read : String → Option Frame) (dump : Frame → String) (journaled : String → Bool)
    (agent : String) where
  -- Each frame that is retained is in the list.
  pub AllIn : Delivery Frame → List String → Type 0
  AllIn d xs =
      (s : String) (p : ℕ) (frame : Frame)
      → lookup (s, p) d.retained ≡ some frame
      → contains (dump frame) xs ≡ true

  pub record IsCovered (h : Host) : Type 0 where
    pub sound : IsSound h.channel
    pub opened : h.delivery.store ≢ none
    pub since : List String
    pub sent_since : h.channel.wire ≡ h.before ++ since
    pub covered : h.channel.released ≡ some true → AllIn h.delivery (since ++ pending h.channel)

  AllIn-append : (d : Delivery Frame) (xs ys : List String) → AllIn d xs → AllIn d (xs ++ ys)
  unfolding AllIn
  AllIn-append d xs ys a s p frame h =
      ground (arith, a s p frame h, contains-append (dump frame) xs ys)

  AllIn-retained :
      (d : Delivery Frame) (xs : List String) → AllIn d (xs ++ map dump (retained_frames d))
  unfolding AllIn
  AllIn-retained d xs s p frame h = ground (
    arith,
    contains-append (dump frame) xs (map dump (retained_frames d)),
    contains-retained_frames dump (s, p) frame d h,
  )

  -- A step of the sender alone moves frames from what is pending to the wire.
  moves :
      (h : Host) (ch : Channel) (out : List String)
      → IsSound ch
      → ch.wire ≡ h.channel.wire ++ out
      → pending h.channel ≡ out ++ pending ch
      → ch.released ≡ h.channel.released
      → IsCovered h
      → IsCovered (record h { channel = ch })
  moves h ch out sound wire rest same c = record {
    sound = sound;
    opened = c.opened;
    since = c.since ++ out;
    sent_since = wire ∙ ap (λ w. w ++ out) c.sent_since ∙ append_assoc h.before c.since out;
    covered = λ r.
        subst (AllIn h.delivery)
          (ap (λ xs. c.since ++ xs) rest ∙ sym (append_assoc c.since out (pending ch)))
          (c.covered (sym same ∙ r));
  }

  Step-IsCovered : {h h' : Host} → Step read dump journaled agent h h' → IsCovered h → IsCovered h'
  unfolding AllIn
  Step-IsCovered (says text h) c =
      let asked = asend_lem text h.channel in
      record {
        sound = asend-IsSound text h.channel c.sound;
        opened = c.opened;
        since = c.since;
        sent_since = asked.1 ∙ c.sent_since;
        covered = λ r s p frame held.
            let before = c.covered (sym asked.2 ∙ r) s p frame held in
            rw (asked.0, ← append_assoc c.since (pending h.channel) (text ∷ []))
              (ground (
                arith,
                before,
                contains-append (dump frame) (c.since ++ pending h.channel) (text ∷ []),
              ));
      }
  Step-IsCovered (emits w o now session pos new h) c =
      let asked = asend_lem (dump new) h.channel in
      record {
        sound = asend-IsSound (dump new) h.channel c.sound;
        opened = (lookup-retain read dump agent w o now session pos new h.delivery "" 0 c.opened).1;
        since = c.since;
        sent_since = asked.1 ∙ c.sent_since;
        covered = λ r s p frame held.
            let before = c.covered (sym asked.2 ∙ r) s p frame in
            let now_held =
              lookup-retain read dump agent w o now session pos new h.delivery s p c.opened in
            rw (asked.0, ← append_assoc c.since (pending h.channel) (dump new ∷ []))
              (ground (
                arith,
                before,
                now_held.0,
                contains-append (dump frame) (c.since ++ pending h.channel) (dump new ∷ []),
                string_eq.beq_iff (dump new) (dump frame),
              ));
      }
  Step-IsCovered (acks w o current session pos h) c = record {
    sound = c.sound;
    opened =
        (lookup-journal_ack read dump agent w o current session pos h.delivery "" 0 c.opened).1;
    since = c.since;
    sent_since = c.sent_since;
    covered = λ r s p frame held.
        let left =
          lookup-journal_ack read dump agent w o current session pos h.delivery s p c.opened in
        ground (arith, left.0, c.covered r s p frame);
  }
  Step-IsCovered (connects h) c =
      let new = connect_lem h.channel in
      record {
        sound = start_sending-IsSound true h.channel c.sound;
        opened = c.opened;
        since = [];
        sent_since = new.1 ∙ sym (append-nil h.channel.wire);
        covered = λ r. absurd (cc (new.0, r));
      }
  Step-IsCovered (handles_init h held) c =
      let out = after_init_lem journaled dump h.delivery h.channel c.sound held in
      let waiting = keep (fresh journaled) (pending h.channel) in
      record {
        sound = after_init-IsSound journaled dump h.delivery h.channel c.sound;
        opened = c.opened;
        since = c.since;
        sent_since = out.1 ∙ c.sent_since;
        covered = λ r.
            subst (AllIn h.delivery)
              (append_assoc c.since waiting (map dump (retained_frames h.delivery))
                ∙ ap (λ xs. c.since ++ xs) (sym out.0))
              (AllIn-retained h.delivery (c.since ++ waiting));
      }
  Step-IsCovered (takes h) c =
      let t = take_frame_lem h.channel h.channel.send_queue c.sound refl in
      moves h (take_frame h.channel) []
        (take_frame-IsSound h.channel h.channel.send_queue refl c.sound)
        (t.1 ∙ sym (append-nil h.channel.wire)) (sym t.0) t.2 c
  Step-IsCovered (sends h) c =
      let t = frame_sent_lem h.channel in
      moves h (frame_sent h.channel) (option_list h.channel.in_flight)
        (frame_sent-IsSound h.channel c.sound) t.1 t.0 t.2 c
  Step-IsCovered (stops h) c =
      let t = stop_sending_lem h.channel c.sound in
      moves h (stop_sending h.channel) [] (stop_sending-IsSound h.channel c.sound)
        (t.1 ∙ sym (append-nil h.channel.wire)) (sym t.0) t.2 c

  pub Reach-IsCovered : {h : Host} → Reach read dump journaled agent h → IsCovered h
  Reach-IsCovered (starts opens file) = record {
    sound = entered-IsSound;
    opened = open_store-opened read dump agent opens _;
    since = [];
    sent_since = refl;
    covered = λ r. absurd (cc r);
  }
  Reach-IsCovered (then_ r s) = Step-IsCovered s (Reach-IsCovered r)

  -- In every state that an agent can reach, whichever writes of its store fail: once the live connection
  -- has handled its `Init`, each frame that is still retained was put on the wire since this connection
  -- started, or is among the frames that wait to be sent.
  pub retained_is_sent :
      {h : Host}
      → Reach read dump journaled agent h
      → h.channel.released ≡ some true
      → (s : String) (p : ℕ) (frame : Frame) → lookup (s, p) h.delivery.retained ≡ some frame
      → (since : List String) × (h.channel.wire ≡ h.before ++ since)
        × (contains (dump frame) (since ++ pending h.channel) ≡ true)
  unfolding AllIn
  retained_is_sent {h} r released s p frame held =
      let c = Reach-IsCovered r in (c.since, c.sent_since, c.covered released s p frame held)
